-- ===== src/Tests/Deletes.antt =====
-- The theorems on deletions and purges at concrete inputs.
use kogmo_rtdb.Base.{◌⊎◌, length, get_elem?, ◌^◌, ◌≡◌, refl, arith, false, some, inl, inr, ap}
use kogmo_rtdb.Types.{LocalData, ObjInfo, Result, ok, err, Err}
use kogmo_rtdb.Meta.{findmeta_byid, find_from, obj_trace_send}
use kogmo_rtdb.Time.{timestamp_now}
use kogmo_rtdb.Memory.Balance.{IsBalanced}
use kogmo_rtdb.Search.{
  searchinfo, searchinfo_full, search_loop, search_end, hit, skips, name_matches, not_found,
}
use kogmo_rtdb.Remove.{delete_imm, delete_mark, delete_children, children, readinfo}
use kogmo_rtdb.Remove.Books.{delete_imm-IsBalanced}
use kogmo_rtdb.Remove.Fuel.{delete_imm-total}
use kogmo_rtdb.Remove.Gone.{readinfo-delete_imm}
use kogmo_rtdb.Purge.{purge_objs}
use kogmo_rtdb.Purge.Table.{IsDue, objmeta-purge_objs}
use kogmo_rtdb.Tests.Data.{int_ops, owner, car}
use kogmo_rtdb.Tests.Shop.{shop_db, shop_db-IsBalanced, shop_slots}

abbrev deleted : Result (Unit {0}) × LocalData
deleted = (ok tt, delete_mark owner (2 ^ 34) (λ x. 9) (λ i. 7) shop_db 0 car false)

-- The metadata of `car` after its deletion.
abbrev buried : ObjInfo
buried = record car { deleted_proc = owner.proc_oid; deleted_ts = 2 ^ 34 }

car_deleted : delete_imm owner (2 ^ 34) (λ x. 9) (λ i. 7) 2 shop_db 5 false ≡ some deleted
unfolding delete_imm delete_children children findmeta_byid find_from searchinfo searchinfo_full
    search_loop search_end hit skips name_matches not_found
car_deleted = refl

delete_imm-IsBalanced_example : IsBalanced 0 deleted.1
delete_imm-IsBalanced_example =
    delete_imm-IsBalanced owner (2 ^ 34) (λ x. 9) (λ i. 7) 0 2 shop_db 5 false deleted
      shop_db-IsBalanced (λ e. omega arith) car_deleted

delete_imm-total_example :
    (r : Result (Unit {0}) × LocalData) × (delete_imm owner
        (2 ^ 34)
        (λ x. 9)
        (λ i. 7)
        2
        shop_db
        5
        false
      ≡ some r)
unfolding timestamp_now
delete_imm-total_example =
    delete_imm-total owner (2 ^ 34) (λ x. 9) (λ i. 7) 2 shop_db 5 false (λ e. omega arith)
      (omega arith)

readinfo-delete_imm_example : readinfo deleted.1 5 (2 ^ 35) ≡ err Err.notfound
unfolding timestamp_now findmeta_byid find_from
readinfo-delete_imm_example =
    readinfo-delete_imm owner (2 ^ 34) (λ x. 9) (λ i. 7) 2 shop_db 5 0 (2 ^ 35) car false deleted
      (λ e. omega arith) (λ e. omega arith) refl
      (λ j x e p. elim (shop_slots j x e) [
        | inl (q, _) ↦ q
        | inr (_, q) ↦ let free : 0 ≡ x.oid = ap (λ z. z.oid) q in absurd (omega arith)
      ])
      car_deleted refl (inr (omega arith))

-- The slot of the deleted object, 17 seconds later.
objmeta-purge_objs_example :
    let ms = (purge_objs int_ops deleted.1 (2 ^ 35)).objmeta in
    (length ms ≡ length deleted.1.objmeta)
    × (IsDue int_ops deleted.1 (timestamp_now deleted.1 (2 ^ 35)) buried
          × (get_elem? ms 0 ≡ some (record buried { oid = 0 }))
        ⊎ (¬ IsDue int_ops deleted.1 (timestamp_now deleted.1 (2 ^ 35)) buried)
          × (get_elem? ms 0 ≡ some buried))
unfolding delete_mark obj_trace_send timestamp_now
objmeta-purge_objs_example = objmeta-purge_objs int_ops deleted.1 (2 ^ 35) 0 buried refl
