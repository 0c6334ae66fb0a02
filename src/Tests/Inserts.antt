-- ===== src/Tests/Inserts.antt =====
-- The theorems on insertions at concrete inputs.
use kogmo_rtdb.Base.{ℕ, ◌^◌, ◌≡◌, refl, arith, false, true, negsuc, [], ◌∷◌, some}
use kogmo_rtdb.Types.{LocalData, ObjInfo, ok, err, Err}
use kogmo_rtdb.Meta.{findmeta_byid, find_from, obj_trace_send, min_cycletime}
use kogmo_rtdb.Time.{timestamp_now, timestamp_add_secs}
use kogmo_rtdb.Memory.{mem_alloc, add_64}
use kogmo_rtdb.Memory.Balance.{IsBalanced}
use kogmo_rtdb.Search.{
  searchinfo, searchinfo_full, search_loop, search_end, hit, skips, name_matches, not_found,
  name_eq,
}
use kogmo_rtdb.Purge.{delete_ts}
use kogmo_rtdb.Insert.{
  insert, insert_at, find_place, find_new, find_free, find_slot, is_reusable, init_meta, ring_size,
  unsigned_ceil, enter, to_oid, has_clash, ring_bytes_of,
}
use kogmo_rtdb.Insert.Books.{insert-IsBalanced}
use kogmo_rtdb.Insert.Unique.{insert-unique}
use kogmo_rtdb.Insert.Found.{findmeta-insert, IsNext}
use kogmo_rtdb.Write.First.{IsClear}
use kogmo_rtdb.Insert.Clear.{insert-IsClear}
use kogmo_rtdb.Insert.Lost.{insert-lost, prepared}
use kogmo_rtdb.Tests.Data.{int_ops, owner, car}
use kogmo_rtdb.Tests.Shop.{
  shop_db, bike, bump, bump-IsSound, shop_db-IsBalanced, shop_db-HasIds, shop_db-IsNext,
}

-- A new object gets the next id.
inserted : (insert int_ops bump owner 9 shop_db (2 ^ 34) bike).code ≡ ok 6
unfolding insert insert_at find_place find_new find_free find_slot is_reusable init_meta ring_size
    unsigned_ceil enter to_oid has_clash findmeta_byid find_from obj_trace_send min_cycletime
    timestamp_now timestamp_add_secs mem_alloc searchinfo searchinfo_full search_loop search_end hit
    skips name_matches not_found name_eq delete_ts
inserted = refl

insert-IsBalanced_example : IsBalanced 0 (insert int_ops bump owner 9 shop_db (2 ^ 34) bike).db
insert-IsBalanced_example =
    insert-IsBalanced int_ops bump owner 9 shop_db (2 ^ 34) bike 6 0 bump-IsSound shop_db-IsBalanced
      inserted

findmeta-insert_example :
    let r = insert int_ops bump owner 9 shop_db (2 ^ 34) bike in
    (6 ≡ shop_db.objmeta_oid_next)
    × ((i : ℕ) × (findmeta_byid r.db 6 ≡ some (i, r.info)))
    × (r.info.history_slot ≡ negsuc 0)
    × (r.info.deleted_ts ≡ 0)
    × IsNext r.db
findmeta-insert_example =
    findmeta-insert int_ops bump owner 9 shop_db (2 ^ 34) bike 6 shop_db-IsNext (omega arith)
      inserted

insert-IsClear_example :
    let r = insert int_ops bump owner 9 shop_db (2 ^ 34) bike in IsClear r.db r.info
unfolding find_slot is_reusable init_meta ring_size unsigned_ceil min_cycletime timestamp_now
insert-IsClear_example =
    insert-IsClear int_ops bump owner 9 shop_db (2 ^ 34) bike 6 bump-IsSound refl (omega arith)
      (omega arith) inserted

-- A second object with the name and type of `car`.
abbrev twin : ObjInfo
twin = record bike { name = car.name; otype = 3 }

twin_inserted : (insert int_ops bump owner 9 shop_db (2 ^ 34) twin).code ≡ ok 6
unfolding insert insert_at find_place find_new find_free find_slot is_reusable init_meta ring_size
    unsigned_ceil enter to_oid has_clash findmeta_byid find_from obj_trace_send min_cycletime
    timestamp_now timestamp_add_secs mem_alloc searchinfo searchinfo_full search_loop search_end hit
    skips name_matches not_found name_eq delete_ts
twin_inserted = refl

insert-unique_example : (car.flags.unique ≡ false) × (twin.flags.unique ≡ false)
unfolding skips name_matches name_eq
insert-unique_example =
    insert-unique int_ops bump owner 9 shop_db (2 ^ 34) twin 6 0 car shop_db-HasIds twin_inserted
      refl refl refl

-- The same with `car` alone in the table.
abbrev full_db : LocalData
full_db = record shop_db { objmeta = car ∷ []; objmeta_free = 0 }

insert-lost_example :
    let r = insert int_ops bump owner 9 full_db (2 ^ 34) bike in
    (r.code ≡ err Err.outofobj)
    × (r.db.objmeta ≡ full_db.objmeta)
    × (r.db.locked ≡ true)
    × (r.db.heap_used
        ≡ add_64 full_db.heap_used
            (ring_bytes_of (prepared int_ops bump owner full_db (2 ^ 34) bike)))
unfolding find_slot is_reusable init_meta ring_size unsigned_ceil has_clash findmeta_byid find_from
    min_cycletime timestamp_now timestamp_add_secs searchinfo searchinfo_full search_loop search_end
    hit skips name_matches not_found name_eq delete_ts
insert-lost_example =
    insert-lost int_ops bump owner full_db (2 ^ 34) bike 9 94 98 (105 ∷ []) refl refl refl refl refl
      refl refl refl
