-- ===== src/Procs/Purged.antt =====
-- What is left after dead processes are purged.
use kogmo_rtdb.Base.{
  ℕ, suc, ◌+◌, ◌^◌, ◌≤◌, ◌<◌, ◌≡◌, ◌≢◌, refl, ap, arith, Bool, if◌then◌else◌, List, [], ◌∷◌, map,
  length, Option, some, none, inl, inr, Bool-cases,
}
use native.Mathlib.Nat.{mod-eq_of_lt}
use kogmo_rtdb.Types.{LocalData, Handle, Result, ok, err, objidlist_max}
use kogmo_rtdb.Time.{timestamp_now}
use kogmo_rtdb.Search.{IdList, searchinfo_deleted}
use kogmo_rtdb.Memory.{inc_32}
use kogmo_rtdb.Memory.Balance.{IsBalanced}
use kogmo_rtdb.Remove.{ids}
use kogmo_rtdb.Remove.Cases.{AllIds, ids-AllIds}
use kogmo_rtdb.Remove.Books.{delete_imm-IsBalanced}
use kogmo_rtdb.Remove.Total.{living, Within}
use kogmo_rtdb.Remove.Fuel.{delete_imm-Within}
use kogmo_rtdb.Procs.{
  Process, Shm, empty_process, is_dead, is_persistent, immediately_delete, objects_of,
  delete_objects, purge_procs_loop, purge_procs,
}

-- The slots of dead processes, which are given up.
abbrev pub dead_slots : (ℕ → Bool) → List Process → ℕ
dead_slots dead [] = 0
dead_slots dead (p ∷ ps) = (if is_dead dead p then 1 else 0) + dead_slots dead ps

abbrev pub buried : (ℕ → Bool) → Process → Process
buried dead p = if is_dead dead p then empty_process else p

pub objects_of-AllIds : (db : LocalData) (stack : IdList) (p : ℕ) → AllIds (objects_of db stack p)
unfolding objects_of
objects_of-AllIds db stack p = listed (searchinfo_deleted db _ (some stack) 0)
  where
    listed :
        (found : Result ℕ × Option IdList)
        → AllIds (elim found.0 [
          | err e ↦ []
          | ok n ↦ elim found.1 [ none ↦ [] | some l ↦ ids (objidlist_max + 1) l 0 ]
        ])
    listed (err e, l) = tt
    listed (ok n, none) = tt
    listed (ok n, some l) = ids-AllIds (objidlist_max + 1) l 0

module _ (h : Handle) (now : ℕ) (stray : ℕ → ℕ) (stack : IdList) (extra f : ℕ) where
  abbrev pub Kept : LocalData → Type 0
  Kept d = Within h now stray stack f d × IsBalanced extra d

  pub delete_objects-Kept :
      (imm : Bool) (cs : List ℕ) (db : LocalData)
      → AllIds cs
      → Kept db
      → (d : LocalData) × (delete_objects h now stray stack (suc f) imm cs db ≡ some d) × Kept d
  unfolding delete_objects
  delete_objects-Kept imm [] db all k = (db, refl, k)
  delete_objects-Kept imm (c ∷ cs) db all k = elim (Bool-cases (is_persistent db c)) [
    | inl stays ↦
        let (d, done, k') = delete_objects-Kept imm cs db all.1 k in
        (d, rw (stays, delete_objects) done, k')
    | inr goes ↦
        let (r, deleted, w) = delete_imm-Within h now stray stack f db c imm k.0 in
        let b =
          delete_imm-IsBalanced h now stray stack extra (suc f) db c imm r k.1 all.0 deleted in
        let (d, done, k') = delete_objects-Kept imm cs r.1 all.1 (w, b) in
        (d, rw (goes, deleted, delete_objects) done, k')
  ]

  inc_32_lem : (n : ℕ) → n + 1 < 2 ^ 32 → inc_32 n ≡ n + 1
  inc_32_lem n h = mod-eq_of_lt h

  none_more : (a b : ℕ) → a + b ≡ a + (0 + b)
  none_more a b = omega arith

  one_more : (a b : ℕ) → a + 1 + b ≡ a + (1 + b)
  one_more a b = omega arith

  room : (a b : ℕ) → a + suc b < 2 ^ 32 → a + 1 + b < 2 ^ 32
  room a b h = omega arith

  purge_procs_loop_lem :
      (dead : ℕ → Bool) (ps : List Process) (free : ℕ) (db : LocalData)
      → Kept db
      → free + length ps < 2 ^ 32
      → (d : LocalData) × (purge_procs_loop h now stray stack dead (suc f) ps free db
          ≡ some (map (buried dead) ps, free + dead_slots dead ps, d))
        × Kept d
  unfolding purge_procs_loop
  purge_procs_loop_lem dead [] free db k small = (db, ground arith, k)
  purge_procs_loop_lem dead (p ∷ ps) free db k small = elim (Bool-cases (is_dead dead p)) [
    | inr lives ↦
        let (d, done, k') = purge_procs_loop_lem dead ps free db k (omega arith) in
        (
          d,
          rw (lives, done, purge_procs_loop)
              (ap (λ z. some (p ∷ map (buried dead) ps, z, d))
                (none_more free (dead_slots dead ps))),
          k',
        )
    | inl gone ↦
        let (db', emptied, k1) =
          delete_objects-Kept (immediately_delete p) (objects_of db stack p.proc_oid) db
            (objects_of-AllIds db stack p.proc_oid) k in
        let counted : inc_32 free ≡ free + 1 = inc_32_lem free (omega arith) in
        let (d, done, k') =
          purge_procs_loop_lem dead ps (free + 1) db' k1 (room free (length ps) small) in
        (
          d,
          rw (gone, emptied, counted, done, purge_procs_loop)
              (ap (λ z. some (empty_process ∷ map (buried dead) ps, z, d))
                (one_more free (dead_slots dead ps))),
          k',
        )
  ]

  -- Purging dead processes ends, if the fuel of a deletion exceeds the number of objects that are not
  -- deleted and the clock has left 0. It empties the slots of all dead processes and of no other,
  -- counts them as free, and keeps the books of slots and memory, whatever objects go.
  pub purge_procs_lem :
      (dead : ℕ → Bool) (s : Shm)
      → IsBalanced extra s.localdata
      → timestamp_now s.localdata now ≢ 0
      → living s.localdata.objmeta ≤ f
      → s.proc_free + length s.proc < 2 ^ 32
      → (s' : Shm) × (purge_procs h now stray stack dead (suc f) s ≡ some s')
        × (s'.proc ≡ map (λ p. if is_dead dead p then empty_process else p) s.proc)
        × (s'.proc_free ≡ s.proc_free + dead_slots dead s.proc)
        × IsBalanced extra s'.localdata
  unfolding purge_procs
  purge_procs_lem dead s b timed le small =
      let (d, done, k) =
        purge_procs_loop_lem dead s.proc s.proc_free s.localdata ((timed, le), b) small in
      (
        record s {
          proc = map (buried dead) s.proc;
          proc_free = s.proc_free + dead_slots dead s.proc;
          localdata = d;
        },
        rw (done, purge_procs) refl,
        refl,
        refl,
        k.1,
      )
