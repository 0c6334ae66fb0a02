-- ===== src/Purge/HeapSize.antt =====
-- A purge leaves the size of the heap as it is.
use kogmo_rtdb.Base.{
  ℕ, zero, suc, ◌≡◌, refl, ◌∙◌, Bool, get_elem?, inl, inr, Bool-cases, Option-cases, ltb, length,
}
use kogmo_rtdb.Types.{LocalData, ObjInfo}
use kogmo_rtdb.Floats.{FloatOps}
use kogmo_rtdb.Time.{timestamp_now}
use kogmo_rtdb.Meta.{objmeta_lock}
use kogmo_rtdb.Remove.HeapSize.{heap_size-purgeslot}
use kogmo_rtdb.Purge.{is_due, purge_step, purge_loop, purge_objs, percent_free}

module _ (fl : FloatOps) (ts : ℕ) (purge_keep_alloc : Bool) where
  heap_size-purge_step :
      (db : LocalData) (i : ℕ) (m : ObjInfo)
      → (purge_step fl ts purge_keep_alloc db i m).heap_size ≡ db.heap_size
  unfolding purge_step
  heap_size-purge_step db i m =
      elim (Bool-cases (is_due fl db.default_keep_deleted_interval ts purge_keep_alloc m)) [
        | inl due ↦ rw due (heap_size-purgeslot db i m)
        | inr stays ↦ rw stays refl
      ]

  heap_size-purge_loop :
      (n i : ℕ) (db : LocalData)
      → (purge_loop fl ts purge_keep_alloc n i db).heap_size ≡ db.heap_size
  unfolding purge_loop
  heap_size-purge_loop zero i db = refl
  heap_size-purge_loop (suc n) i db = elim (Option-cases (get_elem? db.objmeta i)) [
    | inl end ↦ rw (end, purge_loop) refl
    | inr (m, e) ↦
        rw (e, purge_loop) (heap_size-purge_loop n (suc i) _ ∙ heap_size-purge_step db i m)
  ]

pub heap_size-purge_objs :
    (fl : FloatOps) (db : LocalData) (now : ℕ) → (purge_objs fl db now).heap_size ≡ db.heap_size
unfolding purge_objs
heap_size-purge_objs fl db now =
    heap_size-purge_loop fl (timestamp_now db now) (ltb (percent_free fl db) 20) (length db.objmeta)
      0 (objmeta_lock db)
