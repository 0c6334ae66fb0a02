-- ===== src/Purge/Books.antt =====
-- The purge keeps the books.
use kogmo_rtdb.Base.{
  ℕ, zero, suc, ◌≡◌, arith, Bool, some, get_elem?, inl, inr, Bool-cases, Option-cases, ltb, length,
}
use kogmo_rtdb.Types.{LocalData, ObjInfo}
use kogmo_rtdb.Floats.{FloatOps}
use kogmo_rtdb.Time.{timestamp_now}
use kogmo_rtdb.Meta.{objmeta_lock}
use kogmo_rtdb.Memory.Balance.{IsBalanced}
use kogmo_rtdb.Remove.Books.{purgeslot-IsBalanced}
use kogmo_rtdb.Purge.{is_due, purge_step, purge_loop, purge_objs, percent_free}

module _ (fl : FloatOps) (ts : ℕ) (purge_keep_alloc : Bool) (extra : ℕ) where
  purge_step-IsBalanced :
      (db : LocalData) (i : ℕ) (m : ObjInfo)
      → IsBalanced extra db
      → get_elem? db.objmeta i ≡ some m
      → IsBalanced extra (purge_step fl ts purge_keep_alloc db i m)
  unfolding purge_step is_due
  purge_step-IsBalanced db i m b e =
      elim (Bool-cases (is_due fl db.default_keep_deleted_interval ts purge_keep_alloc m)) [
        | inl due ↦ rw due (purgeslot-IsBalanced extra db i m b e (ground arith))
        | inr stays ↦ rw stays b
      ]

  purge_loop-IsBalanced :
      (n i : ℕ) (db : LocalData)
      → IsBalanced extra db
      → IsBalanced extra (purge_loop fl ts purge_keep_alloc n i db)
  unfolding purge_loop
  purge_loop-IsBalanced zero i db b = b
  purge_loop-IsBalanced (suc n) i db b = elim (Option-cases (get_elem? db.objmeta i)) [
    | inl end ↦ rw (end, purge_loop) b
    | inr (m, e) ↦
        rw (e, purge_loop) (purge_loop-IsBalanced n (suc i) _ (purge_step-IsBalanced db i m b e))
  ]

-- A purge keeps the books: the counters of free slots and of memory agree with the table, and the
-- allocator's blocks with the rings of the objects.
pub purge_objs-IsBalanced :
    (fl : FloatOps) (extra : ℕ) (db : LocalData) (now : ℕ)
    → IsBalanced extra db
    → IsBalanced extra (purge_objs fl db now)
unfolding purge_objs
purge_objs-IsBalanced fl extra db now b =
    purge_loop-IsBalanced fl (timestamp_now db now) (ltb (percent_free fl db) 20) extra
      (length db.objmeta) 0 (objmeta_lock db) b
