-- ===== src/Purge.antt =====
-- Housekeeping (rtdb/kogmo_rtdb_housekeeping.c): kogmo_rtdb_objmeta_purge_objs, which frees the slots
-- of objects that were deleted long enough ago.
pub mod Table
pub mod Books
pub mod HeapSize
use kogmo_rtdb.Base.{
  ℕ, zero, suc, ◌*◌, pos, Bool, ◌&&◌, ◌||◌, not, ◌==◌, ltb, if◌then◌else◌, length, get_elem?, none,
  some,
}
use kogmo_rtdb.Types.{LocalData, ObjInfo}
use kogmo_rtdb.Floats.{FloatOps}
use kogmo_rtdb.Time.{timestamp_now, timestamp_add_secs, timestamp_diff_secs}
use kogmo_rtdb.Meta.{objmeta_lock, objmeta_unlock, objmeta_unlock_notify}
use kogmo_rtdb.Remove.{purgeslot}

-- KOGMO_RTDB_PURGE_KEEPALLOC_PERCFREE and _MAXSECS, as they are without hard real-time.
abbrev purge_keepalloc_percfree : ℕ
purge_keepalloc_percfree = 20

abbrev purge_keepalloc_maxsecs : ℕ
purge_keepalloc_maxsecs = 10

-- When a deleted object's slot may be reused: after its history, or the default time if that is
-- longer.
unfoldable pub delete_ts : FloatOps → ℕ → ObjInfo → ℕ
delete_ts fl keep m =
    timestamp_add_secs fl m.deleted_ts
      (if fl.lt keep m.history_interval then m.history_interval else keep)

unfoldable pub percent_free : FloatOps → LocalData → ℕ
percent_free fl db =
    let free : ℕ = fl.narrow (fl.of_int (pos db.heap_free)) in
    let size : ℕ = fl.narrow (fl.of_int (pos db.heap_size)) in
    fl.to_int (fl.narrow (fl.div (fl.narrow (fl.mul free (fl.of_int (pos 100)))) size))

-- Memory that its owner wants to keep allocated stays, unless memory is short and it was kept for
-- some time.
unfoldable pub is_kept : FloatOps → ℕ → Bool → ℕ → ObjInfo → Bool
is_kept fl ts purge_keep_alloc scan_delete_ts m =
    m.flags.keep_alloc
    && (not purge_keep_alloc
        || fl.lt (timestamp_diff_secs fl scan_delete_ts ts)
            (fl.of_int (pos purge_keepalloc_maxsecs)))

-- `keep` is the default time that deleted objects are kept.
unfoldable pub is_due : FloatOps → ℕ → ℕ → Bool → ObjInfo → Bool
is_due fl keep ts purge_keep_alloc m =
    not (m.oid == 0)
    && not (m.deleted_ts == 0)
    && ltb (delete_ts fl keep m) ts
    && not (is_kept fl ts purge_keep_alloc (delete_ts fl keep m) m)

-- One round of the loop; the lock is given up for a moment after a purge.
unfoldable pub purge_step : FloatOps → ℕ → Bool → LocalData → ℕ → ObjInfo → LocalData
purge_step fl ts purge_keep_alloc db i m =
    if is_due fl db.default_keep_deleted_interval ts purge_keep_alloc m
    then objmeta_lock (objmeta_unlock_notify (purgeslot db i m))
    else db

-- The loop over `n` slots from slot `i` on.
unfoldable pub purge_loop : FloatOps → ℕ → Bool → ℕ → ℕ → LocalData → LocalData
purge_loop fl ts purge_keep_alloc zero i db = db
purge_loop fl ts purge_keep_alloc (suc n) i db = elim (get_elem? db.objmeta i) [
  | none ↦ db
  | some m ↦ purge_loop fl ts purge_keep_alloc n (suc i) (purge_step fl ts purge_keep_alloc db i m)
]

-- kogmo_rtdb_objmeta_purge_objs
unfoldable pub purge_objs : FloatOps → LocalData → ℕ → LocalData
purge_objs fl db now =
    let purge_keep_alloc = ltb (percent_free fl db) purge_keepalloc_percfree in
    objmeta_unlock (
      purge_loop fl (timestamp_now db now) purge_keep_alloc (length db.objmeta) 0 (objmeta_lock db))
