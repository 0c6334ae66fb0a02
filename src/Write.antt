-- ===== src/Write.antt =====
-- The commit of an object's data (rtdb/kogmo_rtdb_objdata.c): kogmo_rtdb_obj_writedata and the
-- pair writedata_ptr_begin and writedata_ptr_commit, which let the owner write in place.
-- Locks of single objects and of the change conditions are no-ops in a sequential run.
pub mod Errors
pub mod Refine
pub mod First
pub mod Books
use kogmo_rtdb.Base.{
  ℕ, ◌+◌, ◌-◌, ◌%◌, ℤ, pos, pos_part, is_neg, Bool, true, false, ◌&&◌, ◌||◌, not, ◌==◌, ltb,
  if◌then◌else◌, ◌++◌, take, drop, Option, none, some,
}
use kogmo_rtdb.Types.{
  LocalData, ObjInfo, Block, Handle, Result, ok, err, Err, TraceEvent, base_size,
}
use kogmo_rtdb.Floats.{FloatOps}
use kogmo_rtdb.Time.{timestamp_now, timestamp_diff_secs}
use kogmo_rtdb.Meta.{
  findmeta_byid, put_meta, obj_do_notify, obj_trace_send, may_write, min_cycletime,
}
use kogmo_rtdb.History.{slot_addr, histscan, no_scan}

-- What a call returns: its code, the caller's buffer, and the database.
pub record Written : Type 0 where
  pub code : Result (Unit {0})
  pub buffer : Block
  pub db : LocalData

-- The slot after the last one written; the first is slot 0.
unfoldable pub next_slot : ObjInfo → ℕ
next_slot m = if is_neg m.history_slot then 0 else (pos_part m.history_slot + 1) % m.history_size

-- The cycle watch: the last commit is younger than the minimal cycle time.
unfoldable pub too_fast : FloatOps → LocalData → ObjInfo → ℕ → Bool
too_fast fl db m committed_ts = m.flags.cycle_watch && elim (histscan db m (pos 0) no_scan).found [
  | none ↦ false
  | some b ↦
      fl.lt (fl.narrow (timestamp_diff_secs fl b.committed_ts committed_ts)) (min_cycletime fl m)
]

abbrev pub set_block : LocalData → ℕ → Block → LocalData
set_block db a b = record db { heap = λ x. if x == a then b else db.heap x }

-- memcpy of `size` bytes over an older object: bytes past the new object stay.
unfoldable pub copy_block : Block → Block → Block
copy_block new old = record new {
  payload = take (new.size - base_size) new.payload ++ drop (new.size - base_size) old.payload;
}

-- Step 3: never the time that the slot carried before, unless time is simulated.
unfoldable pub fresh_ts : LocalData → ℕ → Block → ℕ
fresh_ts db committed_ts old =
    if committed_ts == old.committed_ts && not db.simmode then committed_ts + 1 else committed_ts

-- Step 5b: an object with no data time gets the commit time.
unfoldable pub stamp_data_ts : ℕ → Block → Block
stamp_data_ts ts b = if b.data_ts == 0 then record b { data_ts = ts } else b

-- Steps 7 and 8: the slot becomes the latest, listeners are signalled, the trace is sent.
unfoldable pub publish : LocalData → ℕ → ObjInfo → ℕ → ℕ → LocalData
publish db i m slot ts =
    let db1 = put_meta db i (record m { history_slot = pos slot }) in
    let db2 = if m.flags.no_notifies || db.no_notifies then db1 else obj_do_notify db1 i in
    obj_trace_send db2 (record {
      oid = m.oid;
      ts = ts;
      event = TraceEvent.updated;
      obj_slot = i;
      hist_slot = pos slot;
    })

-- Steps 2 to 6: what stands in the slot once it is valid again.
unfoldable pub committed_block : Handle → ℕ → Block → Block → Block
unfolding copy_block stamp_data_ts
committed_block h ts data_p old =
    let b = copy_block (record data_p { committed_proc = h.proc_oid; committed_ts = 0 }) old in
    record (stamp_data_ts ts b) { committed_ts = ts }

unfoldable pub commit_block : Handle → LocalData → ℕ → ObjInfo → ℕ → Block → Written
unfolding committed_block copy_block stamp_data_ts
commit_block h db i m committed_ts data_p =
    let a = slot_addr m (next_slot m) in
    let ts = fresh_ts db committed_ts (db.heap a) in
    record {
      code = ok tt;
      buffer = record data_p { committed_proc = h.proc_oid; committed_ts = ts };
      db = publish (set_block db a (committed_block h ts data_p (db.heap a))) i m (next_slot m) ts;
    }

abbrev pub write_fails : LocalData → Block → Err → Written
write_fails db data_p e = record { code = err e; buffer = data_p; db = db }

-- kogmo_rtdb_obj_writedata, once the object is found.
unfoldable pub writedata_found : FloatOps → Handle → LocalData → ℕ → Block → ℕ → ObjInfo → Written
writedata_found fl h db committed_ts data_p i m =
    if m.buffer_idx == 0
    then write_fails db data_p Err.notfound
    else if ltb m.size_max data_p.size
    then write_fails db data_p Err.invalid
    else if ltb data_p.size base_size
    then write_fails db data_p Err.invalid
    else if not (may_write h m)
    then write_fails db data_p Err.noperm
    else if too_fast fl db m committed_ts
    then write_fails db (record data_p { committed_proc = h.proc_oid }) Err.toofast
    else commit_block h db i m committed_ts data_p

unfoldable pub writedata : FloatOps → Handle → LocalData → ℕ → ℕ → Block → Written
writedata fl h db now oid data_p = elim (findmeta_byid db oid) [
  | none ↦ write_fails db data_p Err.notfound
  | some (i, m) ↦ writedata_found fl h db (timestamp_now db now) data_p i m
]

-- Only the owner of an object that nobody else may write can write it in place.
abbrev pub is_private : Handle → ObjInfo → Bool
is_private h m = not m.flags.write_allow && m.created_proc == h.proc_oid

-- kogmo_rtdb_obj_writedata_ptr_begin: invalidates the next slot, and returns its heap index.
unfoldable pub writedata_ptr_begin : Handle → LocalData → ℕ → Result ℕ × LocalData
writedata_ptr_begin h db oid = elim (findmeta_byid db oid) [
  | none ↦ (err Err.notfound, db)
  | some (i, m) ↦
      if m.buffer_idx == 0
      then (err Err.notfound, db)
      else if not (is_private h m)
      then (err Err.invalid, db)
      else let a = slot_addr m (next_slot m) in
        (ok a, set_block db a (record (db.heap a) { committed_ts = 0 }))
]

-- The block in place, made valid.
unfoldable pub committed_in_place : Handle → ℕ → Block → Block
unfolding stamp_data_ts
committed_in_place h ts b = record (stamp_data_ts ts (record b { committed_proc = h.proc_oid })) {
  committed_ts = ts;
}

unfoldable pub ptr_commit_found :
    FloatOps → Handle → LocalData → ℕ → ℕ → ℕ → ObjInfo → Result (Unit {0}) × LocalData
ptr_commit_found fl h db committed_ts a i m =
    if m.buffer_idx == 0
    then (err Err.notfound, db)
    else if ltb m.size_max (db.heap a).size
    then (err Err.invalid, db)
    else if ltb (db.heap a).size base_size
    then (err Err.invalid, db)
    else if not (is_private h m)
    then (err Err.invalid, db)
    else if too_fast fl db m committed_ts
    then (err Err.toofast, db)
    else if not (a == slot_addr m (next_slot m))
    then (err Err.invalid, db)
    else (
      ok tt,
      publish (set_block db a (committed_in_place h committed_ts (db.heap a))) i m (next_slot m)
          committed_ts,
    )

-- kogmo_rtdb_obj_writedata_ptr_commit, on the heap index that `begin` returned.
unfoldable pub writedata_ptr_commit :
    FloatOps → Handle → LocalData → ℕ → ℕ → ℕ → Result (Unit {0}) × LocalData
writedata_ptr_commit fl h db now oid a = elim (findmeta_byid db oid) [
  | none ↦ (err Err.notfound, db)
  | some (i, m) ↦ ptr_commit_found fl h db (timestamp_now db now) a i m
]
