-- ===== src/Meta.antt =====
-- What the operations on objects share: the search for a slot by id (rtdb/kogmo_rtdb_helpers.c), the
-- lock of the metadata and the change signals (rtdb/kogmo_rtdb_proc_obj_notify.h), the trace queue
-- (rtdb/kogmo_rtdb_trace.c), and the permission checks.
pub mod Find
pub mod Sent
use kogmo_rtdb.Base.{
  ℕ, suc, ℤ, Bool, true, false, ◌&&◌, ◌||◌, not, ◌==◌, if◌then◌else◌, List, [], ◌∷◌, Option, none,
  some, set, ltb,
}
use kogmo_rtdb.Types.{LocalData, ObjInfo, Handle, TraceMsg, TraceEvent}
use kogmo_rtdb.Floats.{FloatOps}

-- kogmo_rtdb_obj_findmeta_byid: the first slot whose id is `oid`, and what it holds.
unfoldable pub find_from : List ObjInfo → ℕ → ℕ → Option (ℕ × ObjInfo)
find_from [] i oid = none
find_from (m ∷ ms) i oid = if m.oid == oid then some (i, m) else find_from ms (suc i) oid

unfoldable pub findmeta_byid : LocalData → ℕ → Option (ℕ × ObjInfo)
findmeta_byid db oid = find_from db.objmeta 0 oid

-- A write through a pointer into `objmeta[]`.
abbrev pub put_meta : LocalData → ℕ → ObjInfo → LocalData
put_meta db i m = record db { objmeta = set db.objmeta i m }

abbrev pub objmeta_lock : LocalData → LocalData
objmeta_lock db = record db { locked = true }

abbrev pub objmeta_unlock : LocalData → LocalData
objmeta_unlock db = record db { locked = false }

-- kogmo_rtdb_objmeta_unlock_notify
abbrev pub objmeta_unlock_notify : LocalData → LocalData
objmeta_unlock_notify db = record db { meta_signals = suc db.meta_signals; locked = false }

-- kogmo_rtdb_obj_do_notify on the object in slot `i`.
abbrev pub obj_do_notify : LocalData → ℕ → LocalData
obj_do_notify db i = record db { signals = i ∷ db.signals }

-- kogmo_rtdb_obj_trace_send. The queue takes the message; a queue that is full blocks or drops it
-- there, which is the queue's matter.
unfoldable pub obj_trace_send : LocalData → TraceMsg → LocalData
obj_trace_send db msg =
    if db.rtdb_tracebufsize == 0
    then db
    else if db.rtdb_trace == 0
    then db
    else record db { messages = msg ∷ db.messages }

-- The owner, an administrator, or anybody if the object allows it.
abbrev pub may_write : Handle → ObjInfo → Bool
may_write h m = m.flags.write_allow || (m.created_proc == h.proc_oid) || h.is_admin

abbrev pub may_read : Handle → ObjInfo → Bool
may_read h m = not m.flags.read_deny || (m.created_proc == h.proc_oid) || h.is_admin

-- MIN_CYCLETIME and MAX_CYCLETIME of an object's two cycle times.
unfoldable pub min_cycletime : FloatOps → ObjInfo → ℕ
min_cycletime fl m =
    if fl.lt m.min_cycletime m.max_cycletime then m.min_cycletime else m.max_cycletime

unfoldable pub max_cycletime : FloatOps → ObjInfo → ℕ
max_cycletime fl m =
    if fl.lt m.min_cycletime m.max_cycletime then m.max_cycletime else m.min_cycletime
