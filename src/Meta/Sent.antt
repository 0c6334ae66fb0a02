-- ===== src/Meta/Sent.antt =====
-- Sending a trace message leaves the objects and the clock as they are.
use kogmo_rtdb.Base.{ℕ, ◌≡◌, arith, Bool-cases, ◌==◌, inl, inr}
use kogmo_rtdb.Types.{LocalData, TraceMsg}
use kogmo_rtdb.Meta.{obj_trace_send}
use kogmo_rtdb.Time.{timestamp_now}

pub objmeta-trace : (db : LocalData) (msg : TraceMsg) → (obj_trace_send db msg).objmeta ≡ db.objmeta
unfolding obj_trace_send
objmeta-trace db msg = ground arith

pub timestamp_now-trace :
    (db : LocalData) (msg : TraceMsg) (now : ℕ)
    → timestamp_now (obj_trace_send db msg) now ≡ timestamp_now db now
unfolding obj_trace_send timestamp_now
timestamp_now-trace db msg now = elim (Bool-cases (db.rtdb_tracebufsize == 0)) [
  | inl none_sent ↦ rw none_sent
  | inr queue ↦ elim (Bool-cases (db.rtdb_trace == 0)) [
    | inl off ↦ rw (queue, off)
    | inr on ↦ rw (queue, on)
  ]
]

pub objmeta_oid_next-trace :
    (db : LocalData) (msg : TraceMsg)
    → (obj_trace_send db msg).objmeta_oid_next ≡ db.objmeta_oid_next
unfolding obj_trace_send
objmeta_oid_next-trace db msg = ground arith

pub heap-trace : (db : LocalData) (msg : TraceMsg) → (obj_trace_send db msg).heap ≡ db.heap
unfolding obj_trace_send
heap-trace db msg = ground arith

pub heap_size-trace :
    (db : LocalData) (msg : TraceMsg) → (obj_trace_send db msg).heap_size ≡ db.heap_size
unfolding obj_trace_send
heap_size-trace db msg = ground arith
