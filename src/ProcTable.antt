-- ===== src/ProcTable.antt =====
-- Connecting to and leaving the process table (rtdb/kogmo_rtdb_ipc_posix.c): what
-- kogmo_rtdb_ipc_connect and kogmo_rtdb_ipc_disconnect do in the shared memory. Opening and mapping
-- the memory, signal handlers and scheduling are left out; a failure that ends the program is an error.
pub mod Slots
pub mod Sessions
use kogmo_rtdb.Base.{
  ℕ, suc, ◌+◌, ◌-◌, ◌%◌, ◌/◌, ◌^◌, Bool, true, false, not, ◌==◌, if◌then◌else◌, List, [], ◌∷◌,
  Option, none, some, set, take, replicate,
}
use kogmo_rtdb.Types.{LocalData, Result, ok, err, Err, Name, name_maxlen}
use kogmo_rtdb.Memory.{inc_32, dec_32}
use kogmo_rtdb.Procs.{Process, Shm, empty_process}

-- KOGMO_RTDB_PROC_MAX
abbrev pub proc_max : ℕ
proc_max = 100

-- KOGMO_RTDB_CONNECT_FLAGS_SPECTATOR, _REALTIME and _MANAGER, by their bits.
abbrev pub spectator_bit : ℕ
spectator_bit = 1

abbrev pub realtime_bit : ℕ
realtime_bit = 8

abbrev pub manager_bit : ℕ
manager_bit = 12

abbrev pub has_flag : ℕ → ℕ → Bool
has_flag flags bit = (flags / 2 ^ bit) % 2 == 1

abbrev pub clear_flag : ℕ → ℕ → ℕ
clear_flag flags bit = if has_flag flags bit then flags - 2 ^ bit else flags

-- The caller's own entry. A spectator is neither manager nor real-time.
unfoldable pub this_process : Name → ℕ → ℕ → ℕ → ℕ → ℕ → Process
this_process procname cycletime flags pid tid now = record {
  proc_oid = 0;
  connected_ts = now;
  disconnected_ts = 0;
  cycletime = cycletime;
  pid = pid;
  tid = tid;
  flags =
      if has_flag flags spectator_bit
      then clear_flag (clear_flag flags manager_bit) realtime_bit
      else flags;
  name = take (name_maxlen - 1) procname;
}

-- What the manager makes of the new memory; it has id 1 and no slot.
unfoldable pub init_shm : ℕ → ℕ → ℕ → LocalData → Shm
init_shm revision pid data_size cleared = record {
  revision = revision;
  manager_pid = pid;
  manager_alive_ts = 0;
  proc_oid_next = 2;
  data_size = data_size;
  proc = replicate proc_max empty_process;
  proc_free = proc_max;
  localdata = cleared;
}

-- The first free slot, as the loop finds it from slot `i` on.
unfoldable pub find_slot : List Process → ℕ → Option ℕ
find_slot [] i = none
find_slot (p ∷ ps) i = if p.proc_oid == 0 then some i else find_slot ps (suc i)

-- kogmo_rtdb_ipc_connect of a process that is not the manager: its id, and the memory.
unfoldable pub connect : Shm → Process → Result ℕ × Shm
connect s p = elim (find_slot s.proc 0) [
  | none ↦ (err Err.outofobj, s)
  | some i ↦
      let oid = s.proc_oid_next % 2 ^ 32 in
      (
        ok oid,
        record s {
          proc_oid_next = (s.proc_oid_next + 1) % 2 ^ 64;
          proc_free = dec_32 s.proc_free;
          proc = set s.proc i (record p { proc_oid = oid });
        },
      )
]

-- The loop of kogmo_rtdb_ipc_disconnect, which does not stop at the first slot.
unfoldable pub free_slots : ℕ → List Process → ℕ → List Process × ℕ
free_slots oid [] free = ([], free)
free_slots oid (p ∷ ps) free =
    let hit = p.proc_oid == oid in
    let rest = free_slots oid ps (if hit then inc_32 free else free) in
    ((if hit then empty_process else p) ∷ rest.0, rest.1)

-- kogmo_rtdb_ipc_disconnect
unfoldable pub disconnect : Shm → Process → Shm
disconnect s p =
    let r = free_slots p.proc_oid s.proc s.proc_free in
    if has_flag p.flags manager_bit
    then s
    else if p.proc_oid == 0
    then s
    else record s { proc = r.0; proc_free = r.1 }
