-- ===== src/Connect.antt =====
-- Setting the database up and leaving it (rtdb/kogmo_rtdb_obj_local.c): kogmo_rtdb_obj_local_init and
-- kogmo_rtdb_disconnect; Open has kogmo_rtdb_connect. The signals that the manager sends to the other
-- processes, the trace queue and the destruction of locks and memory are system calls and left out.
pub mod Init
pub mod Slots
pub mod Leave
pub mod Open
use kogmo_rtdb.Base.{
  ℕ, pos, Bool, true, false, not, ◌==◌, if◌then◌else◌, List, [], Option, none, some, replicate,
}
use kogmo_rtdb.Types.{LocalData, Handle, Result, ok, err}
use kogmo_rtdb.Floats.{FloatOps}
use kogmo_rtdb.Memory.{Allocator, mem_alloc, mem_init, zero_block}
use kogmo_rtdb.Insert.{zero_info}
use kogmo_rtdb.Search.{IdList, searchinfo_deleted}
use kogmo_rtdb.Remove.{delete_imm}
use kogmo_rtdb.Procs.{Process, Shm, immediately_delete, owned_by, objects_of, delete_objects}
use kogmo_rtdb.ProcTable.{disconnect}

-- KOGMO_RTDB_OBJ_MAX
abbrev pub obj_max : ℕ
obj_max = 1000

-- struct kogmo_rtdb_obj_local_t after memset.
abbrev pub zero_local : LocalData
zero_local = record {
  objmeta_oid_next = 0;
  objmeta = replicate obj_max zero_info;
  objmeta_free = 0;
  locked = false;
  rtdb_trace = 0;
  rtdb_tracebufsize = 0;
  simmode = false;
  no_notifies = false;
  sim_ts = 0;
  default_history_interval = 0;
  default_keep_deleted_interval = 0;
  heap_size = 0;
  heap_free = 0;
  heap_used = 0;
  heap = λ a. zero_block;
  pool = [];
  meta_signals = 0;
  signals = [];
  messages = [];
}

-- The memory of a new manager before kogmo_rtdb_obj_local_init.
abbrev pub booted : Bool → Bool → ℕ → LocalData
booted simmode no_notifies bufsize = record zero_local {
  simmode = simmode;
  no_notifies = no_notifies;
  rtdb_trace = 0;
  rtdb_tracebufsize = bufsize;
}

-- kogmo_rtdb_obj_local_init. The defaults are 10.0 and 0.25; nothing reads that of the cycle time.
unfoldable pub local_init : FloatOps → Allocator → LocalData → ℕ → LocalData
local_init fl al db heap_size =
    let db' : LocalData = record db {
      objmeta_oid_next = 1;
      default_history_interval = fl.narrow (fl.of_int (pos 10));
      default_keep_deleted_interval = fl.narrow (fl.div (fl.of_int (pos 1)) (fl.of_int (pos 4)));
      heap_size = heap_size;
      objmeta_free = obj_max;
    } in
    (mem_alloc al (mem_init db') 2).1

-- What a process keeps of its connection: the part of its handle that the operations on objects read,
-- the id of its process object, its entry in the table, whether it receives traces, and whether the
-- shared memory is mapped.
pub record Session : Type 0 where
  pub handle : Handle
  pub procobjmeta_oid : ℕ
  pub this_process : Process
  pub rxtracing : Bool
  pub attached : Bool

-- The search that kogmo_rtdb_disconnect does for the objects of the process.
unfoldable pub own_objects : LocalData → IdList → ℕ → Result (List ℕ)
own_objects db stack proc_oid = elim (searchinfo_deleted db (owned_by proc_oid) (some stack) 0).0 [
  | err e ↦ err e
  | ok n ↦ ok (objects_of db stack proc_oid)
]

-- `if ( db_h->ipc_h.rxtracefd ) db_h->localdata_p->rtdb_trace = 0`
abbrev pub trace_off : Session → LocalData → LocalData
trace_off c db = if c.rxtracing then record db { rtdb_trace = 0 } else db

-- What a call returns: its code, the shared memory, and the session.
pub record Left : Type 0 where
  pub code : Result (Unit {0})
  pub shm : Shm
  pub session : Session

-- kogmo_rtdb_ipc_disconnect, which does nothing a second time.
unfoldable pub detach : Shm → Session → Left
detach s c =
    if c.attached
    then record {
      code = ok tt;
      shm = disconnect s c.this_process;
      session = record c { attached = false };
    }
    else record { code = ok tt; shm = s; session = c }

module _ (now : ℕ) (stray : ℕ → ℕ) (stack : IdList) where
  -- kogmo_rtdb_disconnect; `f` is the fuel of each deletion.
  unfoldable pub rtdb_disconnect : ℕ → Shm → Session → Option Left
  rtdb_disconnect f s c =
      let imm = immediately_delete c.this_process in
      if c.procobjmeta_oid == 0
      then some (detach s c)
      else elim (own_objects s.localdata stack c.handle.proc_oid) [
        | err e ↦ some (record { code = err e; shm = s; session = c })
        | ok cs ↦ elim (delete_objects c.handle now stray stack f imm cs s.localdata) [
          | none ↦ none
          | some db ↦ elim (delete_imm c.handle now stray stack f db c.procobjmeta_oid imm) [
            | none ↦ none
            | some r ↦ some (
                detach (record s { localdata = trace_off c r.1 })
                  (record c { procobjmeta_oid = 0 }))
          ]
        ]
      ]
