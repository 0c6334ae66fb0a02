-- ===== src/System/Shared.antt =====
-- The whole shared memory over its life: the table of processes and the objects together. The manager
-- starts it; then processes join, work on the objects, leave, and are removed when they died
-- (rtdb/kogmo_rtdb_obj_local.c, rtdb/kogmo_rtdb_ipc_posix.c, rtdb/kogmo_rtdb_housekeeping.c).
use kogmo_rtdb.Base.{ℕ, ◌^◌, ◌<◌, ◌≡◌, Bool, false, some}
use kogmo_rtdb.Types.{LocalData, Handle, ok}
use kogmo_rtdb.Floats.{FloatOps}
use kogmo_rtdb.Memory.{Allocator}
use kogmo_rtdb.Search.{IdList}
use kogmo_rtdb.Procs.{Process, Shm, purge_procs}
use kogmo_rtdb.ProcTable.{init_shm, connect, manager_bit, has_flag}
use kogmo_rtdb.Connect.{Session, Left, booted, rtdb_disconnect}
use kogmo_rtdb.Connect.Open.{ConnectInfo, open_process, connect_manager}
use kogmo_rtdb.System.{Step}

module _ (fl : FloatOps) (al : Allocator) (refusals : Bool) where
  -- `joins`: kogmo_rtdb_connect of a client that succeeds; fewer than 2 ^ 31 processes have been there.
  -- `leaves`: kogmo_rtdb_disconnect of a client, whatever it answers. `buries`:
  -- kogmo_rtdb_objmeta_purge_procs.
  pub data SharedStep (s : Shm) : Shm → Type 0 where
    joins :
        (p : Process) (h : Handle) (stray : ℕ) (clock : ℕ → ℕ) (c : ConnectInfo) (oid procoid : ℕ)
        → s.proc_oid_next < 2 ^ 31
        → (connect s p).0 ≡ ok oid
        → (open_process fl al stray clock c (record h { proc_oid = oid }) s.localdata).0
          ≡ ok procoid
        → SharedStep s (record (connect s p).1 {
          localdata =
              (open_process fl al stray clock c (record h { proc_oid = oid }) s.localdata).1;
        })
    works :
        (db' : LocalData)
        → Step fl al refusals s.localdata db'
        → SharedStep s (record s { localdata = db' })
    leaves :
        (now : ℕ) (stray : ℕ → ℕ) (stack : IdList) (f : ℕ) (c : Session) (l : Left)
        → has_flag c.this_process.flags manager_bit ≡ false
        → rtdb_disconnect now stray stack f s c ≡ some l
        → SharedStep s l.shm
    buries :
        (h : Handle) (now : ℕ) (stray : ℕ → ℕ) (stack : IdList) (dead : ℕ → Bool) (f : ℕ) (s' : Shm)
        → purge_procs h now stray stack dead f s ≡ some s'
        → SharedStep s s'

  -- What can come of a manager that sets the memory up with a heap of `heap_size` bytes.
  pub data SharedReach (heap_size : ℕ) : Shm → Type 0 where
    boots :
        (revision pid data_size : ℕ) (h : Handle) (stray : ℕ) (clock : ℕ → ℕ) (c : ConnectInfo)
        (simmode no_notifies : Bool) (bufsize procoid : ℕ)
        → (connect_manager fl al stray clock c h (booted simmode no_notifies bufsize) heap_size).0
          ≡ ok procoid
        → SharedReach heap_size (
            init_shm revision pid data_size
              (connect_manager fl al stray clock c h
                (booted simmode no_notifies bufsize)
                heap_size).1)
    lives : {s s' : Shm} → SharedReach heap_size s → SharedStep s s' → SharedReach heap_size s'
