-- ===== src/Procs.antt =====
-- Dead processes: kogmo_rtdb_objmeta_purge_procs of rtdb/kogmo_rtdb_housekeeping.c, over the process
-- table of rtdb/kogmo_rtdb_ipc_posix.h.
pub mod Purged
use kogmo_rtdb.Base.{
  ℕ, suc, ◌+◌, ◌%◌, ◌/◌, Bool, true, false, ◌&&◌, not, ◌==◌, if◌then◌else◌, List, [], ◌∷◌, Option,
  none, some,
}
use kogmo_rtdb.Types.{LocalData, Handle, Result, ok, err, Name, objidlist_max}
use kogmo_rtdb.Memory.{inc_32}
use kogmo_rtdb.Search.{Query, IdList, NameTest, searchinfo_deleted}
use kogmo_rtdb.Remove.{ids, readinfo, delete_imm}

-- struct kogmo_rtdb_ipc_process_t
pub record Process : Type 0 where
  pub proc_oid : ℕ
  pub connected_ts : ℕ
  pub disconnected_ts : ℕ
  pub cycletime : ℕ
  pub pid : ℕ
  pub tid : ℕ
  pub flags : ℕ
  pub name : Name

-- struct kogmo_rtdb_ipc_shm_t without its locks, and the objects after it.
pub record Shm : Type 0 where
  pub revision : ℕ
  pub manager_pid : ℕ
  pub manager_alive_ts : ℕ
  pub proc_oid_next : ℕ
  pub data_size : ℕ
  pub proc : List Process
  pub proc_free : ℕ
  pub localdata : LocalData

-- A slot after memset.
abbrev pub empty_process : Process
empty_process = record {
  proc_oid = 0;
  connected_ts = 0;
  disconnected_ts = 0;
  cycletime = 0;
  pid = 0;
  tid = 0;
  flags = 0;
  name = [];
}

-- KOGMO_RTDB_CONNECT_FLAGS_IMMEDIATELYDELETE, bit 5
unfoldable pub immediately_delete : Process → Bool
immediately_delete p = (p.flags / 32) % 2 == 1

-- `dead pid` is the operating system's answer that there is no such process.
unfoldable pub is_dead : (ℕ → Bool) → Process → Bool
is_dead dead p = not (p.proc_oid == 0) && dead p.pid

-- A search for all objects of a process, deleted ones too.
abbrev pub owned_by : ℕ → Query
owned_by proc_oid = record {
  name = NameTest.any;
  otype = 0;
  parent_oid = 0;
  proc_oid = proc_oid;
  ts = 0;
  includedeleted = true;
}

-- The objects of a process, none if the search fails.
unfoldable pub objects_of : LocalData → IdList → ℕ → List ℕ
objects_of db stack proc_oid =
    let found = searchinfo_deleted db (owned_by proc_oid) (some stack) 0 in
    elim found.0 [
      | err e ↦ []
      | ok n ↦ elim found.1 [ none ↦ [] | some l ↦ ids (objidlist_max + 1) l 0 ]
    ]

-- Whether an object is kept: it is there and persistent.
unfoldable pub is_persistent : LocalData → ℕ → Bool
is_persistent db oid = elim (readinfo db oid 0) [ err e ↦ false | ok m ↦ m.flags.persistent ]

module _ (h : Handle) (now : ℕ) (stray : ℕ → ℕ) (stack : IdList) where
  -- The loop over the objects of a dead process; `f` is the fuel of each deletion.
  unfoldable pub delete_objects : ℕ → Bool → List ℕ → LocalData → Option LocalData
  delete_objects f imm [] db = some db
  delete_objects f imm (c ∷ cs) db =
      if is_persistent db c
      then delete_objects f imm cs db
      else elim (delete_imm h now stray stack f db c imm) [
        | none ↦ none
        | some r ↦ delete_objects f imm cs r.1
      ]

  -- The loop over the slots of processes.
  unfoldable pub purge_procs_loop :
      (ℕ → Bool) → ℕ → List Process → ℕ → LocalData → Option (List Process × ℕ × LocalData)
  purge_procs_loop dead f [] free db = some ([], free, db)
  purge_procs_loop dead f (p ∷ ps) free db = elim (is_dead dead p) [
    | false ↦ elim (purge_procs_loop dead f ps free db) [
      | none ↦ none
      | some r ↦ some (p ∷ r.0, r.1, r.2)
    ]
    | true ↦ elim (delete_objects f (immediately_delete p) (objects_of db stack p.proc_oid) db) [
      | none ↦ none
      | some db' ↦ elim (purge_procs_loop dead f ps (inc_32 free) db') [
        | none ↦ none
        | some r ↦ some (empty_process ∷ r.0, r.1, r.2)
      ]
    ]
  ]

  -- kogmo_rtdb_objmeta_purge_procs
  unfoldable pub purge_procs : (ℕ → Bool) → ℕ → Shm → Option Shm
  purge_procs dead f s = elim (purge_procs_loop dead f s.proc s.proc_free s.localdata) [
    | none ↦ none
    | some r ↦ some (record s { proc = r.0; proc_free = r.1; localdata = r.2 })
  ]
