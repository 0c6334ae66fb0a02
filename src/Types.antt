-- ===== src/Types.antt =====
-- The data model: include/kogmo_rtdb_types.h, include/kogmo_rtdb_obj_base.h and
-- rtdb/kogmo_rtdb_obj_local.h. Ids, sizes and timestamps are numbers, a `float` is the number of its
-- bit pattern (the operations on it are those of `Floats.FloatOps`), a pointer into `objmeta[]` is
-- the number of its slot, and a negative return value is the `err` of a `Result`.
use kogmo_rtdb.Base.{ℕ, ℤ, Bool, List}

-- The KOGMO_RTDB_ERR_ codes that the modelled functions return.
pub data Err : Type 0 where
  noconn notfound invalid noperm nomemory outofobj notuniq toofast histwrap timeout : Err

pub data Result {ℓ} (A : Type ℓ) : Type ℓ where
  ok : A → Result A
  err : Err → Result A

-- A name is the list of its characters before the terminating null byte.
abbrev pub Name : Type 0
Name = List ℕ

-- KOGMO_RTDB_OBJMETA_NAME_MAXLEN
abbrev pub name_maxlen : ℕ
name_maxlen = 32

-- KOGMO_RTDB_OBJIDLIST_MAX
abbrev pub objidlist_max : ℕ
objidlist_max = 1000

pub record Flags : Type 0 where
  pub read_deny : Bool
  pub write_allow : Bool
  pub keep_alloc : Bool
  pub unique : Bool
  pub cycle_watch : Bool
  pub persistent : Bool
  pub parent_delete : Bool
  pub no_notifies : Bool
  pub immediately_delete : Bool
  pub withhold_stale : Bool

-- kogmo_rtdb_obj_info_t
pub record ObjInfo : Type 0 where
  pub oid : ℕ
  pub name : Name
  pub created_ts : ℕ
  pub created_proc : ℕ
  pub lastmodified_ts : ℕ
  pub lastmodified_proc : ℕ
  pub deleted_ts : ℕ
  pub deleted_proc : ℕ
  pub parent_oid : ℕ
  pub otype : ℕ
  pub size_max : ℕ
  pub history_interval : ℕ
  pub min_cycletime : ℕ
  pub max_cycletime : ℕ
  pub flags : Flags
  pub history_size : ℕ
  pub history_slot : ℤ
  pub buffer_idx : ℕ

-- A data object as it lies in the heap or in a caller's buffer: the header
-- kogmo_rtdb_subobj_base_t, and the bytes after it.
pub record Block : Type 0 where
  pub committed_ts : ℕ
  pub committed_proc : ℕ
  pub data_ts : ℕ
  pub size : ℕ
  pub payload : List ℕ

-- sizeof(kogmo_rtdb_subobj_base_t)
abbrev pub base_size : ℕ
base_size = 24

pub data TraceEvent : Type 0 where
  inserted deleted changed updated : TraceEvent

-- struct kogmo_rtdb_trace_msg; the slots are -1 where the sender gives none.
pub record TraceMsg : Type 0 where
  pub oid : ℕ
  pub ts : ℕ
  pub event : TraceEvent
  pub obj_slot : ℕ
  pub hist_slot : ℤ

-- struct kogmo_rtdb_obj_local_t, the shared memory of all processes. `heap a` is the data object
-- that lies at index `a` of the heap. `pool` is the allocator's own state: the blocks that it has
-- given out, each an index and a length. `locked` says that objmeta_lock is held; `meta_signals`
-- counts the signals that the metadata has changed; `signals` are the
-- object slots whose change condition was signalled, and `messages` the trace queue, newest first.
pub record LocalData : Type 0 where
  pub objmeta_oid_next : ℕ
  pub objmeta : List ObjInfo
  pub objmeta_free : ℕ
  pub locked : Bool
  pub rtdb_trace : ℕ
  pub rtdb_tracebufsize : ℕ
  pub simmode : Bool
  pub no_notifies : Bool
  pub sim_ts : ℕ
  pub default_history_interval : ℕ
  pub default_keep_deleted_interval : ℕ
  pub heap_size : ℕ
  pub heap_free : ℕ
  pub heap_used : ℕ
  pub heap : ℕ → Block
  pub pool : List (ℕ × ℕ)
  pub meta_signals : ℕ
  pub signals : List ℕ
  pub messages : List TraceMsg

-- kogmo_rtdb_handle_t, the part that is private to a process: its id, what its connection flags
-- give it, and the cycle time of its process object.
pub record Handle : Type 0 where
  pub proc_oid : ℕ
  pub is_manager : Bool
  pub is_admin : Bool
  pub cycletime : ℕ
