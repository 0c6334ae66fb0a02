-- ===== src/Tests/Data.antt =====
-- A database with one object whose ring has three slots, and readers and writers for it.
use kogmo_rtdb.Base.{
  ◌+◌, ◌-◌, ◌*◌, ◌/◌, ◌^◌, pos, negsuc, pos_part, false, [], ◌∷◌, ltb, leb, ◌==◌, if◌then◌else◌,
}
use kogmo_rtdb.Types.{LocalData, ObjInfo, Block, Handle, Flags}
use kogmo_rtdb.Floats.{FloatOps}

-- Integers in place of floating-point numbers.
abbrev pub int_ops : FloatOps
int_ops = record {
  lt = ltb;
  le = leb;
  add = ◌+◌;
  sub = ◌-◌;
  mul = ◌*◌;
  div = ◌/◌;
  narrow = λ x. x;
  of_int = pos_part;
  to_int = λ x. x;
  to_signed = λ x. pos x;
  milli = 1;
  tenth = 1;
}

abbrev pub no_flags : Flags
no_flags = record {
  read_deny = false;
  write_allow = false;
  keep_alloc = false;
  unique = false;
  cycle_watch = false;
  persistent = false;
  parent_delete = false;
  no_notifies = false;
  immediately_delete = false;
  withhold_stale = false;
}

abbrev pub empty_block : Block
empty_block = record { committed_ts = 0; committed_proc = 0; data_ts = 0; size = 0; payload = [] }

abbrev pub old_block : Block
old_block = record {
  committed_ts = 2 ^ 33;
  committed_proc = 7;
  data_ts = 2 ^ 33;
  size = 26;
  payload = 1 ∷ 2 ∷ [];
}

abbrev pub older_block : Block
older_block = record {
  committed_ts = 2 ^ 32 + 5;
  committed_proc = 7;
  data_ts = 2 ^ 32;
  size = 25;
  payload = 9 ∷ [];
}

abbrev pub car : ObjInfo
car = record {
  oid = 5;
  name = 99 ∷ 97 ∷ 114 ∷ [];
  created_ts = 2 ^ 32;
  created_proc = 7;
  lastmodified_ts = 2 ^ 32;
  lastmodified_proc = 7;
  deleted_ts = 0;
  deleted_proc = 0;
  parent_oid = 1;
  otype = 3;
  size_max = 30;
  history_interval = 2;
  min_cycletime = 1;
  max_cycletime = 1;
  flags = no_flags;
  history_size = 3;
  history_slot = pos 1;
  buffer_idx = 2;
}

-- `car` before its first write.
abbrev pub new_car : ObjInfo
new_car = record car { history_slot = negsuc 0 }

abbrev pub base_db : LocalData
base_db = record {
  objmeta_oid_next = 6;
  objmeta = car ∷ [];
  objmeta_free = 0;
  locked = false;
  rtdb_trace = 1;
  rtdb_tracebufsize = 10;
  simmode = false;
  no_notifies = false;
  sim_ts = 0;
  default_history_interval = 10;
  default_keep_deleted_interval = 1;
  heap_size = 1000;
  heap_free = 908;
  heap_used = 92;
  heap = λ a. if a == 2 then older_block else if a == 32 then old_block else empty_block;
  pool = (2, 90) ∷ (0, 2) ∷ [];
  meta_signals = 0;
  signals = [];
  messages = [];
}

-- The memory of an older object, still full, under an object that is new.
abbrev pub stale_db : LocalData
stale_db = record base_db { objmeta = new_car ∷ []; heap = λ a. old_block }

abbrev pub owner : Handle
owner = record { proc_oid = 7; is_manager = false; is_admin = false; cycletime = 1 }

abbrev pub guest : Handle
guest = record { proc_oid = 8; is_manager = false; is_admin = false; cycletime = 1 }

abbrev pub new_data : Block
new_data = record {
  committed_ts = 0;
  committed_proc = 0;
  data_ts = 0;
  size = 27;
  payload = 4 ∷ 5 ∷ 6 ∷ [];
}
