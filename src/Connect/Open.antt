-- ===== src/Connect/Open.antt =====
-- What kogmo_rtdb_connect (rtdb/kogmo_rtdb_obj_local.c) does to the objects once the process is in the
-- table: the manager sets the memory up and inserts the root and the list of processes; every process
-- inserts and writes its process object; the manager adds the object that describes the database. The
-- bytes of the two objects after their headers are arguments. Each reading of the clock, `clock k`, is
-- one of its own.
use kogmo_rtdb.Base.{ℕ, pos, Bool, true, false, if◌then◌else◌, List, none}
use kogmo_rtdb.Base.{[], ◌∷◌}
use kogmo_rtdb.Types.{LocalData, ObjInfo, Block, Flags, Handle, Name, Result, ok, err}
use kogmo_rtdb.Floats.{FloatOps}
use kogmo_rtdb.Time.{timestamp_now}
use kogmo_rtdb.Memory.{Allocator}
use kogmo_rtdb.Search.{Query, NameTest, searchinfo}
use kogmo_rtdb.Insert.{initinfo, insert, zero_info}
use kogmo_rtdb.Write.{writedata}
use kogmo_rtdb.Connect.{local_init}

-- KOGMO_RTDB_TRACE_BUFSIZE_DESIRED, _BUFSIZE and _BUFSIZE_MIN: the first queue that `mq_init` opens.
unfoldable pub tracebufsize : (ℕ → Bool) → ℕ
tracebufsize mq_init =
    if mq_init 10000 then 10000 else if mq_init 300 then 300 else if mq_init 10 then 10 else 0

-- "root", "processes" and "rtdb"
abbrev pub root_name : Name
root_name = 114 ∷ 111 ∷ 111 ∷ 116 ∷ []

abbrev pub processes_name : Name
processes_name = 112 ∷ 114 ∷ 111 ∷ 99 ∷ 101 ∷ 115 ∷ 115 ∷ 101 ∷ 115 ∷ []

abbrev pub rtdb_name : Name
rtdb_name = 114 ∷ 116 ∷ 100 ∷ 98 ∷ []

-- KOGMO_RTDB_OBJTYPE_C3_ROOT, _PROCESSLIST, _PROCESS and _RTDB
abbrev pub c3_root : ℕ
c3_root = 12779521

abbrev pub c3_processlist : ℕ
c3_processlist = 12779522

abbrev pub c3_process : ℕ
c3_process = 12779523

abbrev pub c3_rtdb : ℕ
c3_rtdb = 12779524

-- sizeof(kogmo_rtdb_obj_c3_process_t) and sizeof(kogmo_rtdb_obj_c3_rtdb_t)
abbrev pub process_size : ℕ
process_size = 212

abbrev pub rtdb_size : ℕ
rtdb_size = 524

abbrev unique_flags : Flags
unique_flags = record zero_info.flags { unique = true }

abbrev pub one : FloatOps → ℕ
one fl = fl.of_int (pos 1)

unfoldable pub root_info : FloatOps → Handle → LocalData → ObjInfo
root_info fl h db = record (initinfo h db root_name c3_root 0) {
  max_cycletime = one fl;
  min_cycletime = one fl;
  history_interval = one fl;
  flags = unique_flags;
}

unfoldable pub processlist_info : FloatOps → Handle → LocalData → ℕ → ObjInfo
processlist_info fl h db rootoid = record (initinfo h db processes_name c3_processlist 0) {
  parent_oid = rootoid;
  max_cycletime = one fl;
  history_interval = one fl;
  flags = unique_flags;
}

-- The process object's own cycle time is 0 while its metadata are set up.
unfoldable pub process_info : Handle → LocalData → Name → ℕ → ℕ → ObjInfo
process_info h db procname cycletime proclistoid =
    record (initinfo (record h { cycletime = 0 }) db procname c3_process process_size) {
      parent_oid = proclistoid;
      max_cycletime = cycletime;
      min_cycletime = cycletime;
      history_interval = db.default_history_interval;
    }

unfoldable pub rtdb_info : FloatOps → Handle → LocalData → ℕ → ObjInfo
rtdb_info fl h db procoid = record (initinfo h db rtdb_name c3_rtdb 0) {
  parent_oid = procoid;
  max_cycletime = one fl;
  history_interval = fl.of_int (pos 10);
  size_max = rtdb_size;
  flags = unique_flags;
}

-- The object of a process, and that of the database, which kogmo_rtdb_obj_initdata cleared.
abbrev pub process_block : ℕ → List ℕ → Block
process_block data_ts bytes = record {
  committed_ts = 0;
  committed_proc = 0;
  data_ts = data_ts;
  size = process_size;
  payload = bytes;
}

abbrev pub rtdb_block : List ℕ → Block
rtdb_block bytes = record {
  committed_ts = 0;
  committed_proc = 0;
  data_ts = 0;
  size = rtdb_size;
  payload = bytes;
}

abbrev pub processlist_query : Query
processlist_query = record {
  name = NameTest.exactly processes_name;
  otype = c3_processlist;
  parent_oid = 0;
  proc_oid = 0;
  ts = 0;
  includedeleted = false;
}

-- What the caller gives: its name, its cycle time, when it connected, and the bytes of the objects.
pub record ConnectInfo : Type 0 where
  pub procname : Name
  pub cycletime : ℕ
  pub connected_ts : ℕ
  pub process_bytes : List ℕ
  pub rtdb_bytes : List ℕ

-- `if ( ret < 0 ) return ret`: a call, and what follows if it succeeds.
abbrev pub andthen :
    {A : Type 0} → Result A → LocalData → (A → Result ℕ × LocalData) → Result ℕ × LocalData
andthen r db next = elim r [ err e ↦ (err e, db) | ok a ↦ next a ]

-- An object that is inserted and then written.
unfoldable pub insert_and_write :
    FloatOps → Allocator → Handle → ℕ → LocalData → ℕ → ℕ → ObjInfo → Block → Result ℕ × LocalData
insert_and_write fl al h stray db now now' m b =
    let r = insert fl al h stray db now m in
    andthen r.code r.db
      (λ oid. let w = writedata fl h r.db now' oid b in andthen w.code w.db (λ u. (ok oid, w.db)))

module _ (fl : FloatOps) (al : Allocator) (stray : ℕ) (clock : ℕ → ℕ) (c : ConnectInfo) where
  -- "init root node" and "init process list": the id of the list.
  unfoldable pub open_root : Handle → LocalData → Result ℕ × LocalData
  open_root h db =
      let r = insert fl al h stray db (clock 0) (root_info fl h db) in
      andthen r.code r.db (λ rootoid.
        let q = insert fl al h stray r.db (clock 1) (processlist_info fl h r.db rootoid) in
        andthen q.code q.db (λ proclistoid. (ok proclistoid, q.db)))

  -- kogmo_rtdb_connect of a client, and part of that of the manager: its object is inserted below the
  -- list of processes, and written.
  unfoldable pub open_process : Handle → LocalData → Result ℕ × LocalData
  open_process h db = andthen (searchinfo db processlist_query none 1).0 db (λ proclistoid.
      insert_and_write fl al h stray db (clock 2) (clock 3)
        (process_info h db c.procname c.cycletime proclistoid)
        (process_block c.connected_ts c.process_bytes))

  -- The manager: the object that describes the database is inserted below its own, and written.
  unfoldable pub open_rtdb : Handle → LocalData → ℕ → Result ℕ × LocalData
  open_rtdb h db procoid =
      insert_and_write fl al h stray db (clock 4) (clock 5) (rtdb_info fl h db procoid)
        (rtdb_block c.rtdb_bytes)

  -- kogmo_rtdb_connect of the manager: the id of its object. Once its metadata are set up, the handle
  -- has its cycle time.
  unfoldable pub connect_manager : Handle → LocalData → ℕ → Result ℕ × LocalData
  connect_manager h db heap_size =
      let r = open_root h (local_init fl al db heap_size) in
      andthen r.0 r.1 (λ proclistoid.
        let p = open_process h r.1 in
        andthen p.0 p.1 (λ procoid.
          let d = open_rtdb (record h { cycletime = c.cycletime }) p.1 procoid in
          andthen d.0 d.1 (λ dbinfooid. (ok procoid, d.1))))

-- kogmo_rtdb_setstatus and kogmo_rtdb_cycle_done: the process object is written again, with the time or
-- with that of its last data. The bytes are those of the changed structure.
unfoldable pub setstatus :
    FloatOps → Handle → LocalData → ℕ → ℕ → List ℕ → Result (Unit {0}) × LocalData
setstatus fl h db now procoid bytes =
    let w = writedata fl h db now procoid (process_block (timestamp_now db now) bytes) in
    (w.code, w.db)

unfoldable pub cycle_done :
    FloatOps → Handle → LocalData → ℕ → ℕ → ℕ → List ℕ → Result (Unit {0}) × LocalData
cycle_done fl h db now procoid data_ts bytes =
    let w = writedata fl h db now procoid (process_block data_ts bytes) in (w.code, w.db)
