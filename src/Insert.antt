-- ===== src/Insert.antt =====
-- Inserting objects (rtdb/kogmo_rtdb_objmeta.c): kogmo_rtdb_obj_initinfo and kogmo_rtdb_obj_insert.
-- History lengths that environment variables change in debug mode are left out. The retry loop of
-- the source is `do { ... } while(0)`: its `continue` leaves it, so that no purge and no second try
-- ever follows, and the function goes on with no slot.
pub mod Slots
pub mod Success
pub mod Books
pub mod Unique
pub mod Found
pub mod Lost
pub mod Clear
pub mod HeapSize
pub mod Refused
use kogmo_rtdb.Base.{
  ℕ, zero, suc, ◌+◌, ◌-◌, ◌*◌, ◌%◌, ◌^◌, ℤ, pos, negsuc, Bool, true, false, ◌&&◌, ◌||◌, not, ◌==◌,
  ltb, leb, if◌then◌else◌, take, length, List, [], ◌∷◌, Option, none, some,
}
use kogmo_rtdb.Types.{
  LocalData, ObjInfo, Flags, Handle, Result, ok, err, Err, TraceEvent, Name, name_maxlen, base_size,
}
use kogmo_rtdb.Floats.{FloatOps}
use kogmo_rtdb.Time.{timestamp_now}
use kogmo_rtdb.Meta.{
  findmeta_byid, put_meta, obj_trace_send, objmeta_lock, objmeta_unlock, objmeta_unlock_notify,
  min_cycletime,
}
use kogmo_rtdb.Memory.{Allocator, mem_alloc, mem_free, add_64, sub_64, dec_32}
use kogmo_rtdb.Search.{Query, NameTest, searchinfo, name_eq}
use kogmo_rtdb.Purge.{delete_ts}

-- memset to 0
abbrev pub zero_info : ObjInfo
zero_info = record {
  oid = 0;
  name = [];
  created_ts = 0;
  created_proc = 0;
  lastmodified_ts = 0;
  lastmodified_proc = 0;
  deleted_ts = 0;
  deleted_proc = 0;
  parent_oid = 0;
  otype = 0;
  size_max = 0;
  history_interval = 0;
  min_cycletime = 0;
  max_cycletime = 0;
  flags = record {
    read_deny = false;
    write_allow = false;
    keep_alloc = false;
    unique = false;
    cycle_watch = false;
    persistent = false;
    parent_delete = false;
    no_notifies = false;
    immediately_delete = false;
    withhold_stale = false;
  };
  history_size = 0;
  history_slot = pos 0;
  buffer_idx = 0;
}

-- kogmo_rtdb_obj_initinfo
unfoldable pub initinfo : Handle → LocalData → Name → ℕ → ℕ → ObjInfo
initinfo h db name otype size_max = record zero_info {
  name = take name_maxlen name;
  otype = otype;
  min_cycletime = h.cycletime;
  max_cycletime = h.cycletime;
  history_interval = db.default_history_interval;
  size_max = size_max;
}

-- UNSIGNED_CEIL
unfoldable pub unsigned_ceil : FloatOps → ℕ → ℕ
unsigned_ceil fl x =
    let whole = fl.narrow (fl.of_int (pos (fl.to_int x))) in
    if fl.lt 0 (fl.narrow (fl.sub x whole))
    then fl.to_int (fl.narrow (fl.add x (fl.of_int (pos 1))))
    else fl.to_int x

-- `if ( x <= 0 ) x = 0.001`
abbrev at_least_milli : FloatOps → ℕ → ℕ
at_least_milli fl x = if fl.le x 0 then fl.narrow fl.milli else x

-- The number of slots of an object's ring, from its history and its cycle time.
unfoldable pub ring_size : FloatOps → ObjInfo → ℕ
ring_size fl m =
    if m.size_max == 0
    then 0
    else unsigned_ceil fl (
        fl.narrow
          (fl.add (fl.narrow (fl.div m.history_interval (min_cycletime fl m))) (fl.of_int (pos 1))))

-- "Init Meta Data": the caller's metadata before a slot is looked for.
unfoldable pub init_meta : FloatOps → Handle → ℕ → ObjInfo → ObjInfo
unfolding ring_size
init_meta fl h ts new =
    let m : ObjInfo = record new {
      name = take (name_maxlen - 1) new.name;
      oid = 0;
      created_ts = ts;
      lastmodified_ts = ts;
      created_proc = h.proc_oid;
      lastmodified_proc = h.proc_oid;
      deleted_ts = 0;
      deleted_proc = 0;
      history_interval = at_least_milli fl new.history_interval;
      max_cycletime = at_least_milli fl new.max_cycletime;
      min_cycletime = at_least_milli fl new.min_cycletime;
    } in
    record m {
      history_size = ring_size fl m;
      history_slot = negsuc 0;
      buffer_idx = 0;
      size_max = new.size_max + new.size_max % 2;
    }

abbrev pub ring_bytes_of : ObjInfo → ℕ
ring_bytes_of m = m.size_max * m.history_size

-- A deleted object of this process whose memory was kept, has the size that is needed, and whose
-- history is over.
unfoldable pub is_reusable : FloatOps → Handle → ℕ → ℕ → ObjInfo → ObjInfo → Bool
is_reusable fl h keep ts new m =
    not (m.oid == 0)
    && not (m.deleted_ts == 0)
    && (m.created_proc == h.proc_oid)
    && m.flags.keep_alloc
    && (ring_bytes_of m == ring_bytes_of new)
    && ltb (delete_ts fl keep m) ts

-- The scans for the first slot that passes a test.
unfoldable pub find_slot : (ObjInfo → Bool) → List ObjInfo → ℕ → Option (ℕ × ObjInfo)
find_slot test [] i = none
find_slot test (m ∷ ms) i = if test m then some (i, m) else find_slot test ms (suc i)

-- The function's variables once a slot was looked for: `found_slot`, `new_allocated_heap_idx`, the
-- caller's metadata, and the database.
pub record Place : Type 0 where
  pub slot : Option ℕ
  pub heap_idx : ℤ
  pub info : ObjInfo
  pub db : LocalData

-- The scan for a free slot. Without one, `continue` leaves the loop.
unfoldable pub find_free : ℤ → ObjInfo → LocalData → Place
find_free heap_idx m db = elim (find_slot (λ x. x.oid == 0) db.objmeta 0) [
  | none ↦ record { slot = none; heap_idx = heap_idx; info = m; db = db }
  | some (i, x) ↦ record {
    slot = some i;
    heap_idx = heap_idx;
    info = m;
    db = record db { objmeta_free = dec_32 db.objmeta_free };
  }
]

-- The body of the loop that is no loop. Memory is allocated while the lock is given up.
unfoldable pub find_new : Allocator → ObjInfo → LocalData → Place
unfolding find_free
find_new al m db =
    if m.size_max == 0
    then find_free (pos 0) m db
    else let r = mem_alloc al (objmeta_unlock db) (ring_bytes_of m) in
      elim r.0 [
        | none ↦ record { slot = none; heap_idx = negsuc 0; info = m; db = objmeta_lock r.1 }
        | some idx ↦ find_free (pos idx) (record m { buffer_idx = idx }) (objmeta_lock r.1)
      ]

unfoldable pub find_place : FloatOps → Allocator → Handle → ℕ → ObjInfo → LocalData → Place
unfolding find_new find_free
find_place fl al h ts m db =
    elim (find_slot (is_reusable fl h db.default_keep_deleted_interval ts m) db.objmeta 0) [
      | some (i, x) ↦ record {
        slot = some i;
        heap_idx = pos 0;
        info = record m { buffer_idx = x.buffer_idx };
        db = db;
      }
      | none ↦ find_new al m db
    ]

-- All living objects of a type.
abbrev pub of_type : ℕ → Query
of_type otype = record {
  name = NameTest.any;
  otype = otype;
  parent_oid = 0;
  proc_oid = 0;
  ts = 0;
  includedeleted = false;
}

-- Two objects that may not exist at once.
abbrev pub clashes : ObjInfo → ObjInfo → Bool
clashes new m = name_eq new.name m.name && (m.flags.unique || new.flags.unique)

-- The loop over the objects of the type, from the nth on.
unfoldable pub has_clash : ℕ → ℕ → ObjInfo → LocalData → Bool
has_clash zero nth new db = false
has_clash (suc n) nth new db = elim (searchinfo db (of_type new.otype) none nth).0 [
  | err e ↦ false
  | ok oid ↦ if oid == 0 then false else elim (findmeta_byid db oid) [
    | none ↦ has_clash n (suc nth) new db
    | some (i, m) ↦ clashes new m || has_clash n (suc nth) new db
  ]
]

-- "allocated memory that is useless now". An allocation that failed has left -1, which is not 0: the
-- counters are changed for it as well, and the allocator gets an address that is not in its memory.
unfoldable pub give_back : ℤ → ObjInfo → LocalData → LocalData
give_back (pos zero) m db = db
give_back (pos (suc idx)) m db = mem_free db (suc idx) (ring_bytes_of m)
give_back (negsuc k) m db = record db {
  heap_free = add_64 db.heap_free (ring_bytes_of m);
  heap_used = sub_64 db.heap_used (ring_bytes_of m);
}

-- What a call returns: its code, the caller's metadata, and the database.
pub record Inserted : Type 0 where
  pub code : Result ℕ
  pub info : ObjInfo
  pub db : LocalData

-- The conversion of the 64-bit counter to a 32-bit id; `none` is an id that is not positive.
unfoldable pub to_oid : ℕ → Option ℕ
to_oid n = if (n % 2 ^ 32 == 0) || leb (2 ^ 31) (n % 2 ^ 32) then none else some (n % 2 ^ 32)

-- The object enters slot `i` under a new id.
unfoldable pub enter : ℕ → ℕ → ObjInfo → LocalData → Inserted
enter stray i m db0 =
    let db = record (put_meta db0 i m) { objmeta_oid_next = (db0.objmeta_oid_next + 1) % 2 ^ 64 } in
    elim (to_oid db0.objmeta_oid_next) [
      | none ↦ record {
        code = err Err.outofobj;
        info = m;
        db =
            objmeta_unlock
              (if m.buffer_idx == 0 then db else mem_free db m.buffer_idx (ring_bytes_of m));
      }
      | some oid ↦
          let m' : ObjInfo = record m {
            oid = oid;
            parent_oid = if (m.parent_oid == 0) && ltb 1 oid then 1 else m.parent_oid;
          } in
          record {
            code = ok oid;
            info = m';
            db = obj_trace_send (objmeta_unlock_notify (put_meta db i m')) (record {
              oid = oid;
              ts = m.created_ts;
              event = TraceEvent.inserted;
              obj_slot = stray;
              hist_slot = negsuc 0;
            });
          }
    ]

-- The check for uniqueness, and the end. Without a slot the function returns with the lock held, and
-- does not give back what it allocated.
unfoldable pub insert_at : ℕ → Place → Inserted
unfolding enter
insert_at stray p =
    if has_clash (length p.db.objmeta) 1 p.info p.db
    then record {
      code = err Err.notuniq;
      info = p.info;
      db = give_back p.heap_idx p.info (objmeta_unlock p.db);
    }
    else elim p.slot [
      | none ↦ record { code = err Err.outofobj; info = p.info; db = p.db }
      | some i ↦ enter stray i p.info p.db
    ]

-- kogmo_rtdb_obj_insert. `stray` is what kogmo_rtdb_obj_slotnum makes of the caller's metadata, which
-- does not lie in the table.
unfoldable pub insert : FloatOps → Allocator → Handle → ℕ → LocalData → ℕ → ObjInfo → Inserted
unfolding insert_at find_place
insert fl al h stray db now new =
    if not (new.size_max == 0) && ltb new.size_max base_size
    then record { code = err Err.invalid; info = new; db = db }
    else elim new.name [
      | [] ↦ record { code = err Err.invalid; info = new; db = db }
      | c ∷ cs ↦
          let ts = timestamp_now db now in
          insert_at stray (find_place fl al h ts (init_meta fl h ts new) (objmeta_lock db))
    ]
