-- ===== src/Remove.antt =====
-- Reading, changing and deleting metadata (rtdb/kogmo_rtdb_objmeta.c): kogmo_rtdb_obj_readinfo,
-- kogmo_rtdb_obj_changeinfo, kogmo_rtdb_obj_purgeslot, kogmo_rtdb_obj_delete_imm and
-- kogmo_rtdb_obj_delete, which also deletes the objects below the object.
pub mod Cases
pub mod Books
pub mod Total
pub mod Fuel
pub mod Gone
pub mod Change
pub mod HeapSize
use kogmo_rtdb.Base.{
  ℕ, zero, suc, ◌+◌, ◌-◌, ◌*◌, negsuc, Bool, true, false, ◌&&◌, ◌||◌, not, ◌==◌, ltb, if◌then◌else◌,
  take, List, [], ◌∷◌, Option, none, some,
}
use kogmo_rtdb.Types.{
  LocalData, ObjInfo, Handle, Result, ok, err, Err, TraceEvent, Name, name_maxlen, objidlist_max,
}
use kogmo_rtdb.Floats.{FloatOps}
use kogmo_rtdb.Time.{timestamp_now}
use kogmo_rtdb.Meta.{
  findmeta_byid, put_meta, obj_do_notify, obj_trace_send, may_write, objmeta_lock, objmeta_unlock,
  objmeta_unlock_notify,
}
use kogmo_rtdb.Memory.{mem_free, inc_32}
use kogmo_rtdb.Search.{Query, IdList, NameTest, searchinfo}

-- kogmo_rtdb_obj_readinfo, with what it leaves of the database.
unfoldable pub readinfo : LocalData → ℕ → ℕ → Result ObjInfo
readinfo db oid ts = elim (findmeta_byid db oid) [
  | none ↦ err Err.notfound
  | some (i, m) ↦
      if ltb ts m.created_ts && not (ts == 0)
      then err Err.notfound
      else if not (m.deleted_ts == 0) && (ltb m.deleted_ts ts || (ts == 0))
      then err Err.notfound
      else ok m
]

-- Every field that `new` gives, that is, which is not zero there.
unfoldable pub changed_info : FloatOps → Handle → ℕ → ObjInfo → ObjInfo → ObjInfo
changed_info fl h ts new m = record m {
  lastmodified_proc = h.proc_oid;
  lastmodified_ts = ts;
  name = elim new.name [ [] ↦ m.name | c ∷ cs ↦ take (name_maxlen - 1) (c ∷ cs) ];
  otype = if new.otype == 0 then m.otype else new.otype;
  parent_oid = if new.parent_oid == 0 then m.parent_oid else new.parent_oid;
  max_cycletime = if fl.lt 0 new.max_cycletime then new.max_cycletime else m.max_cycletime;
  min_cycletime = if fl.lt 0 new.min_cycletime then new.min_cycletime else m.min_cycletime;
  history_interval =
      if fl.lt 0 new.history_interval then new.history_interval else m.history_interval;
}

-- kogmo_rtdb_obj_changeinfo
unfoldable pub changeinfo : FloatOps → Handle → LocalData → ℕ → ℕ → ObjInfo → Result ℕ × LocalData
changeinfo fl h db now oid new =
    if not h.is_admin then (err Err.noperm, db) else elim (findmeta_byid db oid) [
      | none ↦ (err Err.notfound, objmeta_unlock (objmeta_lock db))
      | some (i, m) ↦
          let ts = timestamp_now db now in
          let m' = changed_info fl h ts new m in
          let db' = objmeta_unlock_notify (put_meta (objmeta_lock db) i m') in
          (
            ok m.oid,
            obj_trace_send db' (record {
              oid = m.oid;
              ts = ts;
              event = TraceEvent.changed;
              obj_slot = i;
              hist_slot = negsuc 0;
            }),
          )
    ]

-- kogmo_rtdb_obj_purgeslot on slot `i`, which holds `m`.
unfoldable pub purgeslot : LocalData → ℕ → ObjInfo → LocalData
purgeslot db i m =
    let db' =
      if m.buffer_idx == 0 then db else mem_free db m.buffer_idx (m.size_max * m.history_size) in
    record (put_meta db' i (record m { oid = 0 })) { objmeta_free = inc_32 db.objmeta_free }

-- The ids of a list up to its terminating 0, which stands among the first `n` entries.
abbrev pub ids : ℕ → IdList → ℕ → List ℕ
ids zero l i = []
ids (suc n) l i = if l i == 0 then [] else l i ∷ ids n l (suc i)

-- The objects whose parent is `oid`. The array for them is not initialised but for its first entry.
unfoldable pub children : LocalData → IdList → ℕ → List ℕ
children db stack oid =
    let found =
      searchinfo db
        (record {
          name = NameTest.any;
          otype = 0;
          parent_oid = oid;
          proc_oid = 0;
          ts = 0;
          includedeleted = false;
        })
        (some stack) 0 in
    elim found.0 [ err e ↦ [] | ok n ↦ elim found.1 [ none ↦ [] | some l ↦ ids objidlist_max l 0 ] ]

-- The loop over the children: those that are still there and shall go with their parent are deleted.
-- `none` is a recursion that ran out of fuel.
unfoldable pub delete_children :
    (LocalData → ℕ → Option (Result (Unit {0}) × LocalData)) → List ℕ → LocalData → Option LocalData
delete_children delete [] db = some db
delete_children delete (c ∷ cs) db = elim (readinfo db c 0) [
  | err e ↦ delete_children delete cs db
  | ok m ↦ elim m.flags.parent_delete [
    | false ↦ delete_children delete cs db
    | true ↦ elim (delete db c) [ none ↦ none | some r ↦ delete_children delete cs r.1 ]
  ]
]

module _ (h : Handle) (now : ℕ) (stray : ℕ → ℕ) (stack : IdList) where
  -- The object in slot `i` is marked, and its slot purged if that shall not wait; then the listeners
  -- are told. `stray oid` is what kogmo_rtdb_obj_slotnum makes of the caller's copy of the metadata,
  -- which does not lie in the table.
  unfoldable pub delete_mark : LocalData → ℕ → ObjInfo → Bool → LocalData
  unfolding purgeslot
  delete_mark db i m imm =
      let ts = timestamp_now db now in
      let m' = record m { deleted_proc = h.proc_oid; deleted_ts = ts } in
      let marked = put_meta (objmeta_lock db) i m' in
      let db1 = if m.flags.immediately_delete || imm then purgeslot marked i m' else marked in
      obj_trace_send (obj_do_notify (objmeta_unlock_notify db1) i) (record {
        oid = m.oid;
        ts = ts;
        event = TraceEvent.deleted;
        obj_slot = stray m.oid;
        hist_slot = negsuc 0;
      })

  -- kogmo_rtdb_obj_delete_imm; its callers give the object by its id alone.
  unfoldable pub delete_imm : ℕ → LocalData → ℕ → Bool → Option (Result (Unit {0}) × LocalData)
  unfolding delete_mark
  delete_imm zero db oid imm = none
  delete_imm (suc f) db oid imm = elim (findmeta_byid db oid) [
    | none ↦ some (err Err.notfound, objmeta_unlock (objmeta_lock db))
    | some (i, m) ↦
        if not (may_write h m)
        then some (err Err.noperm, objmeta_unlock (objmeta_lock db))
        else if not (m.deleted_ts == 0) && not m.flags.immediately_delete && not imm
        then some (err Err.notfound, objmeta_unlock (objmeta_lock db))
        else elim (delete_children (λ d c. delete_imm f d c false) (children db stack oid)
            (delete_mark db i m imm)) [ none ↦ none | some db' ↦ some (ok tt, db') ]
  ]

  unfoldable pub delete : ℕ → LocalData → ℕ → Option (Result (Unit {0}) × LocalData)
  delete f db oid = delete_imm f db oid false
