-- ===== src/Connect/Leave.antt =====
-- What is left when a process leaves the database.
use kogmo_rtdb.Base.{
  ℕ, suc, ◌+◌, ◌≤◌, ◌≡◌, ◌≢◌, refl, sym, ap, ◌∙◌, arith, true, false, ◌==◌, List, some, set,
  get_elem?, length-set, inl, inr, Bool-cases, subst,
}
use kogmo_rtdb.Types.{LocalData, Result, ok, err}
use kogmo_rtdb.Time.{timestamp_now}
use kogmo_rtdb.Search.{IdList, searchinfo_deleted}
use kogmo_rtdb.Memory.{inc_32}
use kogmo_rtdb.Memory.Balance.{IsBalanced}
use kogmo_rtdb.Remove.Books.{delete_imm-IsBalanced}
use kogmo_rtdb.Remove.Total.{living}
use kogmo_rtdb.Remove.Fuel.{delete_imm-Within}
use kogmo_rtdb.Remove.{delete_imm}
use kogmo_rtdb.Procs.{
  Process, Shm, empty_process, immediately_delete, owned_by, objects_of, delete_objects,
}
use kogmo_rtdb.Procs.Purged.{objects_of-AllIds, delete_objects-Kept}
use kogmo_rtdb.ProcTable.{manager_bit, has_flag, disconnect}
use kogmo_rtdb.ProcTable.Slots.{free_count, free_count-le}
use kogmo_rtdb.ProcTable.Sessions.{IsTable}
use kogmo_rtdb.Connect.{Session, Left, own_objects, trace_off, detach, rtdb_disconnect}
use kogmo_rtdb.Connect.Slots.{free_count-empty, AllIn-empty, free_slots-get}

-- A client that is connected: it has slot `k` of the table.
pub record IsClient (s : Shm) (c : Session) (k : ℕ) : Type 0 where
  pub entry : Process
  pub at_slot : get_elem? s.proc k ≡ some entry
  pub same_oid : entry.proc_oid ≡ c.this_process.proc_oid
  pub known : c.this_process.proc_oid ≢ 0
  pub no_manager : has_flag c.this_process.flags manager_bit ≡ false
  pub attached : c.attached ≡ true

-- The table without the process in slot `k`.
abbrev pub without : Shm → ℕ → Shm
without s k = record s { proc = set s.proc k empty_process; proc_free = s.proc_free + 1 }

vacated :
    (s : Shm) (c : Session) (k : ℕ)
    → IsTable s
    → IsClient s c k
    → free_count (without s k).proc ≡ s.proc_free + 1
vacated s c k t i =
    free_count-empty s.proc k i.entry i.at_slot (λ z. i.known (sym i.same_oid ∙ z))
    ∙ ap (λ z. z + 1) (sym t.counted)

without-IsTable :
    (s : Shm) (c : Session) (k : ℕ) → IsTable s → IsClient s c k → IsTable (without s k)
without-IsTable s c k t i = record {
  counted = sym (vacated s c k t i);
  ids = AllIn-empty s.proc_oid_next s.proc k (omega (arith, t.started)) t.ids;
  started = t.started;
  short = rw (length-set s.proc k empty_process) t.short;
}

disconnect-IsClient :
    (s : Shm) (c : Session) (k : ℕ)
    → IsTable s
    → IsClient s c k
    → disconnect s c.this_process ≡ without s k
unfolding disconnect
disconnect-IsClient s c k t i =
    let here : (c.this_process.proc_oid == 0) ≡ false = ground (arith, i.known) in
    let count : inc_32 s.proc_free ≡ s.proc_free + 1 = omega (
      arith,
      vacated s c k t i,
      free_count-le (without s k).proc,
      t.short,
      length-set s.proc k empty_process,
    ) in
    rw
      (
        i.no_manager,
        here,
        free_slots-get s.proc_oid_next c.this_process.proc_oid s.proc k s.proc_free i.entry t.ids
            i.at_slot i.same_oid i.known,
        count,
      )
      refl

detach-IsClient :
    (s : Shm) (c : Session) (k : ℕ)
    → IsTable s
    → IsClient s c k
    → detach s c
      ≡ record { code = ok tt; shm = without s k; session = record c { attached = false } }
unfolding detach
detach-IsClient s c k t i = rw (i.attached, disconnect-IsClient s c k t i) refl

pub own_objects-ok :
    (db : LocalData) (stack : IdList) (p : ℕ) (cs : List ℕ)
    → own_objects db stack p ≡ ok cs
    → objects_of db stack p ≡ cs
unfolding own_objects
own_objects-ok db stack p cs e = listed (searchinfo_deleted db (owned_by p) (some stack) 0).0 e
  where
    listed :
        (r : Result ℕ)
        → (elim r [ err x ↦ err x | ok n ↦ ok (objects_of db stack p) ]) ≡ ok cs
        → objects_of db stack p ≡ cs
    listed (err x) q = absurd (cc)
    listed (ok n) q = cc

module _ (now : ℕ) (stray : ℕ → ℕ) (stack : IdList) (extra f : ℕ) where
  objects_gone :
      (db : LocalData) (c : Session)
      → timestamp_now db now ≢ 0
      → living db.objmeta ≤ f
      → IsBalanced extra db
      → c.procobjmeta_oid ≢ 0
      → (d : LocalData) × (r : Result (Unit {0}) × LocalData) × (delete_objects c.handle now stray
            stack
            (suc f)
            (immediately_delete c.this_process)
            (objects_of db stack c.handle.proc_oid)
            db
          ≡ some d)
        × (delete_imm c.handle now stray stack
              (suc f)
              d
              c.procobjmeta_oid
              (immediately_delete c.this_process)
            ≡ some r)
        × IsBalanced extra r.1
  objects_gone db c timed le b object =
      let imm = immediately_delete c.this_process in
      let (d, done, k) =
        delete_objects-Kept c.handle now stray stack extra f imm
          (objects_of db stack c.handle.proc_oid) db (objects_of-AllIds db stack c.handle.proc_oid)
          ((timed, le), b) in
      let (r, gone, _) = delete_imm-Within c.handle now stray stack f d c.procobjmeta_oid imm k.0 in
      (
        d,
        r,
        done,
        gone,
        delete_imm-IsBalanced c.handle now stray stack extra (suc f) d c.procobjmeta_oid imm r k.1
            object gone,
      )

  trace_off-IsBalanced :
      (c : Session) (db : LocalData) → IsBalanced extra db → IsBalanced extra (trace_off c db)
  trace_off-IsBalanced c db b = elim (Bool-cases c.rxtracing) [
    | inl on ↦ rw on b
    | inr off ↦ rw off b
  ]

  -- A client that leaves comes to an end, if the fuel of a deletion exceeds the number of objects that
  -- are not deleted, the clock has left 0, and the search for its objects succeeds. It empties its own
  -- slot and no other, counts it as free, keeps the table in order and the books of slots and memory,
  -- whatever objects go; leaving a second time does nothing.
  pub rtdb_disconnect_lem :
      (s : Shm) (c : Session) (k : ℕ) (cs : List ℕ)
      → IsTable s
      → IsClient s c k
      → c.procobjmeta_oid ≢ 0
      → IsBalanced extra s.localdata
      → timestamp_now s.localdata now ≢ 0
      → living s.localdata.objmeta ≤ f
      → own_objects s.localdata stack c.handle.proc_oid ≡ ok cs
      → (l : Left) × (rtdb_disconnect now stray stack (suc f) s c ≡ some l)
        × (l.code ≡ ok tt)
        × (l.shm.proc ≡ set s.proc k empty_process)
        × (l.shm.proc_free ≡ s.proc_free + 1)
        × IsTable l.shm
        × IsBalanced extra l.shm.localdata
        × (rtdb_disconnect now stray stack (suc f) l.shm l.session ≡ some l)
  unfolding rtdb_disconnect detach
  rtdb_disconnect_lem s c k cs t i object b timed le found =
      let (d, r, done, gone, b') = objects_gone s.localdata c timed le b object in
      let s' : Shm = record s { localdata = trace_off c r.1 } in
      let c' : Session = record c { procobjmeta_oid = 0 } in
      let t' : IsTable s' = record {
        counted = t.counted;
        ids = t.ids;
        started = t.started;
        short = t.short;
      } in
      let i' : IsClient s' c' k = record {
        entry = i.entry;
        at_slot = i.at_slot;
        same_oid = i.same_oid;
        known = i.known;
        no_manager = i.no_manager;
        attached = i.attached;
      } in
      let listed =
        subst
          (λ l.
            delete_objects c.handle now stray stack (suc f) (immediately_delete c.this_process) l
              s.localdata
            ≡ some d)
          (own_objects-ok s.localdata stack c.handle.proc_oid cs found) done in
      let here : (c.procobjmeta_oid == 0) ≡ false = ground (arith, object) in
      (
        record { code = ok tt; shm = without s' k; session = record c' { attached = false } },
        rw (here, found, listed, gone) (ap some (detach-IsClient s' c' k t' i')),
        refl,
        refl,
        refl,
        without-IsTable s' c' k t' i',
        trace_off-IsBalanced c r.1 b',
        refl,
      )
