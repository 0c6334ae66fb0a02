-- ===== src/System/Ids.antt =====
-- In every database that can come about, no two objects have the same id.
use kogmo_rtdb.Base.{
  Bool, ℕ, ◌^◌, ◌≤◌, ◌<◌, ◌≡◌, ◌≢◌, sym, ap, ◌∙◌, arith, not, [], some, get_elem?, inl, inr,
  Bool-cases, Option-cases, replicate, subst,
}
use kogmo_rtdb.Types.{LocalData, ObjInfo, Handle, Block, ok}
use kogmo_rtdb.Floats.{FloatOps}
use kogmo_rtdb.Time.{timestamp_now, timestamp_set}
use kogmo_rtdb.Meta.{findmeta_byid}
use kogmo_rtdb.Meta.Find.{findmeta-get}
use kogmo_rtdb.Meta.Sent.{objmeta-trace, objmeta_oid_next-trace}
use kogmo_rtdb.Memory.{Allocator, mem_alloc, mem_init}
use kogmo_rtdb.Remove.Total.{set-set}
use kogmo_rtdb.Insert.{insert, to_oid, zero_info}
use kogmo_rtdb.Insert.Slots.{to_oid_lem}
use kogmo_rtdb.Insert.Success.{entered, entered_db, entered_msg, enter_lem, insert_lem, place_of}
use kogmo_rtdb.Insert.Refused.{insert-refused}
use kogmo_rtdb.Insert.Found.{place_of-KeepsTable, small_oid, next_64}
use kogmo_rtdb.Write.{next_slot, set_block, commit_block, writedata, writedata_ptr_commit}
use kogmo_rtdb.Write.Books.{writedata_found-keeps, begin_keeps, ptr_commit_found-keeps}
use kogmo_rtdb.Connect.{obj_max, booted, local_init}
use kogmo_rtdb.Connect.Init.{get_elem?-replicate}
use kogmo_rtdb.System.{
  Step, Reachable, inserts, refused, changes, deletes, commits, begins, commits_in_place, purges,
  traces, sets_time, starts, goes_on,
}
use kogmo_rtdb.System.Numbers.{IsNumbered, Numbered, Numbered-new, Numbered-HasIds}
use kogmo_rtdb.System.Renumber.{
  publish-IsNumbered, changeinfo-IsNumbered, delete_imm-IsNumbered, purge_objs-IsNumbered,
}

to_oid-small : (n oid : ℕ) → to_oid n ≡ some oid → n ≤ 2 ^ 31 → n < 2 ^ 31
unfolding to_oid
to_oid-small n oid e le = ground arith

insert-IsNumbered :
    (fl : FloatOps) (al : Allocator) (h : Handle) (stray : ℕ) (db : LocalData) (now : ℕ)
    (new : ObjInfo) (oid : ℕ)
    → IsNumbered db
    → (insert fl al h stray db now new).code ≡ ok oid
    → IsNumbered (insert fl al h stray db now new).db
insert-IsNumbered fl al h stray db now new oid u success =
    let p = place_of fl al h db now new in
    let (i, slot, _, path) = insert_lem fl al h stray db now new oid success in
    let (id, done) = enter_lem stray i p.info p.db oid (ap (λ z. z.code) (sym path) ∙ success) in
    let ((y, at_i), same, same_next, _, _) = place_of-KeepsTable fl al h db now new i slot in
    let v : IsNumbered p.db = rw (same, same_next) u in
    let room = to_oid-small p.db.objmeta_oid_next oid id v.few in
    let is_next =
      small_oid p.db.objmeta_oid_next oid room (to_oid_lem p.db.objmeta_oid_next oid id).1 in
    let ends =
      Numbered-new p.db.objmeta p.db.objmeta_oid_next i y (entered oid p.info) v at_i is_next
        room in
    rw
      (
        ap (λ z. z.db) (path ∙ done),
        objmeta-trace (entered_db i oid p.info p.db) (entered_msg stray oid p.info),
        objmeta_oid_next-trace (entered_db i oid p.info p.db) (entered_msg stray oid p.info),
        set-set p.db.objmeta i p.info (entered oid p.info),
        next_64 p.db.objmeta_oid_next room,
      )
      ends

writedata-IsNumbered :
    (fl : FloatOps) (h : Handle) (db : LocalData) (now oid : ℕ) (data_p : Block)
    → IsNumbered db
    → IsNumbered (writedata fl h db now oid data_p).db
unfolding writedata commit_block
writedata-IsNumbered fl h db now oid data_p u = elim (Option-cases (findmeta_byid db oid)) [
  | inl missing ↦ rw (missing, writedata) u
  | inr ((i, m), found) ↦
      rw (found, writedata)
        (writedata_found-keeps (λ w. IsNumbered w.db) fl h db (timestamp_now db now) data_p i m
          (λ b e. u) (publish-IsNumbered _ i m (next_slot m) _ u (findmeta-get db oid i m found).0))
]

writedata_ptr_commit-IsNumbered :
    (fl : FloatOps) (h : Handle) (db : LocalData) (now oid a : ℕ)
    → IsNumbered db
    → IsNumbered (writedata_ptr_commit fl h db now oid a).1
unfolding writedata_ptr_commit
writedata_ptr_commit-IsNumbered fl h db now oid a u = elim (Option-cases (findmeta_byid db oid)) [
  | inl missing ↦ rw (missing, writedata_ptr_commit) u
  | inr ((i, m), found) ↦
      rw (found, writedata_ptr_commit)
        (ptr_commit_found-keeps (λ w. IsNumbered w.1) fl h db (timestamp_now db now) a i m (λ e. u)
          (λ b.
            publish-IsNumbered (set_block db a b) i m (next_slot m) (timestamp_now db now) u
              (findmeta-get db oid i m found).0))
]

timestamp_set-IsNumbered :
    (db : LocalData) (new_ts : ℕ) → IsNumbered db → IsNumbered (timestamp_set db new_ts).1
unfolding timestamp_set
timestamp_set-IsNumbered db new_ts u = elim (Bool-cases (not db.simmode)) [
  | inl real ↦ rw real u
  | inr simulated ↦ rw simulated u
]

-- A clear table, whatever the allocator answers.
clear-Numbered : (n : ℕ) → Numbered (replicate n zero_info) 1
clear-Numbered n = record {
  below = λ j x g.
      let free : 0 ≡ x.oid = ap (λ z. z.oid) (get_elem?-replicate n j zero_info x g) in omega arith;
  few = omega arith;
  apart = λ i j m x g g' used same.
      absurd (used (sym (ap (λ z. z.oid) (get_elem?-replicate n i zero_info m g))));
}

local_init-IsNumbered :
    (fl : FloatOps) (al : Allocator) (simmode no_notifies : Bool) (bufsize heap_size : ℕ)
    → IsNumbered (local_init fl al (booted simmode no_notifies bufsize) heap_size)
unfolding local_init mem_alloc mem_init
local_init-IsNumbered fl al simmode no_notifies bufsize heap_size =
    elim (Option-cases (al.alloc [] 2)) [
      | inl fails ↦ rw (fails, local_init) (clear-Numbered obj_max)
      | inr (idx, gives) ↦ rw (gives, local_init) (clear-Numbered obj_max)
    ]

module _ (fl : FloatOps) (al : Allocator) (refusals : Bool) where
  Step-IsNumbered :
      (db db' : LocalData) → IsNumbered db → Step fl al refusals db db' → IsNumbered db'
  Step-IsNumbered db _ u (inserts h stray now new oid success) =
      insert-IsNumbered fl al h stray db now new oid u success
  Step-IsNumbered db _ u (refused h stray now new x k e ids _) =
      elim (insert-refused fl al h stray db now new x k e ids) [
        | inl (_, same) ↦ subst IsNumbered (sym same) u
        | inr (_, (same, same_next)) ↦ rw (same, same_next) u
      ]
  Step-IsNumbered db _ u (changes h now oid new) = changeinfo-IsNumbered fl h db now oid new u
  Step-IsNumbered db _ u (deletes h now stray stack f oid imm r _ e) =
      delete_imm-IsNumbered h now stray stack f db oid imm r u e
  Step-IsNumbered db _ u (commits h now oid data_p) = writedata-IsNumbered fl h db now oid data_p u
  Step-IsNumbered db _ u (begins h oid) =
      begin_keeps (λ w. IsNumbered w.1) h db oid (λ r. u) (λ r a b. u)
  Step-IsNumbered db _ u (commits_in_place h now oid a) =
      writedata_ptr_commit-IsNumbered fl h db now oid a u
  Step-IsNumbered db _ u (purges now) = purge_objs-IsNumbered fl db now u
  Step-IsNumbered db _ u (traces on) = u
  Step-IsNumbered db _ u (sets_time new_ts) = timestamp_set-IsNumbered db new_ts u

  Reachable-IsNumbered : (n : ℕ) (db : LocalData) → Reachable fl al refusals n db → IsNumbered db
  Reachable-IsNumbered n _ (starts simmode no_notifies bufsize) =
      local_init-IsNumbered fl al simmode no_notifies bufsize n
  Reachable-IsNumbered n db' (goes_on {db} r step) =
      Step-IsNumbered db db' (Reachable-IsNumbered n db r) step

  -- Whatever the processes do, in whatever order, insertions that are refused included, as long as
  -- each insertion finds an id left and the object number 0 is not deleted: no two objects in the
  -- table, deleted ones that were not purged yet included, have the same id, so that a search by the id
  -- of an object finds this object. All ids are below the counter of ids, which is at most 2 ^ 31, so
  -- that an id is a positive number of 32 bits.
  pub Reachable-HasIds :
      (n : ℕ) (db : LocalData)
      → Reachable fl al refusals n db
      → ((i : ℕ) (m : ObjInfo)
          → get_elem? db.objmeta i ≡ some m
          → m.oid ≢ 0
          → findmeta_byid db m.oid ≡ some (i, m))
        × ((i : ℕ) (m : ObjInfo) → get_elem? db.objmeta i ≡ some m → m.oid < db.objmeta_oid_next)
        × (db.objmeta_oid_next ≤ 2 ^ 31)
  Reachable-HasIds n db r =
      let u = Reachable-IsNumbered n db r in (Numbered-HasIds db u, u.below, u.few)
