-- ===== src/Remove/Change.antt =====
-- kogmo_rtdb_obj_changeinfo of rtdb/kogmo_rtdb_objmeta.c: what is read after a change, and the books.
use kogmo_rtdb.Base.{
  ℕ, ◌-◌, ◌≡◌, ◌≢◌, refl, sym, ap, ◌∙◌, arith, Bool, true, false, not, ◌==◌, if◌then◌else◌, take,
  length, [], ◌∷◌, some, inl, inr, Bool-cases, Option-cases, set,
}
use mathlib.Core.Bool.{true≢false}
use kogmo_rtdb.Types.{LocalData, ObjInfo, Handle, Name, name_maxlen, ok}
use kogmo_rtdb.Floats.{FloatOps}
use kogmo_rtdb.Meta.{findmeta_byid, put_meta}
use kogmo_rtdb.Meta.Find.{findmeta-get, findmeta-put, find_from-set_other}
use kogmo_rtdb.Meta.Sent.{objmeta-trace}
use kogmo_rtdb.Time.{timestamp_now}
use kogmo_rtdb.Memory.Balance.{IsBalanced}
use kogmo_rtdb.Memory.Steps.{books-change}
use kogmo_rtdb.Remove.Books.{trace-IsBalanced}
use kogmo_rtdb.Remove.{readinfo, changed_info, changeinfo}

findmeta-objmeta :
    (d d' : LocalData) (oid : ℕ)
    → d.objmeta ≡ d'.objmeta
    → findmeta_byid d oid ≡ findmeta_byid d' oid
unfolding findmeta_byid
findmeta-objmeta d d' oid e = rw e

readinfo-findmeta :
    (d d' : LocalData) (oid ts : ℕ)
    → findmeta_byid d oid ≡ findmeta_byid d' oid
    → readinfo d oid ts ≡ readinfo d' oid ts
unfolding readinfo
readinfo-findmeta d d' oid ts e = rw (e, readinfo) refl

readinfo_lem :
    (d : LocalData) (oid i : ℕ) (m : ObjInfo)
    → findmeta_byid d oid ≡ some (i, m)
    → m.deleted_ts ≡ 0
    → readinfo d oid 0 ≡ ok m
unfolding readinfo
readinfo_lem d oid i m found alive = rw (found, readinfo) (ground (arith, alive))

-- A field after a change: the new value, where one is given.
abbrev Takes {ℓ} : {A : Type ℓ} → Bool → A → A → A → Type ℓ
Takes given new old x = (given ≡ true → x ≡ new) × (given ≡ false → x ≡ old)

-- What a change at the time `ts` makes of the metadata `m`: the name, the type, the parent, both
-- cycle times and the history are those of `new` where `new` has a name that is not empty, or a
-- number above 0; else they stay, and so does every field but the mark of the modification.
pub record IsChanged (fl : FloatOps) (h : Handle) (ts : ℕ) (new m x : ObjInfo) : Type 0 where
  pub named : Takes (not (length new.name == 0)) (take (name_maxlen - 1) new.name) m.name x.name
  pub typed : Takes (not (new.otype == 0)) new.otype m.otype x.otype
  pub moved : Takes (not (new.parent_oid == 0)) new.parent_oid m.parent_oid x.parent_oid
  pub slowest : Takes (fl.lt 0 new.max_cycletime) new.max_cycletime m.max_cycletime x.max_cycletime
  pub fastest : Takes (fl.lt 0 new.min_cycletime) new.min_cycletime m.min_cycletime x.min_cycletime
  pub kept_for :
      Takes
        (fl.lt 0 new.history_interval)
        new.history_interval
        m.history_interval
        x.history_interval
  pub marked : (x.lastmodified_ts ≡ ts) × (x.lastmodified_proc ≡ h.proc_oid)
  pub same_id : x.oid ≡ m.oid
  pub same_life :
      (x.created_ts ≡ m.created_ts)
      × (x.created_proc ≡ m.created_proc)
      × (x.deleted_ts ≡ m.deleted_ts)
      × (x.deleted_proc ≡ m.deleted_proc)
  pub same_flags : x.flags ≡ m.flags
  pub same_ring :
      (x.size_max ≡ m.size_max)
      × (x.history_size ≡ m.history_size)
      × (x.history_slot ≡ m.history_slot)
      × (x.buffer_idx ≡ m.buffer_idx)

if-Takes {ℓ} :
    {A : Type ℓ} → (given : Bool) (new old : A) → Takes given new old (if given then new else old)
if-Takes true new old = ((λ p. refl), λ p. absurd (true≢false p))
if-Takes false new old = ((λ p. absurd (true≢false (sym p))), λ p. refl)

zero-Takes : (n old : ℕ) → Takes (not (n == 0)) n old (if n == 0 then old else n)
zero-Takes n old = elim (Bool-cases (n == 0)) [
  | inl is_0 ↦ rw is_0 ((λ p. absurd (true≢false (sym p))), λ p. refl)
  | inr given ↦ rw given ((λ p. refl), λ p. absurd (true≢false p))
]

name-Takes :
    (new old : Name)
    → Takes
        (not (length new == 0))
        (take (name_maxlen - 1) new)
        old
        (elim new [ [] ↦ old | c ∷ cs ↦ take (name_maxlen - 1) (c ∷ cs) ])
name-Takes [] old = ((λ p. absurd (true≢false (sym p))), λ p. refl)
name-Takes (c ∷ cs) old = ((λ p. refl), λ p. absurd (ground (arith, p)))

changed_info-IsChanged :
    (fl : FloatOps) (h : Handle) (ts : ℕ) (new m : ObjInfo)
    → IsChanged fl h ts new m (changed_info fl h ts new m)
unfolding changed_info
changed_info-IsChanged fl h ts new m = record {
  named = name-Takes new.name m.name;
  typed = zero-Takes new.otype m.otype;
  moved = zero-Takes new.parent_oid m.parent_oid;
  slowest = if-Takes (fl.lt 0 new.max_cycletime) new.max_cycletime m.max_cycletime;
  fastest = if-Takes (fl.lt 0 new.min_cycletime) new.min_cycletime m.min_cycletime;
  kept_for = if-Takes (fl.lt 0 new.history_interval) new.history_interval m.history_interval;
  marked = (refl, refl);
  same_id = refl;
  same_life = (refl, refl, refl, refl);
  same_flags = refl;
  same_ring = (refl, refl, refl, refl);
}

module _ (fl : FloatOps) (h : Handle) (db : LocalData) (now oid : ℕ) (new : ObjInfo) where
  abbrev written : ObjInfo → ObjInfo
  written m = changed_info fl h (timestamp_now db now) new m

  abbrev after : LocalData
  after = (changeinfo fl h db now oid new).1

  -- An accepted change writes one slot of the table.
  changeinfo_lem :
      (i : ℕ) (m : ObjInfo)
      → h.is_admin ≡ true
      → findmeta_byid db oid ≡ some (i, m)
      → ((changeinfo fl h db now oid new).0 ≡ ok m.oid)
        × ((changeinfo fl h db now oid new).1.objmeta ≡ set db.objmeta i (written m))
  unfolding changeinfo changed_info
  changeinfo_lem i m admin found = (rw (admin, found) refl, rw (admin, found) (objmeta-trace _ _))

  -- A change that an administrator makes to an object that is not deleted answers the object's id.
  -- Reading the object's metadata then gives what the fields of the new metadata that are not 0 or
  -- empty make of the old, with the caller and the time as its last modification and all else as
  -- before; and reading those of an object with another id, at any time, gives what it gave before.
  pub readinfo-changeinfo :
      (i : ℕ) (m : ObjInfo) (other ts : ℕ)
      → h.is_admin ≡ true
      → findmeta_byid db oid ≡ some (i, m)
      → m.deleted_ts ≡ 0
      → other ≢ oid
      → let r = changeinfo fl h db now oid new in
        (r.0 ≡ ok oid)
        × ((x : ObjInfo) × (readinfo r.1 oid 0 ≡ ok x)
            × IsChanged fl h (timestamp_now db now) new m x)
        × (readinfo r.1 other ts ≡ readinfo db other ts)
  unfolding changed_info findmeta_byid
  readinfo-changeinfo i m other ts admin found alive ne =
      let (code, slots) = changeinfo_lem i m admin found in
      let (at_i, is_oid) = findmeta-get db oid i m found in
      (
        code ∙ ap ok is_oid,
        (
          written m,
          readinfo-findmeta after (put_meta db i (written m)) oid 0
                (findmeta-objmeta after (put_meta db i (written m)) oid slots)
              ∙ readinfo_lem (put_meta db i (written m)) oid i (written m)
                  (findmeta-put db oid i m (written m) found is_oid) alive,
          changed_info-IsChanged fl h (timestamp_now db now) new m,
        ),
        readinfo-findmeta after db other ts (
            findmeta-objmeta after (put_meta db i (written m)) other slots
            ∙ find_from-set_other db.objmeta 0 other i m (written m) at_i (λ p. ne (sym p ∙ is_oid))
                (λ p. ne (sym p ∙ is_oid))),
      )

  -- Whatever a change of metadata answers, it keeps the books.
  pub changeinfo-IsBalanced :
      (extra : ℕ) → IsBalanced extra db → IsBalanced extra (changeinfo fl h db now oid new).1
  unfolding changeinfo changed_info
  changeinfo-IsBalanced extra b = elim (Bool-cases h.is_admin) [
    | inr guest ↦ rw guest b
    | inl admin ↦ elim (Option-cases (findmeta_byid db oid)) [
      | inl missing ↦ rw (admin, missing) b
      | inr ((i, m), found) ↦
          rw (admin, found)
            (trace-IsBalanced extra _ _ (
              books-change extra db.objmeta _ _ _ _ _ i m (written m) b
                (findmeta-get db oid i m found).0 (λ o. (o, refl, refl)) refl refl))
    ]
  ]
