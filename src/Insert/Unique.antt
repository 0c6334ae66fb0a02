-- ===== src/Insert/Unique.antt =====
-- What the check for uniqueness makes sure of.
use kogmo_rtdb.Base.{
  ℕ, zero, suc, ◌+◌, ◌≤◌, ◌<◌, ◌≡◌, ◌≢◌, refl, sym, ap, ◌∙◌, arith, Bool, true, false, ◌==◌, ◌||◌,
  ◌&&◌, take, List, [], ◌∷◌, some, none, get_elem?, inl, inr, length, Bool-cases, subst,
}
use mathlib.Core.Option.{some-injective, none-ne-some}
use mathlib.Core.Bool.{true≢false}
use kogmo_rtdb.Types.{LocalData, ObjInfo, Handle, ok}
use kogmo_rtdb.Floats.{FloatOps}
use kogmo_rtdb.Meta.{findmeta_byid, objmeta_lock, objmeta_unlock}
use kogmo_rtdb.Memory.{Allocator}
use kogmo_rtdb.Time.{timestamp_now}
use kogmo_rtdb.Search.{name_eq, Query, skips, searchinfo}
use kogmo_rtdb.Search.Nth.{matching, searchinfo_full-get}
use kogmo_rtdb.Insert.{init_meta, Place, ring_bytes_of, has_clash, clashes, of_type, insert}
use kogmo_rtdb.Insert.Slots.{find_place_lem, taken, allocated}
use kogmo_rtdb.Insert.Success.{insert_lem}

-- No two slots have an id in common.
abbrev pub HasIds : LocalData → Type 0
HasIds db =
    (i : ℕ) (m : ObjInfo)
    → get_elem? db.objmeta i ≡ some m
    → m.oid ≢ 0
    → findmeta_byid db m.oid ≡ some (i, m)

-- A match stands in a slot, and what a query does not skip is a match.
matching-slot :
    (q : Query) (ms : List ObjInfo) (k : ℕ) (m : ObjInfo)
    → get_elem? (matching q ms) k ≡ some m
    → (i : ℕ) × (get_elem? ms i ≡ some m) × (skips q m ≡ false)
matching-slot q [] k m e = absurd (none-ne-some m e)
matching-slot q (x ∷ ms) zero m e = elim (Bool-cases (skips q x)) [
  | inl skip ↦ let (i, p, s) = matching-slot q ms zero m (rw skip at e) in (suc i, p, s)
  | inr take ↦
      let same : x ≡ m = some-injective x m (rw take at e) in (0, ap some same, rw (sym same) take)
]
matching-slot q (x ∷ ms) (suc k) m e = elim (Bool-cases (skips q x)) [
  | inl skip ↦ let (i, p, s) = matching-slot q ms (suc k) m (rw skip at e) in (suc i, p, s)
  | inr take ↦ let (i, p, s) = matching-slot q ms k m (rw take at e) in (suc i, p, s)
]

slot-matching :
    (q : Query) (ms : List ObjInfo) (i : ℕ) (m : ObjInfo)
    → get_elem? ms i ≡ some m
    → skips q m ≡ false
    → (k : ℕ) × (get_elem? (matching q ms) k ≡ some m) × (k ≤ i)
slot-matching q [] i m e s = absurd (none-ne-some m e)
slot-matching q (x ∷ ms) zero m e s =
    let same : x ≡ m = some-injective x m e in
    let hit : skips q x ≡ false = rw same s in (0, rw hit e, omega arith)
slot-matching q (x ∷ ms) (suc i) m e s =
    let (k, p, le) = slot-matching q ms i m e s in
    elim (Bool-cases (skips q x)) [
      | inl skip ↦ (k, rw skip p, omega arith)
      | inr hit ↦ (suc k, rw hit p, omega arith)
    ]

get_elem?-earlier :
    (ms : List ObjInfo) (j k : ℕ) (m : ObjInfo)
    → get_elem? ms (j + k) ≡ some m
    → (x : ObjInfo) × (get_elem? ms j ≡ some x)
get_elem?-earlier [] j k m e = absurd (none-ne-some m e)
get_elem?-earlier (x ∷ ms) zero k m e = (x, refl)
get_elem?-earlier (x ∷ ms) (suc j) k m e =
    let p : suc j + k ≡ suc (j + k) = omega arith in get_elem?-earlier ms j k m (rw p at e)

-- A match has an id.
skips-oid : (q : Query) (m : ObjInfo) → skips q m ≡ false → m.oid ≢ 0
unfolding skips
skips-oid q m s = ground arith

or-false : (a b : Bool) → (a || b) ≡ false → (a ≡ false) × (b ≡ false)
or-false true b e = (e, absurd (true≢false e))
or-false false b e = (refl, e)

-- One round of the check meets the match at its place.
has_clash-step :
    (n j : ℕ) (new : ObjInfo) (db : LocalData) (x : ObjInfo)
    → HasIds db
    → get_elem? (matching (of_type new.otype) db.objmeta) j ≡ some x
    → has_clash (suc n) (suc j) new db ≡ (clashes new x || has_clash n (suc (suc j)) new db)
unfolding has_clash searchinfo
has_clash-step n j new db x ids e =
    let (i, at_i, s) = matching-slot (of_type new.otype) db.objmeta j x e in
    let pos = skips-oid (of_type new.otype) x s in
    let found : (searchinfo db (of_type new.otype) none (suc j)).0 ≡ ok x.oid =
      searchinfo_full-get db (of_type new.otype) j ∙ rw e refl in
    let there = ids i x at_i pos in
    let named : (x.oid == 0) ≡ false = ground arith in rw (found, named, there, has_clash) refl

has_clash-all :
    (n j k : ℕ) (new : ObjInfo) (db : LocalData) (m : ObjInfo)
    → HasIds db
    → has_clash n (suc j) new db ≡ false
    → get_elem? (matching (of_type new.otype) db.objmeta) (j + k) ≡ some m
    → k < n
    → clashes new m ≡ false
has_clash-all zero j k new db m ids no_clash e lt = absurd (omega arith)
has_clash-all (suc n) j zero new db m ids no_clash e lt =
    let p : j + 0 ≡ j = omega arith in
    (or-false (clashes new m) (has_clash n (suc (suc j)) new db)
      (sym (has_clash-step n j new db m ids (rw p at e)) ∙ no_clash)).0
has_clash-all (suc n) j (suc k) new db m ids no_clash e lt =
    let (x, at_j) = get_elem?-earlier (matching (of_type new.otype) db.objmeta) j (suc k) m e in
    let p : j + suc k ≡ suc j + k = omega arith in
    has_clash-all n (suc j) k new db m ids
      (or-false (clashes new x) (has_clash n (suc (suc j)) new db)
        (sym (has_clash-step n j new db x ids at_j) ∙ no_clash)).1
      (rw p at e) (omega arith)

get_elem?-lt : (ms : List ObjInfo) (i : ℕ) (m : ObjInfo) → get_elem? ms i ≡ some m → i < length ms
get_elem?-lt [] i m e = absurd (none-ne-some m e)
get_elem?-lt (x ∷ ms) zero m e = omega arith
get_elem?-lt (x ∷ ms) (suc i) m e = omega (arith, get_elem?-lt ms i m e)

-- The check as a whole.
has_clash-none :
    (new : ObjInfo) (db : LocalData) (i : ℕ) (x : ObjInfo)
    → HasIds db
    → has_clash (length db.objmeta) 1 new db ≡ false
    → get_elem? db.objmeta i ≡ some x
    → skips (of_type new.otype) x ≡ false
    → clashes new x ≡ false
has_clash-none new db i x ids no_clash at_i s =
    let (k, e, le) = slot-matching (of_type new.otype) db.objmeta i x at_i s in
    let p : k ≡ 0 + k = omega arith in
    has_clash-all (length db.objmeta) 0 k new db x ids no_clash
      (subst (λ z. get_elem? (matching (of_type new.otype) db.objmeta) z ≡ some x) p e)
      (omega (arith, get_elem?-lt db.objmeta i x at_i))

-- After an insertion that succeeds, no object of the same type that was there has the new object's
-- name, if one of the two is meant to be unique. A type 0 stands for all types. No two slots had
-- an id in common.
pub insert-unique :
    (fl : FloatOps) (al : Allocator) (h : Handle) (stray : ℕ) (db : LocalData) (now : ℕ)
    (new : ObjInfo) (oid i : ℕ) (x : ObjInfo)
    → HasIds db
    → (insert fl al h stray db now new).code ≡ ok oid
    → get_elem? db.objmeta i ≡ some x
    → skips (of_type new.otype) x ≡ false
    → name_eq (take 31 new.name) x.name ≡ true
    → (x.flags.unique ≡ false) × (new.flags.unique ≡ false)
unfolding init_meta findmeta_byid
insert-unique fl al h stray db now new oid i x ids success at_i s same =
    let (j, slot, no_clash, _) = insert_lem fl al h stray db now new oid success in
    let m = init_meta fl h (timestamp_now db now) new in
    elim (find_place_lem fl al h (timestamp_now db now) m (objmeta_lock db) j slot) [
      | inl (y, _, _, q) ↦
          alone (has_clash-none _ (objmeta_lock db) i x ids (at_place q no_clash) at_i s)
      | inr (_, inl (_, q)) ↦
          alone (has_clash-none _ (taken (objmeta_lock db)) i x ids (at_place q no_clash) at_i s)
      | inr (_, inr (idx, _, q)) ↦ alone (
          has_clash-none _
            (taken
              (objmeta_lock (allocated (objmeta_unlock (objmeta_lock db)) (ring_bytes_of m) idx)))
            i x ids (at_place q no_clash) at_i s)
    ]
  where
    at_place :
        {p p' : Place}
        → p ≡ p'
        → has_clash (length p.db.objmeta) 1 p.info p.db ≡ false
        → has_clash (length p'.db.objmeta) 1 p'.info p'.db ≡ false
    at_place q e = subst (λ p. has_clash (length p.db.objmeta) 1 p.info p.db ≡ false) q e

    alone :
        (name_eq (take 31 new.name) x.name && (x.flags.unique || new.flags.unique)) ≡ false
        → (x.flags.unique ≡ false) × (new.flags.unique ≡ false)
    alone e = or-false x.flags.unique new.flags.unique (rw same at e)
