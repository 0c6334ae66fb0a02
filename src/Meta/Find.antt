-- ===== src/Meta/Find.antt =====
-- The search for an object's slot, on the list of slots.
use kogmo_rtdb.Base.{
  ℕ, zero, suc, ◌+◌, ◌≡◌, ◌≢◌, inl, inr, List, [], ◌∷◌, some, set, get_elem?, arith, Bool-cases,
  ◌==◌,
}
use kogmo_rtdb.Types.{LocalData, ObjInfo}
use kogmo_rtdb.Meta.{find_from, findmeta_byid, put_meta}

-- What is found is an id's slot, and its content.
pub find_from_lem :
    (ms : List ObjInfo) (i oid : ℕ) (j : ℕ) (m : ObjInfo)
    → find_from ms i oid ≡ some (j, m)
    → (k : ℕ) × (j ≡ i + k) × (get_elem? ms k ≡ some m) × (m.oid ≡ oid)
unfolding find_from
find_from_lem [] i oid j m e = ground arith
find_from_lem (x ∷ ms) i oid j m e = elim (Bool-cases (x.oid == oid)) [
  | inl hit ↦ (0, ground arith, ground arith, ground arith)
  | inr miss ↦
      let (k, p, q, r) = find_from_lem ms (suc i) oid j m (ground arith) in
      (suc k, omega arith, q, r)
]

pub findmeta-get :
    (db : LocalData) (oid i : ℕ) (m : ObjInfo)
    → findmeta_byid db oid ≡ some (i, m)
    → (get_elem? db.objmeta i ≡ some m) × (m.oid ≡ oid)
unfolding findmeta_byid
findmeta-get db oid i m e =
    let (k, p, q, r) = find_from_lem db.objmeta 0 oid i m e in
    let p' : i ≡ k = omega arith in (rw p' q, r)

-- A slot that keeps its id when it is written is found again, with its new content.
pub find_from-set :
    (ms : List ObjInfo) (i oid k : ℕ) (m m' : ObjInfo)
    → find_from ms i oid ≡ some (i + k, m)
    → m'.oid ≡ oid
    → find_from (set ms k m') i oid ≡ some (i + k, m')
unfolding find_from
find_from-set [] i oid k m m' e h = ground arith
find_from-set (x ∷ ms) i oid zero m m' e h = ground arith
find_from-set (x ∷ ms) i oid (suc k) m m' e h = ground (arith, find_from-set ms (suc i) oid k m m')

pub findmeta-put :
    (db : LocalData) (oid i : ℕ) (m m' : ObjInfo)
    → findmeta_byid db oid ≡ some (i, m)
    → m'.oid ≡ oid
    → findmeta_byid (put_meta db i m') oid ≡ some (i, m')
unfolding findmeta_byid
findmeta-put db oid i m m' e h = ground (arith, find_from-set db.objmeta 0 oid i m m')

-- A write to a slot with another id leaves what is found alone.
pub find_from-set_other :
    (ms : List ObjInfo) (i oid k : ℕ) (m m' : ObjInfo)
    → get_elem? ms k ≡ some m
    → m.oid ≢ oid
    → m'.oid ≢ oid
    → find_from (set ms k m') i oid ≡ find_from ms i oid
unfolding find_from
find_from-set_other [] i oid k m m' e h h' = ground arith
find_from-set_other (x ∷ ms) i oid zero m m' e h h' = ground arith
find_from-set_other (x ∷ ms) i oid (suc k) m m' e h h' = elim (Bool-cases (x.oid == oid)) [
  | inl hit ↦ rw hit
  | inr miss ↦ rw miss (find_from-set_other ms (suc i) oid k m m' e h h')
]
