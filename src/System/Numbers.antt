-- ===== src/System/Numbers.antt =====
-- The numbers of objects: no two objects have the same, and new ones are yet to come. What a write to
-- one slot of the table keeps of that.
use kogmo_rtdb.Base.{
  ℕ, zero, suc, ◌+◌, ◌^◌, ◌≤◌, ◌<◌, ◌≡◌, ◌≢◌, ◌⊎◌, refl, sym, ap, ◌∙◌, arith, ◌==◌, List, [], ◌∷◌,
  some, set, false, get_elem?, inl, inr, Bool-cases,
}
use mathlib.Core.Option.{some-injective, none-ne-some}
use kogmo_rtdb.Types.{LocalData, ObjInfo}
use kogmo_rtdb.Meta.{find_from, findmeta_byid}
use kogmo_rtdb.Meta.Find.{find_from_lem}
use kogmo_rtdb.Memory.Balance.{get_elem?-set}
use kogmo_rtdb.Insert.Unique.{HasIds}

-- Ids are below the counter, which fits a signed 32-bit number or is just past them, and no two slots
-- share one.
pub record Numbered (ms : List ObjInfo) (next : ℕ) : Type 0 where
  pub below : (j : ℕ) (x : ObjInfo) → get_elem? ms j ≡ some x → x.oid < next
  pub few : next ≤ 2 ^ 31
  pub apart :
      (i j : ℕ) (m n : ObjInfo)
      → get_elem? ms i ≡ some m
      → get_elem? ms j ≡ some n
      → m.oid ≢ 0
      → m.oid ≡ n.oid
      → i ≡ j

abbrev pub IsNumbered : LocalData → Type 0
IsNumbered db = Numbered db.objmeta db.objmeta_oid_next

-- A slot keeps its id, or becomes free.
pub Numbered-set :
    (ms : List ObjInfo) (next i : ℕ) (m m' : ObjInfo)
    → Numbered ms next
    → get_elem? ms i ≡ some m
    → (m'.oid ≡ m.oid) ⊎ (m'.oid ≡ 0)
    → Numbered (set ms i m') next
Numbered-set ms next i m m' u e oids = record {
  below = λ j x g. elim (get_elem?-set ms i j m m' x e g) [
    | inl (_, q) ↦ rw q below'
    | inr (_, g') ↦ u.below j x g'
  ];
  few = u.few;
  apart = λ j k x y g g' used same.
      let (x', at_x, x_same) = before j x g used in
      let (y', at_y, y_same) = before k y g' (λ z. used (same ∙ z)) in
      u.apart j k x' y' at_x at_y (λ z. used (sym x_same ∙ z)) (x_same ∙ same ∙ sym y_same);
}
  where
    below' : m'.oid < next
    below' = elim oids [
      | inl kept ↦ rw kept (u.below i m e)
      | inr free ↦ omega (arith, u.below i m e)
    ]

    before :
        (j : ℕ) (x : ObjInfo)
        → get_elem? (set ms i m') j ≡ some x
        → x.oid ≢ 0
        → (x' : ObjInfo) × (get_elem? ms j ≡ some x') × (x'.oid ≡ x.oid)
    before j x g used = elim (get_elem?-set ms i j m m' x e g) [
      | inr (_, g') ↦ (x, g', refl)
      | inl (p, q) ↦ elim oids [
        | inl kept ↦ (m, rw (sym p) e, sym kept ∙ ap (λ z. z.oid) (sym q))
        | inr free ↦ absurd (used (ap (λ z. z.oid) q ∙ free))
      ]
    ]

-- A slot takes the next id.
pub Numbered-new :
    (ms : List ObjInfo) (next i : ℕ) (m m' : ObjInfo)
    → Numbered ms next
    → get_elem? ms i ≡ some m
    → m'.oid ≡ next
    → next < 2 ^ 31
    → Numbered (set ms i m') (next + 1)
Numbered-new ms next i m m' u e is_next room = record {
  below = λ j x g. elim (get_elem?-set ms i j m m' x e g) [
    | inl (_, q) ↦ let new : x.oid ≡ next = ap (λ z. z.oid) q ∙ is_next in omega arith
    | inr (_, g') ↦ omega (arith, u.below j x g')
  ];
  few = omega arith;
  apart = λ j k x y g g' used same. elim (get_elem?-set ms i j m m' x e g) [
    | inl (p, q) ↦ elim (get_elem?-set ms i k m m' y e g') [
      | inl (p', _) ↦ sym p ∙ p'
      | inr (_, h) ↦
          let new : x.oid ≡ next = ap (λ z. z.oid) q ∙ is_next in
          absurd (omega (arith, u.below k y h))
    ]
    | inr (_, h) ↦ elim (get_elem?-set ms i k m m' y e g') [
      | inl (_, q) ↦
          let new : y.oid ≡ next = ap (λ z. z.oid) q ∙ is_next in
          absurd (omega (arith, u.below j x h))
      | inr (_, h') ↦ u.apart j k x y h h' used same
    ]
  ];
}

find_from-get :
    (ms : List ObjInfo) (i k : ℕ) (m : ObjInfo)
    → get_elem? ms i ≡ some m
    → (j : ℕ) × (n : ObjInfo) × (find_from ms k m.oid ≡ some (j, n))
unfolding find_from
find_from-get [] i k m e = absurd (none-ne-some m e)
find_from-get (x ∷ ms) i k m e = elim (Bool-cases (x.oid == m.oid)) [
  | inl hit ↦ (k, x, rw hit refl)
  | inr miss ↦
      let (j, n, p) = find_from-get ms (later i) (suc k) m (rest i e miss) in (j, n, rw miss p)
]
  where
    later : ℕ → ℕ
    later zero = zero
    later (suc i) = i

    rest :
        (i : ℕ)
        → get_elem? (x ∷ ms) i ≡ some m
        → (x.oid == m.oid) ≡ false
        → get_elem? ms (later i) ≡ some m
    rest zero q miss = ground arith
    rest (suc i) q miss = q

-- A search by id finds every object.
pub Numbered-HasIds : (db : LocalData) → IsNumbered db → HasIds db
unfolding findmeta_byid
Numbered-HasIds db u i m e used =
    let (j, n, found) = find_from-get db.objmeta i 0 m e in
    let (k, p, at_k, is_oid) = find_from_lem db.objmeta 0 m.oid j n found in
    let here : i ≡ k = u.apart i k m n e at_k used (sym is_oid) in
    let same : m ≡ n = some-injective m n (sym e ∙ rw here at_k) in
    found ∙ ap some (rw same (ap (λ z. (z, n)) (omega arith)))
