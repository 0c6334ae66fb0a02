-- ===== src/OidMap/Laws.antt =====
-- The map as a finite function from ids to entries.
use kogmo_rtdb.Base.{
  ℕ, ◌≡◌, ◌≢◌, refl, sym, ◌∙◌, arith, false, ◌==◌, List, [], ◌∷◌, none, some, inl, inr, Bool-cases,
  Option-cases, take, if◌then◌else◌,
}
use mathlib.Core.Option.{some-injective, none-ne-some}
use kogmo_rtdb.Types.{Name}
use kogmo_rtdb.OidMap.{Entry, map_del, fill_free, map_add, find_entry}

-- No two entries have a source in common.
abbrev pub IsMap : List Entry → Type 0
IsMap [] = Unit {0}
IsMap (e ∷ es) = (e.src ≢ 0 → find_entry es e.src ≡ none) × IsMap es

-- A deleted id is not mapped any more, and every other id as before. Ids are not 0, and no two
-- entries have an id in common.
find_entry-del :
    (m : List Entry) (src k : ℕ)
    → IsMap m
    → src ≢ 0
    → k ≢ 0
    → find_entry (map_del m src).1 k ≡ (if k == src then none else find_entry m k)
unfolding find_entry map_del
find_entry-del [] src k u p q = ground arith
find_entry-del (e ∷ es) src k u p q = elim (Bool-cases (e.src == src)) [
  | inl hit ↦ elim (Bool-cases (k == src)) [
    | inl same ↦
        let at_k : e.src ≡ k = ground arith in
        let gone : find_entry es k ≡ none = rw (sym at_k) (u.0 (λ z. p (ground arith))) in
        rw (hit, not_free, same) gone
    | inr other ↦
        let not_here : (e.src == k) ≡ false = ground arith in rw (hit, not_free, other, not_here)
  ]
  | inr miss ↦ elim (Bool-cases (e.src == k)) [
    | inl here ↦ let other : (k == src) ≡ false = ground arith in rw (miss, here, other)
    | inr not_here ↦ rw (miss, not_here) (find_entry-del es src k u.1 p q)
  ]
]
  where
    not_free : (0 == k) ≡ false
    not_free = ground arith

find_entry-del_none :
    (m : List Entry) (src k : ℕ)
    → k ≢ 0
    → find_entry m k ≡ none
    → find_entry (map_del m src).1 k ≡ none
unfolding find_entry map_del
find_entry-del_none [] src k q h = refl
find_entry-del_none (e ∷ es) src k q h = ground (arith, find_entry-del_none es src k)

IsMap-del : (m : List Entry) (src : ℕ) → IsMap m → IsMap (map_del m src).1
unfolding map_del
IsMap-del [] src u = tt
IsMap-del (e ∷ es) src u = elim (Bool-cases (e.src == src)) [
  | inl hit ↦ rw hit ((λ p. absurd (p refl)), u.1)
  | inr miss ↦ rw miss ((λ p. find_entry-del_none es src e.src p (u.0 p)), IsMap-del es src u.1)
]

find_entry-fill :
    (m m' : List Entry) (new : Entry) (k : ℕ)
    → fill_free m new ≡ some m'
    → find_entry m new.src ≡ none
    → new.src ≢ 0
    → k ≢ 0
    → find_entry m' k ≡ (if k == new.src then some new else find_entry m k)
unfolding find_entry fill_free
find_entry-fill [] m' new k e absent p q = absurd (none-ne-some m' e)
find_entry-fill (x ∷ xs) m' new k e absent p q = elim (Bool-cases (x.src == 0)) [
  | inl free ↦
      let same : new ∷ xs ≡ m' = some-injective _ m' (rw free at e) in
      let passed : (x.src == k) ≡ false = ground arith in rw (sym same) (at_front k q passed)
  | inr busy ↦ elim (Option-cases (fill_free xs new)) [
    | inl full ↦ absurd (none-ne-some m' (rw (busy, full) at e))
    | inr (r, filled) ↦
        let same : x ∷ r ≡ m' = some-injective _ m' (rw (busy, filled) at e) in
        rw (sym same) (behind x.src r (find_entry-fill xs r new k filled) absent)
  ]
]
  where
    at_front :
        (k : ℕ)
        → k ≢ 0
        → (x.src == k) ≡ false
        → find_entry (new ∷ xs) k ≡ (if k == new.src then some new else find_entry (x ∷ xs) k)
    at_front k q passed = ground arith

    behind :
        (s : ℕ) (r : List Entry)
        → (find_entry xs new.src ≡ none
            → new.src ≢ 0
            → k ≢ 0
            → find_entry r k ≡ (if k == new.src then some new else find_entry xs k))
        → find_entry (x ∷ xs) new.src ≡ none
        → find_entry (x ∷ r) k ≡ (if k == new.src then some new else find_entry (x ∷ xs) k)
    behind s r rest absent = ground arith

IsMap-fill :
    (m m' : List Entry) (new : Entry)
    → fill_free m new ≡ some m'
    → find_entry m new.src ≡ none
    → new.src ≢ 0
    → IsMap m
    → IsMap m'
unfolding find_entry fill_free
IsMap-fill [] m' new e absent p u = absurd (none-ne-some m' e)
IsMap-fill (x ∷ xs) m' new e absent p u = elim (Bool-cases (x.src == 0)) [
  | inl free ↦
      let same : new ∷ xs ≡ m' = some-injective _ m' (rw free at e) in
      let rest : find_entry xs new.src ≡ none = ground arith in rw (sym same) ((λ q. rest), u.1)
  | inr busy ↦ elim (Option-cases (fill_free xs new)) [
    | inl full ↦ absurd (none-ne-some m' (rw (busy, full) at e))
    | inr (r, filled) ↦
        let same : x ∷ r ≡ m' = some-injective _ m' (rw (busy, filled) at e) in
        let rest : find_entry xs new.src ≡ none = ground arith in
        let ne : (x.src == new.src) ≡ false = ground arith in
        rw (sym same) (
          (λ q. find_entry-fill xs r new x.src filled rest p q ∙ rw ne (u.0 q)),
          IsMap-fill xs r new filled rest p u.1,
        )
  ]
]

-- The map behaves as a function from ids to entries: after an id is added it is mapped to the new
-- entry, and every other id to what it was mapped to before, whatever the id was mapped to. Ids are
-- not 0, no two entries had an id in common, and none have afterwards; the map was not full.
pub map_add_lem :
    (m m' : List Entry) (src dest : ℕ) (name : Name) (otype : ℕ)
    → IsMap m
    → src ≢ 0
    → map_add m src dest name otype ≡ some m'
    → IsMap m'
      × ((k : ℕ)
          → k ≢ 0
          → find_entry m' k ≡ (
              if k == src
              then some (record { src = src; dest = dest; name = take 32 name; otype = otype })
              else find_entry m k))
unfolding map_add
map_add_lem m m' src dest name otype u p e = (
  IsMap-fill (map_del m src).1 m' _ e absent p (IsMap-del m src u),
  λ k q. find_entry-fill (map_del m src).1 m' _ k e absent p q ∙ replaced _ k q,
)
  where
    absent : find_entry (map_del m src).1 src ≡ none
    absent = find_entry-del m src src u p p ∙ ground arith

    replaced :
        (new : Entry) (k : ℕ)
        → k ≢ 0
        → (if k == src then some new else find_entry (map_del m src).1 k)
          ≡ (if k == src then some new else find_entry m k)
    replaced new k q = elim (Bool-cases (k == src)) [
      | inl same ↦ rw same
      | inr other ↦ rw other (find_entry-del m src k u p q ∙ rw other)
    ]
