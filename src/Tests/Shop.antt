-- ===== src/Tests/Shop.antt =====
-- A database with an object and a free slot, and an allocator, on which the books are kept.
use kogmo_rtdb.Base.{
  ℕ, zero, suc, ◌+◌, ◌≤◌, ◌≡◌, refl, sym, ap, ◌∙◌, arith, leb, if◌then◌else◌, List, [], ◌∷◌, some,
  none, get_elem?, inl, inr, ◌⊎◌,
}
use mathlib.Core.Option.{some-injective, none-ne-some}
use kogmo_rtdb.Types.{LocalData, ObjInfo}
use kogmo_rtdb.Meta.{findmeta_byid, find_from}
use kogmo_rtdb.Memory.{Allocator, IsSound, IsApart, total, block_size}
use kogmo_rtdb.Memory.Balance.{IsBalanced}
use kogmo_rtdb.Insert.Unique.{HasIds}
use kogmo_rtdb.Insert.Found.{IsNext}
use kogmo_rtdb.Tests.Data.{base_db, car}

abbrev pub vacant : ObjInfo
vacant = record car { oid = 0; buffer_idx = 0 }

-- An object that is about to be inserted.
abbrev pub bike : ObjInfo
bike = record car { oid = 0; name = 98 ∷ 105 ∷ []; size_max = 25; otype = 4; parent_oid = 0 }

abbrev pub shop_db : LocalData
shop_db = record base_db {
  objmeta = car ∷ vacant ∷ [];
  objmeta_free = 1;
  heap_free = 910;
  heap_used = 90;
  pool = (2, 90) ∷ [];
}

-- Past the end of all blocks.
abbrev top : List (ℕ × ℕ) → ℕ
top [] = 0
top (b ∷ bs) = suc (b.0 + b.1) + top bs

-- An allocator of `n` bytes that never reuses an index.
abbrev pub bump_of : ℕ → Allocator
bump_of n = record {
  alloc = λ pool size. if leb (total pool + size) n then some (suc (top pool)) else none;
}

abbrev pub bump : Allocator
bump = bump_of 1000

block_size-top : (pool : List (ℕ × ℕ)) (k : ℕ) → top pool ≤ k → block_size k pool ≡ none
block_size-top [] k h = refl
block_size-top (b ∷ bs) k h = ground (arith, block_size-top bs k)

IsApart-top : (pool : List (ℕ × ℕ)) (k size : ℕ) → top pool ≤ k → IsApart k size pool
IsApart-top [] k size h = tt
IsApart-top (b ∷ bs) k size h = (inr (omega arith), IsApart-top bs k size (omega arith))

bump_of-gives :
    (n : ℕ) (pool : List (ℕ × ℕ)) (size idx : ℕ)
    → (bump_of n).alloc pool size ≡ some idx
    → (total pool + size ≤ n) × (idx ≡ suc (top pool))
bump_of-gives n pool size idx e = ground arith

pub bump_of-IsSound : (n : ℕ) → IsSound (bump_of n) n
bump_of-IsSound n = record {
  fresh = λ pool size idx e.
      block_size-top pool idx (omega (arith, (bump_of-gives n pool size idx e).1));
  disjoint = λ pool size idx e.
      IsApart-top pool idx size (omega (arith, (bump_of-gives n pool size idx e).1));
  room = λ pool size idx e. (bump_of-gives n pool size idx e).0;
  header = λ pool size idx e. omega (arith, (bump_of-gives n pool size idx e).1);
}

pub bump-IsSound : IsSound bump 1000
bump-IsSound = bump_of-IsSound 1000

-- What stands in the slots.
pub shop_slots :
    (i : ℕ) (m : ObjInfo)
    → get_elem? shop_db.objmeta i ≡ some m
    → (i ≡ 0) × (car ≡ m) ⊎ (i ≡ 1) × (vacant ≡ m)
shop_slots zero m e = inl (refl, some-injective car m e)
shop_slots (suc zero) m e = inr (refl, some-injective vacant m e)
shop_slots (suc (suc i)) m e = absurd (none-ne-some m e)

pub shop_db-IsBalanced : IsBalanced 0 shop_db
shop_db-IsBalanced = record {
  slots = refl;
  used = refl;
  pooled = refl;
  whole = refl;
  disjoint = (tt, tt);
  size_bound = omega arith;
  slots_bound = omega arith;
  held = λ i m e own. elim (shop_slots i m e) [
    | inl (_, q) ↦ rw (sym q) refl
    | inr (_, q) ↦ absurd (own.0 (ap (λ z. z.oid) (sym q)))
  ];
  apart = λ i j m n e e' own own' ne. elim (shop_slots i m e) [
    | inr (_, q) ↦ absurd (own.0 (ap (λ z. z.oid) (sym q)))
    | inl (p, _) ↦ elim (shop_slots j n e') [
      | inr (_, q) ↦ absurd (own'.0 (ap (λ z. z.oid) (sym q)))
      | inl (p', _) ↦ absurd (ne (p ∙ sym p'))
    ]
  ];
}

pub shop_db-HasIds : HasIds shop_db
unfolding findmeta_byid find_from
shop_db-HasIds i m e pos = elim (shop_slots i m e) [
  | inl (p, q) ↦ rw (sym q, p) refl
  | inr (_, q) ↦ absurd (pos (ap (λ z. z.oid) (sym q)))
]

pub shop_db-IsNext : IsNext shop_db
shop_db-IsNext i m e = elim (shop_slots i m e) [
  | inl (_, q) ↦ let is_oid : 5 ≡ m.oid = ap (λ z. z.oid) q in omega arith
  | inr (_, q) ↦ let is_oid : 0 ≡ m.oid = ap (λ z. z.oid) q in omega arith
]
