-- ===== src/Memory/Balance.antt =====
-- The books of the database: the counters of free slots and of memory agree with the table.
use kogmo_rtdb.Base.{
  ℕ, zero, suc, ◌+◌, ◌-◌, ◌*◌, ◌%◌, ◌^◌, ◌≤◌, ◌<◌, ◌≡◌, ◌≢◌, refl, ap, arith, false, ◌||◌, ◌==◌,
  if◌then◌else◌, List, [], ◌∷◌, some, set, get_elem?, length, ◌∙◌, Bool-cases, inl, inr, ◌⊎◌,
}
use mathlib.Core.Option.{some-injective, none-ne-some}
use native.Mathlib.Nat.{mod-eq_of_lt, mod-eq-sub-mod}
use kogmo_rtdb.Types.{LocalData, ObjInfo}
use kogmo_rtdb.Memory.{add_64, sub_64, total, block_size, release, IsApart}

-- The bytes that an object holds: its ring, if it has one.
abbrev pub ring_bytes : ObjInfo → ℕ
ring_bytes m = m.size_max * m.history_size

abbrev pub cost : ObjInfo → ℕ
cost m = if (m.oid == 0) || (m.buffer_idx == 0) then 0 else ring_bytes m

abbrev pub vacancy : ObjInfo → ℕ
vacancy m = if m.oid == 0 then 1 else 0

-- The bytes and the free slots, as the table has them.
abbrev pub reserved : List ObjInfo → ℕ
reserved [] = 0
reserved (m ∷ ms) = cost m + reserved ms

abbrev pub vacancies : List ObjInfo → ℕ
vacancies [] = 0
vacancies (m ∷ ms) = vacancy m + vacancies ms

-- An object that owns a block of the heap.
abbrev pub IsOwner : ObjInfo → Type 0
IsOwner m = (m.oid ≢ 0) × (m.buffer_idx ≢ 0)

-- No two blocks of the pool overlap.
abbrev pub IsDisjoint : List (ℕ × ℕ) → Type 0
IsDisjoint [] = Unit {0}
IsDisjoint (b ∷ bs) = IsApart b.0 b.1 bs × IsDisjoint bs

-- The books of a table with its counters. `extra` bytes are allocated to an object that is not in
-- the table yet.
pub record HasBooks (extra : ℕ) (objmeta : List ObjInfo)
    (objmeta_free heap_free heap_used heap_size : ℕ) (pool : List (ℕ × ℕ)) : Type 0 where
  pub slots : objmeta_free ≡ vacancies objmeta
  pub used : heap_used ≡ reserved objmeta + extra
  pub pooled : total pool ≡ heap_used
  pub whole : heap_free + heap_used ≡ heap_size
  pub disjoint : IsDisjoint pool
  pub size_bound : heap_size < 2 ^ 64
  pub slots_bound : length objmeta < 2 ^ 32
  pub held :
      (i : ℕ) (m : ObjInfo)
      → get_elem? objmeta i ≡ some m
      → IsOwner m
      → block_size m.buffer_idx pool ≡ some (ring_bytes m)
  pub apart :
      (i j : ℕ) (m n : ObjInfo)
      → get_elem? objmeta i ≡ some m
      → get_elem? objmeta j ≡ some n
      → IsOwner m
      → IsOwner n
      → i ≢ j
      → m.buffer_idx ≢ n.buffer_idx

abbrev pub IsBalanced : ℕ → LocalData → Type 0
IsBalanced extra db =
    HasBooks extra db.objmeta db.objmeta_free db.heap_free db.heap_used db.heap_size db.pool

pub reserved-set :
    (ms : List ObjInfo) (i : ℕ) (m m' : ObjInfo)
    → get_elem? ms i ≡ some m
    → reserved (set ms i m') + cost m ≡ reserved ms + cost m'
reserved-set [] i m m' e = ground arith
reserved-set (x ∷ ms) zero m m' e = ground arith
reserved-set (x ∷ ms) (suc i) m m' e = omega (arith, reserved-set ms i m m' e)

pub vacancies-set :
    (ms : List ObjInfo) (i : ℕ) (m m' : ObjInfo)
    → get_elem? ms i ≡ some m
    → vacancies (set ms i m') + vacancy m ≡ vacancies ms + vacancy m'
vacancies-set [] i m m' e = ground arith
vacancies-set (x ∷ ms) zero m m' e = ground arith
vacancies-set (x ∷ ms) (suc i) m m' e = omega (arith, vacancies-set ms i m m' e)

pub vacancies-le : (ms : List ObjInfo) → vacancies ms ≤ length ms
vacancies-le [] = omega arith
vacancies-le (x ∷ ms) = ground (arith, vacancies-le ms)

pub small_64 : (a b n : ℕ) → a ≡ b → b < 2 ^ 64 → a % 2 ^ 64 ≡ b
small_64 a b n e h = rw e (mod-eq_of_lt h)

pub sub_64_lem : (a b : ℕ) → b ≤ a → a < 2 ^ 64 → sub_64 a b ≡ a - b
sub_64_lem a b h k =
    mod-eq-sub-mod {n = a + 2 ^ 64 - b} {m = 2 ^ 64} (omega arith)
    ∙ small_64 (a + 2 ^ 64 - b - 2 ^ 64) (a - b) 0 (omega arith) (omega arith)

pub add_64_lem : (a b : ℕ) → a + b < 2 ^ 64 → add_64 a b ≡ a + b
add_64_lem a b h = mod-eq_of_lt h

pub total-release :
    (pool : List (ℕ × ℕ)) (idx size : ℕ)
    → block_size idx pool ≡ some size
    → total (release idx pool) + size ≡ total pool
total-release [] idx size e = ground arith
total-release (b ∷ bs) idx size e = elim (Bool-cases (b.0 == idx)) [
  | inl hit ↦ ground arith
  | inr miss ↦ ground (arith, total-release bs idx size)
]

pub block_size-release :
    (pool : List (ℕ × ℕ)) (idx k : ℕ)
    → k ≢ idx
    → block_size k (release idx pool) ≡ block_size k pool
block_size-release [] idx k ne = refl
block_size-release (b ∷ bs) idx k ne = ground (arith, block_size-release bs idx k ne)

-- What is read after a write to a slot was there before, or is what was written.
pub get_elem?-set :
    (ms : List ObjInfo) (i j : ℕ) (m m' n : ObjInfo)
    → get_elem? ms i ≡ some m
    → get_elem? (set ms i m') j ≡ some n
    → (i ≡ j) × (n ≡ m') ⊎ (i ≢ j) × (get_elem? ms j ≡ some n)
get_elem?-set [] i j m m' n e g = ground arith
get_elem?-set (x ∷ ms) zero zero m m' n e g = inl (refl, cc)
get_elem?-set (x ∷ ms) zero (suc j) m m' n e g = inr ((λ p. omega arith), g)
get_elem?-set (x ∷ ms) (suc i) zero m m' n e g = inr ((λ p. omega arith), g)
get_elem?-set (x ∷ ms) (suc i) (suc j) m m' n e g = elim (get_elem?-set ms i j m m' n e g) [
  | inl (p, q) ↦ inl (ap suc p, q)
  | inr (p, q) ↦ inr ((λ r. p (omega arith)), q)
]

IsApart-release :
    (pool : List (ℕ × ℕ)) (idx k size : ℕ) → IsApart k size pool → IsApart k size (release idx pool)
IsApart-release [] idx k size a = tt
IsApart-release (b ∷ bs) idx k size a = elim (Bool-cases (b.0 == idx)) [
  | inl hit ↦ rw hit a.1
  | inr miss ↦ rw miss (a.0, IsApart-release bs idx k size a.1)
]

pub IsDisjoint-release :
    (pool : List (ℕ × ℕ)) (idx : ℕ) → IsDisjoint pool → IsDisjoint (release idx pool)
IsDisjoint-release [] idx d = tt
IsDisjoint-release (b ∷ bs) idx d = elim (Bool-cases (b.0 == idx)) [
  | inl hit ↦ rw hit d.1
  | inr miss ↦ rw miss (IsApart-release bs idx b.0 b.1 d.0, IsDisjoint-release bs idx d.1)
]

-- The block at `k`, beside `size` bytes from `idx` on.
IsApart-block :
    (pool : List (ℕ × ℕ)) (idx size k n : ℕ)
    → IsApart idx size pool
    → block_size k pool ≡ some n
    → (idx + size ≤ k) ⊎ (k + n ≤ idx)
IsApart-block [] idx size k n a e = absurd (none-ne-some n e)
IsApart-block (b ∷ bs) idx size k n a e = elim (Bool-cases (b.0 == k)) [
  | inl hit ↦
      let at_k : b.0 ≡ k = ground arith in
      let is_n : b.1 ≡ n = some-injective b.1 n (rw hit at e) in
      elim a.0 [ inl before ↦ inl (omega arith) | inr behind ↦ inr (omega arith) ]
  | inr miss ↦ IsApart-block bs idx size k n a.1 (rw miss at e)
]

-- Blocks that begin at different indices do not overlap.
pub blocks_apart :
    (pool : List (ℕ × ℕ)) (j n k p : ℕ)
    → IsDisjoint pool
    → block_size j pool ≡ some n
    → block_size k pool ≡ some p
    → j ≢ k
    → (j + n ≤ k) ⊎ (k + p ≤ j)
blocks_apart [] j n k p d e g ne = absurd (none-ne-some n e)
blocks_apart (b ∷ bs) j n k p d e g ne = elim (Bool-cases (b.0 == j)) [
  | inl hit ↦
      let at_j : b.0 ≡ j = ground arith in
      let other : (b.0 == k) ≡ false = ground arith in
      let is_n : b.1 ≡ n = some-injective b.1 n (rw hit at e) in
      elim (IsApart-block bs b.0 b.1 k p d.0 (rw other at g)) [
        | inl before ↦ inl (omega arith)
        | inr behind ↦ inr (omega arith)
      ]
  | inr miss ↦ elim (Bool-cases (b.0 == k)) [
    | inl hit ↦
        let at_k : b.0 ≡ k = ground arith in
        let is_p : b.1 ≡ p = some-injective b.1 p (rw hit at g) in
        elim (IsApart-block bs b.0 b.1 j n d.0 (rw miss at e)) [
          | inl before ↦ inr (omega arith)
          | inr behind ↦ inl (omega arith)
        ]
    | inr miss' ↦ blocks_apart bs j n k p d.1 (rw miss at e) (rw miss' at g) ne
  ]
]

-- The rings of two objects do not overlap.
abbrev pub RingsApart : List ObjInfo → Type 0
RingsApart objmeta =
    (i j : ℕ) (m n : ObjInfo)
    → get_elem? objmeta i ≡ some m
    → get_elem? objmeta j ≡ some n
    → IsOwner m
    → IsOwner n
    → i ≢ j
    → (m.buffer_idx + ring_bytes m ≤ n.buffer_idx) ⊎ (n.buffer_idx + ring_bytes n ≤ m.buffer_idx)

pub books-RingsApart :
    (extra : ℕ) (objmeta : List ObjInfo) (free hfree hused hsize : ℕ) (pool : List (ℕ × ℕ))
    → HasBooks extra objmeta free hfree hused hsize pool
    → RingsApart objmeta
books-RingsApart extra objmeta free hfree hused hsize pool b i j m n e g own own' ne =
    blocks_apart pool m.buffer_idx (ring_bytes m) n.buffer_idx (ring_bytes n) b.disjoint
      (b.held i m e own) (b.held j n g own') (b.apart i j m n e g own own' ne)
