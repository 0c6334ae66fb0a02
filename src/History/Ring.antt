-- ===== src/History/Ring.antt =====
-- The history as a list, newest block first, and what one step of the scan does.
use kogmo_rtdb.Base.{
  ℕ, zero, suc, ◌+◌, ◌-◌, ◌*◌, ◌%◌, ◌≤◌, ◌<◌, ℤ, pos, negsuc, ◌+ℤ◌, rem_ℤ, ◌==◌, if◌then◌else◌,
  Option, none, some, List, [], ◌∷◌, ◌≡◌, ◌≢◌, refl, ap, arith, inl, inr, ◌∙◌, Bool-cases, eq_ℤ-pos,
  take,
}
use native.Mathlib.Nat.{mod-eq_of_lt, mod-eq-sub-mod}
use native.Mathlib.Decide.{dec_lt}
use kogmo_rtdb.Types.{LocalData, ObjInfo, Block}
use kogmo_rtdb.History.{Scan, histscan, block_at, is_unused}

-- At most `c` blocks of the ring of `n` slots, `stride` apart, from slot `k` backwards, up to the
-- first unused slot.
abbrev pub past : (ℕ → Block) → ℕ → ℕ → ℕ → ℕ → ℕ → List Block
past heap base stride n k zero = []
past heap base stride n k (suc c) =
    if is_unused (heap (base + k * stride))
    then []
    else heap (base + k * stride) ∷ past heap base stride n ((k + n - 1) % n) c

-- All that an object's ring holds; before the first write that is nothing.
abbrev pub history_of : (ℕ → Block) → ℕ → ℕ → ℕ → ℤ → List Block
history_of heap base stride n (pos h) = past heap base stride n h n
history_of heap base stride n (negsuc h) = []

abbrev pub history : LocalData → ObjInfo → List Block
history db m = history_of db.heap m.buffer_idx m.size_max m.history_size m.history_slot

-- An object with room for data whose latest slot lies inside its ring.
pub record HasRing (m : ObjInfo) (h : ℕ) : Type 0 where
  pub allocated : 0 < m.buffer_idx
  pub stride_pos : 0 < m.size_max
  pub slot : m.history_slot ≡ pos h
  pub in_ring : h < m.history_size

module _ (heap : ℕ → Block) (base stride n : ℕ) where
  pub take-past :
      (c k : ℕ) → take c (past heap base stride n k (suc c)) ≡ past heap base stride n k c
  take-past zero k = refl
  take-past (suc c) k = elim (Bool-cases (is_unused (heap (base + k * stride)))) [
    | inl e ↦ rw e
    | inr e ↦ rw e (ap (◌∷◌ (heap (base + k * stride))) (take-past c ((k + n - 1) % n)))
  ]

pub mod_small : (x n : ℕ) → x < n → x % n ≡ x
mod_small x n h = mod-eq_of_lt h

pub mod_wrap : (x n : ℕ) → n ≤ x → x < n + n → x % n ≡ x - n
mod_wrap x n h k = mod-eq-sub-mod {n = x} {m = n} h ∙ mod_small (x - n) n (omega arith)

-- One step back along the ring.
pub ring_back : (n w c : ℕ) → w < n → suc c ≤ n → ((w + suc c) % n + n - 1) % n ≡ (w + c) % n
ring_back n w c hw hc = elim (dec_lt (w + suc c) n) [
  | yes p ↦
      rw (mod_small (w + suc c) n p, mod_small (w + c) n (omega arith))
        (mod_wrap (w + suc c + n - 1) n (omega arith) (omega arith) ∙ omega arith)
  | no p ↦ rw (mod_wrap (w + suc c) n (omega arith) (omega arith)) (ap (λ x. x % n) (omega arith))
]

pub ring_ne : (n w c : ℕ) → w < n → suc c < n → (w + suc c) % n ≢ w
ring_ne n w c hw hc = elim (dec_lt (w + suc c) n) [
  | yes p ↦ omega (arith, mod_small (w + suc c) n p)
  | no p ↦ omega (arith, mod_wrap (w + suc c) n (omega arith) (omega arith))
]

pub ring_start : (n h : ℕ) → h < n → (h + 1 + (n - 1)) % n ≡ h
ring_start n h p = mod_wrap (h + 1 + (n - 1)) n (omega arith) (omega arith) ∙ omega arith

pub ring_forth : (n h : ℕ) → h < suc n → ((h + 1) % suc n + n) % suc n ≡ h
ring_forth n h p = elim (dec_lt h n) [
  | yes q ↦
      rw (mod_small (h + 1) (suc n) (omega arith))
        (mod_wrap (h + 1 + n) (suc n) (omega arith) (omega arith) ∙ omega arith)
  | no q ↦
      rw (mod_wrap (h + 1) (suc n) (omega arith) (omega arith))
        (mod_small (h + 1 - suc n + n) (suc n) (omega arith) ∙ omega arith)
]

pub rem_back : (n k : ℕ) → 0 < n → rem_ℤ (pos k +ℤ negsuc 0 +ℤ pos n) n ≡ pos ((k + n - 1) % n)
unfolding rem_ℤ ◌+ℤ◌
rem_back n k h = ground arith

pub rem_start : (n k : ℕ) → k < n → rem_ℤ (pos k +ℤ pos n) n ≡ pos k
unfolding rem_ℤ ◌+ℤ◌
rem_start n k h = ground (arith, mod_wrap (k + n) n)

-- The first call of a scan finds the block of the last write.
pub histscan-first :
    (db : LocalData) (m : ObjInfo) (s : Scan) (h : ℕ)
    → m.history_slot ≡ pos h
    → h < m.history_size
    → histscan db m (pos 0) s ≡ record {
      found = if is_unused (block_at db m h) then none else some (block_at db m h);
      curr = pos h;
      first = pos h;
    }
unfolding histscan
histscan-first db m s h e p = rw (e, rem_start m.history_size h p) (ground arith)

-- A further call steps back one slot, until it would come round to the first.
pub histscan-back :
    (db : LocalData) (m : ObjInfo) (k h : ℕ) (f : Option Block)
    → 0 < m.history_size
    → histscan db m (negsuc 0) (record { found = f; curr = pos k; first = pos h }) ≡ (
        let j = (k + m.history_size - 1) % m.history_size in
        record {
          found =
              if j == h
              then none
              else if is_unused (block_at db m j)
              then none
              else some (block_at db m j);
          curr = pos j;
          first = pos h;
        })
unfolding histscan
histscan-back db m k h f p = rw (rem_back m.history_size k p, eq_ℤ-pos) (ground arith)

pub slot_lt : (j w stride : ℕ) → 0 < stride → j < w → j * stride < w * stride
slot_lt j w stride p h = grind arith

slot_ne : (base stride j w : ℕ) → 0 < stride → j ≢ w → base + j * stride ≢ base + w * stride
slot_ne base stride j w p ne e = elim (dec_lt j w) [
  | yes lt ↦ absurd (omega (arith, slot_lt j w stride p lt))
  | no ge ↦ absurd (omega (arith, slot_lt w j stride p (omega arith)))
]

-- A write to slot `w` is not seen by a walk that starts `c` slots after it and goes back `c` slots.
pub past-update :
    (heap heap' : ℕ → Block) (base stride n w c : ℕ)
    → 0 < stride
    → w < n
    → c < n
    → ((a : ℕ) → a ≢ base + w * stride → heap' a ≡ heap a)
    → past heap' base stride n ((w + c) % n) c ≡ past heap base stride n ((w + c) % n) c
past-update heap heap' base stride n w zero p hw hc same = refl
past-update heap heap' base stride n w (suc c) p hw hc same =
    let k = (w + suc c) % n in
    let e : heap' (base + k * stride) ≡ heap (base + k * stride) =
      same _ (slot_ne base stride k w p (ring_ne n w c hw hc)) in
    rw (e, ring_back n w c hw (omega arith))
      (rw (past-update heap heap' base stride n w c p hw (omega arith) same))
