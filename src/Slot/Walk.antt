-- ===== src/Slot/Walk.antt =====
-- A walk back along the ring by slots meets the blocks of the history.
use kogmo_rtdb.Base.{
  ℕ, zero, suc, ◌+◌, ◌-◌, ◌*◌, ◌%◌, ◌≤◌, ◌<◌, ◌≡◌, refl, sym, ap, ◌∙◌, arith, ℤ, pos, negsuc, ◌+ℤ◌,
  rem_ℤ, is_neg, ltb, ◌&&◌, true, false, ◌==◌, List, [], ◌∷◌, some, get_elem?, inl, inr, Bool-cases,
}
use native.Mathlib.Nat.{mod-lt}
use native.Mathlib.Decide.{dec_lt}
use mathlib.Core.Option.{some-injective, none-ne-some}
use kogmo_rtdb.Types.{LocalData, ObjInfo, Block, ok}
use kogmo_rtdb.History.{is_unused}
use kogmo_rtdb.History.Ring.{past, mod_small, mod_wrap}
use kogmo_rtdb.Read.ByTime.{IsDecreasing, Older}
use kogmo_rtdb.Slot.{is_pos, ObjSlot, addr, next_pos, move}

-- The offset of k slots back.
abbrev pub back : ℕ → ℤ
back zero = pos 0
back (suc k) = negsuc k

pub next_pos-back :
    (p k n : ℕ) → p < n → k < n → next_pos (pos p) (back k) n ≡ pos ((p + n - k) % n)
unfolding next_pos rem_ℤ ◌+ℤ◌
next_pos-back p zero n hp hk = ground (arith, mod_small 0 n hk)
next_pos-back p (suc k) n hp hk = ground (arith, mod_small (suc k) n hk)

back_step : (p k n : ℕ) → p < n → suc k < n → ((p + n - 1) % n + n - k) % n ≡ (p + n - suc k) % n
back_step p k n hp hk = elim (dec_lt (p + n - 1) n) [
  | yes q ↦ rw (mod_small (p + n - 1) n q) (
      mod_wrap (p + n - 1 + n - k) n (omega arith) (omega arith)
      ∙ omega (arith, mod_small (p + n - suc k) n (omega arith)))
  | no q ↦ rw (mod_wrap (p + n - 1) n (omega arith) (omega arith)) (ap (λ x. x % n) (omega arith))
]

-- Where the kth block of the past stands.
pub get_elem?-past :
    (heap : ℕ → Block) (base stride n p c k : ℕ) (b : Block)
    → p < n
    → c ≤ n
    → get_elem? (past heap base stride n p c) k ≡ some b
    → (b ≡ heap (base + (p + n - k) % n * stride)) × (k < c) × (is_unused b ≡ false)
get_elem?-past heap base stride n p zero k b hp hc e = absurd (none-ne-some b e)
get_elem?-past heap base stride n p (suc c) k b hp hc e =
    elim (Bool-cases (is_unused (heap (base + p * stride)))) [
      | inl unused ↦ absurd (none-ne-some b (rw unused at e))
      | inr used ↦
          walk k used (rw used at e) (get_elem?-past heap base stride n ((p + n - 1) % n) c)
    ]
  where
    walk :
        (k : ℕ)
        → is_unused (heap (base + p * stride)) ≡ false
        → get_elem? (heap (base + p * stride) ∷ past heap base stride n ((p + n - 1) % n) c) k
          ≡ some b
        → ((j : ℕ) (x : Block)
            → (p + n - 1) % n < n
            → c ≤ n
            → get_elem? (past heap base stride n ((p + n - 1) % n) c) j ≡ some x
            → (x ≡ heap (base + ((p + n - 1) % n + n - j) % n * stride))
              × (j < c)
              × (is_unused x ≡ false))
        → (b ≡ heap (base + (p + n - k) % n * stride)) × (k < suc c) × (is_unused b ≡ false)
    walk zero used e rest =
        let same : heap (base + p * stride) ≡ b = some-injective _ b e in
        let here : (p + n - 0) % n ≡ p =
          mod_wrap (p + n - 0) n (omega arith) (omega arith) ∙ omega arith in
        (rw here (sym same), omega arith, rw (sym same) used)
    walk (suc k) used e rest =
        let (q, lt, u) = rest k b (mod-lt (p + n - 1) (omega arith)) (omega arith) e in
        (q ∙ ap (λ x. heap (base + x * stride)) (back_step p k n hp (omega arith)), omega arith, u)

module _ (time : Block → ℕ) where
  Older-get :
      (bs : List Block) (t k : ℕ) (b : Block)
      → Older time t bs
      → get_elem? bs k ≡ some b
      → time b < t
  Older-get [] t k b o e = absurd (none-ne-some b e)
  Older-get (x ∷ bs) t zero b o e = let same : x ≡ b = some-injective x b e in rw (sym same) o.0
  Older-get (x ∷ bs) t (suc k) b o e =
      let lt = Older-get bs (time x) k b o.1 e in let lt' = o.0 in omega arith

  -- The first block of a history is the newest.
  IsDecreasing-get :
      (bs : List Block) (x b : Block) (k : ℕ)
      → IsDecreasing time (x ∷ bs)
      → get_elem? (x ∷ bs) k ≡ some b
      → time b ≤ time x
  IsDecreasing-get bs x b zero d e =
      let same : x ≡ b = some-injective x b e in rw same (omega arith)
  IsDecreasing-get bs x b (suc k) d e = let lt = Older-get bs (time x) k b d e in omega arith

-- The block in hand is no older than what the walk meets.
past-head :
    (heap : ℕ → Block) (base stride n p c k : ℕ) (b : Block)
    → IsDecreasing (λ x. x.committed_ts) (past heap base stride n p c)
    → get_elem? (past heap base stride n p c) k ≡ some b
    → b.committed_ts ≤ (heap (base + p * stride)).committed_ts
past-head heap base stride n p zero k b d e = absurd (none-ne-some b e)
past-head heap base stride n p (suc c) k b d e =
    elim (Bool-cases (is_unused (heap (base + p * stride)))) [
      | inl unused ↦ absurd (none-ne-some b (rw unused at e))
      | inr used ↦
          IsDecreasing-get (λ x. x.committed_ts) (past heap base stride n ((p + n - 1) % n) c)
            (heap (base + p * stride)) b k (rw used at d) (rw used at e)
    ]

-- A move whose checks pass.
move-passes :
    (db : LocalData) (offset : ℤ) (m : ObjInfo) (s : ObjSlot) (q : ℕ) (b : Block)
    → next_pos s.history_slot offset m.history_size ≡ pos q
    → db.heap (m.buffer_idx + q * m.size_max) ≡ b
    → (b.committed_ts == 0) ≡ false
    → ((db.heap (addr m s.history_slot)).committed_ts == s.committed_ts) ≡ true
    → (is_neg offset && ltb s.committed_ts b.committed_ts) ≡ false
    → (is_pos offset && ltb b.committed_ts s.committed_ts) ≡ false
    → move db true offset m s ≡ record {
      code = ok b;
      slot = record s { history_slot = pos q; committed_ts = b.committed_ts };
    }
unfolding move addr
move-passes db offset m s q b next at_q used same older newer =
    rw (next, at_q, used, same, older, newer, move) refl

-- One move of k slots back.
pub move-back :
    (db : LocalData) (m : ObjInfo) (s : ObjSlot) (p c k : ℕ) (b : Block)
    → p < m.history_size
    → c ≤ m.history_size
    → s.history_slot ≡ pos p
    → s.committed_ts ≡ (db.heap (m.buffer_idx + p * m.size_max)).committed_ts
    → IsDecreasing (λ x. x.committed_ts) (past db.heap m.buffer_idx m.size_max m.history_size p c)
    → get_elem? (past db.heap m.buffer_idx m.size_max m.history_size p c) k ≡ some b
    → move db true (back k) m s ≡ record {
      code = ok b;
      slot = record s {
        history_slot = pos ((p + m.history_size - k) % m.history_size);
        committed_ts = b.committed_ts;
      };
    }
unfolding move addr
move-back db m s p c k b hp hc at_p ts d e =
    let (is_b, lt, used) =
      get_elem?-past db.heap m.buffer_idx m.size_max m.history_size p c k b hp hc e in
    let le = past-head db.heap m.buffer_idx m.size_max m.history_size p c k b d e in
    move-passes db (back k) m s ((p + m.history_size - k) % m.history_size) b
      (ap (λ z. next_pos z (back k) m.history_size) at_p
        ∙ next_pos-back p k m.history_size hp (omega arith))
      (sym is_b) (ground arith)
      (ap (λ z. (db.heap (addr m z)).committed_ts == s.committed_ts) at_p ∙ same ts) (older k le)
      (ahead k)
  where
    same :
        s.committed_ts ≡ (db.heap (m.buffer_idx + p * m.size_max)).committed_ts
        → ((db.heap (m.buffer_idx + p * m.size_max)).committed_ts == s.committed_ts) ≡ true
    same e = ground arith

    older :
        (k : ℕ)
        → b.committed_ts ≤ (db.heap (m.buffer_idx + p * m.size_max)).committed_ts
        → (is_neg (back k) && ltb s.committed_ts b.committed_ts) ≡ false
    older zero le = refl
    older (suc k) le = ground arith

    ahead : (k : ℕ) → (is_pos (back k) && ltb b.committed_ts s.committed_ts) ≡ false
    ahead zero = refl
    ahead (suc k) = refl
