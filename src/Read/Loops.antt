-- ===== src/Read/Loops.antt =====
-- The loops of the read modes end, and find what they are meant to find in the history.
use kogmo_rtdb.Base.{
  ℕ, zero, suc, ◌+◌, ◌-◌, ◌%◌, ◌<◌, ◌≡◌, refl, ◌∙◌, arith, pos, negsuc, Bool, true, false, List, [],
  ◌∷◌, none, some, Bool-cases, inl, inr, if◌then◌else◌,
}
use native.Mathlib.Nat.{add-zero, mod-eq_of_lt}
use kogmo_rtdb.Types.{LocalData, ObjInfo, Block, Result, ok, err, Err}
use kogmo_rtdb.History.{Scan, histscan, is_unused, block_at}
use kogmo_rtdb.History.Ring.{past, histscan-back, ring_back, ring_ne}
use kogmo_rtdb.Read.{scan_older, scan_younger}

-- The first block of a history that is not too new.
abbrev pub first_old : (Block → Bool) → List Block → Result Block
first_old too_new [] = err Err.notfound
first_old too_new (b ∷ bs) = if too_new b then first_old too_new bs else ok b

-- The last block of the run of young blocks that begins with `b`.
abbrev pub last_young : (Block → Bool) → Block → List Block → Block
last_young young b [] = b
last_young young b (x ∷ xs) = if young x then last_young young x xs else b

abbrev pub at_slot : ℕ → ℕ → Block → Scan
at_slot k h b = record { found = some b; curr = pos k; first = pos h }

-- The blocks that are left when the scan stands `c + 1` slots after the first slot.
abbrev pub rest : LocalData → ObjInfo → ℕ → ℕ → List Block
rest db m h c = past db.heap m.buffer_idx m.size_max m.history_size ((h + c) % m.history_size) c

back :
    (m : ObjInfo) (h k c : ℕ)
    → h < m.history_size
    → c < m.history_size
    → k ≡ (h + suc c) % m.history_size
    → (k + m.history_size - 1) % m.history_size ≡ (h + c) % m.history_size
back m h k c hh hc e = rw e (ring_back m.history_size h c hh hc)

back_to_first :
    (m : ObjInfo) (h k : ℕ)
    → h < m.history_size
    → k ≡ (h + 1) % m.history_size
    → (k + m.history_size - 1) % m.history_size ≡ h
back_to_first m h k hh e = back m h k 0 hh (omega arith) e ∙ rw add-zero (mod-eq_of_lt hh)

-- The three outcomes of a step back from `c + 1` slots after the first slot.
histscan-end :
    (db : LocalData) (m : ObjInfo) (b : Block) (h k : ℕ)
    → h < m.history_size
    → k ≡ (h + 1) % m.history_size
    → (histscan db m (negsuc 0) (at_slot k h b)).found ≡ none
histscan-end db m b h k hh e =
    rw (histscan-back db m k h (some b) (omega arith), back_to_first m h k hh e) (ground arith)

histscan-unused :
    (db : LocalData) (m : ObjInfo) (b : Block) (h k c : ℕ)
    → h < m.history_size
    → suc c < m.history_size
    → k ≡ (h + suc (suc c)) % m.history_size
    → is_unused (block_at db m ((h + suc c) % m.history_size)) ≡ true
    → (histscan db m (negsuc 0) (at_slot k h b)).found ≡ none
histscan-unused db m b h k c hh hc e un =
    rw (histscan-back db m k h (some b) (omega arith), back m h k (suc c) hh hc e) (ground arith)

histscan-used :
    (db : LocalData) (m : ObjInfo) (b : Block) (h k c : ℕ)
    → h < m.history_size
    → suc c < m.history_size
    → k ≡ (h + suc (suc c)) % m.history_size
    → is_unused (block_at db m ((h + suc c) % m.history_size)) ≡ false
    → let j = (h + suc c) % m.history_size in
      histscan db m (negsuc 0) (at_slot k h b) ≡ at_slot j h (block_at db m j)
histscan-used db m b h k c hh hc e us =
    rw (histscan-back db m k h (some b) (omega arith), back m h k (suc c) hh hc e)
      (ground (arith, ring_ne m.history_size h c hh hc))

-- The blocks that are left, by the same cases.
rest-suc :
    (db : LocalData) (m : ObjInfo) (h c : ℕ)
    → h < m.history_size
    → suc c < m.history_size
    → let j = (h + suc c) % m.history_size in
      rest db m h (suc c)
      ≡ (if is_unused (block_at db m j) then [] else block_at db m j ∷ rest db m h c)
rest-suc db m h c hh hc = rw (ring_back m.history_size h c hh (omega arith))

module _ (db : LocalData) (m : ObjInfo) (test : Block → Bool) (f : ℕ) (b : Block) (s : Scan) where
  scan_older-stop : test b ≡ false → scan_older (suc f) db m test b s ≡ some (ok b)
  unfolding scan_older
  scan_older-stop e = ground arith

  scan_older-end :
      test b ≡ true
      → (histscan db m (negsuc 0) s).found ≡ none
      → scan_older (suc f) db m test b s ≡ some (err Err.notfound)
  unfolding scan_older
  scan_older-end e g = ground arith

  pub scan_older-next :
      (b' : Block) (s' : Scan)
      → test b ≡ true
      → histscan db m (negsuc 0) s ≡ s'
      → s'.found ≡ some b'
      → scan_older (suc f) db m test b s ≡ scan_older f db m test b' s'
  unfolding scan_older
  scan_older-next b' s' e g r = ground arith

pub scan_older-rest :
    (f c : ℕ) (db : LocalData) (m : ObjInfo) (too_new : Block → Bool) (b : Block) (h k : ℕ)
    → h < m.history_size
    → c < m.history_size
    → c < f
    → k ≡ (h + suc c) % m.history_size
    → scan_older f db m too_new b (at_slot k h b) ≡ some (first_old too_new (b ∷ rest db m h c))
scan_older-rest zero c db m too_new b h k hh hc hf e = absurd (omega arith)
scan_older-rest (suc f) zero db m too_new b h k hh hc hf e = elim (Bool-cases (too_new b)) [
  | inr old ↦ rw (scan_older-stop db m too_new f b (at_slot k h b) old, old)
  | inl new ↦
      rw (scan_older-end db m too_new f b (at_slot k h b) new (histscan-end db m b h k hh e), new)
]
scan_older-rest (suc f) (suc c) db m too_new b h k hh hc hf e = elim (Bool-cases (too_new b)) [
  | inr old ↦ rw (scan_older-stop db m too_new f b (at_slot k h b) old, old)
  | inl new ↦
      rw (rest-suc db m h c hh hc, new)
        (elim (Bool-cases (is_unused (block_at db m ((h + suc c) % m.history_size)))) [
          | inl un ↦ rw (
            scan_older-end db m too_new f b (at_slot k h b) new
                (histscan-unused db m b h k c hh hc e un),
            un,
          )
          | inr us ↦ rw us (
              scan_older-next db m too_new f b (at_slot k h b) _ _ new
                (histscan-used db m b h k c hh hc e us) refl
              ∙ scan_older-rest f c db m too_new _ h ((h + suc c) % m.history_size) hh (omega arith)
                  (omega arith) refl)
        ])
]

module _ (db : LocalData) (m : ObjInfo) (test : Block → Bool) (f : ℕ) (b : Block) (s : Scan) where
  scan_younger-end :
      (histscan db m (negsuc 0) s).found ≡ none → scan_younger (suc f) db m test b s ≡ some (ok b)
  unfolding scan_younger
  scan_younger-end g = ground arith

  scan_younger-stop :
      (b' : Block) (s' : Scan)
      → histscan db m (negsuc 0) s ≡ s'
      → s'.found ≡ some b'
      → test b' ≡ false
      → scan_younger (suc f) db m test b s ≡ some (ok b)
  unfolding scan_younger
  scan_younger-stop b' s' g r e = ground arith

  scan_younger-next :
      (b' : Block) (s' : Scan)
      → histscan db m (negsuc 0) s ≡ s'
      → s'.found ≡ some b'
      → test b' ≡ true
      → scan_younger (suc f) db m test b s ≡ scan_younger f db m test b' s'
  unfolding scan_younger
  scan_younger-next b' s' g r e = ground arith

pub scan_younger-rest :
    (f c : ℕ) (db : LocalData) (m : ObjInfo) (young : Block → Bool) (b : Block) (h k : ℕ)
    → h < m.history_size
    → c < m.history_size
    → c < f
    → k ≡ (h + suc c) % m.history_size
    → scan_younger f db m young b (at_slot k h b) ≡ some (ok (last_young young b (rest db m h c)))
scan_younger-rest zero c db m young b h k hh hc hf e = absurd (omega arith)
scan_younger-rest (suc f) zero db m young b h k hh hc hf e =
    scan_younger-end db m young f b (at_slot k h b) (histscan-end db m b h k hh e)
scan_younger-rest (suc f) (suc c) db m young b h k hh hc hf e =
    let j = (h + suc c) % m.history_size in
    rw (rest-suc db m h c hh hc) (elim (Bool-cases (is_unused (block_at db m j))) [
      | inl un ↦ rw un (
          scan_younger-end db m young f b (at_slot k h b) (histscan-unused db m b h k c hh hc e un))
      | inr us ↦
          let step = histscan-used db m b h k c hh hc e us in
          rw us (elim (Bool-cases (young (block_at db m j))) [
            | inr no_more ↦
                rw no_more (scan_younger-stop db m young f b (at_slot k h b) _ _ step refl no_more)
            | inl more ↦ rw more (
                scan_younger-next db m young f b (at_slot k h b) _ _ step refl more
                ∙ scan_younger-rest f c db m young _ h j hh (omega arith) (omega arith) refl)
          ])
    ])
