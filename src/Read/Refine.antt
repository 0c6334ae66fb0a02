-- ===== src/Read/Refine.antt =====
-- What a read finds, told by the object's history.
use kogmo_rtdb.Base.{
  ℕ, zero, suc, ◌+◌, ◌-◌, ◌*◌, ◌%◌, ◌≤◌, ◌<◌, ◌≡◌, refl, sym, ◌∙◌, arith, ℤ, pos, true, false, List,
  [], ◌∷◌, none, some, Bool-cases, inl, inr, ◌==◌, ltb, leb, if◌then◌else◌,
}
use kogmo_rtdb.Types.{LocalData, ObjInfo, Block, Handle, Result, ok, err, Err}
use kogmo_rtdb.Meta.{findmeta_byid, may_read}
use kogmo_rtdb.History.{Scan, histscan, is_unused, block_at, no_scan}
use kogmo_rtdb.History.Ring.{past, history, history_of, HasRing, histscan-first, ring_start}
use kogmo_rtdb.Read.{Mode, find_block, select}
use kogmo_rtdb.Read.Loops.{first_old, last_young, scan_older-rest, scan_younger-rest, rest, at_slot}

-- The block that each mode asks for, in a history that begins with the latest block `b`.
unfoldable pub wanted : ObjInfo → Mode → ℕ → Block → List Block → Result Block
wanted m Mode.last ts b bs =
    if ts == 0
    then (if m.deleted_ts == 0 then ok b else err Err.notfound)
    else first_old (λ x. ltb ts x.committed_ts) (b ∷ bs)
wanted m Mode.older ts b bs = first_old (λ x. leb ts x.committed_ts) (b ∷ bs)
wanted m Mode.younger ts b bs =
    if ltb ts b.committed_ts
    then ok (last_young (λ x. ltb ts x.committed_ts) b bs)
    else err Err.notfound
wanted m Mode.datatime ts b bs = first_old (λ x. ltb ts x.data_ts) (b ∷ bs)
wanted m Mode.dataolder ts b bs = first_old (λ x. leb ts x.data_ts) (b ∷ bs)
wanted m Mode.datayounger ts b bs =
    if ltb ts b.data_ts then ok (last_young (λ x. ltb ts x.data_ts) b bs) else err Err.notfound

unfoldable pub wanted_of : ObjInfo → Mode → ℕ → List Block → Result Block
wanted_of m mode ts [] = err Err.notfound
wanted_of m mode ts (b ∷ bs) = wanted m mode ts b bs

select-wanted :
    (f c : ℕ) (db : LocalData) (m : ObjInfo) (mode : Mode) (ts : ℕ) (b : Block) (h : ℕ)
    → h < m.history_size
    → c < m.history_size
    → c < f
    → h ≡ (h + suc c) % m.history_size
    → select f db m mode ts b (at_slot h h b) ≡ some (wanted m mode ts b (rest db m h c))
unfolding select wanted
select-wanted f c db m Mode.last ts b h hh hc hf e =
    ground (arith, scan_older-rest f c db m (λ x. ltb ts x.committed_ts) b h h hh hc hf e)
select-wanted f c db m Mode.older ts b h hh hc hf e =
    scan_older-rest f c db m (λ x. leb ts x.committed_ts) b h h hh hc hf e
select-wanted f c db m Mode.younger ts b h hh hc hf e =
    ground (arith, scan_younger-rest f c db m (λ x. ltb ts x.committed_ts) b h h hh hc hf e)
select-wanted f c db m Mode.datatime ts b h hh hc hf e =
    scan_older-rest f c db m (λ x. ltb ts x.data_ts) b h h hh hc hf e
select-wanted f c db m Mode.dataolder ts b h hh hc hf e =
    scan_older-rest f c db m (λ x. leb ts x.data_ts) b h h hh hc hf e
select-wanted f c db m Mode.datayounger ts b h hh hc hf e =
    ground (arith, scan_younger-rest f c db m (λ x. ltb ts x.data_ts) b h h hh hc hf e)

past-split :
    (heap : ℕ → Block) (base stride n h : ℕ)
    → h < n
    → past heap base stride n h n ≡ (
        if is_unused (heap (base + h * stride))
        then []
        else heap (base + h * stride) ∷ past heap base stride n ((h + (n - 1)) % n) (n - 1))
past-split heap base stride zero h p = absurd (omega arith)
past-split heap base stride (suc n) h p =
    let e : h + suc n - 1 ≡ h + n = omega arith in
    let e' : suc n - 1 ≡ n = omega arith in rw (e, e')

history-split :
    (heap : ℕ → Block) (base stride n h : ℕ) (hs : ℤ)
    → hs ≡ pos h
    → h < n
    → history_of heap base stride n hs ≡ (
        if is_unused (heap (base + h * stride))
        then []
        else heap (base + h * stride) ∷ past heap base stride n ((h + (n - 1)) % n) (n - 1))
history-split heap base stride n h hs e p = rw e (past-split heap base stride n h p)

round_trip : (n h : ℕ) → h < n → h ≡ (h + suc (n - 1)) % n
round_trip zero h p = absurd (omega arith)
round_trip (suc n) h p =
    let e : h + suc (suc n - 1) ≡ h + 1 + (suc n - 1) = omega arith in
    rw e (sym (ring_start (suc n) h p))

-- The first step of a scan, by whether the latest slot is in use.
scan_first-used :
    (db : LocalData) (m : ObjInfo) (k : ℕ)
    → HasRing m k
    → is_unused (block_at db m k) ≡ false
    → histscan db m (pos 0) no_scan ≡ at_slot k k (block_at db m k)
scan_first-used db m k ring us = histscan-first db m no_scan k ring.slot ring.in_ring ∙ ground arith

scan_first-unused :
    (db : LocalData) (m : ObjInfo) (k : ℕ)
    → HasRing m k
    → is_unused (block_at db m k) ≡ true
    → (histscan db m (pos 0) no_scan).found ≡ none
scan_first-unused db m k ring un =
    rw (histscan-first db m no_scan k ring.slot ring.in_ring) (ground arith)

-- `find_block` on an object that is found and may be read.
module _ (f : ℕ) (h : Handle) (db : LocalData) (mode : Mode) (oid ts i : ℕ) (m : ObjInfo)
    (found : findmeta_byid db oid ≡ some (i, m)) (alloc : 0 < m.buffer_idx)
    (may : may_read h m ≡ true) where
  pub find_block-unused :
      (histscan db m (pos 0) no_scan).found ≡ none
      → find_block f h db mode oid ts ≡ some (err Err.notfound)
  unfolding find_block
  find_block-unused e = ground arith

  pub find_block-used :
      (b : Block) (s : Scan)
      → histscan db m (pos 0) no_scan ≡ s
      → s.found ≡ some b
      → find_block f h db mode oid ts ≡ select f db m mode ts b s
  unfolding find_block
  find_block-used b s e r = ground arith

last_lt : (k n f : ℕ) → k < n → n ≤ f → n - 1 < f
last_lt k n f p q = omega arith

-- A read of an object that has been written ends within as many steps as the ring has slots, and its
-- answer is the block that its mode wants from the object's history.
pub find_block-history :
    (f : ℕ) (h : Handle) (db : LocalData) (mode : Mode) (oid ts i k : ℕ) (m : ObjInfo)
    → findmeta_byid db oid ≡ some (i, m)
    → HasRing m k
    → may_read h m ≡ true
    → m.history_size ≤ f
    → find_block f h db mode oid ts ≡ some (wanted_of m mode ts (history db m))
unfolding wanted_of
find_block-history f h db mode oid ts i k m found ring may fuel =
    rw
      (history-split db.heap m.buffer_idx m.size_max m.history_size k m.history_slot ring.slot
        ring.in_ring)
      (elim (Bool-cases (is_unused (block_at db m k))) [
        | inl un ↦ rw un (
            find_block-unused f h db mode oid ts i m found ring.allocated may
              (scan_first-unused db m k ring un))
        | inr us ↦ rw us (
            find_block-used f h db mode oid ts i m found ring.allocated may (block_at db m k)
              (at_slot k k (block_at db m k)) (scan_first-used db m k ring us) refl
            ∙ select-wanted f (m.history_size - 1) db m mode ts (block_at db m k) k ring.in_ring
                (last_lt k m.history_size m.history_size ring.in_ring (omega arith))
                (last_lt k m.history_size f ring.in_ring fuel)
                (round_trip m.history_size k ring.in_ring))
      ])
