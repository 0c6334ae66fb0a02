-- ===== src/Write/First.antt =====
-- The first commit to an object whose memory is clear.
use kogmo_rtdb.Base.{
  ℕ, zero, suc, ◌+◌, ◌-◌, ◌*◌, ◌%◌, ◌^◌, ◌≤◌, ◌<◌, ◌≡◌, ◌≢◌, refl, ap, ◌∙◌, arith, pos, negsuc,
  true, false, ◌∷◌, [], some,
}
use kogmo_rtdb.Types.{LocalData, ObjInfo, Block, Handle, ok}
use kogmo_rtdb.Floats.{FloatOps}
use kogmo_rtdb.Meta.{findmeta_byid}
use kogmo_rtdb.Time.{timestamp_now}
use kogmo_rtdb.History.{slot_addr, is_unused, block_at}
use kogmo_rtdb.History.Ring.{past, history, HasRing, past-update, mod_small}
use kogmo_rtdb.Write.Errors.{Accepts, writedata_found-Accepts}
use kogmo_rtdb.Write.Refine.{
  advanced, new_block, heap-publish, set_block_self, set_block_ne, new_block-used,
  findmeta-commit_block,
}
use kogmo_rtdb.Write.{next_slot, set_block, commit_block, writedata}

-- A ring that was allocated and never written.
pub record IsClear (db : LocalData) (m : ObjInfo) : Type 0 where
  pub allocated : 0 < m.buffer_idx
  pub stride_pos : 0 < m.size_max
  pub slots : 0 < m.history_size
  pub unwritten : m.history_slot ≡ negsuc 0
  pub clear : (k : ℕ) → k < m.history_size → is_unused (block_at db m k) ≡ true

next_slot-first : (m : ObjInfo) → m.history_slot ≡ negsuc 0 → next_slot m ≡ 0
unfolding next_slot
next_slot-first m e = rw e

past-clear :
    (heap : ℕ → Block) (base stride n c k : ℕ)
    → is_unused (heap (base + k * stride)) ≡ true
    → past heap base stride n k c ≡ []
past-clear heap base stride n zero k e = refl
past-clear heap base stride n (suc c) k e = rw e

past-first :
    (heap heap' : ℕ → Block) (base stride n w : ℕ) (b : Block)
    → w ≡ 0
    → 0 < stride
    → 0 < n
    → heap' (base + w * stride) ≡ b
    → ((a : ℕ) → a ≢ base + w * stride → heap' a ≡ heap a)
    → is_unused b ≡ false
    → ((k : ℕ) → k < n → is_unused (heap (base + k * stride)) ≡ true)
    → past heap' base stride n w n ≡ b ∷ []
past-first heap heap' base stride zero w b first p hn new same used clear = absurd (omega arith)
past-first heap heap' base stride (suc n) w b first p hn new same used clear =
    let walk = past-update heap heap' base stride (suc n) w n p (omega arith) (omega arith) same in
    let back : (w + suc n - 1) % suc n ≡ (w + n) % suc n = ap (λ x. x % suc n) (omega arith) in
    let at_n : (w + n) % suc n ≡ n = mod_small (w + n) (suc n) (omega arith) ∙ omega arith in
    rw (new, used, back, walk, at_n)
      (ap (◌∷◌ b) (past-clear heap base stride (suc n) n n (clear n (omega arith))))

-- The first commit to an object whose ring has been allocated and cleared succeeds if it is
-- accepted; the object is found again, its latest slot is slot 0, and its history is the new block
-- alone.
pub writedata-first :
    (fl : FloatOps) (h : Handle) (db : LocalData) (now oid : ℕ) (data_p : Block) (i : ℕ)
    (m : ObjInfo)
    → findmeta_byid db oid ≡ some (i, m)
    → IsClear db m
    → Accepts fl h db (timestamp_now db now) m data_p
    → 2 ^ 32 ≤ timestamp_now db now
    → ((writedata fl h db now oid data_p).code ≡ ok tt)
      × (findmeta_byid (writedata fl h db now oid data_p).db oid ≡ some (i, advanced m))
      × HasRing (advanced m) 0
      × (history (writedata fl h db now oid data_p).db (advanced m)
          ≡ new_block h db m (timestamp_now db now) data_p ∷ [])
unfolding writedata commit_block
writedata-first fl h db now oid data_p i m found ring acc late =
    rw (found, writedata, writedata_found-Accepts fl h db _ data_p i m acc)
      (
        refl,
        findmeta-commit_block h db oid i m _ data_p found,
        record {
          allocated = ring.allocated;
          stride_pos = ring.stride_pos;
          slot = ap pos at_0;
          in_ring = ring.slots;
        },
        rw heap-publish (
            past-first db.heap (set_block db a b).heap m.buffer_idx m.size_max m.history_size
              (next_slot m) b at_0 ring.stride_pos ring.slots (set_block_self db a b)
              (set_block_ne db a b) (new_block-used h db m _ data_p late) ring.clear),
      )
  where
    at_0 : next_slot m ≡ 0
    at_0 = next_slot-first m ring.unwritten

    a : ℕ
    a = slot_addr m (next_slot m)

    b : Block
    b = new_block h db m (timestamp_now db now) data_p
