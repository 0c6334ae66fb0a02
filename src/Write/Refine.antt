-- ===== src/Write/Refine.antt =====
-- A commit puts one block in front of the history.
use kogmo_rtdb.Base.{
  ℕ, zero, suc, ◌+◌, ◌-◌, ◌*◌, ◌%◌, ◌^◌, ◌≤◌, ◌<◌, ◌≡◌, ◌≢◌, refl, ap, arith, ℤ, pos, false, ◌∷◌,
  take, some,
}
use kogmo_rtdb.Types.{LocalData, ObjInfo, Block, Handle, ok}
use kogmo_rtdb.Floats.{FloatOps}
use kogmo_rtdb.Meta.{obj_trace_send, findmeta_byid, put_meta}
use kogmo_rtdb.Meta.Find.{findmeta-put, findmeta-get}
use kogmo_rtdb.Time.{timestamp_now}
use kogmo_rtdb.History.{slot_addr, is_unused}
use kogmo_rtdb.History.Ring.{past, history, history_of, HasRing, take-past, past-update, ring_forth}
use kogmo_rtdb.Write.Errors.{Accepts, writedata_found-Accepts}
use kogmo_rtdb.Write.{
  next_slot, publish, set_block, committed_block, commit_block, fresh_ts, writedata,
}

pub heap-publish :
    (db : LocalData) (i : ℕ) (m : ObjInfo) (slot ts : ℕ) → (publish db i m slot ts).heap ≡ db.heap
unfolding publish obj_trace_send
heap-publish db i m slot ts = ground arith

pub objmeta-publish :
    (db : LocalData) (i : ℕ) (m : ObjInfo) (slot ts : ℕ)
    → (publish db i m slot ts).objmeta
      ≡ (put_meta db i (record m { history_slot = pos slot })).objmeta
unfolding publish obj_trace_send
objmeta-publish db i m slot ts = ground arith

-- The metadata after a commit, and the block that it put into the ring.
abbrev pub advanced : ObjInfo → ObjInfo
advanced m = record m { history_slot = pos (next_slot m) }

abbrev pub new_block : Handle → LocalData → ObjInfo → ℕ → Block → Block
new_block h db m committed_ts data_p =
    let old = db.heap (slot_addr m (next_slot m)) in
    committed_block h (fresh_ts db committed_ts old) data_p old

pub next_slot-pos :
    (m : ObjInfo) (h : ℕ) → m.history_slot ≡ pos h → next_slot m ≡ (h + 1) % m.history_size
unfolding next_slot
next_slot-pos m h e = rw e

-- Walking back from the new slot: the new block, and then what lay before it.
past-commit :
    (heap heap' : ℕ → Block) (base stride n h w : ℕ) (hs : ℤ) (b : Block)
    → hs ≡ pos h
    → w ≡ (h + 1) % n
    → 0 < stride
    → h < n
    → heap' (base + w * stride) ≡ b
    → ((a : ℕ) → a ≢ base + w * stride → heap' a ≡ heap a)
    → is_unused b ≡ false
    → past heap' base stride n w n ≡ b ∷ take (n - 1) (history_of heap base stride n hs)
past-commit heap heap' base stride zero h w hs b ehs ew p hn new same used = absurd (omega arith)
past-commit heap heap' base stride (suc n) h w hs b ehs ew p hn new same used =
    let walk = past-update heap heap' base stride (suc n) w n p (omega arith) (omega arith) same in
    let back : (w + suc n - 1) % suc n ≡ (w + n) % suc n = ap (λ x. x % suc n) (omega arith) in
    let at_h : (w + n) % suc n ≡ h = rw ew (ring_forth n h hn) in
    let cut : suc n - 1 ≡ n = omega arith in
    rw (ehs, new, used, back, walk, at_h, cut, take-past heap base stride (suc n) n h)

pub set_block_self : (db : LocalData) (a : ℕ) (b : Block) → (set_block db a b).heap a ≡ b
set_block_self db a b = ground arith

pub set_block_ne :
    (db : LocalData) (a : ℕ) (b : Block) (x : ℕ) → x ≢ a → (set_block db a b).heap x ≡ db.heap x
set_block_ne db a b x h = ground arith

-- A commit to a ring puts the new block in front, and drops at most the oldest.
pub history-commit_block :
    (h : Handle) (db : LocalData) (i k : ℕ) (m : ObjInfo) (committed_ts : ℕ) (data_p : Block)
    → HasRing m k
    → is_unused (new_block h db m committed_ts data_p) ≡ false
    → history (commit_block h db i m committed_ts data_p).db (advanced m)
      ≡ new_block h db m committed_ts data_p ∷ take (m.history_size - 1) (history db m)
unfolding commit_block
history-commit_block h db i k m committed_ts data_p ring used = rw heap-publish (
    past-commit db.heap (set_block db a b).heap m.buffer_idx m.size_max m.history_size k
      (next_slot m) m.history_slot b ring.slot (next_slot-pos m k ring.slot) ring.stride_pos
      ring.in_ring (set_block_self db a b) (set_block_ne db a b) used)
  where
    a : ℕ
    a = slot_addr m (next_slot m)

    b : Block
    b = new_block h db m committed_ts data_p

pub new_block-used :
    (h : Handle) (db : LocalData) (m : ObjInfo) (committed_ts : ℕ) (data_p : Block)
    → 2 ^ 32 ≤ committed_ts
    → is_unused (new_block h db m committed_ts data_p) ≡ false
unfolding committed_block fresh_ts
new_block-used h db m committed_ts data_p late = ground arith

pub findmeta-commit_block :
    (h : Handle) (db : LocalData) (oid i : ℕ) (m : ObjInfo) (ts : ℕ) (data_p : Block)
    → findmeta_byid db oid ≡ some (i, m)
    → findmeta_byid (commit_block h db i m ts data_p).db oid ≡ some (i, advanced m)
unfolding commit_block findmeta_byid
findmeta-commit_block h db oid i m ts data_p found =
    rw objmeta-publish
      (findmeta-put db oid i m (advanced m) found (findmeta-get db oid i m found).1)

HasRing-advanced : (m : ObjInfo) (k : ℕ) → HasRing m k → HasRing (advanced m) (next_slot m)
HasRing-advanced m k ring = record {
  allocated = ring.allocated;
  stride_pos = ring.stride_pos;
  slot = refl;
  in_ring = rw (next_slot-pos m k ring.slot) (ground arith);
}

-- An accepted commit of data to an object that has been written before succeeds; the object is
-- found again in its slot, its ring is intact, and its history is the new block in front of the old
-- history, which loses at most its oldest block.
pub writedata-history :
    (fl : FloatOps) (h : Handle) (db : LocalData) (now oid : ℕ) (data_p : Block) (i k : ℕ)
    (m : ObjInfo)
    → findmeta_byid db oid ≡ some (i, m)
    → HasRing m k
    → Accepts fl h db (timestamp_now db now) m data_p
    → 2 ^ 32 ≤ timestamp_now db now
    → ((writedata fl h db now oid data_p).code ≡ ok tt)
      × (findmeta_byid (writedata fl h db now oid data_p).db oid ≡ some (i, advanced m))
      × HasRing (advanced m) (next_slot m)
      × (history (writedata fl h db now oid data_p).db (advanced m)
          ≡ new_block h db m (timestamp_now db now) data_p
            ∷ take (m.history_size - 1) (history db m))
unfolding writedata commit_block
writedata-history fl h db now oid data_p i k m found ring acc late =
    rw (found, writedata, writedata_found-Accepts fl h db _ data_p i m acc)
      (
        refl,
        findmeta-commit_block h db oid i m _ data_p found,
        HasRing-advanced m k ring,
        history-commit_block h db i k m _ data_p ring (new_block-used h db m _ data_p late),
      )
