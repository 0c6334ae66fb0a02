-- ===== src/Read/Stale.antt =====
-- Reads of an object that has a ring but has not been written yet. The check "no writes yet" of
-- kogmo_rtdb_obj_histscan compares a pointer and never holds, so such a read looks at the last slot
-- of the ring: memory that was cleared when it was allocated, but not when an object with keep_alloc
-- is replaced by a new one.
use kogmo_rtdb.Base.{
  ℕ, zero, suc, ◌+◌, ◌-◌, ◌%◌, ◌≤◌, ◌<◌, ◌≡◌, refl, ◌∙◌, arith, pos, negsuc, eq_ℤ, ◌+ℤ◌, rem_ℤ,
  Bool, true, false, Option, none, some, leb, if◌then◌else◌,
}
use kogmo_rtdb.Types.{LocalData, ObjInfo, Block, Handle, ok, err, Err}
use kogmo_rtdb.Meta.{findmeta_byid, may_read}
use kogmo_rtdb.History.{histscan, is_unused, block_at, no_scan}
use kogmo_rtdb.History.Ring.{rem_back, mod_small}
use kogmo_rtdb.Read.{Mode, find_block, select, scan_older}
use kogmo_rtdb.Read.Loops.{scan_older-next}
use kogmo_rtdb.Read.Refine.{find_block-used, find_block-unused}

-- An object with memory that has not been written since it was inserted.
pub record IsUnwritten (m : ObjInfo) : Type 0 where
  pub allocated : 0 < m.buffer_idx
  pub slot : m.history_slot ≡ negsuc 0
  pub has_slots : 0 < m.history_size

rem_unwritten : (n : ℕ) → 0 < n → rem_ℤ (negsuc 0 +ℤ pos n) n ≡ pos (n - 1)
unfolding rem_ℤ ◌+ℤ◌
rem_unwritten n p = ground (arith, mod_small (0 + n - 1) n)

histscan-unwritten :
    (db : LocalData) (m : ObjInfo)
    → IsUnwritten m
    → histscan db m (pos 0) no_scan ≡ record {
      found =
          if is_unused (block_at db m (m.history_size - 1))
          then none
          else some (block_at db m (m.history_size - 1));
      curr = pos (m.history_size - 1);
      first = negsuc 0;
    }
unfolding histscan
histscan-unwritten db m un =
    rw (un.slot, rem_unwritten m.history_size un.has_slots) (ground (arith, un.has_slots))

eq_ℤ-neg : (j : ℕ) → eq_ℤ (pos j) (negsuc 0) ≡ false
unfolding eq_ℤ
eq_ℤ-neg j = ground arith

-- A step back never comes round to the first slot, which is -1.
histscan-endless :
    (db : LocalData) (m : ObjInfo) (k : ℕ) (f : Option Block)
    → 0 < m.history_size
    → let j = (k + m.history_size - 1) % m.history_size in
      is_unused (block_at db m j) ≡ false
      → histscan db m (negsuc 0) (record { found = f; curr = pos k; first = negsuc 0 })
        ≡ record { found = some (block_at db m j); curr = pos j; first = negsuc 0 }
unfolding histscan
histscan-endless db m k f p used = rw (rem_back m.history_size k p, eq_ℤ-neg) (ground arith)

scan_older-endless :
    (f k : ℕ) (db : LocalData) (m : ObjInfo) (too_new : Block → Bool) (b : Block)
    → 0 < m.history_size
    → ((j : ℕ)
        → j < m.history_size
        → (is_unused (block_at db m j) ≡ false) × (too_new (block_at db m j) ≡ true))
    → too_new b ≡ true
    → scan_older f db m too_new b (record { found = some b; curr = pos k; first = negsuc 0 }) ≡ none
unfolding scan_older
scan_older-endless zero k db m too_new b p all now = refl
scan_older-endless (suc f) k db m too_new b p all now =
    let j : ℕ = (k + m.history_size - 1) % m.history_size in
    let (used, newer) = all j (omega arith) in
    let next : scan_older (suc f) db m too_new b
          (record { found = some b; curr = pos k; first = negsuc 0 })
        ≡ scan_older f db m too_new (block_at db m j)
            (record { found = some (block_at db m j); curr = pos j; first = negsuc 0 }) =
      scan_older-next db m too_new f b _ _ _ now (histscan-endless db m k (some b) p used) refl in
    next ∙ scan_older-endless f j db m too_new (block_at db m j) p all newer

module _ (f : ℕ) (h : Handle) (db : LocalData) (oid i : ℕ) (m : ObjInfo)
    (found : findmeta_byid db oid ≡ some (i, m)) (un : IsUnwritten m)
    (may : may_read h m ≡ true) where
  -- In memory that was cleared every read of an unwritten object reports "not found".
  pub unwritten_cleared :
      (mode : Mode) (ts : ℕ)
      → is_unused (block_at db m (m.history_size - 1)) ≡ true
      → find_block f h db mode oid ts ≡ some (err Err.notfound)
  unwritten_cleared mode ts clear =
      find_block-unused f h db mode oid ts i m found un.allocated may
        (rw (histscan-unwritten db m un) (ground arith))

  unwritten_start :
      (mode : Mode) (ts : ℕ)
      → is_unused (block_at db m (m.history_size - 1)) ≡ false
      → find_block f h db mode oid ts
        ≡ select f db m mode ts (block_at db m (m.history_size - 1)) (record {
          found = some (block_at db m (m.history_size - 1));
          curr = pos (m.history_size - 1);
          first = negsuc 0;
        })
  unwritten_start mode ts used =
      find_block-used f h db mode oid ts i m found un.allocated may
        (block_at db m (m.history_size - 1)) _ (histscan-unwritten db m un ∙ ground arith) refl

  -- Where the last slot holds a block that an earlier object left, a read of the latest data of the
  -- unwritten object returns that block.
  pub unwritten_stale :
      m.deleted_ts ≡ 0
      → is_unused (block_at db m (m.history_size - 1)) ≡ false
      → find_block f h db Mode.last oid 0 ≡ some (ok (block_at db m (m.history_size - 1)))
  unfolding select
  unwritten_stale alive used = unwritten_start Mode.last 0 used ∙ ground arith

  -- Where the whole ring holds such blocks, all of them too new for the reader, the read never ends.
  pub unwritten_endless :
      (ts : ℕ)
      → ((j : ℕ)
          → j < m.history_size
          → (is_unused (block_at db m j) ≡ false) × (ts ≤ (block_at db m j).committed_ts))
      → find_block f h db Mode.older oid ts ≡ none
  unfolding select
  unwritten_endless ts all =
      let last = all (m.history_size - 1) (let p = un.has_slots in omega arith) in
      unwritten_start Mode.older ts last.0
      ∙ scan_older-endless f (m.history_size - 1) db m (λ x. leb ts x.committed_ts) _ un.has_slots
          (λ j lt. let (u, t) = all j lt in (u, ground arith)) (ground arith)
