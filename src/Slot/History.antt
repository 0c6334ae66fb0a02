-- ===== src/Slot/History.antt =====
-- Slots against the history list: the latest slot, and the slots before it.
use kogmo_rtdb.Base.{
  ℕ, zero, suc, ◌+◌, ◌-◌, ◌*◌, ◌%◌, ◌≡◌, refl, sym, ap, ◌∙◌, arith, pos, true, false, ◌==◌, is_neg,
  some, get_elem?, inl, inr, Bool-cases, subst,
}
use mathlib.Core.Option.{none-ne-some}
use kogmo_rtdb.Types.{LocalData, ObjInfo, Block, ok, err}
use kogmo_rtdb.Meta.{findmeta_byid}
use kogmo_rtdb.Meta.Find.{findmeta-get}
use kogmo_rtdb.History.{is_unused, block_at}
use kogmo_rtdb.History.Ring.{past, history_of, history, HasRing, mod_wrap}
use kogmo_rtdb.Read.ByTime.{IsDecreasing}
use kogmo_rtdb.Slot.Walk.{back, move-back, next_pos-back}
use kogmo_rtdb.Slot.{
  ObjSlot, SlotRead, addr, next_pos, move, readdataslot_latest, readdataslot_from,
  readdataslot_init, readdataslot_relative_ptr,
}

-- A slot at position `p` of the ring of the object in slot `i`, of which it has seen the block.
abbrev pub slot_at : LocalData → ObjSlot → ℕ → ℕ → ObjInfo → ℕ → ObjSlot
slot_at db s oid i m p = record s {
  oid = oid;
  committed_ts = (block_at db m p).committed_ts;
  object_slot = pos i;
  history_slot = pos p;
}

past-used :
    (heap : ℕ → Block) (base stride n p c k : ℕ) (b : Block)
    → get_elem? (past heap base stride n p c) k ≡ some b
    → is_unused (heap (base + p * stride)) ≡ false
past-used heap base stride n p zero k b e = absurd (none-ne-some b e)
past-used heap base stride n p (suc c) k b e =
    elim (Bool-cases (is_unused (heap (base + p * stride)))) [
      | inl unused ↦ absurd (none-ne-some b (rw unused at e))
      | inr used ↦ used
    ]

move-stays :
    (db : LocalData) (m : ObjInfo) (s : ObjSlot) (p : ℕ)
    → next_pos s.history_slot (pos 0) m.history_size ≡ pos p
    → ((block_at db m p).committed_ts == 0) ≡ false
    → move db false (pos 0) m s ≡ record {
      code = ok (block_at db m p);
      slot = record s { history_slot = pos p; committed_ts = (block_at db m p).committed_ts };
    }
unfolding move addr
move-stays db m s p next used = rw (next, used, move) refl

history-get :
    (db : LocalData) (m : ObjInfo) (h k : ℕ)
    → m.history_slot ≡ pos h
    → get_elem? (history db m) k
      ≡ get_elem? (past db.heap m.buffer_idx m.size_max m.history_size h m.history_size) k
history-get db m h k e =
    ap (λ z. get_elem? (history_of db.heap m.buffer_idx m.size_max m.history_size z) k) e

-- The call for the latest slot of an object that has been written answers its latest block.
readdataslot_init-latest :
    (db : LocalData) (s : ObjSlot) (oid i h : ℕ) (m : ObjInfo)
    → findmeta_byid db oid ≡ some (i, m)
    → HasRing m h
    → is_unused (block_at db m h) ≡ false
    → readdataslot_init db s oid
      ≡ record { code = ok (block_at db m h); slot = slot_at db s oid i m h }
unfolding readdataslot_init readdataslot_latest
readdataslot_init-latest db s oid i h m found ring used =
    rw (found, readdataslot_init, readdataslot_latest, ap is_neg ring.slot)
      (move-stays db m
        (record s {
          oid = oid;
          committed_ts = 0;
          object_slot = pos i;
          history_slot = m.history_slot;
        })
        h at_h (ground arith))
  where
    round : (h + m.history_size - 0) % m.history_size ≡ h
    round =
        let p = ring.in_ring in
        mod_wrap (h + m.history_size - 0) m.history_size (omega arith) (omega arith) ∙ omega arith

    at_h : next_pos m.history_slot (pos 0) m.history_size ≡ pos h
    at_h =
        let p = ring.in_ring in
        ap (λ z. next_pos z (pos 0) m.history_size) ring.slot
        ∙ next_pos-back h 0 m.history_size p (omega arith)
        ∙ ap pos round

-- After the call for the latest slot, a relative read `k` slots back answers the block that stands
-- `k` places behind the newest in the object's history, as far as the history goes; the slot then
-- stands there. The blocks of the history were committed at decreasing times, and nobody writes in
-- between.
pub readdataslot_relative_ptr-history :
    (db : LocalData) (s : ObjSlot) (oid i h k : ℕ) (m : ObjInfo) (b : Block)
    → findmeta_byid db oid ≡ some (i, m)
    → HasRing m h
    → IsDecreasing (λ x. x.committed_ts) (history db m)
    → get_elem? (history db m) k ≡ some b
    → readdataslot_relative_ptr db (readdataslot_init db s oid).slot (back k) ≡ record {
      code = ok b;
      slot = record (slot_at db s oid i m ((h + m.history_size - k) % m.history_size)) {
        committed_ts = b.committed_ts;
      };
    }
unfolding readdataslot_relative_ptr readdataslot_from
readdataslot_relative_ptr-history db s oid i h k m b found ring d e =
    ap (λ r. readdataslot_relative_ptr db r.slot (back k))
      (readdataslot_init-latest db s oid i h m found ring
        (past-used db.heap m.buffer_idx m.size_max m.history_size h m.history_size k b listed))
    ∙ ap finish moved
  where
    finish : SlotRead → SlotRead
    finish r = elim r.code [
      | err e ↦ record { code = err e; slot = (readdataslot_latest db r.slot).slot }
      | ok x ↦ record { code = ok x; slot = r.slot }
    ]

    listed :
        get_elem? (past db.heap m.buffer_idx m.size_max m.history_size h m.history_size) k ≡ some b
    listed = sym (history-get db m h k ring.slot) ∙ e

    meta : (get_elem? db.objmeta i ≡ some m) × (m.oid ≡ oid)
    meta = findmeta-get db oid i m found

    same : (oid == m.oid) ≡ true
    same = let q = meta.1 in ground arith

    moved : readdataslot_from db true (back k) (slot_at db s oid i m h) ≡ record {
      code = ok b;
      slot = record (slot_at db s oid i m ((h + m.history_size - k) % m.history_size)) {
        committed_ts = b.committed_ts;
      };
    }
    moved =
        rw (meta.0, readdataslot_from, same)
          (move-back db m (slot_at db s oid i m h) h m.history_size k b ring.in_ring (omega arith)
            refl refl
            (subst
              (λ z.
                IsDecreasing (λ x. x.committed_ts)
                  (history_of db.heap m.buffer_idx m.size_max m.history_size z))
              ring.slot d)
            listed)
