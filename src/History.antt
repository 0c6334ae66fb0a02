-- ===== src/History.antt =====
-- The ring of an object's last data blocks in the heap (rtdb/kogmo_rtdb_objdata.c).
pub mod Ring
use kogmo_rtdb.Base.{
  ℕ, suc, ◌+◌, ◌-◌, ◌*◌, ◌/◌, ◌%◌, ◌^◌, ℤ, pos, negsuc, pos_part, is_neg, eq_ℤ, ◌+ℤ◌, rem_ℤ, Bool,
  true, false, ◌&&◌, not, ◌==◌, if◌then◌else◌, Option, none, some,
}
use kogmo_rtdb.Types.{LocalData, ObjInfo, Block}

-- The heap index of history slot `k`: `&heap[buffer_idx + k * size_max]`.
abbrev pub slot_addr : ObjInfo → ℕ → ℕ
slot_addr m k = m.buffer_idx + k * m.size_max

abbrev pub block_at : LocalData → ObjInfo → ℕ → Block
block_at db m k = db.heap (slot_addr m k)

-- CMP_INT64_HIGH(committed_ts, invalid_ts): only the upper 32 bits are compared.
abbrev pub is_unused : Block → Bool
is_unused b = b.committed_ts / 2 ^ 32 == 0

-- What kogmo_rtdb_obj_histscan leaves behind: its result, `*currslot_p` and `*firstslot_p`.
pub record Scan : Type 0 where
  pub found : Option Block
  pub curr : ℤ
  pub first : ℤ

-- The test for a step that came round to the first slot, and the read of the slot.
histscan_read : LocalData → ObjInfo → ℤ → Bool → Scan → Scan
histscan_read db m next is_wrap s =
    if is_wrap
    then record { found = none; curr = next; first = s.first }
    else if is_unused (block_at db m (pos_part next))
    then record { found = none; curr = next; first = s.first }
    else record { found = some (block_at db m (pos_part next)); curr = next; first = s.first }

-- kogmo_rtdb_obj_histscan, called with both slot pointers. Its test `currslot_p < 0` compares the
-- pointer, not the slot, and never holds.
unfoldable pub histscan : LocalData → ObjInfo → ℤ → Scan → Scan
unfolding histscan_read eq_ℤ ◌+ℤ◌ rem_ℤ
histscan db m adj s =
    if m.history_size == 0
    then record { found = none; curr = s.curr; first = s.first }
    else if eq_ℤ adj (pos 0)
    then histscan_read db m (rem_ℤ (m.history_slot +ℤ pos m.history_size) m.history_size) false
        (record { found = none; curr = m.history_slot; first = m.history_slot })
    else let next = rem_ℤ (s.curr +ℤ adj +ℤ pos m.history_size) m.history_size in
      histscan_read db m next (eq_ℤ next s.first) s

abbrev pub no_scan : Scan
no_scan = record { found = none; curr = pos 0; first = pos 0 }
