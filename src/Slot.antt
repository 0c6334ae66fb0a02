-- ===== src/Slot.antt =====
-- Access to an object's history by slots (rtdb/kogmo_rtdb_objdata_slot.c): a process remembers where
-- it is in the ring and moves on relative to that. The C function takes a mode: 0 for the latest
-- slot, 1 to move with the check of the old position, -1 to move without it.
pub mod Walk
pub mod History
use kogmo_rtdb.Base.{
  ℕ, suc, ◌+◌, ◌-◌, ◌*◌, ℤ, pos, negsuc, is_neg, pos_part, ◌+ℤ◌, rem_ℤ, Bool, true, false, ◌&&◌,
  not, ◌==◌, ltb, leb, if◌then◌else◌, take, get_elem?, none, some, Option,
}
use kogmo_rtdb.Types.{LocalData, ObjInfo, Block, Result, ok, err, Err, base_size}
use kogmo_rtdb.Meta.{findmeta_byid}

-- kogmo_rtdb_obj_slot_t
pub record ObjSlot : Type 0 where
  pub oid : ℕ
  pub committed_ts : ℕ
  pub object_slot : ℤ
  pub history_slot : ℤ

-- What a call returns: the block that it points to, whose size is the function's value, or an error;
-- and the caller's slot.
pub record SlotRead : Type 0 where
  pub code : Result Block
  pub slot : ObjSlot

-- The heap index of a history slot, which may be -1 before the first write.
unfoldable pub addr : ObjInfo → ℤ → ℕ
addr m (pos k) = m.buffer_idx + k * m.size_max
addr m (negsuc k) = m.buffer_idx - suc k * m.size_max

-- "calculate next slot position"
unfoldable pub next_pos : ℤ → ℤ → ℕ → ℤ
next_pos slot offset n = rem_ℤ (slot +ℤ rem_ℤ offset n +ℤ pos n) n

abbrev pub is_pos : ℤ → Bool
is_pos (pos n) = ltb 0 n
is_pos (negsuc n) = false

-- From the object's metadata on.
unfoldable pub move : LocalData → Bool → ℤ → ObjInfo → ObjSlot → SlotRead
move db check offset m s =
    let last : Block = db.heap (addr m s.history_slot) in
    let s' : ObjSlot = record s { history_slot = next_pos s.history_slot offset m.history_size } in
    let b : Block = db.heap (addr m s'.history_slot) in
    if b.committed_ts == 0
    then record { code = err Err.notfound; slot = s' }
    else if check && not (last.committed_ts == s.committed_ts)
    then record { code = err Err.histwrap; slot = s' }
    else if check && is_neg offset && ltb s.committed_ts b.committed_ts
    then record { code = err Err.histwrap; slot = s' }
    else if check && is_pos offset && ltb b.committed_ts s.committed_ts
    then record { code = err Err.toofast; slot = s' }
    else record { code = ok b; slot = record s' { committed_ts = b.committed_ts } }

-- kogmo_rtdb_obj_readdataslot_ptr with mode 0: to the latest slot of the object.
unfoldable pub readdataslot_latest : LocalData → ObjSlot → SlotRead
unfolding move
readdataslot_latest db s = elim (findmeta_byid db s.oid) [
  | none ↦ record { code = err Err.notfound; slot = s }
  | some (i, m) ↦
      let s1 : ObjSlot = record s { object_slot = pos i; history_slot = m.history_slot } in
      if is_neg m.history_slot
      then record { code = err Err.notfound; slot = s1 }
      else move db false (pos 0) m (record s1 { committed_ts = 0 })
]

-- The other modes: from the slot that is remembered.
unfoldable pub readdataslot_from : LocalData → Bool → ℤ → ObjSlot → SlotRead
unfolding move
readdataslot_from db check offset s = elim s.object_slot [
  | negsuc k ↦ record { code = err Err.invalid; slot = s }
  | pos i ↦ elim (get_elem? db.objmeta i) [
    | none ↦ record { code = err Err.invalid; slot = s }
    | some m ↦
        if not (s.oid == m.oid)
        then record { code = err Err.notfound; slot = s }
        else move db check offset m s
  ]
]

unfoldable pub readdataslot_init : LocalData → ObjSlot → ℕ → SlotRead
readdataslot_init db s oid = readdataslot_latest db (record s { oid = oid })

-- After an error the slot is set to the latest one again.
unfoldable pub readdataslot_relative_ptr : LocalData → ObjSlot → ℤ → SlotRead
readdataslot_relative_ptr db s offset =
    let r = readdataslot_from db true offset s in
    elim r.code [
      | err e ↦ record { code = err e; slot = (readdataslot_latest db r.slot).slot }
      | ok b ↦ record { code = ok b; slot = r.slot }
    ]

unfoldable pub readdataslot_check : LocalData → ObjSlot → SlotRead
readdataslot_check db s = readdataslot_from db true (pos 0) s

-- What a copying call returns: the real size, the caller's buffer and slot.
pub record SlotCopy : Type 0 where
  pub code : Result ℕ
  pub buffer : Block
  pub slot : ObjSlot

-- kogmo_rtdb_obj_readdataslot_relative: other processes have made `copied` of the block by the time
-- of the copy, and `later` of the database by the time of the second check. The caller's buffer has
-- room for at least a header.
unfoldable pub readdataslot_relative :
    LocalData → (Block → Block) → LocalData → ObjSlot → ℤ → Block → ℕ → SlotCopy
readdataslot_relative db copied later s offset data_p size =
    let r = readdataslot_from db true offset s in
    elim r.code [
      | err e ↦ record {
        code = err e;
        buffer = data_p;
        slot = (readdataslot_latest db r.slot).slot;
      }
      | ok b ↦
          let realsize : ℕ = b.size in
          let avail : ℕ = if ltb realsize size then realsize else size in
          let copy : Block = record (copied b) {
            payload = take (avail - base_size) (copied b).payload;
          } in
          let c = readdataslot_from later true (pos 0) r.slot in
          elim c.code [
            | err e ↦ record {
              code = err e;
              buffer = copy;
              slot = (readdataslot_latest later c.slot).slot;
            }
            | ok b' ↦ record { code = ok realsize; buffer = copy; slot = c.slot }
          ]
    ]
