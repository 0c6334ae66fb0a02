-- ===== src/Insert/Clear.antt =====
-- The memory of a new object.
use kogmo_rtdb.Base.{
  ℕ, ◌+◌, ◌*◌, ◌<◌, ◌≡◌, refl, sym, ap, ◌∙◌, arith, true, ltb, leb, negsuc, none, inl, inr, subst,
}
use native.Mathlib.Nat.{mul_comm}
use kogmo_rtdb.Types.{LocalData, ObjInfo, Handle, Block, ok}
use kogmo_rtdb.Floats.{FloatOps}
use kogmo_rtdb.Time.{timestamp_now}
use kogmo_rtdb.Meta.{objmeta_lock, objmeta_unlock, obj_trace_send}
use kogmo_rtdb.Meta.Sent.{heap-trace}
use kogmo_rtdb.History.{is_unused}
use kogmo_rtdb.History.Ring.{slot_lt}
use kogmo_rtdb.Memory.{Allocator, IsSound, clear}
use kogmo_rtdb.Write.First.{IsClear}
use kogmo_rtdb.Insert.{
  Place, insert, find_place, find_slot, is_reusable, init_meta, ring_bytes_of, find_new,
}
use kogmo_rtdb.Insert.Slots.{find_new_lem, taken, allocated}
use kogmo_rtdb.Insert.Success.{entered, entered_db, entered_msg, enter_lem, insert_lem, place_of}
use kogmo_rtdb.Insert.Lost.{prepared}

cleared :
    (heap : ℕ → Block) (idx size n k : ℕ)
    → 0 < size
    → k < n
    → is_unused (clear heap idx (size * n) (idx + k * size)) ≡ true
cleared heap idx size n k p lt =
    let inside = slot_lt k n size p lt in
    let swap : n * size ≡ size * n = mul_comm n size in
    let low : leb idx (idx + k * size) ≡ true = ground arith in
    let high : ltb (idx + k * size) (idx + size * n) ≡ true = ground arith in rw (low, high) refl

-- A ring that was allocated for an object is clear once the object has entered the table.
ring-IsClear :
    (stray i oid idx : ℕ) (m : ObjInfo) (db : LocalData) (heap : ℕ → Block)
    → 0 < idx
    → 0 < m.size_max
    → 0 < m.history_size
    → m.history_slot ≡ negsuc 0
    → db.heap ≡ clear heap idx (ring_bytes_of m)
    → IsClear
        (obj_trace_send
          (entered_db i oid (record m { buffer_idx = idx }) db)
          (entered_msg stray oid (record m { buffer_idx = idx })))
        (entered oid (record m { buffer_idx = idx }))
ring-IsClear stray i oid idx m db heap pos_idx sized slots unwritten e = record {
  allocated = pos_idx;
  stride_pos = sized;
  slots = slots;
  unwritten = unwritten;
  clear = λ k lt. rw heap-trace (rw e (cleared heap idx m.size_max m.history_size k sized lt));
}

-- An object with data that is inserted with newly allocated memory, because none could be taken
-- over, starts with a clear ring: a first commit to it makes its history. The allocator behaves as
-- documented.
pub insert-IsClear :
    (fl : FloatOps) (al : Allocator) (h : Handle) (stray : ℕ) (db : LocalData) (now : ℕ)
    (new : ObjInfo) (oid : ℕ)
    → IsSound al db.heap_size
    → find_slot
        (is_reusable fl h db.default_keep_deleted_interval
          (timestamp_now db now)
          (prepared fl al h db now new))
        db.objmeta
        0
      ≡ none
    → 0 < (prepared fl al h db now new).size_max
    → 0 < (prepared fl al h db now new).history_size
    → (insert fl al h stray db now new).code ≡ ok oid
    → let r = insert fl al h stray db now new in IsClear r.db r.info
unfolding init_meta find_place
insert-IsClear fl al h stray db now new oid sound no_old sized slots success =
    let m = prepared fl al h db now new in
    let p = place_of fl al h db now new in
    let (i, slot, _, path) = insert_lem fl al h stray db now new oid success in
    let (_, done) = enter_lem stray i p.info p.db oid (ap (λ z. z.code) (sym path) ∙ success) in
    let searched : p ≡ find_new al m (objmeta_lock db) = rw (no_old, find_place) refl in
    let (_, place) =
      find_new_lem al m (objmeta_lock db) i (ap (λ z. z.slot) (sym searched) ∙ slot) in
    subst (λ r. IsClear r.db r.info) (sym (path ∙ done))
      (elim place [
        | inl (no_size, _) ↦ absurd (omega arith)
        | inr (idx, given, q) ↦
            subst
              (λ (z : Place).
                IsClear
                  (obj_trace_send (entered_db i oid z.info z.db) (entered_msg stray oid z.info))
                  (entered oid z.info))
              (sym (searched ∙ q))
              (ring-IsClear stray i oid idx m
                (taken (
                  objmeta_lock
                    (allocated (objmeta_unlock (objmeta_lock db)) (ring_bytes_of m) idx)))
                db.heap (sound.header db.pool (ring_bytes_of m) idx given) sized slots refl refl)
      ])
