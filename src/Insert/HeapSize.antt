-- ===== src/Insert/HeapSize.antt =====
-- An insertion leaves the size of the heap as it is.
use kogmo_rtdb.Base.{ℕ, ◌≡◌, sym, ap, ◌∙◌, inl, inr}
use kogmo_rtdb.Types.{LocalData, ObjInfo, Handle, ok}
use kogmo_rtdb.Floats.{FloatOps}
use kogmo_rtdb.Time.{timestamp_now}
use kogmo_rtdb.Meta.{objmeta_lock}
use kogmo_rtdb.Meta.Sent.{heap_size-trace}
use kogmo_rtdb.Memory.{Allocator}
use kogmo_rtdb.Insert.{init_meta, insert}
use kogmo_rtdb.Insert.Slots.{find_place_lem}
use kogmo_rtdb.Insert.Success.{entered_db, entered_msg, enter_lem, insert_lem, place_of}

pub heap_size-insert :
    (fl : FloatOps) (al : Allocator) (h : Handle) (stray : ℕ) (db : LocalData) (now : ℕ)
    (new : ObjInfo) (oid : ℕ)
    → (insert fl al h stray db now new).code ≡ ok oid
    → (insert fl al h stray db now new).db.heap_size ≡ db.heap_size
heap_size-insert fl al h stray db now new oid success =
    let ts = timestamp_now db now in
    let p = place_of fl al h db now new in
    let (i, slot, _, path) = insert_lem fl al h stray db now new oid success in
    let (_, done) = enter_lem stray i p.info p.db oid (ap (λ z. z.code) (sym path) ∙ success) in
    ap (λ z. z.db.heap_size) (path ∙ done)
    ∙ heap_size-trace (entered_db i oid p.info p.db) (entered_msg stray oid p.info)
    ∙ elim (find_place_lem fl al h ts (init_meta fl h ts new) (objmeta_lock db) i slot) [
      | inl (_, _, _, q) ↦ ap (λ z. z.db.heap_size) q
      | inr (_, inl (_, q)) ↦ ap (λ z. z.db.heap_size) q
      | inr (_, inr (_, _, q)) ↦ ap (λ z. z.db.heap_size) q
    ]
