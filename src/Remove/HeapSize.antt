-- ===== src/Remove/HeapSize.antt =====
-- Deletions, changes of metadata and purges leave the size of the heap as it is.
use kogmo_rtdb.Base.{
  ℕ, zero, suc, ◌≡◌, refl, ap, ◌∙◌, Bool, false, ◌||◌, ◌==◌, some, inl, inr, Bool-cases,
  Option-cases,
}
use mathlib.Core.Option.{none-ne-some}
use kogmo_rtdb.Types.{LocalData, ObjInfo, Handle, Result}
use kogmo_rtdb.Floats.{FloatOps}
use kogmo_rtdb.Time.{timestamp_now}
use kogmo_rtdb.Meta.{objmeta_lock, put_meta, findmeta_byid}
use kogmo_rtdb.Meta.Sent.{heap_size-trace}
use kogmo_rtdb.Memory.{mem_free}
use kogmo_rtdb.Search.{IdList}
use kogmo_rtdb.Remove.Cases.{delete_children-keeps, children-AllIds, delete_imm-Answers}
use kogmo_rtdb.Remove.{changeinfo, purgeslot, delete_mark, delete_imm, children}

pub heap_size-purgeslot :
    (db : LocalData) (i : ℕ) (m : ObjInfo) → (purgeslot db i m).heap_size ≡ db.heap_size
unfolding purgeslot mem_free
heap_size-purgeslot db i m = elim (Bool-cases (m.buffer_idx == 0)) [
  | inl bare ↦ rw bare refl
  | inr ring ↦ rw ring refl
]

pub heap_size-changeinfo :
    (fl : FloatOps) (h : Handle) (db : LocalData) (now oid : ℕ) (new : ObjInfo)
    → (changeinfo fl h db now oid new).1.heap_size ≡ db.heap_size
unfolding changeinfo
heap_size-changeinfo fl h db now oid new = elim (Bool-cases h.is_admin) [
  | inr guest ↦ rw guest refl
  | inl admin ↦ elim (Option-cases (findmeta_byid db oid)) [
    | inl missing ↦ rw (admin, missing) refl
    | inr ((i, m), found) ↦ rw (admin, found) (heap_size-trace _ _)
  ]
]

module _ (h : Handle) (now : ℕ) (stray : ℕ → ℕ) (stack : IdList) where
  heap_size-delete_mark :
      (db : LocalData) (i : ℕ) (m : ObjInfo) (imm : Bool)
      → (delete_mark h now stray stack db i m imm).heap_size ≡ db.heap_size
  unfolding delete_mark
  heap_size-delete_mark db i m imm =
      heap_size-trace _ _ ∙ elim (Bool-cases (m.flags.immediately_delete || imm)) [
        | inl at_once ↦
            rw at_once (heap_size-purgeslot (put_meta (objmeta_lock db) i marked) i marked)
        | inr later ↦ rw later refl
      ]
    where
      marked : ObjInfo
      marked = record m { deleted_proc = h.proc_oid; deleted_ts = timestamp_now db now }

  pub heap_size-delete_imm :
      (f : ℕ) (db : LocalData) (oid : ℕ) (imm : Bool) (r : Result (Unit {0}) × LocalData)
      → delete_imm h now stray stack f db oid imm ≡ some r
      → r.1.heap_size ≡ db.heap_size
  unfolding delete_imm
  heap_size-delete_imm zero db oid imm r e = absurd (none-ne-some r e)
  heap_size-delete_imm (suc f) db oid imm r e =
      elim (delete_imm-Answers h now stray stack f db oid imm r e) [
        | inl (same, _) ↦ ap (λ z. z.heap_size) same
        | inr (i, m, found, _, done) ↦
            delete_children-keeps (λ d. d.heap_size ≡ db.heap_size)
              (λ d c. delete_imm h now stray stack f d c false)
              (λ d d' c x _ eq p. heap_size-delete_imm f d c false (x, d') p ∙ eq)
              (children db stack oid) _ r.1 (children-AllIds h now stray stack db oid)
              (heap_size-delete_mark db i m imm) done
      ]
