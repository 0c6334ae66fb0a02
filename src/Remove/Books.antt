-- ===== src/Remove/Books.antt =====
-- Deleting objects keeps the books: every slot and every ring that is given up is accounted for.
use kogmo_rtdb.Base.{
  ℕ, zero, suc, ◌≡◌, ◌≢◌, refl, sym, ◌∙◌, arith, Bool, false, ◌||◌, ◌==◌, List, [], ◌∷◌, some,
  get_elem?, inl, inr, subst, Bool-cases, set,
}
use mathlib.Core.Option.{none-ne-some}
use kogmo_rtdb.Types.{LocalData, TraceMsg, ObjInfo, Handle, Result}
use kogmo_rtdb.Meta.{objmeta_lock, put_meta, obj_trace_send}
use kogmo_rtdb.Meta.Find.{findmeta-get}
use kogmo_rtdb.Time.{timestamp_now}
use kogmo_rtdb.Search.{IdList}
use kogmo_rtdb.Memory.{mem_free}
use kogmo_rtdb.Memory.Balance.{IsBalanced}
use kogmo_rtdb.Memory.Steps.{books-change, books-free}
use kogmo_rtdb.Memory.Entry.{books-vacate}
use kogmo_rtdb.Remove.Cases.{delete_children-keeps, children-AllIds, delete_imm-Answers}
use kogmo_rtdb.Remove.{purgeslot, delete_mark, delete_imm, children}

-- A purge of a slot in use.
pub purgeslot-IsBalanced :
    (extra : ℕ) (db : LocalData) (i : ℕ) (m : ObjInfo)
    → IsBalanced extra db
    → get_elem? db.objmeta i ≡ some m
    → m.oid ≢ 0
    → IsBalanced extra (purgeslot db i m)
unfolding purgeslot mem_free
purgeslot-IsBalanced extra db i m b e here = elim (Bool-cases (m.buffer_idx == 0)) [
  | inl bare ↦ rw bare (
      books-vacate extra db.objmeta _ _ _ _ _ i m (record m { oid = 0 }) b e here (ground arith)
        refl)
  | inr ring ↦ rw ring (
      books-free extra db.objmeta _ _ _ _ _ i m (record m { oid = 0 }) b e (here, ground arith)
        refl)
]

pub trace-IsBalanced :
    (extra : ℕ) (db : LocalData) (msg : TraceMsg)
    → IsBalanced extra db
    → IsBalanced extra (obj_trace_send db msg)
unfolding obj_trace_send
trace-IsBalanced extra db msg b = elim (Bool-cases (db.rtdb_tracebufsize == 0)) [
  | inl none_sent ↦ rw none_sent b
  | inr queue ↦ elim (Bool-cases (db.rtdb_trace == 0)) [
    | inl off ↦ rw (queue, off) b
    | inr on ↦ rw (queue, on) b
  ]
]

module _ (h : Handle) (now : ℕ) (stray : ℕ → ℕ) (stack : IdList) where
  pub delete_mark-IsBalanced :
      (extra : ℕ) (db : LocalData) (i : ℕ) (m : ObjInfo) (imm : Bool)
      → IsBalanced extra db
      → get_elem? db.objmeta i ≡ some m
      → m.oid ≢ 0
      → IsBalanced extra (delete_mark h now stray stack db i m imm)
  unfolding delete_mark
  delete_mark-IsBalanced extra db i m imm b e here =
      trace-IsBalanced extra _ _ (elim (Bool-cases (m.flags.immediately_delete || imm)) [
        | inl at_once ↦ rw at_once (
            purgeslot-IsBalanced extra (put_meta (objmeta_lock db) i marked) i marked change
              (found db.objmeta i m marked e) here)
        | inr later ↦ rw later change
      ])
    where
      marked : ObjInfo
      marked = record m { deleted_proc = h.proc_oid; deleted_ts = timestamp_now db now }

      change : IsBalanced extra (put_meta db i marked)
      change =
          books-change extra db.objmeta _ _ _ _ _ i m marked b e (λ o. (o, refl, refl)) refl refl

      found :
          (ms : List ObjInfo) (i : ℕ) (m m' : ObjInfo)
          → get_elem? ms i ≡ some m
          → get_elem? (set ms i m') i ≡ some m'
      found [] i m m' e = ground arith
      found (x ∷ ms) zero m m' e = refl
      found (x ∷ ms) (suc i) m m' e = found ms i m m' e

  -- Whatever a deletion answers and however far it goes down, it keeps the books.
  pub delete_imm-IsBalanced :
      (extra f : ℕ) (db : LocalData) (oid : ℕ) (imm : Bool) (r : Result (Unit {0}) × LocalData)
      → IsBalanced extra db
      → oid ≢ 0
      → delete_imm h now stray stack f db oid imm ≡ some r
      → IsBalanced extra r.1
  unfolding delete_imm
  delete_imm-IsBalanced extra zero db oid imm r b pos e = absurd (none-ne-some r e)
  delete_imm-IsBalanced extra (suc f) db oid imm r b pos e =
      elim (delete_imm-Answers h now stray stack f db oid imm r e) [
        | inl (same, _) ↦ subst (λ d. IsBalanced extra d) (sym same) b
        | inr (i, m, found, _, done) ↦
            let (at_i, is_oid) = findmeta-get db oid i m found in
            delete_children-keeps (λ d. IsBalanced extra d)
              (λ d c. delete_imm h now stray stack f d c false)
              (λ d d' c x here bal p. delete_imm-IsBalanced extra f d c false (x, d') bal here p)
              (children db stack oid) _ r.1 (children-AllIds h now stray stack db oid)
              (delete_mark-IsBalanced extra db i m imm b at_i (λ z. pos (sym is_oid ∙ z))) done
      ]
