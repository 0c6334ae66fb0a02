-- ===== src/Write/Books.antt =====
-- Commits keep the books and the size of the heap, whatever they answer.
use kogmo_rtdb.Base.{
  ℕ, pos, ◌≡◌, refl, Bool, true, false, ◌||◌, ◌==◌, not, ltb, if◌then◌else◌, some, get_elem?, inl,
  inr, Option-cases, Bool-cases,
}
use kogmo_rtdb.Types.{LocalData, ObjInfo, Block, Handle, Result, ok, err, Err, base_size}
use kogmo_rtdb.Floats.{FloatOps}
use kogmo_rtdb.Time.{timestamp_now}
use kogmo_rtdb.Meta.{findmeta_byid, may_write, put_meta}
use kogmo_rtdb.Meta.Find.{findmeta-get}
use kogmo_rtdb.Meta.Sent.{heap_size-trace}
use kogmo_rtdb.History.{slot_addr}
use kogmo_rtdb.Memory.Balance.{IsBalanced}
use kogmo_rtdb.Memory.Steps.{books-change}
use kogmo_rtdb.Remove.Books.{trace-IsBalanced}
use kogmo_rtdb.Write.{
  Written, write_fails, next_slot, too_fast, set_block, publish, commit_block, writedata_found,
  writedata, is_private, writedata_ptr_begin, ptr_commit_found, writedata_ptr_commit,
}

-- The heap has `n` bytes, and the books are kept.
abbrev pub IsSteady : ℕ → ℕ → LocalData → Type 0
IsSteady n extra db = (db.heap_size ≡ n) × IsBalanced extra db

if-keeps {ℓ κ} :
    {A : Type ℓ} (P : A → Type κ) (b : Bool) (x y : A) → P x → P y → P (if b then x else y)
if-keeps P true x y p q = p
if-keeps P false x y p q = q

-- The slot becomes the latest.
publish-IsSteady :
    (n extra : ℕ) (db : LocalData) (i : ℕ) (m : ObjInfo) (slot ts : ℕ)
    → IsSteady n extra db
    → get_elem? db.objmeta i ≡ some m
    → IsSteady n extra (publish db i m slot ts)
unfolding publish
publish-IsSteady n extra db i m slot ts s e =
    elim (Bool-cases (m.flags.no_notifies || db.no_notifies)) [
      | inl quiet ↦ rw quiet (rw (heap_size-trace _ _) s.0, trace-IsBalanced extra _ _ moved)
      | inr told ↦ rw told (rw (heap_size-trace _ _) s.0, trace-IsBalanced extra _ _ moved)
    ]
  where
    moved : IsBalanced extra (put_meta db i (record m { history_slot = pos slot }))
    moved =
        books-change extra db.objmeta _ _ _ _ _ i m (record m { history_slot = pos slot }) s.1 e
          (λ o. (o, refl, refl)) refl refl

pub writedata_found-keeps {κ} :
    (P : Written → Type κ) (fl : FloatOps) (h : Handle) (db : LocalData) (ts : ℕ) (data_p : Block)
    (i : ℕ) (m : ObjInfo)
    → ((b : Block) (e : Err) → P (write_fails db b e))
    → P (commit_block h db i m ts data_p)
    → P (writedata_found fl h db ts data_p i m)
unfolding writedata_found
writedata_found-keeps P fl h db ts data_p i m refuse accept =
    if-keeps P (m.buffer_idx == 0) _ _ (refuse data_p Err.notfound) (
      if-keeps P (ltb m.size_max data_p.size) _ _ (refuse data_p Err.invalid) (
        if-keeps P (ltb data_p.size base_size) _ _ (refuse data_p Err.invalid) (
          if-keeps P (not (may_write h m)) _ _ (refuse data_p Err.noperm) (
            if-keeps P (too_fast fl db m ts) _ _
              (refuse (record data_p { committed_proc = h.proc_oid }) Err.toofast) accept))))

pub writedata-IsSteady :
    (fl : FloatOps) (h : Handle) (n extra : ℕ) (db : LocalData) (now oid : ℕ) (data_p : Block)
    → IsSteady n extra db
    → IsSteady n extra (writedata fl h db now oid data_p).db
unfolding writedata commit_block
writedata-IsSteady fl h n extra db now oid data_p s = elim (Option-cases (findmeta_byid db oid)) [
  | inl missing ↦ rw (missing, writedata) s
  | inr ((i, m), found) ↦
      rw (found, writedata)
        (writedata_found-keeps (λ w. IsSteady n extra w.db) fl h db (timestamp_now db now) data_p i
          m (λ b e. s)
          (publish-IsSteady n extra _ i m (next_slot m) _ s (findmeta-get db oid i m found).0))
]

-- `begin` invalidates the next slot, at most.
pub begin_keeps {κ} :
    (P : Result ℕ × LocalData → Type κ) (h : Handle) (db : LocalData) (oid : ℕ)
    → ((r : Result ℕ) → P (r, db))
    → ((r : Result ℕ) (a : ℕ) (b : Block) → P (r, set_block db a b))
    → P (writedata_ptr_begin h db oid)
unfolding writedata_ptr_begin
begin_keeps P h db oid refuse accept = elim (Option-cases (findmeta_byid db oid)) [
  | inl missing ↦ rw (missing, writedata_ptr_begin) (refuse (err Err.notfound))
  | inr ((i, m), found) ↦
      rw (found, writedata_ptr_begin)
        (if-keeps P (m.buffer_idx == 0) _ _ (refuse (err Err.notfound))
          (if-keeps P (not (is_private h m)) _ _ (refuse (err Err.invalid)) (accept _ _ _)))
]

pub writedata_ptr_begin-IsSteady :
    (h : Handle) (n extra : ℕ) (db : LocalData) (oid : ℕ)
    → IsSteady n extra db
    → IsSteady n extra (writedata_ptr_begin h db oid).1
writedata_ptr_begin-IsSteady h n extra db oid s =
    begin_keeps (λ w. IsSteady n extra w.1) h db oid (λ r. s) (λ r a b. s)

pub ptr_commit_found-keeps {κ} :
    (P : Result (Unit {0}) × LocalData → Type κ) (fl : FloatOps) (h : Handle) (db : LocalData)
    (ts a i : ℕ) (m : ObjInfo)
    → ((e : Err) → P (err e, db))
    → ((b : Block) → P (ok tt, publish (set_block db a b) i m (next_slot m) ts))
    → P (ptr_commit_found fl h db ts a i m)
unfolding ptr_commit_found
ptr_commit_found-keeps P fl h db ts a i m refuse accept =
    if-keeps P (m.buffer_idx == 0) _ _ (refuse Err.notfound) (
      if-keeps P (ltb m.size_max (db.heap a).size) _ _ (refuse Err.invalid) (
        if-keeps P (ltb (db.heap a).size base_size) _ _ (refuse Err.invalid) (
          if-keeps P (not (is_private h m)) _ _ (refuse Err.invalid) (
            if-keeps P (too_fast fl db m ts) _ _ (refuse Err.toofast) (
              if-keeps P (not (a == slot_addr m (next_slot m))) _ _ (refuse Err.invalid)
                (accept _))))))

pub writedata_ptr_commit-IsSteady :
    (fl : FloatOps) (h : Handle) (n extra : ℕ) (db : LocalData) (now oid a : ℕ)
    → IsSteady n extra db
    → IsSteady n extra (writedata_ptr_commit fl h db now oid a).1
unfolding writedata_ptr_commit
writedata_ptr_commit-IsSteady fl h n extra db now oid a s =
    elim (Option-cases (findmeta_byid db oid)) [
      | inl missing ↦ rw (missing, writedata_ptr_commit) s
      | inr ((i, m), found) ↦
          rw (found, writedata_ptr_commit)
            (ptr_commit_found-keeps (λ w. IsSteady n extra w.1) fl h db (timestamp_now db now) a i m
              (λ e. s)
              (λ b.
                publish-IsSteady n extra _ i m (next_slot m) _ s (findmeta-get db oid i m found).0))
    ]
