-- ===== src/Purge/Table.antt =====
-- What the purge makes of the table: every slot that is due becomes free, and no other changes.
use kogmo_rtdb.Base.{
  ℕ, zero, suc, pos, ◌<◌, ◌≢◌, ◌⊎◌, true, false, ◌≡◌, refl, sym, ap, ◌∙◌, arith, Bool, List, [],
  ◌∷◌, ◌++◌, map, some, set, get_elem?, length, length-append, inl, inr, Bool-cases, if◌then◌else◌,
  ltb,
}
use mathlib.Core.Bool.{true≢false}
use mathlib.Core.Option.{some-injective, none-ne-some}
use kogmo_rtdb.Types.{LocalData, ObjInfo}
use kogmo_rtdb.Floats.{FloatOps}
use kogmo_rtdb.Time.{timestamp_now, timestamp_add_secs, timestamp_diff_secs}
use kogmo_rtdb.Meta.{objmeta_lock}
use kogmo_rtdb.Remove.{purgeslot}
use kogmo_rtdb.Remove.Total.{objmeta-purgeslot}
use kogmo_rtdb.Memory.{mem_free}
use kogmo_rtdb.Purge.{is_due, is_kept, delete_ts, purge_step, purge_loop, purge_objs, percent_free}

get_elem?-append :
    (pre ms : List ObjInfo) (m : ObjInfo) → get_elem? (pre ++ m ∷ ms) (length pre) ≡ some m
get_elem?-append [] ms m = refl
get_elem?-append (x ∷ pre) ms m = get_elem?-append pre ms m

set-append :
    (pre ms : List ObjInfo) (m m' : ObjInfo) → set (pre ++ m ∷ ms) (length pre) m' ≡ pre ++ m' ∷ ms
set-append [] ms m m' = refl
set-append (x ∷ pre) ms m m' = ap (◌∷◌ x) (set-append pre ms m m')

append-snoc : (pre ms : List ObjInfo) (m : ObjInfo) → (pre ++ m ∷ []) ++ ms ≡ pre ++ m ∷ ms
append-snoc [] ms m = refl
append-snoc (x ∷ pre) ms m = ap (◌∷◌ x) (append-snoc pre ms m)

keep-purgeslot :
    (db : LocalData) (i : ℕ) (m : ObjInfo)
    → (purgeslot db i m).default_keep_deleted_interval ≡ db.default_keep_deleted_interval
unfolding purgeslot mem_free
keep-purgeslot db i m = ground arith

module _ (fl : FloatOps) (keep ts : ℕ) (purge_keep_alloc : Bool) where
  -- What becomes of one slot.
  abbrev pub swept : ObjInfo → ObjInfo
  swept m = if is_due fl keep ts purge_keep_alloc m then record m { oid = 0 } else m

  purge_step-lem :
      (db : LocalData) (i : ℕ) (m : ObjInfo) (pre ms : List ObjInfo)
      → db.default_keep_deleted_interval ≡ keep
      → db.objmeta ≡ pre ++ m ∷ ms
      → i ≡ length pre
      → ((purge_step fl ts purge_keep_alloc db i m).default_keep_deleted_interval ≡ keep)
        × ((purge_step fl ts purge_keep_alloc db i m).objmeta ≡ pre ++ swept m ∷ ms)
  unfolding purge_step
  purge_step-lem db i m pre ms k e n = elim (Bool-cases (is_due fl keep ts purge_keep_alloc m)) [
    | inl due ↦
        let due' = same ∙ due in
        (
          rw due' (keep-purgeslot db i m ∙ k),
          rw (due', due)
              (objmeta-purgeslot db i m ∙ rw (e, n) (set-append pre ms m (record m { oid = 0 }))),
        )
    | inr stays ↦ let stays' = same ∙ stays in (rw stays' k, rw (stays', stays) e)
  ]
    where
      same :
          is_due fl db.default_keep_deleted_interval ts purge_keep_alloc m
          ≡ is_due fl keep ts purge_keep_alloc m
      same = ap (λ z. is_due fl z ts purge_keep_alloc m) k

  purge_loop-map :
      (db : LocalData) (pre ms : List ObjInfo)
      → db.default_keep_deleted_interval ≡ keep
      → db.objmeta ≡ pre ++ ms
      → (purge_loop fl ts purge_keep_alloc (length ms) (length pre) db).objmeta
        ≡ pre ++ map swept ms
  unfolding purge_loop
  purge_loop-map db pre [] k e = e
  purge_loop-map db pre (m ∷ ms) k e =
      let (k', e') = purge_step-lem db (length pre) m pre ms k e refl in
      let slot : get_elem? db.objmeta (length pre) ≡ some m = rw e (get_elem?-append pre ms m) in
      let more : length (pre ++ swept m ∷ []) ≡ suc (length pre) =
        omega (arith, length-append pre (swept m ∷ [])) in
      rw (slot, purge_loop)
        (rw (sym more) (
            purge_loop-map (purge_step fl ts purge_keep_alloc db (length pre) m)
              (pre ++ swept m ∷ []) ms k' (e' ∙ sym (append-snoc pre ms (swept m))))
          ∙ append-snoc pre (map swept ms) (swept m))

-- The table after a purge, in terms of the program's own test.
purged-map :
    (fl : FloatOps) (db : LocalData) (now : ℕ)
    → (purge_objs fl db now).objmeta
      ≡ map
          (swept fl db.default_keep_deleted_interval
            (timestamp_now db now)
            (ltb (percent_free fl db) 20))
          db.objmeta
unfolding purge_objs
purged-map fl db now =
    purge_loop-map fl db.default_keep_deleted_interval (timestamp_now db now)
      (ltb (percent_free fl db) 20) (objmeta_lock db) [] db.objmeta refl refl

-- Less than 20 percent of the heap are free, in the floating point arithmetic of the source.
abbrev pub IsShort : FloatOps → LocalData → Type 0
IsShort fl db =
    fl.to_int (
      fl.narrow (
        fl.div (fl.narrow (fl.mul (fl.narrow (fl.of_int (pos db.heap_free))) (fl.of_int (pos 100))))
          (fl.narrow (fl.of_int (pos db.heap_size)))))
    < 20

-- The object in a slot is due at the time `ts`: it is deleted, longer ago than its history and than
-- the default time, and its memory is not to be kept, or memory is short and it was kept for ten
-- seconds after that.
pub record IsDue (fl : FloatOps) (db : LocalData) (ts : ℕ) (m : ObjInfo) : Type 0 where
  pub there : m.oid ≢ 0
  pub deleted : m.deleted_ts ≢ 0
  pub delay : ℕ
  pub longer :
      (fl.lt db.default_keep_deleted_interval m.history_interval ≡ true)
        × (delay ≡ m.history_interval)
      ⊎ (fl.lt db.default_keep_deleted_interval m.history_interval ≡ false)
        × (delay ≡ db.default_keep_deleted_interval)
  pub over : timestamp_add_secs fl m.deleted_ts delay < ts
  pub released :
      (m.flags.keep_alloc ≡ false)
      ⊎ IsShort fl db
        × (fl.lt
              (timestamp_diff_secs fl (timestamp_add_secs fl m.deleted_ts delay) ts)
              (fl.of_int (pos 10))
            ≡ false)

-- The program's test, read as that.
is_due-IsDue :
    (fl : FloatOps) (db : LocalData) (ts : ℕ) (m : ObjInfo)
    → is_due fl db.default_keep_deleted_interval ts (ltb (percent_free fl db) 20) m ≡ true
    → IsDue fl db ts m
unfolding is_due is_kept delete_ts percent_free
is_due-IsDue fl db ts m e =
    elim (Bool-cases (fl.lt db.default_keep_deleted_interval m.history_interval)) [
      | inl history ↦
          let e' = rw history at e in
          record {
            there = ground (arith, e');
            deleted = ground (arith, e');
            delay = m.history_interval;
            longer = inl (history, refl);
            over = ground (arith, e');
            released = ground (arith, e');
          }
      | inr default ↦
          let e' = rw default at e in
          record {
            there = ground (arith, e');
            deleted = ground (arith, e');
            delay = db.default_keep_deleted_interval;
            longer = inr (default, refl);
            over = ground (arith, e');
            released = ground (arith, e');
          }
    ]

IsDue-is_due :
    (fl : FloatOps) (db : LocalData) (ts : ℕ) (m : ObjInfo)
    → IsDue fl db ts m
    → is_due fl db.default_keep_deleted_interval ts (ltb (percent_free fl db) 20) m ≡ true
unfolding is_due is_kept delete_ts percent_free
IsDue-is_due fl db ts m d = elim d.longer [
  | inl (history, is_delay) ↦
      let over = rw is_delay at d.over in
      let released = rw is_delay at d.released in
      rw history (ground (arith, d.there, d.deleted, over, released))
  | inr (default, is_delay) ↦
      let over = rw is_delay at d.over in
      let released = rw is_delay at d.released in
      rw default (ground (arith, d.there, d.deleted, over, released))
]

get_elem?-map :
    (f : ObjInfo → ObjInfo) (ms : List ObjInfo) (i : ℕ) (m : ObjInfo)
    → get_elem? ms i ≡ some m
    → get_elem? (map f ms) i ≡ some (f m)
get_elem?-map f [] i m e = absurd (none-ne-some m e)
get_elem?-map f (x ∷ ms) zero m e = ap (λ z. some (f z)) (some-injective x m e)
get_elem?-map f (x ∷ ms) (suc i) m e = get_elem?-map f ms i m e

length-map : (f : ObjInfo → ObjInfo) (ms : List ObjInfo) → length (map f ms) ≡ length ms
length-map f [] = refl
length-map f (x ∷ ms) = ap suc (length-map f ms)

-- A purge frees the slots of exactly those objects that are due: objects that were deleted longer ago
-- than their history and the default time, and whose memory is not to be kept allocated, or was kept
-- for ten seconds more while less than 20 percent of the heap are free, as it is before the purge.
-- Every other slot stays as it is, and no slot is added or removed.
pub objmeta-purge_objs :
    (fl : FloatOps) (db : LocalData) (now i : ℕ) (m : ObjInfo)
    → get_elem? db.objmeta i ≡ some m
    → let ms = (purge_objs fl db now).objmeta in
      (length ms ≡ length db.objmeta)
      × (IsDue fl db (timestamp_now db now) m × (get_elem? ms i ≡ some (record m { oid = 0 }))
          ⊎ (¬ IsDue fl db (timestamp_now db now) m) × (get_elem? ms i ≡ some m))
objmeta-purge_objs fl db now i m at_i =
    let ts = timestamp_now db now in
    let keep = db.default_keep_deleted_interval in
    let short = ltb (percent_free fl db) 20 in
    let path = purged-map fl db now in
    let slot : get_elem? (purge_objs fl db now).objmeta i ≡ some (swept fl keep ts short m) =
      ap (λ l. get_elem? l i) path ∙ get_elem?-map (swept fl keep ts short) db.objmeta i m at_i in
    (
      ap length path ∙ length-map (swept fl keep ts short) db.objmeta,
      elim (Bool-cases (is_due fl keep ts short m)) [
        | inl due ↦ inl (is_due-IsDue fl db ts m due, slot ∙ ap some (rw due refl))
        | inr stays ↦ inr (
          (λ d. true≢false (sym (IsDue-is_due fl db ts m d) ∙ stays)),
          slot ∙ ap some (rw stays refl),
        )
      ],
    )
