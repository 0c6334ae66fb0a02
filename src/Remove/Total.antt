-- ===== src/Remove/Total.antt =====
-- A deletion comes to an end: every object that it goes down to is marked first.
use kogmo_rtdb.Base.{
  ℕ, zero, suc, ◌+◌, ◌≤◌, ◌≡◌, ◌≢◌, refl, sym, ap, ◌∙◌, arith, Bool, ◌||◌, ◌&&◌, ◌==◌, not,
  if◌then◌else◌, List, [], ◌∷◌, some, get_elem?, inl, inr, ◌⊎◌, Bool-cases, Option-cases, set,
  Option, ltb,
}
use kogmo_rtdb.Types.{LocalData, ObjInfo, Handle, Result, ok, err, Err}
use kogmo_rtdb.Meta.{findmeta_byid, objmeta_lock, put_meta}
use kogmo_rtdb.Meta.Sent.{objmeta-trace, timestamp_now-trace}
use kogmo_rtdb.Time.{timestamp_now}
use kogmo_rtdb.Search.{IdList}
use kogmo_rtdb.Memory.{mem_free}
use kogmo_rtdb.Remove.Cases.{AllIds, Result-cases}
use kogmo_rtdb.Remove.{readinfo, purgeslot, delete_mark, delete_children}

-- How many objects there are, not counting deleted ones.
abbrev pub alive : ObjInfo → ℕ
alive m = if (m.oid == 0) || not (m.deleted_ts == 0) then 0 else 1

abbrev pub living : List ObjInfo → ℕ
living [] = 0
living (m ∷ ms) = alive m + living ms

living-set :
    (ms : List ObjInfo) (i : ℕ) (m m' : ObjInfo)
    → get_elem? ms i ≡ some m
    → living (set ms i m') + alive m ≡ living ms + alive m'
living-set [] i m m' e = ground arith
living-set (x ∷ ms) zero m m' e = ground arith
living-set (x ∷ ms) (suc i) m m' e = omega (arith, living-set ms i m m' e)

pub set-set : (ms : List ObjInfo) (i : ℕ) (m m' : ObjInfo) → set (set ms i m) i m' ≡ set ms i m'
set-set [] i m m' = refl
set-set (x ∷ ms) zero m m' = refl
set-set (x ∷ ms) (suc i) m m' = ap (◌∷◌ x) (set-set ms i m m')

pub readinfo-alive :
    (db : LocalData) (oid : ℕ) (m : ObjInfo)
    → readinfo db oid 0 ≡ ok m
    → (i : ℕ) × (findmeta_byid db oid ≡ some (i, m)) × (m.deleted_ts ≡ 0)
unfolding readinfo
readinfo-alive db oid m e = elim (Option-cases (findmeta_byid db oid)) [
  | inl missing ↦ ground (arith, rw (missing, readinfo) at e)
  | inr ((i, x), found) ↦
      let (same, p) = met x (rw (found, readinfo) at e) in (i, rw (sym same) found, rw (sym same) p)
]
  where
    met :
        (x : ObjInfo)
        → (if ltb 0 x.created_ts && not (0 == 0)
            then err Err.notfound
            else if not (x.deleted_ts == 0) && (ltb x.deleted_ts 0 || (0 == 0))
            then err Err.notfound
            else ok x)
          ≡ ok m
        → (x ≡ m) × (x.deleted_ts ≡ 0)
    met x p = (ground arith, ground arith)

-- What stands in the slot of an object that is deleted at `ts`.
abbrev pub Buried : ℕ → ObjInfo → ObjInfo → Type 0
Buried ts m m' = (m'.oid ≡ 0) ⊎ (m'.oid ≡ m.oid) × (m'.deleted_ts ≡ ts)

pub objmeta-purgeslot :
    (db : LocalData) (i : ℕ) (m : ObjInfo)
    → (purgeslot db i m).objmeta ≡ set db.objmeta i (record m { oid = 0 })
unfolding purgeslot mem_free
objmeta-purgeslot db i m = ground arith

timestamp_now-purgeslot :
    (db : LocalData) (i : ℕ) (m : ObjInfo) (now : ℕ)
    → timestamp_now (purgeslot db i m) now ≡ timestamp_now db now
unfolding purgeslot mem_free timestamp_now
timestamp_now-purgeslot db i m now = ground arith

module _ (h : Handle) (now : ℕ) (stray : ℕ → ℕ) (stack : IdList) where
  abbrev marked : LocalData → ObjInfo → ObjInfo
  marked db m = record m { deleted_proc = h.proc_oid; deleted_ts = timestamp_now db now }

  pub timestamp_now-delete_mark :
      (db : LocalData) (i : ℕ) (m : ObjInfo) (imm : Bool)
      → timestamp_now (delete_mark h now stray stack db i m imm) now ≡ timestamp_now db now
  unfolding delete_mark timestamp_now
  timestamp_now-delete_mark db i m imm =
      timestamp_now-trace _ _ now ∙ elim (Bool-cases (m.flags.immediately_delete || imm)) [
        | inl at_once ↦ rw at_once (
            timestamp_now-purgeslot (put_meta (objmeta_lock db) i (marked db m)) i (marked db m)
              now)
        | inr later ↦ rw later
      ]

  pub delete_mark-Buried :
      (db : LocalData) (i : ℕ) (m : ObjInfo) (imm : Bool)
      → (m' : ObjInfo) × ((delete_mark h now stray stack db i m imm).objmeta ≡ set db.objmeta i m')
        × Buried (timestamp_now db now) m m'
  unfolding delete_mark
  delete_mark-Buried db i m imm = elim (Bool-cases (m.flags.immediately_delete || imm)) [
    | inl at_once ↦ (
      record (marked db m) { oid = 0 },
      objmeta-trace _ _
          ∙ rw at_once (
              objmeta-purgeslot (put_meta (objmeta_lock db) i (marked db m)) i (marked db m)
              ∙ set-set db.objmeta i (marked db m) (record (marked db m) { oid = 0 })),
      inl refl,
    )
    | inr later ↦ (marked db m, objmeta-trace _ _ ∙ rw later, inr (refl, refl))
  ]

  -- A deleted object no longer counts.
  living-delete_mark :
      (db : LocalData) (i : ℕ) (m : ObjInfo) (imm : Bool)
      → get_elem? db.objmeta i ≡ some m
      → timestamp_now db now ≢ 0
      → living (delete_mark h now stray stack db i m imm).objmeta + alive m ≡ living db.objmeta
  living-delete_mark db i m imm e timed =
      let (m', set_lem, buried) = delete_mark-Buried db i m imm in
      let dead : alive m' ≡ 0 = elim buried [
        | inl gone ↦ rw gone
        | inr (_, ts) ↦ rw ts (ground arith)
      ] in
      omega (arith, ap living set_lem, living-set db.objmeta i m m' e, dead)

  -- The clock runs, and at most `k` objects are left.
  abbrev pub Within : ℕ → LocalData → Type 0
  Within k d = (timestamp_now d now ≢ 0) × (living d.objmeta ≤ k)

  pub Within-delete_mark :
      (k : ℕ) (db : LocalData) (i : ℕ) (m : ObjInfo) (imm : Bool)
      → get_elem? db.objmeta i ≡ some m
      → timestamp_now db now ≢ 0
      → living db.objmeta ≤ k + alive m
      → Within k (delete_mark h now stray stack db i m imm)
  Within-delete_mark k db i m imm e timed le = (
    (λ z. timed (sym (timestamp_now-delete_mark db i m imm) ∙ z)),
    omega (arith, living-delete_mark db i m imm e timed),
  )

  -- The loop over the children ends if every deletion of an object that is there does.
  pub delete_children-total :
      (k : ℕ) (delete : LocalData → ℕ → Option (Result (Unit {0}) × LocalData))
      → ((d : LocalData) (c : ℕ) (m : ObjInfo)
          → c ≢ 0
          → Within k d
          → readinfo d c 0 ≡ ok m
          → (r : Result (Unit {0}) × LocalData) × (delete d c ≡ some r) × Within k r.1)
      → (cs : List ℕ) (d : LocalData) → AllIds cs
      → Within k d
      → (d' : LocalData) × (delete_children delete cs d ≡ some d') × Within k d'
  unfolding delete_children
  delete_children-total k delete step [] d all w = (d, refl, w)
  delete_children-total k delete step (c ∷ cs) d all w = elim (Result-cases (readinfo d c 0)) [
    | inl (x, gone) ↦
        let (d', e, w') = delete_children-total k delete step cs d all.1 w in
        (d', rw (gone, delete_children) e, w')
    | inr (m, found) ↦ elim (Bool-cases m.flags.parent_delete) [
      | inr stays ↦
          let (d', e, w') = delete_children-total k delete step cs d all.1 w in
          (d', rw (found, stays, delete_children) e, w')
      | inl goes ↦
          let (r, done, v) = step d c m all.0 w found in
          let (d', e, w') = delete_children-total k delete step cs r.1 all.1 v in
          (d', rw (found, goes, done, delete_children) e, w')
    ]
  ]
