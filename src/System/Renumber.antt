-- ===== src/System/Renumber.antt =====
-- What changes, deletes or purges objects keeps their numbers apart.
use kogmo_rtdb.Base.{
  ℕ, zero, suc, pos, ◌≡◌, ◌⊎◌, refl, sym, ◌∙◌, arith, Bool, ◌||◌, set, List, some, get_elem?, inl,
  inr, Bool-cases, Option-cases, length, ltb, subst, false,
}
use mathlib.Core.Option.{none-ne-some}
use kogmo_rtdb.Types.{LocalData, ObjInfo, Handle, Result}
use kogmo_rtdb.Floats.{FloatOps}
use kogmo_rtdb.Time.{timestamp_now}
use kogmo_rtdb.Meta.{findmeta_byid, objmeta_lock, put_meta}
use kogmo_rtdb.Meta.Find.{findmeta-get}
use kogmo_rtdb.Meta.Sent.{objmeta-trace, objmeta_oid_next-trace}
use kogmo_rtdb.Memory.{mem_free}
use kogmo_rtdb.Search.{IdList}
use kogmo_rtdb.Remove.{changed_info, changeinfo, purgeslot, delete_mark, delete_imm, children}
use kogmo_rtdb.Remove.Cases.{delete_children-keeps, children-AllIds, delete_imm-Answers}
use kogmo_rtdb.Remove.Total.{objmeta-purgeslot, delete_mark-Buried}
use kogmo_rtdb.Purge.{is_due, purge_step, purge_loop, purge_objs, percent_free}
use kogmo_rtdb.Write.{publish}
use kogmo_rtdb.System.Numbers.{IsNumbered, Numbered, Numbered-set}

-- A write to one slot.
put :
    (db : LocalData) (ms : List ObjInfo) (next i : ℕ) (m m' : ObjInfo)
    → IsNumbered db
    → get_elem? db.objmeta i ≡ some m
    → (m'.oid ≡ m.oid) ⊎ (m'.oid ≡ 0)
    → ms ≡ set db.objmeta i m'
    → next ≡ db.objmeta_oid_next
    → Numbered ms next
put db ms next i m m' u at_i oids e e' =
    rw (e, e') (Numbered-set db.objmeta db.objmeta_oid_next i m m' u at_i oids)

objmeta_oid_next-purgeslot :
    (db : LocalData) (i : ℕ) (m : ObjInfo)
    → (purgeslot db i m).objmeta_oid_next ≡ db.objmeta_oid_next
unfolding purgeslot mem_free
objmeta_oid_next-purgeslot db i m = ground arith

pub publish-IsNumbered :
    (db : LocalData) (i : ℕ) (m : ObjInfo) (slot ts : ℕ)
    → IsNumbered db
    → get_elem? db.objmeta i ≡ some m
    → IsNumbered (publish db i m slot ts)
unfolding publish
publish-IsNumbered db i m slot ts u e = elim (Bool-cases (m.flags.no_notifies || db.no_notifies)) [
  | inl quiet ↦
      put db _ _ i m m' u e (inl refl) (rw quiet (objmeta-trace _ _))
        (rw quiet (objmeta_oid_next-trace _ _))
  | inr told ↦
      put db _ _ i m m' u e (inl refl) (rw told (objmeta-trace _ _))
        (rw told (objmeta_oid_next-trace _ _))
]
  where
    m' : ObjInfo
    m' = record m { history_slot = pos slot }

pub changeinfo-IsNumbered :
    (fl : FloatOps) (h : Handle) (db : LocalData) (now oid : ℕ) (new : ObjInfo)
    → IsNumbered db
    → IsNumbered (changeinfo fl h db now oid new).1
unfolding changeinfo changed_info
changeinfo-IsNumbered fl h db now oid new u = elim (Bool-cases h.is_admin) [
  | inr guest ↦ rw guest u
  | inl admin ↦ elim (Option-cases (findmeta_byid db oid)) [
    | inl missing ↦ rw (admin, missing) u
    | inr ((i, m), found) ↦
        rw (admin, found)
          (put db _ _ i m (changed_info fl h (timestamp_now db now) new m) u
            (findmeta-get db oid i m found).0 (inl refl) (objmeta-trace _ _)
            (objmeta_oid_next-trace _ _))
  ]
]

module _ (h : Handle) (now : ℕ) (stray : ℕ → ℕ) (stack : IdList) where
  objmeta_oid_next-delete_mark :
      (db : LocalData) (i : ℕ) (m : ObjInfo) (imm : Bool)
      → (delete_mark h now stray stack db i m imm).objmeta_oid_next ≡ db.objmeta_oid_next
  unfolding delete_mark
  objmeta_oid_next-delete_mark db i m imm =
      objmeta_oid_next-trace _ _ ∙ elim (Bool-cases (m.flags.immediately_delete || imm)) [
        | inl at_once ↦
            rw at_once (objmeta_oid_next-purgeslot (put_meta (objmeta_lock db) i marked) i marked)
        | inr later ↦ rw later refl
      ]
    where
      marked : ObjInfo
      marked = record m { deleted_proc = h.proc_oid; deleted_ts = timestamp_now db now }

  delete_mark-IsNumbered :
      (db : LocalData) (i : ℕ) (m : ObjInfo) (imm : Bool)
      → IsNumbered db
      → get_elem? db.objmeta i ≡ some m
      → IsNumbered (delete_mark h now stray stack db i m imm)
  delete_mark-IsNumbered db i m imm u e =
      let (m', same, buried) = delete_mark-Buried h now stray stack db i m imm in
      let oids : (m'.oid ≡ m.oid) ⊎ (m'.oid ≡ 0) = elim buried [
        | inl z ↦ inr z
        | inr (k, _) ↦ inl k
      ] in
      put db _ _ i m m' u e oids same (objmeta_oid_next-delete_mark db i m imm)

  pub delete_imm-IsNumbered :
      (f : ℕ) (db : LocalData) (oid : ℕ) (imm : Bool) (r : Result (Unit {0}) × LocalData)
      → IsNumbered db
      → delete_imm h now stray stack f db oid imm ≡ some r
      → IsNumbered r.1
  unfolding delete_imm
  delete_imm-IsNumbered zero db oid imm r u e = absurd (none-ne-some r e)
  delete_imm-IsNumbered (suc f) db oid imm r u e =
      elim (delete_imm-Answers h now stray stack f db oid imm r e) [
        | inl (same, _) ↦ subst (λ d. IsNumbered d) (sym same) u
        | inr (i, m, found, _, done) ↦
            delete_children-keeps (λ d. IsNumbered d)
              (λ d c. delete_imm h now stray stack f d c false)
              (λ d d' c x _ v p. delete_imm-IsNumbered f d c false (x, d') v p)
              (children db stack oid) _ r.1 (children-AllIds h now stray stack db oid)
              (delete_mark-IsNumbered db i m imm u (findmeta-get db oid i m found).0) done
      ]

module _ (fl : FloatOps) (ts : ℕ) (purge_keep_alloc : Bool) where
  purge_step-IsNumbered :
      (db : LocalData) (i : ℕ) (m : ObjInfo)
      → IsNumbered db
      → get_elem? db.objmeta i ≡ some m
      → IsNumbered (purge_step fl ts purge_keep_alloc db i m)
  unfolding purge_step
  purge_step-IsNumbered db i m u e =
      elim (Bool-cases (is_due fl db.default_keep_deleted_interval ts purge_keep_alloc m)) [
        | inl due ↦ rw due (
            put db _ _ i m (record m { oid = 0 }) u e (inr refl) (objmeta-purgeslot db i m)
              (objmeta_oid_next-purgeslot db i m))
        | inr stays ↦ rw stays u
      ]

  purge_loop-IsNumbered :
      (n i : ℕ) (db : LocalData)
      → IsNumbered db
      → IsNumbered (purge_loop fl ts purge_keep_alloc n i db)
  unfolding purge_loop
  purge_loop-IsNumbered zero i db u = u
  purge_loop-IsNumbered (suc n) i db u = elim (Option-cases (get_elem? db.objmeta i)) [
    | inl end ↦ rw (end, purge_loop) u
    | inr (m, e) ↦
        rw (e, purge_loop)
          (purge_loop-IsNumbered n (suc i) (purge_step fl ts purge_keep_alloc db i m)
            (purge_step-IsNumbered db i m u e))
  ]

pub purge_objs-IsNumbered :
    (fl : FloatOps) (db : LocalData) (now : ℕ) → IsNumbered db → IsNumbered (purge_objs fl db now)
unfolding purge_objs
purge_objs-IsNumbered fl db now u =
    purge_loop-IsNumbered fl (timestamp_now db now) (ltb (percent_free fl db) 20)
      (length db.objmeta) 0 (objmeta_lock db) u
