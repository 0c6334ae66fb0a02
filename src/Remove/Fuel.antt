-- ===== src/Remove/Fuel.antt =====
-- How far down a deletion can go: as many rounds as there are objects are enough.
use kogmo_rtdb.Base.{
  ℕ, zero, suc, ◌+◌, ◌≤◌, ◌<◌, ◌≡◌, ◌≢◌, refl, sym, ap, ◌∙◌, arith, Bool, false, ◌&&◌, ◌==◌, not,
  List, [], ◌∷◌, some, get_elem?, inl, inr, Bool-cases, Option-cases,
}
use mathlib.Core.Option.{some-injective}
use kogmo_rtdb.Types.{LocalData, ObjInfo, Handle, Result, ok, err, Err}
use kogmo_rtdb.Meta.{findmeta_byid, may_write, objmeta_unlock, objmeta_lock}
use kogmo_rtdb.Meta.Find.{findmeta-get}
use kogmo_rtdb.Time.{timestamp_now}
use kogmo_rtdb.Search.{IdList}
use kogmo_rtdb.Remove.Cases.{children-AllIds}
use kogmo_rtdb.Remove.{readinfo, delete_mark, delete_imm, children}
use kogmo_rtdb.Remove.Total.{
  alive, living, readinfo-alive, Within, Within-delete_mark, delete_children-total,
}

living-get :
    (ms : List ObjInfo) (i : ℕ) (m : ObjInfo) → get_elem? ms i ≡ some m → alive m ≤ living ms
living-get [] i m e = ground arith
living-get (x ∷ ms) zero m e = ground arith
living-get (x ∷ ms) (suc i) m e = omega (arith, living-get ms i m e)

counts : (c : ℕ) (m : ObjInfo) → c ≢ 0 → m.oid ≡ c → m.deleted_ts ≡ 0 → alive m ≡ 1
counts c m pos is_c ts = rw (is_c, ts) (ground arith)

module _ (h : Handle) (now : ℕ) (stray : ℕ → ℕ) (stack : IdList) where
  -- A deletion ends, and leaves at most `k` objects.
  abbrev pub Ends : ℕ → ℕ → LocalData → ℕ → Bool → Type 0
  Ends f k db oid imm =
      (r : Result (Unit {0}) × LocalData) × (delete_imm h now stray stack f db oid imm ≡ some r)
      × Within h now stray stack k r.1

  -- If the deletion of every child ends, then that of the object does.
  delete_imm-step :
      (f k : ℕ) (db : LocalData) (oid : ℕ) (imm : Bool)
      → f ≤ k
      → ((d : LocalData) (c : ℕ) (m : ObjInfo)
          → c ≢ 0
          → Within h now stray stack f d
          → readinfo d c 0 ≡ ok m
          → Ends f f d c false)
      → Within h now stray stack k db
      → ((i : ℕ) (m : ObjInfo)
          → findmeta_byid db oid ≡ some (i, m)
          → living db.objmeta ≤ f + alive m)
      → Ends (suc f) k db oid imm
  unfolding delete_imm timestamp_now
  delete_imm-step f k db oid imm up child w le = elim (Option-cases (findmeta_byid db oid)) [
    | inl missing ↦
        ((err Err.notfound, objmeta_unlock (objmeta_lock db)), rw (missing, delete_imm) refl, w)
    | inr ((i, m), found) ↦ elim (Bool-cases (not (may_write h m))) [
      | inl denied ↦ (
        (err Err.noperm, objmeta_unlock (objmeta_lock db)),
        rw (found, denied, delete_imm) refl,
        w,
      )
      | inr may ↦
          elim (Bool-cases (not (m.deleted_ts == 0) && not m.flags.immediately_delete && not imm)) [
            | inl dead ↦ (
              (err Err.notfound, objmeta_unlock (objmeta_lock db)),
              rw (found, may, dead, delete_imm) refl,
              w,
            )
            | inr there ↦
                let (at_i, _) = findmeta-get db oid i m found in
                let (d, done, v) =
                  delete_children-total h now stray stack f
                    (λ e c. delete_imm h now stray stack f e c false) child (children db stack oid)
                    (delete_mark h now stray stack db i m imm)
                    (children-AllIds h now stray stack db oid)
                    (Within-delete_mark h now stray stack f db i m imm at_i w.0 (le i m found)) in
                (
                  (ok tt, d),
                  rw (found, may, there, done, delete_imm) refl,
                  (v.0, omega (arith, v.1, up)),
                )
          ]
    ]
  ]

  delete_imm-child :
      (f : ℕ) (d : LocalData) (c : ℕ) (m : ObjInfo)
      → c ≢ 0
      → Within h now stray stack f d
      → readinfo d c 0 ≡ ok m
      → Ends f f d c false
  delete_imm-child zero d c m pos w there =
      let (i, found, ts) = readinfo-alive d c m there in
      let (at_i, is_c) = findmeta-get d c i m found in
      absurd (omega (arith, living-get d.objmeta i m at_i, counts c m pos is_c ts, w.1))
  delete_imm-child (suc f) d c m pos w there =
      delete_imm-step f (suc f) d c false (omega arith) (delete_imm-child f) w (λ i x found.
        let (j, found', ts) = readinfo-alive d c m there in
        let same : x ≡ m = ap (λ z. z.1) (some-injective _ (j, m) (sym found ∙ found')) in
        let (_, is_c) = findmeta-get d c j m found' in
        rw same (omega (arith, w.1, counts c m pos is_c ts)))

  pub delete_imm-Within :
      (f : ℕ) (db : LocalData) (oid : ℕ) (imm : Bool)
      → Within h now stray stack f db
      → Ends (suc f) f db oid imm
  delete_imm-Within f db oid imm w =
      delete_imm-step f f db oid imm (omega arith) (delete_imm-child f) w
        (λ i m found. omega (arith, w.1))

  -- A deletion ends once its fuel exceeds the number of objects that are not deleted, whatever the
  -- parents of objects are; the clock has left 0.
  pub delete_imm-total :
      (f : ℕ) (db : LocalData) (oid : ℕ) (imm : Bool)
      → timestamp_now db now ≢ 0
      → living db.objmeta < f
      → (r : Result (Unit {0}) × LocalData) × (delete_imm h now stray stack f db oid imm ≡ some r)
  delete_imm-total zero db oid imm timed le = absurd (omega arith)
  delete_imm-total (suc f) db oid imm timed le =
      let (r, e, w) = delete_imm-Within f db oid imm (timed, omega arith) in (r, e)
