-- ===== src/Remove/Cases.antt =====
-- What a deletion answers, case by case, and what the loop over the children keeps.
use kogmo_rtdb.Base.{
  ℕ, zero, suc, ◌≡◌, ◌≢◌, refl, sym, ap, ◌∙◌, arith, Bool, false, ◌&&◌, ◌==◌, not, List, [], ◌∷◌,
  some, none, inl, inr, subst, Option, ◌⊎◌, Bool-cases, Option-cases,
}
use mathlib.Core.Option.{some-injective, none-ne-some}
use kogmo_rtdb.Types.{objidlist_max, LocalData, ObjInfo, Handle, Result, ok, err, Err}
use kogmo_rtdb.Meta.{objmeta_lock, objmeta_unlock, findmeta_byid, may_write}
use kogmo_rtdb.Search.{searchinfo, IdList}
use kogmo_rtdb.Remove.{readinfo, delete_mark, delete_children, delete_imm, children, ids}

pub Result-cases {ℓ} :
    {A : Type ℓ} (r : Result A) → ((e : Err) × (r ≡ err e)) ⊎ ((a : A) × (r ≡ ok a))
Result-cases (ok a) = inr (a, refl)
Result-cases (err e) = inl (e, refl)

-- The ids in a list are ids of objects.
abbrev pub AllIds : List ℕ → Type 0
AllIds [] = Unit
AllIds (c ∷ cs) = (c ≢ 0) × AllIds cs

pub ids-AllIds : (n : ℕ) (l : IdList) (j : ℕ) → AllIds (ids n l j)
ids-AllIds zero l j = tt
ids-AllIds (suc n) l j = elim (Bool-cases (l j == 0)) [
  | inl end ↦ rw end tt
  | inr more ↦ rw more (ground arith, ids-AllIds n l (suc j))
]

-- The loop over the children keeps what a deletion of an object keeps.
pub delete_children-keeps {κ} :
    (P : LocalData → Type κ) (delete : LocalData → ℕ → Option (Result (Unit {0}) × LocalData))
    → ((d d' : LocalData) (c : ℕ) (r : Result (Unit {0}))
        → c ≢ 0
        → P d
        → delete d c ≡ some (r, d')
        → P d')
    → (cs : List ℕ) (db db' : LocalData) → AllIds cs
    → P db
    → delete_children delete cs db ≡ some db'
    → P db'
unfolding delete_children
delete_children-keeps P delete step [] db db' all p e = subst P (some-injective db db' e) p
delete_children-keeps P delete step (c ∷ cs) db db' all p e =
    elim (Result-cases (readinfo db c 0)) [
      | inl (x, gone) ↦
          delete_children-keeps P delete step cs db db' all.1 p (rw (gone, delete_children) at e)
      | inr (m, found) ↦ elim (Bool-cases m.flags.parent_delete) [
        | inr stays ↦
            delete_children-keeps P delete step cs db db' all.1 p
              (rw (found, stays, delete_children) at e)
        | inl goes ↦ elim (Option-cases (delete db c)) [
          | inl out ↦ absurd (none-ne-some db' (rw (found, goes, out, delete_children) at e))
          | inr (r, done) ↦
              delete_children-keeps P delete step cs r.1 db' all.1 (step db r.1 c r.0 all.0 p done)
                (rw (found, goes, done, delete_children) at e)
        ]
      ]
    ]

module _ (h : Handle) (now : ℕ) (stray : ℕ → ℕ) (stack : IdList) where
  pub children-AllIds : (db : LocalData) (oid : ℕ) → AllIds (children db stack oid)
  unfolding children
  children-AllIds db oid = listed (searchinfo db _ (some stack) 0)
    where
      listed :
          (found : Result ℕ × Option IdList)
          → AllIds (elim found.0 [
            | err e ↦ []
            | ok n ↦ elim found.1 [ none ↦ [] | some l ↦ ids objidlist_max l 0 ]
          ])
      listed (err e, l) = tt
      listed (ok n, none) = tt
      listed (ok n, some l) = ids-AllIds objidlist_max l 0

  -- A deletion with `f` rounds left for what is below the object is refused and changes nothing, or
  -- marks an object that the process may write and goes on to the children.
  abbrev pub Answers : ℕ → LocalData → ℕ → Bool → Result (Unit {0}) × LocalData → Type 0
  Answers f db oid imm r =
      (r.1 ≡ objmeta_unlock (objmeta_lock db)) × ((x : Err) × (r.0 ≡ err x))
      ⊎ (i : ℕ) × (m : ObjInfo) × (findmeta_byid db oid ≡ some (i, m))
        × (r.0 ≡ ok tt)
        × (delete_children (λ d c. delete_imm h now stray stack f d c false) (children db stack oid)
              (delete_mark h now stray stack db i m imm)
            ≡ some r.1)

  answer_refused :
      (f : ℕ) (db : LocalData) (oid : ℕ) (imm : Bool) (r : Result (Unit {0}) × LocalData) (x : Err)
      → some (err x, objmeta_unlock (objmeta_lock db)) ≡ some r
      → Answers f db oid imm r
  answer_refused f db oid imm r x p =
      let q = some-injective _ r p in inl (ap (λ z. z.1) (sym q), (x, ap (λ z. z.0) (sym q)))

  answer_done :
      (f : ℕ) (db d : LocalData) (oid i : ℕ) (m : ObjInfo) (imm : Bool)
      (r : Result (Unit {0}) × LocalData)
      → findmeta_byid db oid ≡ some (i, m)
      → delete_children
          (λ e c. delete_imm h now stray stack f e c false)
          (children db stack oid)
          (delete_mark h now stray stack db i m imm)
        ≡ some d
      → some (ok tt, d) ≡ some r
      → Answers f db oid imm r
  answer_done f db d oid i m imm r found done p =
      let q = some-injective _ r p in
      inr (i, m, found, ap (λ z. z.0) (sym q), done ∙ ap (λ z. some z.1) q)

  pub delete_imm-Answers :
      (f : ℕ) (db : LocalData) (oid : ℕ) (imm : Bool) (r : Result (Unit {0}) × LocalData)
      → delete_imm h now stray stack (suc f) db oid imm ≡ some r
      → Answers f db oid imm r
  unfolding delete_imm
  delete_imm-Answers f db oid imm r e = elim (Option-cases (findmeta_byid db oid)) [
    | inl missing ↦ answer_refused f db oid imm r Err.notfound (rw (missing, delete_imm) at e)
    | inr ((i, m), found) ↦ elim (Bool-cases (not (may_write h m))) [
      | inl denied ↦ answer_refused f db oid imm r Err.noperm (rw (found, denied, delete_imm) at e)
      | inr may ↦
          elim (Bool-cases (not (m.deleted_ts == 0) && not m.flags.immediately_delete && not imm)) [
            | inl dead ↦
                answer_refused f db oid imm r Err.notfound (rw (found, may, dead, delete_imm) at e)
            | inr alive ↦
                elim (Option-cases (
                  delete_children (λ d c. delete_imm h now stray stack f d c false)
                    (children db stack oid) (delete_mark h now stray stack db i m imm))) [
                      | inl out ↦
                          absurd (none-ne-some r (rw (found, may, alive, out, delete_imm) at e))
                      | inr (d, done) ↦
                          answer_done f db d oid i m imm r found done
                            (rw (found, may, alive, done, delete_imm) at e)
                    ]
          ]
    ]
  ]
