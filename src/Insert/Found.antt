-- ===== src/Insert/Found.antt =====
-- The new object in the table, and what happens without a slot for it.
use kogmo_rtdb.Base.{
  ℕ, zero, suc, ◌+◌, ◌%◌, ◌^◌, ◌<◌, ◌≡◌, ◌≢◌, refl, sym, ap, ◌∙◌, arith, false, ◌==◌, List, [], ◌∷◌,
  some, get_elem?, set, inl, inr, subst, negsuc,
}
use native.Mathlib.Nat.{mod-eq_of_lt}
use mathlib.Core.Option.{none-ne-some}
use kogmo_rtdb.Types.{LocalData, ObjInfo, Handle, ok}
use kogmo_rtdb.Floats.{FloatOps}
use kogmo_rtdb.Time.{timestamp_now}
use kogmo_rtdb.Meta.{findmeta_byid, find_from, objmeta_lock}
use kogmo_rtdb.Meta.Sent.{objmeta-trace, objmeta_oid_next-trace}
use kogmo_rtdb.Memory.{Allocator}
use kogmo_rtdb.Memory.Balance.{get_elem?-set}
use kogmo_rtdb.Remove.Total.{set-set}
use kogmo_rtdb.Insert.{Inserted, init_meta, Place, insert}
use kogmo_rtdb.Insert.Slots.{to_oid_lem, find_place_lem}
use kogmo_rtdb.Insert.Success.{entered, entered_db, entered_msg, enter_lem, insert_lem, place_of}

-- Ids are given out in order.
abbrev pub IsNext : LocalData → Type 0
IsNext db = (j : ℕ) (x : ObjInfo) → get_elem? db.objmeta j ≡ some x → x.oid < db.objmeta_oid_next

find_from-fresh :
    (ms : List ObjInfo) (i k oid : ℕ) (y m : ObjInfo)
    → ((j : ℕ) (x : ObjInfo) → get_elem? ms j ≡ some x → x.oid ≢ oid)
    → get_elem? ms k ≡ some y
    → m.oid ≡ oid
    → find_from (set ms k m) i oid ≡ some (i + k, m)
unfolding find_from
find_from-fresh [] i k oid y m new e id = absurd (none-ne-some y e)
find_from-fresh (x ∷ ms) i zero oid y m new e id = ground arith
find_from-fresh (x ∷ ms) i (suc k) oid y m new e id =
    let other = new 0 x refl in
    let rest = find_from-fresh ms (suc i) k oid y m (λ j z p. new (suc j) z p) e id in
    let miss : (x.oid == oid) ≡ false = ground arith in
    let sum : suc i + k ≡ i + suc k = omega arith in rw miss (rest ∙ rw sum)

-- What is entered is found.
findmeta-entered :
    (db : LocalData) (i oid : ℕ) (m y : ObjInfo)
    → ((j : ℕ) (x : ObjInfo) → get_elem? db.objmeta j ≡ some x → x.oid ≢ oid)
    → get_elem? db.objmeta i ≡ some y
    → findmeta_byid (entered_db i oid m db) oid ≡ some (i, entered oid m)
unfolding findmeta_byid
findmeta-entered db i oid m y new e =
    ap (λ ms. find_from ms 0 oid) (set-set db.objmeta i m (entered oid m))
    ∙ find_from-fresh db.objmeta 0 i oid y (entered oid m) new e refl
    ∙ ap (λ k. some (k, entered oid m)) sum
  where
    sum : 0 + i ≡ i
    sum = omega arith

-- Looking for a place changes neither the table nor the counter of ids, and the object starts
-- without data.
abbrev pub KeepsTable : LocalData → ℕ → Place → Type 0
KeepsTable db i p =
    ((y : ObjInfo) × (get_elem? p.db.objmeta i ≡ some y))
    × (p.db.objmeta ≡ db.objmeta)
    × (p.db.objmeta_oid_next ≡ db.objmeta_oid_next)
    × (p.info.history_slot ≡ negsuc 0)
    × (p.info.deleted_ts ≡ 0)

pub place_of-KeepsTable :
    (fl : FloatOps) (al : Allocator) (h : Handle) (db : LocalData) (now : ℕ) (new : ObjInfo) (i : ℕ)
    → (place_of fl al h db now new).slot ≡ some i
    → KeepsTable db i (place_of fl al h db now new)
unfolding init_meta
place_of-KeepsTable fl al h db now new i slot =
    elim (find_place_lem fl al h (timestamp_now db now) (init_meta fl h (timestamp_now db now) new)
      (objmeta_lock db) i slot) [
        | inl (y, at_i, _, q) ↦ subst (KeepsTable db i) (sym q) ((y, at_i), refl, refl, refl, refl)
        | inr ((y, at_i, _), inl (_, q)) ↦
            subst (KeepsTable db i) (sym q) ((y, at_i), refl, refl, refl, refl)
        | inr ((y, at_i, _), inr (idx, _, q)) ↦
            subst (KeepsTable db i) (sym q) ((y, at_i), refl, refl, refl, refl)
      ]

pub small_oid : (n oid : ℕ) → n < 2 ^ 31 → oid ≡ n % 2 ^ 32 → oid ≡ n
small_oid n oid h e = e ∙ mod-eq_of_lt (omega arith)

pub next_64 : (n : ℕ) → n < 2 ^ 31 → (n + 1) % 2 ^ 64 ≡ n + 1
next_64 n h = mod-eq_of_lt (omega arith)

entered-IsNext :
    (db : LocalData) (i oid : ℕ) (m y : ObjInfo)
    → IsNext db
    → db.objmeta_oid_next < 2 ^ 31
    → oid ≡ db.objmeta_oid_next
    → get_elem? db.objmeta i ≡ some y
    → IsNext (entered_db i oid m db)
entered-IsNext db i oid m y next h id at_i j x g =
    rw (next_64 db.objmeta_oid_next h)
      (elim (get_elem?-set db.objmeta i j y (entered oid m) x at_i
        (ap (λ ms. get_elem? ms j) (sym (set-set db.objmeta i m (entered oid m))) ∙ g)) [
          | inl (_, q) ↦ let is_oid : x.oid ≡ oid = ap (λ z. z.oid) q in omega (arith, id)
          | inr (_, q) ↦ omega (arith, next j x q)
        ])

-- An insertion that succeeds answers the next id, under which the object is found afterwards, not
-- deleted and without data; the ids of the table stay below the next one. Ids had been given out in
-- order, and fewer than 2 ^ 31 of them.
pub findmeta-insert :
    (fl : FloatOps) (al : Allocator) (h : Handle) (stray : ℕ) (db : LocalData) (now : ℕ)
    (new : ObjInfo) (oid : ℕ)
    → IsNext db
    → db.objmeta_oid_next < 2 ^ 31
    → (insert fl al h stray db now new).code ≡ ok oid
    → let r = insert fl al h stray db now new in
      (oid ≡ db.objmeta_oid_next)
      × ((i : ℕ) × (findmeta_byid r.db oid ≡ some (i, r.info)))
      × (r.info.history_slot ≡ negsuc 0)
      × (r.info.deleted_ts ≡ 0)
      × IsNext r.db
unfolding findmeta_byid
findmeta-insert fl al h stray db now new oid next few success =
    let p = place_of fl al h db now new in
    let (i, slot, _, path) = insert_lem fl al h stray db now new oid success in
    let (id, done) = enter_lem stray i p.info p.db oid (ap (λ z. z.code) (sym path) ∙ success) in
    let ((y, at_i), same, same_next, hist, alive) = place_of-KeepsTable fl al h db now new i slot in
    let few' : p.db.objmeta_oid_next < 2 ^ 31 = omega (arith, same_next) in
    let is_next : oid ≡ p.db.objmeta_oid_next =
      small_oid p.db.objmeta_oid_next oid few' (to_oid_lem p.db.objmeta_oid_next oid id).1 in
    let next' : IsNext p.db =
      λ j x g. rw same_next (next j x (ap (λ ms. get_elem? ms j) (sym same) ∙ g)) in
    let sent = objmeta-trace (entered_db i oid p.info p.db) (entered_msg stray oid p.info) in
    subst Result_of (sym (path ∙ done)) (
      is_next ∙ same_next,
      (
        i,
        ap (λ ms. find_from ms 0 oid) sent
            ∙ findmeta-entered p.db i oid p.info y
                (λ j x g. let lt = next' j x g in λ z. absurd (omega (arith, is_next))) at_i,
      ),
      hist,
      alive,
      λ j x g.
          rw (objmeta_oid_next-trace (entered_db i oid p.info p.db) (entered_msg stray oid p.info))
            (entered-IsNext p.db i oid p.info y next' few' is_next at_i j x
              (ap (λ ms. get_elem? ms j) (sym sent) ∙ g)),
    )
  where
    Result_of : Inserted → Type 0
    Result_of r =
        (oid ≡ db.objmeta_oid_next)
        × ((i : ℕ) × (findmeta_byid r.db oid ≡ some (i, r.info)))
        × (r.info.history_slot ≡ negsuc 0)
        × (r.info.deleted_ts ≡ 0)
        × IsNext r.db
