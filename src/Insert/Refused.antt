-- ===== src/Insert/Refused.antt =====
-- What an insertion leaves that answers an error, in rtdb/kogmo_rtdb_objmeta.c, while there are ids.
use kogmo_rtdb.Base.{
  ℕ, zero, suc, ◌≡◌, ◌≢◌, ◌⊎◌, refl, sym, ap, ◌∙◌, ℤ, pos, negsuc, ◌==◌, ◌&&◌, not, ltb, some,
  length, inl, inr, Bool-cases, Option-cases, subst,
}
use kogmo_rtdb.Types.{LocalData, ObjInfo, Handle, Result, ok, err, Err, base_size}
use kogmo_rtdb.Floats.{FloatOps}
use kogmo_rtdb.Time.{timestamp_now}
use kogmo_rtdb.Meta.{objmeta_lock, objmeta_unlock}
use kogmo_rtdb.Memory.{Allocator, mem_alloc, mem_free}
use kogmo_rtdb.Insert.{
  Place, find_slot, find_free, find_new, find_place, init_meta, is_reusable, give_back, has_clash,
  to_oid, enter, insert_at, insert, ring_bytes_of,
}
use kogmo_rtdb.Insert.Success.{place_of, insert-named, List-cases}

-- The table and the counter of ids are those of `db`.
abbrev pub SameTable : LocalData → LocalData → Type 0
SameTable db d = (d.objmeta ≡ db.objmeta) × (d.objmeta_oid_next ≡ db.objmeta_oid_next)

find_free-SameTable :
    (heap_idx : ℤ) (m : ObjInfo) (db : LocalData) → SameTable db (find_free heap_idx m db).db
unfolding find_free
find_free-SameTable heap_idx m db = elim (Option-cases (find_slot (λ x. x.oid == 0) db.objmeta 0)) [
  | inl full ↦ rw (full, find_free) (refl, refl)
  | inr (_, found) ↦ rw (found, find_free) (refl, refl)
]

mem_alloc-SameTable :
    (al : Allocator) (db : LocalData) (size : ℕ) → SameTable db (mem_alloc al db size).1
unfolding mem_alloc
mem_alloc-SameTable al db size = elim (Bool-cases (size == 0)) [
  | inl nothing ↦ rw (nothing, mem_alloc) (refl, refl)
  | inr some_bytes ↦ elim (Option-cases (al.alloc db.pool size)) [
    | inl fails ↦ rw (some_bytes, fails, mem_alloc) (refl, refl)
    | inr (_, gives) ↦ rw (some_bytes, gives, mem_alloc) (refl, refl)
  ]
]

find_new-SameTable :
    (al : Allocator) (m : ObjInfo) (db : LocalData) → SameTable db (find_new al m db).db
unfolding find_new
find_new-SameTable al m db = elim (Bool-cases (m.size_max == 0)) [
  | inl bare ↦ rw (bare, find_new) (find_free-SameTable (pos 0) m db)
  | inr sized ↦
      let r = mem_alloc al (objmeta_unlock db) (ring_bytes_of m) in
      let same = mem_alloc-SameTable al (objmeta_unlock db) (ring_bytes_of m) in
      elim (Option-cases r.0) [
        | inl fails ↦ rw (sized, fails, find_new) same
        | inr (idx, gives) ↦
            let f =
              find_free-SameTable (pos idx) (record m { buffer_idx = idx }) (objmeta_lock r.1) in
            rw (sized, gives, find_new) (f.0 ∙ same.0, f.1 ∙ same.1)
      ]
]

-- The search for a place changes neither, whether it finds one or not.
place_of-SameTable :
    (fl : FloatOps) (al : Allocator) (h : Handle) (db : LocalData) (now : ℕ) (new : ObjInfo)
    → SameTable db (place_of fl al h db now new).db
unfolding find_place
place_of-SameTable fl al h db now new =
    let ts = timestamp_now db now in
    let m = init_meta fl h ts new in
    elim (Option-cases
      (find_slot (is_reusable fl h db.default_keep_deleted_interval ts m) db.objmeta 0)) [
        | inl no_old ↦ rw (no_old, find_place) (find_new-SameTable al m (objmeta_lock db))
        | inr (_, old) ↦ rw (old, find_place) (refl, refl)
      ]

give_back-SameTable :
    (heap_idx : ℤ) (m : ObjInfo) (db : LocalData) → SameTable db (give_back heap_idx m db)
unfolding give_back mem_free
give_back-SameTable (pos zero) m db = (refl, refl)
give_back-SameTable (pos (suc idx)) m db = (refl, refl)
give_back-SameTable (negsuc k) m db = (refl, refl)

abbrev the_err : Err → Result ℕ
the_err e = err e

insert_at-refused :
    (stray k : ℕ) (p : Place) (x : Err)
    → (insert_at stray p).code ≡ err x
    → to_oid p.db.objmeta_oid_next ≡ some k
    → (x ≢ Err.invalid) × SameTable p.db (insert_at stray p).db
unfolding insert_at enter
insert_at-refused stray k p x e ids =
    elim (Bool-cases (has_clash (length p.db.objmeta) 1 p.info p.db)) [
      | inl clash ↦
          let is_x : Err.notuniq ≡ x = err-injective (rw (clash, insert_at) at e) in
          (
            (λ z. notuniq-ne (is_x ∙ z)),
            rw (clash, insert_at) (give_back-SameTable p.heap_idx p.info (objmeta_unlock p.db)),
          )
      | inr alone ↦ elim (Option-cases p.slot) [
        | inl full ↦
            let is_x : Err.outofobj ≡ x = err-injective (rw (alone, full, insert_at) at e) in
            ((λ z. outofobj-ne (is_x ∙ z)), rw (alone, full, insert_at) (refl, refl))
        | inr (i, slot) ↦
            let done : ok k ≡ err x = rw (alone, slot, ids, insert_at, enter) at e in absurd (cc)
      ]
    ]
  where
    err-injective : {a b : Err} → the_err a ≡ the_err b → a ≡ b
    err-injective q = cc

    notuniq-ne : Err.notuniq ≢ Err.invalid
    notuniq-ne q = cc

    outofobj-ne : Err.outofobj ≢ Err.invalid
    outofobj-ne q = cc

-- An insertion that answers an error, while there are ids, writes no slot and gives out no id. If the
-- error is that its arguments are invalid, it does nothing at all.
pub insert-refused :
    (fl : FloatOps) (al : Allocator) (h : Handle) (stray : ℕ) (db : LocalData) (now : ℕ)
    (new : ObjInfo) (x : Err) (k : ℕ)
    → (insert fl al h stray db now new).code ≡ err x
    → to_oid db.objmeta_oid_next ≡ some k
    → ((x ≡ Err.invalid) × ((insert fl al h stray db now new).db ≡ db))
      ⊎ (x ≢ Err.invalid) × SameTable db (insert fl al h stray db now new).db
unfolding insert
insert-refused fl al h stray db now new x k e ids =
    elim (Bool-cases (not (new.size_max == 0) && ltb new.size_max base_size)) [
      | inl small ↦
          let is_x : the_err Err.invalid ≡ the_err x = rw (small, insert) at e in
          inl (cc, rw (small, insert) refl)
      | inr large ↦ elim (List-cases new.name) [
        | inl unnamed ↦
            let is_x : the_err Err.invalid ≡ the_err x = rw (large, unnamed, insert) at e in
            inl (cc, rw (large, unnamed, insert) refl)
        | inr (c, cs, named) ↦
            let p = place_of fl al h db now new in
            let path = insert-named fl al h stray db now new c cs large named in
            let same = place_of-SameTable fl al h db now new in
            let (ne, same') =
              insert_at-refused stray k p x (ap (λ z. z.code) (sym path) ∙ e)
                (ap to_oid same.1 ∙ ids) in
            inr (ne, subst (λ z. SameTable db z.db) (sym path) (same'.0 ∙ same.0, same'.1 ∙ same.1))
      ]
    ]
