-- ===== src/Insert/Slots.antt =====
-- The slot and the memory that an insertion finds.
use kogmo_rtdb.Base.{
  ℕ, suc, ◌+◌, ◌%◌, ◌^◌, ◌≡◌, ◌≢◌, refl, sym, ap, ◌∙◌, arith, ℤ, pos, Bool, true, ◌==◌, List, [],
  ◌∷◌, some, get_elem?, inl, inr, ◌⊎◌, Bool-cases, Option-cases, subst,
}
use mathlib.Core.Option.{some-injective, none-ne-some}
use kogmo_rtdb.Types.{LocalData, ObjInfo, Handle}
use kogmo_rtdb.Floats.{FloatOps}
use kogmo_rtdb.Memory.{Allocator, mem_alloc, dec_32, add_64, sub_64, clear}
use kogmo_rtdb.Meta.{objmeta_lock, objmeta_unlock}
use kogmo_rtdb.Insert.{
  find_slot, find_free, find_new, find_place, is_reusable, Place, to_oid, ring_bytes_of,
}

find_slot_from :
    (test : ObjInfo → Bool) (ms : List ObjInfo) (i j : ℕ) (x : ObjInfo)
    → find_slot test ms i ≡ some (j, x)
    → (k : ℕ) × (j ≡ i + k) × (get_elem? ms k ≡ some x) × (test x ≡ true)
unfolding find_slot
find_slot_from test [] i j x e = absurd (none-ne-some (j, x) e)
find_slot_from test (m ∷ ms) i j x e = elim (Bool-cases (test m)) [
  | inl hit ↦
      let p = some-injective (i, m) (j, x) (rw (hit, find_slot) at e) in
      let same : m ≡ x = ap (λ z. z.1) p in
      (0, omega (arith, ap (λ z. z.0) p), ap some same, ap test (sym same) ∙ hit)
  | inr miss ↦
      let (k, p, q, r) = find_slot_from test ms (suc i) j x (rw (miss, find_slot) at e) in
      (suc k, omega arith, q, r)
]

-- A slot that a scan finds passes its test.
pub find_slot_lem :
    (test : ObjInfo → Bool) (ms : List ObjInfo) (i : ℕ) (x : ObjInfo)
    → find_slot test ms 0 ≡ some (i, x)
    → (get_elem? ms i ≡ some x) × (test x ≡ true)
find_slot_lem test ms i x e =
    let (k, p, q, r) = find_slot_from test ms 0 i x e in
    let p' : i ≡ k = omega arith in (rw p' q, r)

pub to_oid_lem : (n oid : ℕ) → to_oid n ≡ some oid → (oid ≢ 0) × (oid ≡ n % 2 ^ 32)
unfolding to_oid
to_oid_lem n oid e = ground arith

-- A free slot of the table.
abbrev pub IsVacant : LocalData → ℕ → Type 0
IsVacant db i = (x : ObjInfo) × (get_elem? db.objmeta i ≡ some x) × (x.oid ≡ 0)

abbrev pub taken : LocalData → LocalData
taken db = record db { objmeta_free = dec_32 db.objmeta_free }

find_free_lem :
    (heap_idx : ℤ) (m : ObjInfo) (db : LocalData) (i : ℕ)
    → (find_free heap_idx m db).slot ≡ some i
    → IsVacant db i
      × (find_free heap_idx m db
          ≡ record { slot = some i; heap_idx = heap_idx; info = m; db = taken db })
unfolding find_free
find_free_lem heap_idx m db i e = elim (Option-cases (find_slot (λ x. x.oid == 0) db.objmeta 0)) [
  | inl full ↦ absurd (none-ne-some i (rw (full, find_free) at e))
  | inr ((j, x), found) ↦
      let same : j ≡ i = some-injective j i (rw (found, find_free) at e) in
      let (p, q) = find_slot_lem (λ y. y.oid == 0) db.objmeta j x found in
      ((x, rw (sym same) p, ground arith), rw (found, find_free) (rw same refl))
]

-- The allocation as one record update.
abbrev pub allocated : LocalData → ℕ → ℕ → LocalData
allocated db size idx = record db {
  heap_free = sub_64 db.heap_free size;
  heap_used = add_64 db.heap_used size;
  pool = (idx, size) ∷ db.pool;
  heap = clear db.heap idx size;
}

pub mem_alloc_lem :
    (al : Allocator) (db : LocalData) (size idx : ℕ)
    → (mem_alloc al db size).0 ≡ some idx
    → (al.alloc db.pool size ≡ some idx)
      × (mem_alloc al db size ≡ (some idx, allocated db size idx))
unfolding mem_alloc
mem_alloc_lem al db size idx e = elim (Bool-cases (size == 0)) [
  | inl zero_size ↦ absurd (none-ne-some idx (rw (zero_size, mem_alloc) at e))
  | inr pos_size ↦ elim (Option-cases (al.alloc db.pool size)) [
    | inl fails ↦ absurd (none-ne-some idx (rw (pos_size, fails, mem_alloc) at e))
    | inr (k, gives) ↦
        let same : k ≡ idx = some-injective k idx (rw (pos_size, gives, mem_alloc) at e) in
        (gives ∙ ap some same, rw (pos_size, gives, mem_alloc) (rw same refl))
  ]
]

-- A new slot comes with no memory, or with a ring that was allocated while the lock was given up.
abbrev pub NewPlace : Allocator → ObjInfo → LocalData → ℕ → Place → Type 0
NewPlace al m db i p =
    IsVacant db i
    × ((m.size_max ≡ 0) × (p ≡ record { slot = some i; heap_idx = pos 0; info = m; db = taken db })
        ⊎ (idx : ℕ) × (al.alloc db.pool (ring_bytes_of m) ≡ some idx)
          × (p ≡ record {
            slot = some i;
            heap_idx = pos idx;
            info = record m { buffer_idx = idx };
            db = taken (objmeta_lock (allocated (objmeta_unlock db) (ring_bytes_of m) idx));
          }))

pub find_new_lem :
    (al : Allocator) (m : ObjInfo) (db : LocalData) (i : ℕ)
    → (find_new al m db).slot ≡ some i
    → NewPlace al m db i (find_new al m db)
unfolding find_new
find_new_lem al m db i e = elim (Bool-cases (m.size_max == 0)) [
  | inl none_needed ↦
      let (v, p) = find_free_lem (pos 0) m db i (rw (none_needed, find_new) at e) in
      (v, inl (ground arith, rw (none_needed, find_new) p))
  | inr needed ↦ elim (Option-cases (mem_alloc al (objmeta_unlock db) (ring_bytes_of m)).0) [
    | inl fails ↦ absurd (none-ne-some i (rw (needed, fails, find_new) at e))
    | inr (idx, gives) ↦
        let (given, step) = mem_alloc_lem al (objmeta_unlock db) (ring_bytes_of m) idx gives in
        let next : Place =
          find_free (pos idx) (record m { buffer_idx = idx })
            (objmeta_lock (allocated (objmeta_unlock db) (ring_bytes_of m) idx)) in
        let path : find_new al m db ≡ next =
          rw (needed, gives, find_new)
            (ap (λ r. find_free (pos idx) (record m { buffer_idx = idx }) (objmeta_lock r.1))
              step) in
        let (v, p) = find_free_lem _ _ _ i (ap (λ z. z.slot) (sym path) ∙ e) in
        (v, inr (idx, given, path ∙ p))
  ]
]

-- A slot that is taken over from an object of this process, with its memory.
abbrev pub OldPlace : FloatOps → Handle → ℕ → ObjInfo → LocalData → ℕ → Place → Type 0
OldPlace fl h ts m db i p =
    (x : ObjInfo) × (get_elem? db.objmeta i ≡ some x)
    × (is_reusable fl h db.default_keep_deleted_interval ts m x ≡ true)
    × (p ≡ record {
      slot = some i;
      heap_idx = pos 0;
      info = record m { buffer_idx = x.buffer_idx };
      db = db;
    })

pub find_place_lem :
    (fl : FloatOps) (al : Allocator) (h : Handle) (ts : ℕ) (m : ObjInfo) (db : LocalData) (i : ℕ)
    → (find_place fl al h ts m db).slot ≡ some i
    → OldPlace fl h ts m db i (find_place fl al h ts m db)
      ⊎ NewPlace al m db i (find_place fl al h ts m db)
unfolding find_place
find_place_lem fl al h ts m db i e =
    elim (Option-cases
      (find_slot (is_reusable fl h db.default_keep_deleted_interval ts m) db.objmeta 0)) [
        | inl no_old ↦
            let path : find_place fl al h ts m db ≡ find_new al m db =
              rw (no_old, find_place) refl in
            inr (
              subst (λ p. NewPlace al m db i p) (sym path)
                (find_new_lem al m db i (ap (λ z. z.slot) (sym path) ∙ e)))
        | inr ((j, x), found) ↦
            let same : j ≡ i = some-injective j i (rw (found, find_place) at e) in
            let (p, q) = find_slot_lem _ db.objmeta j x found in
            inl (x, rw (sym same) p, q, rw (found, find_place) (rw same refl))
      ]
