-- ===== src/Insert/Success.antt =====
-- What an insertion that succeeds has done.
use kogmo_rtdb.Base.{
  ℕ, ◌+◌, ◌%◌, ◌^◌, ◌≡◌, refl, sym, ap, ◌∙◌, negsuc, Bool, true, false, ◌==◌, ◌&&◌, not, ltb,
  if◌then◌else◌, List, [], ◌∷◌, some, length, inl, inr, Bool-cases, Option-cases, ◌⊎◌,
}
use mathlib.Core.Bool.{true≢false}
use kogmo_rtdb.Types.{
  LocalData, ObjInfo, Handle, TraceMsg, TraceEvent, Result, ok, err, Err, base_size,
}
use kogmo_rtdb.Floats.{FloatOps}
use kogmo_rtdb.Time.{timestamp_now}
use kogmo_rtdb.Meta.{objmeta_lock, objmeta_unlock_notify, put_meta, obj_trace_send}
use kogmo_rtdb.Memory.{Allocator}
use kogmo_rtdb.Insert.{
  find_place, init_meta, has_clash, to_oid, enter, insert_at, insert, Place, Inserted,
}

failed : Result ℕ → Bool
failed (ok n) = false
failed (err e) = true

err-ne-ok {κ} : {C : Type κ} (e : Err) (oid : ℕ) → err e ≡ ok oid → C
unfolding failed
err-ne-ok e oid p = absurd (true≢false (ap failed p))

-- The metadata under its new id; an object with no parent is below the root object, number 1.
abbrev pub entered : ℕ → ObjInfo → ObjInfo
entered oid m = record m {
  oid = oid;
  parent_oid = if (m.parent_oid == 0) && ltb 1 oid then 1 else m.parent_oid;
}

-- The database with the object in slot `i`, before the trace message.
abbrev pub entered_db : ℕ → ℕ → ObjInfo → LocalData → LocalData
entered_db i oid m db = objmeta_unlock_notify (
    put_meta (record (put_meta db i m) { objmeta_oid_next = (db.objmeta_oid_next + 1) % 2 ^ 64 }) i
      (entered oid m))

abbrev pub entered_msg : ℕ → ℕ → ObjInfo → TraceMsg
entered_msg stray oid m = record {
  oid = oid;
  ts = m.created_ts;
  event = TraceEvent.inserted;
  obj_slot = stray;
  hist_slot = negsuc 0;
}

pub enter_lem :
    (stray i : ℕ) (m : ObjInfo) (db : LocalData) (oid : ℕ)
    → (enter stray i m db).code ≡ ok oid
    → (to_oid db.objmeta_oid_next ≡ some oid)
      × (enter stray i m db ≡ record {
        code = ok oid;
        info = entered oid m;
        db = obj_trace_send (entered_db i oid m db) (entered_msg stray oid m);
      })
unfolding enter
enter_lem stray i m db oid e = elim (Option-cases (to_oid db.objmeta_oid_next)) [
  | inl out ↦ err-ne-ok Err.outofobj oid (rw (out, enter) at e)
  | inr (k, new_id) ↦
      let same : k ≡ oid = ok-injective k oid (rw (new_id, enter) at e) in
      (new_id ∙ ap some same, rw (new_id, enter) (rw same refl))
]
  where
    ok-injective : (a b : ℕ) → ok a ≡ ok b → a ≡ b
    ok-injective a b p = cc

pub List-cases : (cs : List ℕ) → (cs ≡ []) ⊎ ((d : ℕ) × (ds : List ℕ) × (cs ≡ d ∷ ds))
List-cases [] = inl refl
List-cases (d ∷ ds) = inr (d, ds, refl)

insert_at_lem :
    (stray : ℕ) (p : Place) (oid : ℕ)
    → (insert_at stray p).code ≡ ok oid
    → (i : ℕ) × (p.slot ≡ some i)
      × (has_clash (length p.db.objmeta) 1 p.info p.db ≡ false)
      × (insert_at stray p ≡ enter stray i p.info p.db)
unfolding insert_at
insert_at_lem stray p oid e = elim (Bool-cases (has_clash (length p.db.objmeta) 1 p.info p.db)) [
  | inl clash ↦ err-ne-ok Err.notuniq oid (rw (clash, insert_at) at e)
  | inr alone ↦ elim (Option-cases p.slot) [
    | inl no_slot ↦ err-ne-ok Err.outofobj oid (rw (alone, no_slot, insert_at) at e)
    | inr (i, slot) ↦ (i, slot, alone, rw (alone, slot, insert_at) refl)
  ]
]

-- Where an insertion puts its object.
abbrev pub place_of : FloatOps → Allocator → Handle → LocalData → ℕ → ObjInfo → Place
place_of fl al h db now new =
    find_place fl al h (timestamp_now db now) (init_meta fl h (timestamp_now db now) new)
      (objmeta_lock db)

-- Past the checks of the size and the name, an insertion looks for a place.
pub insert-named :
    (fl : FloatOps) (al : Allocator) (h : Handle) (stray : ℕ) (db : LocalData) (now : ℕ)
    (new : ObjInfo) (c : ℕ) (cs : List ℕ)
    → (not (new.size_max == 0) && ltb new.size_max base_size) ≡ false
    → new.name ≡ c ∷ cs
    → insert fl al h stray db now new ≡ insert_at stray (place_of fl al h db now new)
unfolding insert
insert-named fl al h stray db now new c cs large named = rw (large, insert) (ap by_name named)
  where
    by_name : List ℕ → Inserted
    by_name [] = record { code = err Err.invalid; info = new; db = db }
    by_name (c ∷ cs) = insert_at stray (place_of fl al h db now new)

-- An insertion succeeds with a slot, without a clash, and with a new id.
pub insert_lem :
    (fl : FloatOps) (al : Allocator) (h : Handle) (stray : ℕ) (db : LocalData) (now : ℕ)
    (new : ObjInfo) (oid : ℕ)
    → (insert fl al h stray db now new).code ≡ ok oid
    → let p = place_of fl al h db now new in
      (i : ℕ) × (p.slot ≡ some i)
      × (has_clash (length p.db.objmeta) 1 p.info p.db ≡ false)
      × (insert fl al h stray db now new ≡ enter stray i p.info p.db)
unfolding insert
insert_lem fl al h stray db now new oid e =
    elim (Bool-cases (not (new.size_max == 0) && ltb new.size_max base_size)) [
      | inl small ↦ err-ne-ok Err.invalid oid (rw (small, insert) at e)
      | inr large ↦ elim (List-cases new.name) [
        | inl unnamed ↦ err-ne-ok Err.invalid oid (rw (large, unnamed, insert) at e)
        | inr (c, cs, named) ↦
            let path = insert-named fl al h stray db now new c cs large named in
            let (i, slot, alone, q) =
              insert_at_lem stray (place_of fl al h db now new) oid
                (ap (λ z. z.code) (sym path) ∙ e) in
            (i, slot, alone, path ∙ q)
      ]
    ]
