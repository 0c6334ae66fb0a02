-- ===== src/Insert/Lost.antt =====
-- What an insertion leaves behind if the table is full.
use kogmo_rtdb.Base.{
  ℕ, ◌≡◌, refl, sym, ap, ◌∙◌, true, false, ◌==◌, ◌&&◌, not, ltb, List, ◌∷◌, some, none, pos, length,
  subst,
}
use kogmo_rtdb.Types.{LocalData, ObjInfo, Handle, err, Err, base_size}
use kogmo_rtdb.Floats.{FloatOps}
use kogmo_rtdb.Time.{timestamp_now}
use kogmo_rtdb.Meta.{objmeta_lock, objmeta_unlock}
use kogmo_rtdb.Memory.{Allocator, add_64, mem_alloc}
use kogmo_rtdb.Insert.{
  Place, init_meta, ring_bytes_of, insert, insert_at, find_place, find_new, find_free, find_slot,
  is_reusable, has_clash,
}
use kogmo_rtdb.Insert.Slots.{allocated}
use kogmo_rtdb.Insert.Success.{place_of, insert-named}

module _ (fl : FloatOps) (al : Allocator) (h : Handle) (db : LocalData) (now : ℕ)
    (new : ObjInfo) where
  -- The metadata that the search for a slot starts with.
  abbrev pub prepared : ObjInfo
  prepared = init_meta fl h (timestamp_now db now) new

  -- The search fails after memory was allocated at `idx`.
  abbrev pub lost_place : ℕ → Place
  lost_place idx = record {
    slot = none;
    heap_idx = pos idx;
    info = record prepared { buffer_idx = idx };
    db = objmeta_lock (allocated (objmeta_unlock (objmeta_lock db)) (ring_bytes_of prepared) idx);
  }

  place-lost :
      (idx : ℕ)
      → (prepared.size_max == 0) ≡ false
      → (ring_bytes_of prepared == 0) ≡ false
      → find_slot
          (is_reusable fl h db.default_keep_deleted_interval (timestamp_now db now) prepared)
          db.objmeta
          0
        ≡ none
      → al.alloc db.pool (ring_bytes_of prepared) ≡ some idx
      → find_slot (λ x. x.oid == 0) db.objmeta 0 ≡ none
      → place_of fl al h db now new ≡ lost_place idx
  unfolding find_place find_new find_free mem_alloc
  place-lost idx sized ring no_old given full = searched ∙ placed ∙ rw (full, find_free) refl
    where
      searched : place_of fl al h db now new ≡ find_new al prepared (objmeta_lock db)
      searched = rw (no_old, find_place) refl

      step :
          mem_alloc al (objmeta_unlock (objmeta_lock db)) (ring_bytes_of prepared)
          ≡ (some idx, allocated (objmeta_unlock (objmeta_lock db)) (ring_bytes_of prepared) idx)
      step = rw (ring, given, mem_alloc) refl

      placed :
          find_new al prepared (objmeta_lock db)
          ≡ find_free (pos idx) (record prepared { buffer_idx = idx }) (lost_place idx).db
      placed =
          rw (sized, ap (λ r. r.0) step, find_new)
            (ap (λ r. find_free (pos idx) (record prepared { buffer_idx = idx }) (objmeta_lock r.1))
              step)

  -- An object with data finds the table full: no slot is free, and none can be taken over. The call
  -- answers OUTOFOBJ; it neither purges old objects nor tries again, it keeps the lock of the metadata,
  -- and the memory that it allocated stays used though no object owns it.
  pub insert-lost :
      (stray idx c : ℕ) (cs : List ℕ)
      → (not (new.size_max == 0) && ltb new.size_max base_size) ≡ false
      → new.name ≡ c ∷ cs
      → (prepared.size_max == 0) ≡ false
      → (ring_bytes_of prepared == 0) ≡ false
      → find_slot
          (is_reusable fl h db.default_keep_deleted_interval (timestamp_now db now) prepared)
          db.objmeta
          0
        ≡ none
      → al.alloc db.pool (ring_bytes_of prepared) ≡ some idx
      → find_slot (λ x. x.oid == 0) db.objmeta 0 ≡ none
      → has_clash (length db.objmeta) 1 (record prepared { buffer_idx = idx }) (lost_place idx).db
        ≡ false
      → let r = insert fl al h stray db now new in
        (r.code ≡ err Err.outofobj)
        × (r.db.objmeta ≡ db.objmeta)
        × (r.db.locked ≡ true)
        × (r.db.heap_used ≡ add_64 db.heap_used (ring_bytes_of prepared))
  unfolding insert insert_at
  insert-lost stray idx c cs large named sized ring no_old given full no_clash =
      let path =
        insert-named fl al h stray db now new c cs large named
        ∙ ap (insert_at stray) (place-lost idx sized ring no_old given full) in
      subst
        (λ r.
          (r.code ≡ err Err.outofobj)
          × (r.db.objmeta ≡ db.objmeta)
          × (r.db.locked ≡ true)
          × (r.db.heap_used ≡ add_64 db.heap_used (ring_bytes_of prepared)))
        (sym (path ∙ ended)) (refl, refl, refl, refl)
    where
      ended : insert_at stray (lost_place idx) ≡ record {
        code = err Err.outofobj;
        info = (lost_place idx).info;
        db = (lost_place idx).db;
      }
      ended = rw (no_clash, insert_at) refl
