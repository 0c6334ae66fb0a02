-- ===== src/Insert/Books.antt =====
-- An insertion that succeeds keeps the books.
use kogmo_rtdb.Base.{
  ℕ, ◌+◌, ◌*◌, ◌≡◌, ◌≢◌, refl, sym, ap, ◌∙◌, arith, true, List, some, set, get_elem?, inl, inr,
  subst,
}
use mathlib.Core.Option.{none-ne-some}
use kogmo_rtdb.Types.{LocalData, ObjInfo, Handle, ok}
use kogmo_rtdb.Floats.{FloatOps}
use kogmo_rtdb.Time.{timestamp_now}
use kogmo_rtdb.Meta.{objmeta_lock, objmeta_unlock}
use kogmo_rtdb.Memory.{Allocator, IsSound}
use kogmo_rtdb.Memory.Balance.{IsBalanced, HasBooks, cost, ring_bytes}
use kogmo_rtdb.Memory.Steps.{books-change}
use kogmo_rtdb.Memory.Entry.{books-enter, books-alloc}
use kogmo_rtdb.Remove.Books.{trace-IsBalanced}
use kogmo_rtdb.Remove.Total.{set-set}
use kogmo_rtdb.Insert.{init_meta, is_reusable, insert, ring_bytes_of}
use kogmo_rtdb.Insert.Slots.{to_oid_lem, find_place_lem, taken, allocated}
use kogmo_rtdb.Insert.Success.{entered, entered_db, entered_msg, enter_lem, insert_lem, place_of}

-- The source writes the slot twice, first without the id.
twice :
    (extra : ℕ) (ms : List ObjInfo) (i : ℕ) (y z : ObjInfo) (free hfree hused hsize : ℕ)
    (pool : List (ℕ × ℕ))
    → HasBooks extra (set ms i z) free hfree hused hsize pool
    → HasBooks extra (set (set ms i y) i z) free hfree hused hsize pool
twice extra ms i y z free hfree hused hsize pool b =
    subst (λ l. HasBooks extra l free hfree hused hsize pool) (sym (set-set ms i y z)) b

-- A slot that is taken over owns the ring that it owned before.
old-IsBalanced :
    (fl : FloatOps) (h : Handle) (ts i oid extra : ℕ) (m x : ObjInfo) (db : LocalData)
    → IsBalanced extra db
    → oid ≢ 0
    → get_elem? db.objmeta i ≡ some x
    → is_reusable fl h db.default_keep_deleted_interval ts m x ≡ true
    → IsBalanced extra (entered_db i oid (record m { buffer_idx = x.buffer_idx }) db)
unfolding is_reusable
old-IsBalanced fl h ts i oid extra m x db b pos at_i reusable =
    twice extra db.objmeta i (record m { buffer_idx = x.buffer_idx }) _ _ _ _ _ _
      (books-change extra db.objmeta _ _ _ _ _ i x
        (entered oid (record m { buffer_idx = x.buffer_idx })) b at_i
        (λ own. ((here, own.1), refl, same)) (ground arith) (ground arith))
  where
    here : x.oid ≢ 0
    here = ground arith

    same : x.size_max * x.history_size ≡ m.size_max * m.history_size
    same = ground arith

-- A free slot takes the object in, with the ring that was allocated for it.
free-IsBalanced :
    (i oid extra : ℕ) (m x : ObjInfo) (db : LocalData)
    → IsBalanced extra db
    → oid ≢ 0
    → get_elem? db.objmeta i ≡ some x
    → x.oid ≡ 0
    → m.buffer_idx ≡ 0
    → IsBalanced extra (entered_db i oid m (taken db))
free-IsBalanced i oid extra m x db b pos at_i vacant bare =
    twice extra db.objmeta i m (entered oid m) _ _ _ _ _ (
      books-enter extra db.objmeta _ _ _ _ _ i x (entered oid m) ready at_i vacant pos
        (λ own. absurd (own.1 bare)) (λ own. absurd (own.1 bare)))
  where
    ready : IsBalanced (extra + cost (entered oid m)) db
    ready = subst (λ c. IsBalanced c db) (ground arith) b

ring-IsBalanced :
    (al : Allocator) (i oid idx extra : ℕ) (m x : ObjInfo) (db : LocalData)
    → IsSound al db.heap_size
    → IsBalanced extra db
    → oid ≢ 0
    → get_elem? db.objmeta i ≡ some x
    → x.oid ≡ 0
    → al.alloc db.pool (ring_bytes_of m) ≡ some idx
    → IsBalanced extra (
        entered_db i oid
          (record m { buffer_idx = idx })
          (taken (objmeta_lock (allocated (objmeta_unlock db) (ring_bytes_of m) idx))))
ring-IsBalanced al i oid idx extra m x db sound b pos at_i vacant given =
    twice extra db.objmeta i with_ring (entered oid with_ring) _ _ _ _ _ (
      books-enter extra db.objmeta _ _ _ _ _ i x (entered oid with_ring) ready at_i vacant pos
        (λ own. ground arith)
        (λ own j y at_j own_y same. none-ne-some (ring_bytes y) (
          sym (sound.fresh db.pool (ring_bytes_of m) idx given)
          ∙ rw (sym same) (b.held j y at_j own_y))))
  where
    with_ring : ObjInfo
    with_ring = record m { buffer_idx = idx }

    ready : IsBalanced (extra + cost (entered oid with_ring)) (allocated db (ring_bytes_of m) idx)
    ready =
        subst (λ c. IsBalanced c (allocated db (ring_bytes_of m) idx))
          (ground (arith, sound.header db.pool (ring_bytes_of m) idx given))
          (books-alloc extra db.objmeta _ _ _ _ db.pool al (ring_bytes_of m) idx sound b given)

-- An insertion that succeeds keeps the books: its slot is counted, and the object owns a block of the
-- size of its ring, or none if it carries no data. The allocator behaves as documented. `extra` bytes
-- of the heap belong to no object.
pub insert-IsBalanced :
    (fl : FloatOps) (al : Allocator) (h : Handle) (stray : ℕ) (db : LocalData) (now : ℕ)
    (new : ObjInfo) (oid extra : ℕ)
    → IsSound al db.heap_size
    → IsBalanced extra db
    → (insert fl al h stray db now new).code ≡ ok oid
    → IsBalanced extra (insert fl al h stray db now new).db
unfolding init_meta
insert-IsBalanced fl al h stray db now new oid extra sound b success =
    let m = init_meta fl h (timestamp_now db now) new in
    let p = place_of fl al h db now new in
    let (i, slot, _, path) = insert_lem fl al h stray db now new oid success in
    let (id, done) = enter_lem stray i p.info p.db oid (ap (λ z. z.code) (sym path) ∙ success) in
    let pos = (to_oid_lem p.db.objmeta_oid_next oid id).0 in
    subst (λ d. IsBalanced extra d) (sym (ap (λ z. z.db) (path ∙ done)))
      (trace-IsBalanced extra (entered_db i oid p.info p.db) (entered_msg stray oid p.info)
        (elim (find_place_lem fl al h (timestamp_now db now) m (objmeta_lock db) i slot) [
          | inl (x, at_i, reusable, q) ↦
              subst (λ z. IsBalanced extra (entered_db i oid z.info z.db)) (sym q)
                (old-IsBalanced fl h (timestamp_now db now) i oid extra m x (objmeta_lock db) b pos
                  at_i reusable)
          | inr ((x, at_i, vacant), inl (_, q)) ↦
              subst (λ z. IsBalanced extra (entered_db i oid z.info z.db)) (sym q)
                (free-IsBalanced i oid extra m x (objmeta_lock db) b pos at_i vacant refl)
          | inr ((x, at_i, vacant), inr (idx, given, q)) ↦
              subst (λ z. IsBalanced extra (entered_db i oid z.info z.db)) (sym q)
                (ring-IsBalanced al i oid idx extra m x (objmeta_lock db) sound b pos at_i vacant
                  given)
        ]))
