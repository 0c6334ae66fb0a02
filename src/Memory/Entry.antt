-- ===== src/Memory/Entry.antt =====
-- The books while an object enters the table or leaves it: its ring is allocated first.
use kogmo_rtdb.Base.{
  ℕ, ◌+◌, ◌-◌, ◌^◌, ◌<◌, ◌≡◌, ◌≢◌, sym, ap, ◌∙◌, arith, List, ◌∷◌, some, set, get_elem?, length-set,
  inl, inr, subst,
}
use kogmo_rtdb.Types.{ObjInfo}
use kogmo_rtdb.Memory.{
  Allocator, IsSound, add_64, sub_64, inc_32, dec_32, total, block_size, release,
}
use kogmo_rtdb.Memory.Balance.{
  HasBooks, IsOwner, cost, vacancy, vacancies, reserved-set, vacancies-set, ring_bytes,
  get_elem?-set, total-release, block_size-release, sub_64_lem, add_64_lem, vacancies-le,
  IsDisjoint-release,
}
use kogmo_rtdb.Memory.Steps.{ring_elsewhere}

module _ (extra : ℕ) (ms : List ObjInfo) (free hfree hused hsize : ℕ) (pool : List (ℕ × ℕ)) where
  -- A slot without a ring becomes free.
  pub books-vacate :
      (i : ℕ) (m m' : ObjInfo)
      → HasBooks extra ms free hfree hused hsize pool
      → get_elem? ms i ≡ some m
      → m.oid ≢ 0
      → m.buffer_idx ≡ 0
      → m'.oid ≡ 0
      → HasBooks extra (set ms i m') (inc_32 free) hfree hused hsize pool
  books-vacate i m m' b e here bare gone = record {
    slots = omega (arith, b.slots, b.slots_bound, vacant, vacant', vacancies-set ms i m m' e, more);
    used = omega (arith, b.used, cost_m, cost_m', reserved-set ms i m m' e);
    pooled = b.pooled;
    whole = b.whole;
    disjoint = b.disjoint;
    size_bound = b.size_bound;
    slots_bound = rw (length-set ms i m') b.slots_bound;
    held = λ j x g ox.
        let (_, q) = ring_elsewhere ms i m m' j x e (λ o. o.0 gone) g ox in b.held j x q ox;
    apart = λ j k x z gx gz ox oz ne.
        let (_, p) = ring_elsewhere ms i m m' j x e (λ o. o.0 gone) gx ox in
        let (_, q) = ring_elsewhere ms i m m' k z e (λ o. o.0 gone) gz oz in
        b.apart j k x z p q ox oz ne;
  }
    where
      cost_m : cost m ≡ 0
      cost_m = rw bare (ground arith)

      cost_m' : cost m' ≡ 0
      cost_m' = rw gone

      vacant : vacancy m ≡ 0
      vacant = ground arith

      vacant' : vacancy m' ≡ 1
      vacant' = rw gone

      more : vacancies (set ms i m') < 2 ^ 32
      more = omega (arith, vacancies-le (set ms i m'), length-set ms i m', b.slots_bound)

  -- An allocation, for an object that is not in the table yet.
  pub books-alloc :
      (al : Allocator) (size idx : ℕ)
      → IsSound al hsize
      → HasBooks extra ms free hfree hused hsize pool
      → al.alloc pool size ≡ some idx
      → HasBooks
          (extra + size)
          ms
          free
          (sub_64 hfree size)
          (add_64 hused size)
          hsize
          ((idx, size) ∷ pool)
  books-alloc al size idx sound b e = record {
    slots = b.slots;
    used = more ∙ omega (arith, b.used);
    pooled = omega (arith, b.pooled) ∙ sym more;
    whole =
        ap (λ z. z + add_64 hused size) less
        ∙ ap (λ z. hfree - size + z) more
        ∙ omega (arith, b.pooled, b.whole, sound.room pool size idx e);
    disjoint = (sound.disjoint pool size idx e, b.disjoint);
    size_bound = b.size_bound;
    slots_bound = b.slots_bound;
    held = λ j x g ox. other (x.buffer_idx) (ring_bytes x) (b.held j x g ox);
    apart = b.apart;
  }
    where
      more : add_64 hused size ≡ hused + size
      more =
          add_64_lem hused size (omega (arith, sound.room pool size idx e, b.pooled, b.size_bound))

      less : sub_64 hfree size ≡ hfree - size
      less =
          sub_64_lem hfree size (omega (arith, sound.room pool size idx e, b.pooled, b.whole))
            (omega (arith, b.whole, b.size_bound))

      other : (k n : ℕ) → block_size k pool ≡ some n → block_size k ((idx, size) ∷ pool) ≡ some n
      other k n h = ground (arith, sound.fresh pool size idx e)

  -- That allocation is given back.
  pub books-release :
      (size idx : ℕ)
      → HasBooks (extra + size) ms free hfree hused hsize pool
      → block_size idx pool ≡ some size
      → ((j : ℕ) (x : ObjInfo) → get_elem? ms j ≡ some x → IsOwner x → x.buffer_idx ≢ idx)
      → HasBooks extra ms free (add_64 hfree size) (sub_64 hused size) hsize (release idx pool)
  books-release size idx b e other = record {
    slots = b.slots;
    used = less ∙ omega (arith, b.used);
    pooled = omega (arith, parts, b.pooled) ∙ sym less;
    whole =
        ap (λ z. z + sub_64 hused size)
          (add_64_lem hfree size (omega (arith, parts, b.pooled, b.whole, b.size_bound)))
        ∙ ap (λ z. hfree + size + z) less
        ∙ omega (arith, parts, b.pooled, b.whole);
    disjoint = IsDisjoint-release pool idx b.disjoint;
    size_bound = b.size_bound;
    slots_bound = b.slots_bound;
    held = λ j x g ox. block_size-release pool idx x.buffer_idx (other j x g ox) ∙ b.held j x g ox;
    apart = b.apart;
  }
    where
      parts : total (release idx pool) + size ≡ total pool
      parts = total-release pool idx size e

      less : sub_64 hused size ≡ hused - size
      less =
          sub_64_lem hused size (omega (arith, parts, b.pooled))
            (omega (arith, b.whole, b.size_bound))

  -- The object enters a free slot, with its ring if it has one.
  pub books-enter :
      (i : ℕ) (m m' : ObjInfo)
      → HasBooks (extra + cost m') ms free hfree hused hsize pool
      → get_elem? ms i ≡ some m
      → m.oid ≡ 0
      → m'.oid ≢ 0
      → (IsOwner m' → block_size m'.buffer_idx pool ≡ some (ring_bytes m'))
      → (IsOwner m'
          → (j : ℕ) (x : ObjInfo) → get_elem? ms j ≡ some x
          → IsOwner x
          → x.buffer_idx ≢ m'.buffer_idx)
      → HasBooks extra (set ms i m') (dec_32 free) hfree hused hsize pool
  books-enter i m m' b e vacant here block other = record {
    slots =
        omega (arith, b.slots, b.slots_bound, was, now, vacancies-set ms i m m' e, vacancies-le ms);
    used = omega (arith, b.used, cost_m, reserved-set ms i m m' e);
    pooled = b.pooled;
    whole = b.whole;
    disjoint = b.disjoint;
    size_bound = b.size_bound;
    slots_bound = rw (length-set ms i m') b.slots_bound;
    held = λ j x g ox. elim (get_elem?-set ms i j m m' x e g) [
      | inl (p, q) ↦ rw q (block (subst (λ z. IsOwner z) q ox))
      | inr (p, q) ↦ b.held j x q ox
    ];
    apart = λ j k x z gx gz ox oz ne. elim (get_elem?-set ms i j m m' x e gx) [
      | inl (p, q) ↦ elim (get_elem?-set ms i k m m' z e gz) [
        | inl (p', q') ↦ absurd (ne (sym p ∙ p'))
        | inr (p', q') ↦ λ same.
            other (subst (λ w. IsOwner w) q ox) k z q' oz (sym same ∙ ap (λ w. w.buffer_idx) q)
      ]
      | inr (p, q) ↦ elim (get_elem?-set ms i k m m' z e gz) [
        | inl (p', q') ↦
            λ same. other (subst (λ w. IsOwner w) q' oz) j x q ox (same ∙ ap (λ w. w.buffer_idx) q')
        | inr (p', q') ↦ b.apart j k x z q q' ox oz ne
      ]
    ];
  }
    where
      cost_m : cost m ≡ 0
      cost_m = rw vacant

      was : vacancy m ≡ 1
      was = rw vacant

      now : vacancy m' ≡ 0
      now = ground arith
