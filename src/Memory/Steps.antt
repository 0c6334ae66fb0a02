-- ===== src/Memory/Steps.antt =====
-- The steps that keep the books: changes of metadata, the purge of a slot, an allocation.
use kogmo_rtdb.Base.{
  ℕ, ◌+◌, ◌-◌, ◌^◌, ◌<◌, ◌≡◌, ◌≢◌, refl, sym, ap, ◌∙◌, arith, List, some, set, get_elem?,
  length-set, inl, inr, subst,
}
use kogmo_rtdb.Types.{ObjInfo}
use kogmo_rtdb.Memory.{add_64, sub_64, inc_32, total, release}
use kogmo_rtdb.Memory.Balance.{
  HasBooks, IsOwner, cost, vacancy, vacancies, reserved-set, vacancies-set, ring_bytes,
  get_elem?-set, total-release, block_size-release, sub_64_lem, add_64_lem, vacancies-le,
  IsDisjoint-release,
}

module _ (ms : List ObjInfo) (i : ℕ) (m m' : ObjInfo) where
  -- An owner after a change of slot `i` was one before, with the same ring, if this holds at `i`.
  ring_before :
      (j : ℕ) (x : ObjInfo)
      → get_elem? ms i ≡ some m
      → (IsOwner m' → IsOwner m × (m.buffer_idx ≡ m'.buffer_idx) × (ring_bytes m ≡ ring_bytes m'))
      → get_elem? (set ms i m') j ≡ some x
      → IsOwner x
      → (y : ObjInfo) × (get_elem? ms j ≡ some y)
        × IsOwner y
        × (y.buffer_idx ≡ x.buffer_idx)
        × (ring_bytes y ≡ ring_bytes x)
  ring_before j x e keep g own = elim (get_elem?-set ms i j m m' x e g) [
    | inl (p, q) ↦
        let (o, u, r) = keep (subst (λ z. IsOwner z) q own) in
        (m, rw (sym p) e, o, u ∙ ap (λ z. z.buffer_idx) (sym q), r ∙ ap ring_bytes (sym q))
    | inr (p, q) ↦ (x, q, own, refl, refl)
  ]

  -- An owner after a change that leaves slot `i` without a ring.
  pub ring_elsewhere :
      (j : ℕ) (x : ObjInfo)
      → get_elem? ms i ≡ some m
      → ¬ IsOwner m'
      → get_elem? (set ms i m') j ≡ some x
      → IsOwner x
      → (i ≢ j) × (get_elem? ms j ≡ some x)
  ring_elsewhere j x e without g own = elim (get_elem?-set ms i j m m' x e g) [
    | inl (p, q) ↦ absurd (without (subst (λ z. IsOwner z) q own))
    | inr r ↦ r
  ]

module _ (extra : ℕ) (ms : List ObjInfo) (free hfree hused hsize : ℕ) (pool : List (ℕ × ℕ)) where
  -- A slot may change as long as it owns the same ring as before.
  pub books-change :
      (i : ℕ) (m m' : ObjInfo)
      → HasBooks extra ms free hfree hused hsize pool
      → get_elem? ms i ≡ some m
      → (IsOwner m' → IsOwner m × (m.buffer_idx ≡ m'.buffer_idx) × (ring_bytes m ≡ ring_bytes m'))
      → cost m' ≡ cost m
      → vacancy m' ≡ vacancy m
      → HasBooks extra (set ms i m') free hfree hused hsize pool
  books-change i m m' b e keep c v = record {
    slots = omega (arith, b.slots, v, vacancies-set ms i m m' e);
    used = omega (arith, b.used, c, reserved-set ms i m m' e);
    pooled = b.pooled;
    whole = b.whole;
    disjoint = b.disjoint;
    size_bound = b.size_bound;
    slots_bound = rw (length-set ms i m') b.slots_bound;
    held = λ j x g own.
        let (y, p, o, u, r) = ring_before ms i m m' j x e keep g own in
        rw (sym u) (b.held j y p o) ∙ ap some r;
    apart = λ j k x z gx gz ox oz ne.
        let (y, p, o, u, _) = ring_before ms i m m' j x e keep gx ox in
        let (y', p', o', u', _) = ring_before ms i m m' k z e keep gz oz in
        λ same. b.apart j k y y' p p' o o' ne (u ∙ same ∙ sym u');
  }

  -- A slot whose ring is freed.
  pub books-free :
      (i : ℕ) (m m' : ObjInfo)
      → HasBooks extra ms free hfree hused hsize pool
      → get_elem? ms i ≡ some m
      → IsOwner m
      → m'.oid ≡ 0
      → HasBooks extra
          (set ms i m')
          (inc_32 free)
          (add_64 hfree (ring_bytes m))
          (sub_64 hused (ring_bytes m))
          hsize
          (release m.buffer_idx pool)
  books-free i m m' b e own gone = record {
    slots = omega (arith, b.slots, b.slots_bound, vacant, vacant', vacancies-set ms i m m' e, more);
    used = less ∙ omega (arith, b.used, cost_m, cost_m', reserved-set ms i m m' e);
    pooled = omega (arith, parts, b.pooled) ∙ sym less;
    whole =
        ap (λ z. z + sub_64 hused (ring_bytes m))
          (add_64_lem hfree (ring_bytes m) (omega (arith, parts, b.pooled, b.whole, b.size_bound)))
        ∙ ap (λ z. hfree + ring_bytes m + z) less
        ∙ omega (arith, parts, b.pooled, b.whole);
    disjoint = IsDisjoint-release pool m.buffer_idx b.disjoint;
    size_bound = b.size_bound;
    slots_bound = rw (length-set ms i m') b.slots_bound;
    held = λ j x g ox.
        let (ne, q) = ring_elsewhere ms i m m' j x e (λ o. o.0 gone) g ox in
        block_size-release pool m.buffer_idx x.buffer_idx
          (b.apart j i x m q e ox own (λ r. ne (sym r)))
        ∙ b.held j x q ox;
    apart = λ j k x z gx gz ox oz ne.
        let (_, p) = ring_elsewhere ms i m m' j x e (λ o. o.0 gone) gx ox in
        let (_, q) = ring_elsewhere ms i m m' k z e (λ o. o.0 gone) gz oz in
        b.apart j k x z p q ox oz ne;
  }
    where
      parts : total (release m.buffer_idx pool) + ring_bytes m ≡ total pool
      parts = total-release pool m.buffer_idx (ring_bytes m) (b.held i m e own)

      less : sub_64 hused (ring_bytes m) ≡ hused - ring_bytes m
      less =
          sub_64_lem hused (ring_bytes m) (omega (arith, parts, b.pooled))
            (omega (arith, b.whole, b.size_bound))

      cost_m : cost m ≡ ring_bytes m
      cost_m = ground (arith, own)

      cost_m' : cost m' ≡ 0
      cost_m' = rw gone

      vacant : vacancy m ≡ 0
      vacant = ground (arith, own)

      vacant' : vacancy m' ≡ 1
      vacant' = rw gone

      more : vacancies (set ms i m') < 2 ^ 32
      more = omega (arith, vacancies-le (set ms i m'), length-set ms i m', b.slots_bound)
