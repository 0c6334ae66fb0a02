-- ===== src/Read/ByTime.antt =====
-- What the read modes mean for a history whose blocks grow older along it.
use kogmo_rtdb.Base.{
  ℕ, ◌≤◌, ◌<◌, ◌≡◌, ◌⊎◌, inl, inr, refl, sym, arith, true, false, List, [], ◌∷◌, some, Bool-cases,
  ltb, Option, subst,
}
use kogmo_rtdb.Types.{LocalData, Handle, ObjInfo, Block, Result, ok, err, Err}
use kogmo_rtdb.Meta.{findmeta_byid, may_read}
use kogmo_rtdb.History.Ring.{history, HasRing}
use kogmo_rtdb.Read.{Mode, find_block}
use kogmo_rtdb.Read.Loops.{first_old, last_young}
use kogmo_rtdb.Read.Refine.{wanted_of, wanted, find_block-history}

-- Every block that follows one with time `t` is older.
abbrev pub Older : (Block → ℕ) → ℕ → List Block → Type 0
Older time t [] = Unit {0}
Older time t (b ∷ bs) = (time b < t) × Older time (time b) bs

abbrev pub IsDecreasing : (Block → ℕ) → List Block → Type 0
IsDecreasing time [] = Unit {0}
IsDecreasing time (b ∷ bs) = Older time (time b) bs

abbrev pub IsIn : Block → List Block → Type 0
IsIn x [] = ⊥
IsIn x (b ∷ bs) = (x ≡ b) ⊎ IsIn x bs

-- `x` is a block of the history that is not newer than `ts`, and the newest such block.
pub record NewestUpTo (time : Block → ℕ) (ts : ℕ) (bs : List Block) (x : Block) : Type 0 where
  pub member : IsIn x bs
  pub up_to : time x ≤ ts
  pub newest : (y : Block) → IsIn y bs → time y ≤ ts → time y ≤ time x

-- `x` is a block of the history that is newer than `ts`, and the oldest such block.
pub record OldestAfter (time : Block → ℕ) (ts : ℕ) (bs : List Block) (x : Block) : Type 0 where
  pub member : IsIn x bs
  pub after : ts < time x
  pub oldest : (y : Block) → IsIn y bs → ts < time y → time x ≤ time y

module _ (time : Block → ℕ) where
  Older-le : (t : ℕ) (bs : List Block) (y : Block) → Older time t bs → IsIn y bs → time y < t
  Older-le t [] y o i = elim i [ ]
  Older-le t (b ∷ bs) y o (inl e) = rw e o.0
  Older-le t (b ∷ bs) y o (inr i) =
      let p = Older-le (time b) bs y o.1 i in let q = o.0 in omega arith

  Older-IsDecreasing : (t : ℕ) (bs : List Block) → Older time t bs → IsDecreasing time bs
  Older-IsDecreasing t [] o = tt
  Older-IsDecreasing t (b ∷ bs) o = o.1

  IsIn-le :
      (b : Block) (bs : List Block) (y : Block)
      → IsDecreasing time (b ∷ bs)
      → IsIn y (b ∷ bs)
      → time y ≤ time b
  IsIn-le b bs y d (inl e) = rw e (omega arith)
  IsIn-le b bs y d (inr i) = let p = Older-le (time b) bs y d i in omega arith

  newer_head :
      (ts : ℕ) (b : Block) (bs : List Block) (x y : Block)
      → ltb ts (time b) ≡ true
      → NewestUpTo time ts bs x
      → IsIn y (b ∷ bs)
      → time y ≤ ts
      → time y ≤ time x
  newer_head ts b bs x y new r (inl e) le =
      let p : time b ≤ ts = rw (← e) le in absurd (ground arith)
  newer_head ts b bs x y new r (inr i) le = r.newest y i le

  pub first_old-NewestUpTo :
      (ts : ℕ) (bs : List Block) (x : Block)
      → IsDecreasing time bs
      → first_old (λ b. ltb ts (time b)) bs ≡ ok x
      → NewestUpTo time ts bs x
  first_old-NewestUpTo ts [] x d e = ground arith
  first_old-NewestUpTo ts (b ∷ bs) x d e = elim (Bool-cases (ltb ts (time b))) [
    | inr old ↦
        let hit : b ≡ x = ground arith in
        record {
          member = inl (sym hit);
          up_to = rw (← hit) (ground arith);
          newest = λ y i le. rw (← hit) (IsIn-le b bs y d i);
        }
    | inl new ↦
        let r = first_old-NewestUpTo ts bs x (Older-IsDecreasing (time b) bs d) (rw (new) at e) in
        record {
          member = inr r.member;
          up_to = r.up_to;
          newest = λ y i le. newer_head ts b bs x y new r i le;
        }
  ]

  -- No block is old enough.
  pub first_old-none :
      (ts : ℕ) (bs : List Block) (y : Block)
      → first_old (λ b. ltb ts (time b)) bs ≡ err Err.notfound
      → IsIn y bs
      → ts < time y
  first_old-none ts [] y e i = elim i [ ]
  first_old-none ts (b ∷ bs) y e (inl h) = rw h (ground arith)
  first_old-none ts (b ∷ bs) y e (inr i) = first_old-none ts bs y (ground arith) i

  older_head :
      (ts : ℕ) (b x : Block) (bs : List Block) (z : Block)
      → time x < time b
      → ts < time x
      → OldestAfter time ts (x ∷ bs) z
      → (y : Block) → IsIn y (b ∷ x ∷ bs)
      → ts < time y
      → time z ≤ time y
  older_head ts b x bs z lt late r y (inl e) p =
      let q = r.oldest x (inl refl) late in rw e (omega arith)
  older_head ts b x bs z lt late r y (inr i) p = r.oldest y i p

  only_head :
      (ts : ℕ) (b x : Block) (bs : List Block)
      → IsDecreasing time (b ∷ x ∷ bs)
      → ltb ts (time x) ≡ false
      → (y : Block) → IsIn y (b ∷ x ∷ bs)
      → ts < time y
      → time b ≤ time y
  only_head ts b x bs d stop y (inl e) p = rw e (omega arith)
  only_head ts b x bs d stop y (inr i) p = let q = IsIn-le x bs y d.1 i in absurd (ground arith)

  pub last_young-OldestAfter :
      (ts : ℕ) (b : Block) (bs : List Block)
      → IsDecreasing time (b ∷ bs)
      → ts < time b
      → OldestAfter time ts (b ∷ bs) (last_young (λ x. ltb ts (time x)) b bs)
  last_young-OldestAfter ts b [] d h = record {
    member = inl refl;
    after = h;
    oldest = λ y i p. elim i [ inl e ↦ rw e (omega arith) | inr n ↦ elim n [ ] ];
  }
  last_young-OldestAfter ts b (x ∷ bs) d h = elim (Bool-cases (ltb ts (time x))) [
    | inl more ↦ rw more (
        let r = last_young-OldestAfter ts x bs d.1 (ground arith) in
        record {
          member = inr r.member;
          after = r.after;
          oldest = older_head ts b x bs _ d.0 (ground arith) r;
        })
    | inr stop ↦
        rw stop (record { member = inl refl; after = h; oldest = only_head ts b x bs d stop })
  ]

some_inj : {a b : Result Block} → some a ≡ some b → a ≡ b
some_inj e = cc

wanted_last :
    (m : ObjInfo) (ts : ℕ) (bs : List Block)
    → 0 < ts
    → wanted_of m Mode.last ts bs ≡ first_old (λ b. ltb ts b.committed_ts) bs
unfolding wanted_of wanted
wanted_last m ts [] p = refl
wanted_last m ts (b ∷ bs) p = ground arith

-- A read for the time `ts` finds the block that was the latest at that time; if it reports "not
-- found", every block of the history is younger. The history's commit times decrease.
pub find_block-last :
    (f : ℕ) (h : Handle) (db : LocalData) (oid ts i k : ℕ) (m : ObjInfo)
    → findmeta_byid db oid ≡ some (i, m)
    → HasRing m k
    → may_read h m ≡ true
    → m.history_size ≤ f
    → 0 < ts
    → IsDecreasing (λ b. b.committed_ts) (history db m)
    → ((x : Block)
        → find_block f h db Mode.last oid ts ≡ some (ok x)
        → NewestUpTo (λ b. b.committed_ts) ts (history db m) x)
      × (find_block f h db Mode.last oid ts ≡ some (err Err.notfound)
          → (y : Block) → IsIn y (history db m)
          → ts < y.committed_ts)
find_block-last f h db oid ts i k m found ring may fuel p d =
    rw
      (
        find_block-history f h db Mode.last oid ts i k m found ring may fuel,
        wanted_last m ts (history db m) p,
      )
      (
        λ x e. first_old-NewestUpTo (λ b. b.committed_ts) ts (history db m) x d (some_inj e),
        λ e y i. first_old-none (λ b. b.committed_ts) ts (history db m) y (some_inj e) i,
      )

-- What a read for younger data answers: the oldest block that is newer than `ts`, or "not found", if
-- no block is newer.
abbrev pub YoungerAnswer : ℕ → List Block → Option (Result Block) → Type 0
YoungerAnswer ts bs a =
    ((x : Block) × (a ≡ some (ok x)) × OldestAfter (λ b. b.committed_ts) ts bs x)
    ⊎ (a ≡ some (err Err.notfound)) × ((y : Block) → IsIn y bs → y.committed_ts ≤ ts)

wanted_younger :
    (m : ObjInfo) (ts : ℕ) (bs : List Block)
    → IsDecreasing (λ b. b.committed_ts) bs
    → YoungerAnswer ts bs (some (wanted_of m Mode.younger ts bs))
unfolding wanted_of wanted
wanted_younger m ts [] d = inr (refl, λ y i. elim i [ ])
wanted_younger m ts (b ∷ bs) d = elim (Bool-cases (ltb ts b.committed_ts)) [
  | inl new ↦ inl (
    last_young (λ y. ltb ts y.committed_ts) b bs,
    ground (arith, new),
    last_young-OldestAfter (λ y. y.committed_ts) ts b bs d (ground (arith, new)),
  )
  | inr old ↦ inr (
    ground (arith, old),
    λ y i. let le = IsIn-le (λ z. z.committed_ts) b bs y d i in ground (arith, le, old),
  )
]

-- A read for data younger than `ts` finds the oldest block of the history that was committed after
-- `ts`, and reports "not found" only if no block was. The history's commit times decrease.
pub find_block-younger :
    (f : ℕ) (h : Handle) (db : LocalData) (oid ts i k : ℕ) (m : ObjInfo)
    → findmeta_byid db oid ≡ some (i, m)
    → HasRing m k
    → may_read h m ≡ true
    → m.history_size ≤ f
    → IsDecreasing (λ b. b.committed_ts) (history db m)
    → YoungerAnswer ts (history db m) (find_block f h db Mode.younger oid ts)
find_block-younger f h db oid ts i k m found ring may fuel d =
    subst (YoungerAnswer ts (history db m))
      (sym (find_block-history f h db Mode.younger oid ts i k m found ring may fuel))
      (wanted_younger m ts (history db m) d)
