-- ===== src/ProcTable/Slots.antt =====
-- The slots of processes: which are free, and how many.
use kogmo_rtdb.Base.{
  ℕ, zero, suc, ◌+◌, ◌≤◌, ◌<◌, ◌≡◌, ◌≢◌, refl, sym, ap, ◌∙◌, arith, true, false, ◌==◌,
  if◌then◌else◌, List, [], ◌∷◌, none, some, set, get_elem?, length, Bool-cases, inl, inr,
}
use kogmo_rtdb.Procs.{Process, empty_process}
use kogmo_rtdb.Memory.{inc_32}
use kogmo_rtdb.ProcTable.{find_slot, free_slots}

abbrev pub free_count : List Process → ℕ
free_count [] = 0
free_count (p ∷ ps) = (if p.proc_oid == 0 then 1 else 0) + free_count ps

-- No process has this id.
abbrev pub Unused : ℕ → List Process → Type 0
Unused oid [] = Unit
Unused oid (p ∷ ps) = (p.proc_oid ≢ oid) × Unused oid ps

-- All ids are below `next`, no two processes have the same, and a free slot is clear.
abbrev pub AllIn : ℕ → List Process → Type 0
AllIn next [] = Unit
AllIn next (p ∷ ps) =
    (p.proc_oid < next)
    × (p.proc_oid ≢ 0 → Unused p.proc_oid ps)
    × (p.proc_oid ≡ 0 → p ≡ empty_process)
    × AllIn next ps

pub free_count-le : (ps : List Process) → free_count ps ≤ length ps
free_count-le [] = omega arith
free_count-le (p ∷ ps) = ground (arith, free_count-le ps)

pub Unused-AllIn : (next : ℕ) (ps : List Process) → AllIn next ps → Unused next ps
Unused-AllIn next [] a = tt
Unused-AllIn next (p ∷ ps) a = ((λ e. omega (arith, a.0)), Unused-AllIn next ps a.3)

AllIn_mono : (next : ℕ) (ps : List Process) → AllIn next ps → AllIn (next + 1) ps
AllIn_mono next [] a = tt
AllIn_mono next (p ∷ ps) a = (omega (arith, a.0), a.1, a.2, AllIn_mono next ps a.3)

pub Unused-set :
    (oid : ℕ) (ps : List Process) (k : ℕ) (p : Process)
    → Unused oid ps
    → p.proc_oid ≢ oid
    → Unused oid (set ps k p)
Unused-set oid [] k p u ne = tt
Unused-set oid (q ∷ qs) zero p u ne = (ne, u.1)
Unused-set oid (q ∷ qs) (suc k) p u ne = (u.0, Unused-set oid qs k p u.1 ne)

-- What the search for a free slot finds, if anything.
pub find_slot-none : (ps : List Process) (i : ℕ) → find_slot ps i ≡ none → free_count ps ≡ 0
unfolding find_slot
find_slot-none [] i e = refl
find_slot-none (p ∷ ps) i e = ground (arith, find_slot-none ps (suc i))

pub find_slot-some :
    (ps : List Process) (i j : ℕ)
    → find_slot ps i ≡ some j
    → (k : ℕ) × (p : Process) × (j ≡ i + k) × (get_elem? ps k ≡ some p) × (p.proc_oid ≡ 0)
unfolding find_slot
find_slot-some [] i j e = ground arith
find_slot-some (p ∷ ps) i j e = elim (Bool-cases (p.proc_oid == 0)) [
  | inl here ↦ (0, p, ground arith, refl, ground arith)
  | inr there ↦
      let (k, q, at, found, free) = find_slot-some ps (suc i) j (ground arith) in
      (suc k, q, omega arith, found, free)
]

-- A process enters a free slot.
pub free_count-set :
    (ps : List Process) (k : ℕ) (q p : Process)
    → get_elem? ps k ≡ some q
    → q.proc_oid ≡ 0
    → p.proc_oid ≢ 0
    → free_count (set ps k p) + 1 ≡ free_count ps
free_count-set [] k q p e free used = ground arith
free_count-set (x ∷ xs) zero q p e free used = ground arith
free_count-set (x ∷ xs) (suc k) q p e free used = omega (arith, free_count-set xs k q p e free used)

pub AllIn-set :
    (next : ℕ) (ps : List Process) (k : ℕ) (p : Process)
    → AllIn next ps
    → p.proc_oid ≡ next
    → 0 < next
    → AllIn (next + 1) (set ps k p)
AllIn-set next [] k p a is pos = tt
AllIn-set next (q ∷ qs) zero p a is pos = (
  omega arith,
  (λ _. rw is (Unused-AllIn next qs a.3)),
  (λ z. absurd (omega arith)),
  AllIn_mono next qs a.3,
)
AllIn-set next (q ∷ qs) (suc k) p a is pos = (
  omega (arith, a.0),
  (λ used. Unused-set q.proc_oid qs k p (a.1 used) (λ e. omega (arith, a.0))),
  a.2,
  AllIn-set next qs k p a.3 is pos,
)

-- Freeing an id that nobody has changes nothing.
pub free_slots-Unused :
    (oid : ℕ) (ps : List Process) (free : ℕ) → Unused oid ps → free_slots oid ps free ≡ (ps, free)
unfolding free_slots
free_slots-Unused oid [] free u = refl
free_slots-Unused oid (p ∷ ps) free u =
    let other : (p.proc_oid == oid) ≡ false = ground (arith, u.0) in
    rw (other, free_slots-Unused oid ps free u.1) refl

-- Freeing the id of the process that entered slot `k` makes the slot what it was.
pub free_slots-set :
    (next : ℕ) (ps : List Process) (k free : ℕ) (q p : Process)
    → AllIn next ps
    → get_elem? ps k ≡ some q
    → q.proc_oid ≡ 0
    → p.proc_oid ≡ next
    → free_slots next (set ps k p) free ≡ (ps, inc_32 free)
unfolding free_slots
free_slots-set next [] k free q p a e vacant is = ground arith
free_slots-set next (x ∷ xs) zero free q p a e vacant is =
    let same : x ≡ q = ground arith in
    let clear : x ≡ empty_process = a.2 (ap (λ z. z.proc_oid) same ∙ vacant) in
    let hit : (p.proc_oid == next) ≡ true = ground arith in
    rw (hit, free_slots-Unused next xs (inc_32 free) (Unused-AllIn next xs a.3))
      (ap (λ z. (z ∷ xs, inc_32 free)) (sym clear))
free_slots-set next (x ∷ xs) (suc k) free q p a e vacant is =
    let other : (x.proc_oid == next) ≡ false = ground (arith, a.0) in
    rw (other, free_slots-set next xs k free q p a.3 e vacant is) refl
