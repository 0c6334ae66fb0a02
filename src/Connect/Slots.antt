-- ===== src/Connect/Slots.antt =====
-- The slot of a process that leaves.
use kogmo_rtdb.Base.{
  ℕ, zero, suc, ◌+◌, ◌<◌, ◌≡◌, ◌≢◌, refl, sym, ◌∙◌, arith, true, ◌==◌, List, [], ◌∷◌, some, set,
  get_elem?, Bool-cases, inl, inr,
}
use kogmo_rtdb.Procs.{Process, empty_process}
use kogmo_rtdb.Memory.{inc_32}
use kogmo_rtdb.ProcTable.{free_slots}
use kogmo_rtdb.ProcTable.Slots.{free_count, AllIn, Unused, Unused-set, free_slots-Unused}

-- A process leaves the slot that it has.
pub free_count-empty :
    (ps : List Process) (k : ℕ) (q : Process)
    → get_elem? ps k ≡ some q
    → q.proc_oid ≢ 0
    → free_count (set ps k empty_process) ≡ free_count ps + 1
free_count-empty [] k q e used = ground arith
free_count-empty (x ∷ xs) zero q e used = ground arith
free_count-empty (x ∷ xs) (suc k) q e used = omega (arith, free_count-empty xs k q e used)

pub AllIn-empty :
    (next : ℕ) (ps : List Process) (k : ℕ)
    → 0 < next
    → AllIn next ps
    → AllIn next (set ps k empty_process)
AllIn-empty next [] k pos a = tt
AllIn-empty next (x ∷ xs) zero pos a = (pos, (λ used. absurd (used refl)), (λ z. refl), a.3)
AllIn-empty next (x ∷ xs) (suc k) pos a = (
  a.0,
  (λ used. Unused-set x.proc_oid xs k empty_process (a.1 used) (λ e. used (sym e))),
  a.2,
  AllIn-empty next xs k pos a.3,
)

Unused-get :
    (oid : ℕ) (ps : List Process) (k : ℕ) (q : Process)
    → Unused oid ps
    → get_elem? ps k ≡ some q
    → q.proc_oid ≢ oid
Unused-get oid [] k q u e = ground arith
Unused-get oid (x ∷ xs) zero q u e = ground (arith, u.0)
Unused-get oid (x ∷ xs) (suc k) q u e = Unused-get oid xs k q u.1 e

-- The loop over all slots empties the slot of the process, and no other.
pub free_slots-get :
    (next oid : ℕ) (ps : List Process) (k free : ℕ) (q : Process)
    → AllIn next ps
    → get_elem? ps k ≡ some q
    → q.proc_oid ≡ oid
    → oid ≢ 0
    → free_slots oid ps free ≡ (set ps k empty_process, inc_32 free)
unfolding free_slots
free_slots-get next oid [] k free q a e is used = ground arith
free_slots-get next oid (x ∷ xs) zero free q a e is used =
    let here : x.proc_oid ≡ oid = ground arith in
    let hit : (x.proc_oid == oid) ≡ true = ground arith in
    let others : Unused oid xs = rw (sym here) (a.1 (λ z. used (sym here ∙ z))) in
    rw (hit, free_slots-Unused oid xs (inc_32 free) others) refl
free_slots-get next oid (x ∷ xs) (suc k) free q a e is used =
    elim (Bool-cases (x.proc_oid == oid)) [
      | inr other ↦ rw (other, free_slots-get next oid xs k free q a.3 e is used) refl
      | inl same ↦
          let is_oid : x.proc_oid ≡ oid = ground arith in
          absurd
            (Unused-get x.proc_oid xs k q (a.1 (λ z. used (sym is_oid ∙ z))) e (is ∙ sym is_oid))
    ]
