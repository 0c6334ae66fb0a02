-- ===== src/System/Left.antt =====
-- What the table of processes and the objects are after processes have left or have been removed.
use kogmo_rtdb.Base.{
  ℕ, suc, ◌+◌, ◌^◌, ◌<◌, ◌≡◌, ◌≢◌, ◌⊎◌, refl, sym, ap, ◌∙◌, arith, Bool, false, ◌==◌, List, [], ◌∷◌,
  some, set, get_elem?, length, length-set, map, inl, inr, Bool-cases, Option-cases, subst,
}
use mathlib.Core.Option.{some-injective, none-ne-some}
use kogmo_rtdb.Types.{LocalData, Handle}
use kogmo_rtdb.Floats.{FloatOps}
use kogmo_rtdb.Memory.{Allocator, inc_32}
use kogmo_rtdb.Search.{IdList}
use kogmo_rtdb.Remove.{delete_imm}
use kogmo_rtdb.Remove.Cases.{AllIds}
use kogmo_rtdb.Procs.{
  Process, Shm, empty_process, is_dead, is_persistent, immediately_delete, objects_of,
  delete_objects, purge_procs_loop,
}
use kogmo_rtdb.Procs.Purged.{objects_of-AllIds, buried, dead_slots}
use kogmo_rtdb.ProcTable.{disconnect, manager_bit, has_flag}
use kogmo_rtdb.ProcTable.Slots.{free_count, free_count-le, Unused, free_slots-Unused}
use kogmo_rtdb.ProcTable.Sessions.{IsTable}
use kogmo_rtdb.Connect.Slots.{free_count-empty, AllIn-empty, free_slots-get}
use kogmo_rtdb.System.{Reachable, deletes, goes_on}

-- An id is in no slot, or in one.
Unused-cases :
    (oid : ℕ) (ps : List Process)
    → Unused oid ps ⊎ ((k : ℕ) × (q : Process) × (get_elem? ps k ≡ some q) × (q.proc_oid ≡ oid))
Unused-cases oid [] = inl tt
Unused-cases oid (p ∷ ps) = elim (Bool-cases (p.proc_oid == oid)) [
  | inl hit ↦ inr (0, p, refl, ground arith)
  | inr miss ↦ elim (Unused-cases oid ps) [
    | inl none_there ↦ inl (ground arith, none_there)
    | inr (k, q, at_k, is_oid) ↦ inr (suc k, q, at_k, is_oid)
  ]
]

-- A process that is not the manager leaves the table in order, whether it is in it or not.
pub disconnect-IsTable :
    (s : Shm) (p : Process)
    → IsTable s
    → has_flag p.flags manager_bit ≡ false
    → IsTable (disconnect s p)
unfolding disconnect
disconnect-IsTable s p t client = elim (Bool-cases (p.proc_oid == 0)) [
  | inl unknown ↦ rw (client, unknown) t
  | inr known ↦ elim (Unused-cases p.proc_oid s.proc) [
    | inl absent ↦
        rw (client, known, free_slots-Unused p.proc_oid s.proc s.proc_free absent)
          (record { counted = t.counted; ids = t.ids; started = t.started; short = t.short })
    | inr (k, q, at_k, is_oid) ↦
        let used : p.proc_oid ≢ 0 = λ z. ground arith in
        let freed = free_count-empty s.proc k q at_k (λ z. used (sym is_oid ∙ z)) in
        let count : inc_32 s.proc_free ≡ free_count (set s.proc k empty_process) = omega (
          arith,
          t.counted,
          freed,
          free_count-le (set s.proc k empty_process),
          t.short,
          length-set s.proc k empty_process,
        ) in
        rw
          (
            client,
            known,
            free_slots-get s.proc_oid_next p.proc_oid s.proc k s.proc_free q t.ids at_k is_oid used,
          )
          (record {
            counted = count;
            ids = AllIn-empty s.proc_oid_next s.proc k (omega (arith, t.started)) t.ids;
            started = t.started;
            short = rw (length-set s.proc k empty_process) t.short;
          })
  ]
]

pub localdata-disconnect : (s : Shm) (p : Process) → (disconnect s p).localdata ≡ s.localdata
unfolding disconnect
localdata-disconnect s p = elim (Bool-cases (has_flag p.flags manager_bit)) [
  | inl manager ↦ rw manager refl
  | inr client ↦ elim (Bool-cases (p.proc_oid == 0)) [
    | inl unknown ↦ rw (client, unknown) refl
    | inr known ↦ rw (client, known) refl
  ]
]

-- The loop over the objects of a process is a sequence of deletions.
module _ (fl : FloatOps) (al : Allocator) (refusals : Bool) (n : ℕ) (h : Handle) (now : ℕ)
    (stray : ℕ → ℕ) (stack : IdList) where
  pub delete_objects-Reachable :
      (f : ℕ) (imm : Bool) (cs : List ℕ) (db d : LocalData)
      → AllIds cs
      → Reachable fl al refusals n db
      → delete_objects h now stray stack f imm cs db ≡ some d
      → Reachable fl al refusals n d
  unfolding delete_objects
  delete_objects-Reachable f imm [] db d all r e =
      subst (λ z. Reachable fl al refusals n z) (some-injective db d e) r
  delete_objects-Reachable f imm (c ∷ cs) db d all r e = elim (Bool-cases (is_persistent db c)) [
    | inl stays ↦ delete_objects-Reachable f imm cs db d all.1 r (rw (stays, delete_objects) at e)
    | inr goes ↦ elim (Option-cases (delete_imm h now stray stack f db c imm)) [
      | inl out ↦ absurd (none-ne-some d (rw (goes, out, delete_objects) at e))
      | inr (q, done) ↦
          delete_objects-Reachable f imm cs q.1 d all.1
            (goes_on r (deletes h now stray stack f c imm q all.0 done))
            (rw (goes, done, delete_objects) at e)
    ]
  ]

  -- What the removal of dead processes makes of their slots, of the count of free ones, and of the
  -- objects.
  pub purge_procs_loop-Reachable :
      (dead : ℕ → Bool) (f : ℕ) (ps : List Process) (free : ℕ) (db : LocalData)
      (r : List Process × ℕ × LocalData)
      → Reachable fl al refusals n db
      → free + length ps < 2 ^ 32
      → purge_procs_loop h now stray stack dead f ps free db ≡ some r
      → (r.0 ≡ map (buried dead) ps)
        × (r.1 ≡ free + dead_slots dead ps)
        × Reachable fl al refusals n r.2
  unfolding purge_procs_loop
  purge_procs_loop-Reachable dead f [] free db r ok_db small e =
      subst (λ z. (z.0 ≡ []) × (z.1 ≡ free + 0) × Reachable fl al refusals n z.2)
        (some-injective _ r e) (refl, omega arith, ok_db)
  purge_procs_loop-Reachable dead f (p ∷ ps) free db r ok_db small e =
      elim (Bool-cases (is_dead dead p)) [
        | inr lives ↦ elim (Option-cases (purge_procs_loop h now stray stack dead f ps free db)) [
          | inl out ↦ absurd (none-ne-some r (rw (lives, out, purge_procs_loop) at e))
          | inr (q, done) ↦
              let (slots, count, reach) =
                purge_procs_loop-Reachable dead f ps free db q ok_db (omega arith) done in
              subst
                (λ z.
                  (z.0 ≡ map (buried dead) (p ∷ ps))
                  × (z.1 ≡ free + dead_slots dead (p ∷ ps))
                  × Reachable fl al refusals n z.2)
                (some-injective (p ∷ q.0, q.1, q.2) r (rw (lives, done, purge_procs_loop) at e))
                (rw lives (ap (◌∷◌ p) slots), rw lives (omega (arith, count)), reach)
        ]
        | inl gone ↦
            elim (Option-cases (
              delete_objects h now stray stack f (immediately_delete p)
                (objects_of db stack p.proc_oid) db)) [
                  | inl out ↦ absurd (none-ne-some r (rw (gone, out, purge_procs_loop) at e))
                  | inr (d, emptied) ↦
                      let ok_d =
                        delete_objects-Reachable f (immediately_delete p)
                          (objects_of db stack p.proc_oid) db d
                          (objects_of-AllIds db stack p.proc_oid) ok_db emptied in
                      let counted : inc_32 free ≡ free + 1 = omega arith in
                      elim (Option-cases
                        (purge_procs_loop h now stray stack dead f ps (free + 1) d)) [
                          | inl out ↦ absurd (
                              none-ne-some r
                                (rw (gone, emptied, counted, out, purge_procs_loop) at e))
                          | inr (q, done) ↦
                              let (slots, count, reach) =
                                purge_procs_loop-Reachable dead f ps (free + 1) d q ok_d
                                  (omega arith) done in
                              subst
                                (λ z.
                                  (z.0 ≡ map (buried dead) (p ∷ ps))
                                  × (z.1 ≡ free + dead_slots dead (p ∷ ps))
                                  × Reachable fl al refusals n z.2)
                                (some-injective (empty_process ∷ q.0, q.1, q.2) r
                                  (rw (gone, emptied, counted, done, purge_procs_loop) at e))
                                (
                                  rw gone (ap (◌∷◌ empty_process) slots),
                                  rw gone (omega (arith, count)),
                                  reach,
                                )
                        ]
                ]
      ]
