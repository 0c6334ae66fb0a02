-- ===== src/ProcTable/Sessions.antt =====
-- Sessions: what connecting and leaving do to the table of processes.
use kogmo_rtdb.Base.{
  ℕ, zero, suc, ◌+◌, ◌%◌, ◌^◌, ◌<◌, ◌≡◌, ◌⊎◌, refl, sym, ap, ◌∙◌, arith, false, ◌==◌, some, set,
  get_elem?, length, length-set, replicate, inl, inr, Option-cases,
}
use kogmo_rtdb.Types.{LocalData, ok, err, Err}
use kogmo_rtdb.Memory.{inc_32, dec_32}
use kogmo_rtdb.Procs.{Process, Shm, empty_process}
use kogmo_rtdb.ProcTable.{proc_max, manager_bit, has_flag, init_shm, find_slot, connect, disconnect}
use kogmo_rtdb.ProcTable.Slots.{
  AllIn, free_count, free_count-le, free_count-set, AllIn-set, find_slot-none, find_slot-some,
  free_slots-set,
}

-- The table of processes is in order.
pub record IsTable (s : Shm) : Type 0 where
  pub counted : s.proc_free ≡ free_count s.proc
  pub ids : AllIn s.proc_oid_next s.proc
  pub started : 1 < s.proc_oid_next
  pub short : length s.proc < 2 ^ 31

-- A free slot takes the process in.
pub record Entered (s : Shm) (p : Process) (k : ℕ) : Type 0 where
  pub vacant : Process
  pub at_slot : get_elem? s.proc k ≡ some vacant
  pub free : vacant.proc_oid ≡ 0
  pub result : connect s p ≡ (
    ok s.proc_oid_next,
    record s {
      proc_oid_next = s.proc_oid_next + 1;
      proc_free = dec_32 s.proc_free;
      proc = set s.proc k (record p { proc_oid = s.proc_oid_next });
    },
  )

connect-cases :
    (s : Shm) (p : Process)
    → s.proc_oid_next < 2 ^ 31
    → (connect s p ≡ (err Err.outofobj, s)) × (free_count s.proc ≡ 0) ⊎ ((k : ℕ) × Entered s p k)
unfolding connect
connect-cases s p small = elim (Option-cases (find_slot s.proc 0)) [
  | inl full ↦ inl (rw (full, connect) refl, find_slot-none s.proc 0 full)
  | inr (j, found) ↦
      let (k, q, at, there, free) = find_slot-some s.proc 0 j found in
      let is_k : find_slot s.proc 0 ≡ some k = found ∙ ap some (omega arith) in
      let whole : s.proc_oid_next % 2 ^ 32 ≡ s.proc_oid_next = omega arith in
      let next : (s.proc_oid_next + 1) % 2 ^ 64 ≡ s.proc_oid_next + 1 = omega arith in
      inr (
        k,
        record {
          vacant = q;
          at_slot = there;
          free = free;
          result = rw (is_k, whole, next, connect) refl;
        },
      )
]

Entered-IsTable :
    (s : Shm) (p : Process) (k : ℕ)
    → IsTable s
    → Entered s p k
    → (0 < s.proc_free) × IsTable (connect s p).1
Entered-IsTable s p k t e =
    let q : Process = record p { proc_oid = s.proc_oid_next } in
    let fewer : free_count (set s.proc k q) + 1 ≡ free_count s.proc =
      free_count-set s.proc k e.vacant q e.at_slot e.free (λ z. omega (arith, t.started)) in
    (
      omega (arith, t.counted, fewer),
      rw e.result (record {
        counted = omega (arith, t.counted, fewer, t.short, free_count-le s.proc);
        ids = AllIn-set s.proc_oid_next s.proc k q t.ids refl (omega (arith, t.started));
        started = omega (arith, t.started);
        short = rw (length-set s.proc k q) t.short;
      }),
    )

-- A process that connects to a table in order is refused if and only if no slot is free, and then
-- the table stays as it is; otherwise it gets the next id, which no other process has, and one free
-- slot less is counted. The table is in order afterwards. Ids stay below 2 ^ 31.
pub connect_lem :
    (s : Shm) (p : Process)
    → IsTable s
    → s.proc_oid_next < 2 ^ 31
    → IsTable (connect s p).1
      × ((s.proc_free ≡ 0) × (connect s p ≡ (err Err.outofobj, s))
          ⊎ (0 < s.proc_free)
            × ((connect s p).0 ≡ ok s.proc_oid_next)
            × ((connect s p).1.proc_free + 1 ≡ s.proc_free)
            × ((connect s p).1.proc_oid_next ≡ s.proc_oid_next + 1))
connect_lem s p t small = elim (connect-cases s p small) [
  | inl (refused, full) ↦ (rw refused t, inl (omega (arith, t.counted), refused))
  | inr (k, e) ↦
      let (pos, after) = Entered-IsTable s p k t e in
      (
        after,
        inr (
          pos,
          ap (λ r. r.0) e.result,
          rw e.result (omega (arith, t.counted, t.short, free_count-le s.proc)),
          ap (λ r. r.1.proc_oid_next) e.result,
        ),
      )
]

-- A process that connects to a table in order and then leaves it leaves no trace but the counter of
-- ids: the slots and the number of free ones are as before. It is not the manager, and a slot was free.
pub disconnect-connect :
    (s : Shm) (p : Process)
    → IsTable s
    → s.proc_oid_next < 2 ^ 31
    → 0 < s.proc_free
    → has_flag p.flags manager_bit ≡ false
    → disconnect (connect s p).1 (record p { proc_oid = s.proc_oid_next })
      ≡ record s { proc_oid_next = s.proc_oid_next + 1 }
unfolding disconnect
disconnect-connect s p t small room client = elim (connect-cases s p small) [
  | inl (refused, full) ↦ absurd (omega (arith, t.counted, full))
  | inr (k, e) ↦
      let q : Process = record p { proc_oid = s.proc_oid_next } in
      let known : (s.proc_oid_next == 0) ≡ false = ground (arith, t.started) in
      let counted_back : inc_32 (dec_32 s.proc_free) ≡ s.proc_free =
        omega (arith, t.counted, t.short, free_count-le s.proc) in
      rw
        (
          ap (λ r. r.1) e.result,
          client,
          known,
          free_slots-set s.proc_oid_next s.proc k (dec_32 s.proc_free) e.vacant q t.ids e.at_slot
              e.free refl,
          counted_back,
        )
        refl
]

AllIn-replicate : (n next : ℕ) → 0 < next → AllIn next (replicate n empty_process)
AllIn-replicate zero next h = tt
AllIn-replicate (suc n) next h =
    (h, (λ used. absurd (used refl)), (λ z. refl), AllIn-replicate n next h)

free_count-replicate : (n : ℕ) → free_count (replicate n empty_process) ≡ n
free_count-replicate zero = refl
free_count-replicate (suc n) = omega (arith, free_count-replicate n)

length-replicate : (n : ℕ) → length (replicate n empty_process) ≡ n
length-replicate zero = refl
length-replicate (suc n) = ap suc (length-replicate n)

-- The table that the manager sets up is in order.
pub init_shm-IsTable :
    (revision pid data_size : ℕ) (cleared : LocalData)
    → IsTable (init_shm revision pid data_size cleared)
unfolding init_shm
init_shm-IsTable revision pid data_size cleared = record {
  counted = sym (free_count-replicate proc_max);
  ids = AllIn-replicate proc_max 2 (omega arith);
  started = omega arith;
  short = omega (arith, length-replicate proc_max);
}
