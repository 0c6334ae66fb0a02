-- ===== src/System/Table.antt =====
-- In every shared memory that can come about, the table of processes is in order, and the objects are
-- as the operations on objects leave them.
use kogmo_rtdb.Base.{
  ℕ, suc, ◌+◌, ◌^◌, ◌<◌, ◌≡◌, ◌≢◌, refl, sym, ap, arith, Bool, false, ◌==◌, List, [], ◌∷◌, some,
  length, map, inl, inr, Bool-cases, Option-cases, subst,
}
use mathlib.Core.Option.{some-injective, none-ne-some}
use kogmo_rtdb.Types.{LocalData, Handle, err}
use kogmo_rtdb.Floats.{FloatOps}
use kogmo_rtdb.Memory.{Allocator}
use kogmo_rtdb.Search.{IdList}
use kogmo_rtdb.Remove.{delete_imm}
use kogmo_rtdb.Remove.Cases.{AllIds, Result-cases}
use kogmo_rtdb.Procs.{
  Process, Shm, is_dead, immediately_delete, delete_objects, purge_procs_loop, purge_procs,
}
use kogmo_rtdb.Procs.Purged.{objects_of-AllIds, buried, dead_slots}
use kogmo_rtdb.ProcTable.{manager_bit, has_flag}
use kogmo_rtdb.ProcTable.Slots.{free_count, free_count-le, AllIn, Unused}
use kogmo_rtdb.ProcTable.Sessions.{IsTable}
use kogmo_rtdb.Connect.{Session, Left, own_objects, trace_off, detach, rtdb_disconnect}
use kogmo_rtdb.Connect.Leave.{own_objects-ok}
use kogmo_rtdb.System.{Reachable, deletes, traces, goes_on}
use kogmo_rtdb.System.Left.{
  disconnect-IsTable, localdata-disconnect, delete_objects-Reachable, purge_procs_loop-Reachable,
}

Unused-buried :
    (dead : ℕ → Bool) (oid : ℕ) (ps : List Process)
    → oid ≢ 0
    → Unused oid ps
    → Unused oid (map (buried dead) ps)
Unused-buried dead oid [] used u = tt
Unused-buried dead oid (p ∷ ps) used u = elim (Bool-cases (is_dead dead p)) [
  | inl gone ↦ rw gone ((λ z. used (sym z)), Unused-buried dead oid ps used u.1)
  | inr there ↦ rw there (u.0, Unused-buried dead oid ps used u.1)
]

AllIn-buried :
    (dead : ℕ → Bool) (next : ℕ) (ps : List Process)
    → 0 < next
    → AllIn next ps
    → AllIn next (map (buried dead) ps)
AllIn-buried dead next [] pos a = tt
AllIn-buried dead next (p ∷ ps) pos a = elim (Bool-cases (is_dead dead p)) [
  | inl gone ↦
      rw gone (pos, (λ used. absurd (used refl)), (λ z. refl), AllIn-buried dead next ps pos a.3)
  | inr there ↦ rw there (
    a.0,
    (λ used. Unused-buried dead p.proc_oid ps used (a.1 used)),
    a.2,
    AllIn-buried dead next ps pos a.3,
  )
]

free_count-buried :
    (dead : ℕ → Bool) (ps : List Process)
    → free_count (map (buried dead) ps) ≡ free_count ps + dead_slots dead ps
unfolding is_dead
free_count-buried dead [] = refl
free_count-buried dead (p ∷ ps) = elim (Bool-cases (is_dead dead p)) [
  | inl gone ↦
      let used : (p.proc_oid == 0) ≡ false = ground arith in
      rw (gone, used) (omega (arith, free_count-buried dead ps))
  | inr there ↦ rw there (omega (arith, free_count-buried dead ps))
]

length-map : (dead : ℕ → Bool) (ps : List Process) → length (map (buried dead) ps) ≡ length ps
length-map dead [] = refl
length-map dead (p ∷ ps) = ap suc (length-map dead ps)

module _ (fl : FloatOps) (al : Allocator) (refusals : Bool) (n : ℕ) where
  abbrev pub InOrder : Shm → Type 0
  InOrder s = IsTable s × Reachable fl al refusals n s.localdata

  detach-InOrder :
      (s : Shm) (c : Session)
      → InOrder s
      → has_flag c.this_process.flags manager_bit ≡ false
      → InOrder (detach s c).shm
  unfolding detach
  detach-InOrder s c o client = elim (Bool-cases c.attached) [
    | inl there ↦ rw there (
      disconnect-IsTable s c.this_process o.0 client,
      subst (λ z. Reachable fl al refusals n z) (sym (localdata-disconnect s c.this_process)) o.1,
    )
    | inr gone ↦ rw gone o
  ]

  pub same-IsTable : (s : Shm) (d : LocalData) → IsTable s → IsTable (record s { localdata = d })
  same-IsTable s d t = record {
    counted = t.counted;
    ids = t.ids;
    started = t.started;
    short = t.short;
  }

  trace_off-Reachable :
      (c : Session) (d : LocalData)
      → Reachable fl al refusals n d
      → Reachable fl al refusals n (trace_off c d)
  trace_off-Reachable c d r = elim (Bool-cases c.rxtracing) [
    | inl on ↦ rw on (goes_on r (traces 0))
    | inr off ↦ rw off r
  ]

  pub rtdb_disconnect-InOrder :
      (now : ℕ) (stray : ℕ → ℕ) (stack : IdList) (f : ℕ) (s : Shm) (c : Session) (l : Left)
      → InOrder s
      → has_flag c.this_process.flags manager_bit ≡ false
      → rtdb_disconnect now stray stack f s c ≡ some l
      → InOrder l.shm
  unfolding rtdb_disconnect
  rtdb_disconnect-InOrder now stray stack f s c l o client e =
      let imm = immediately_delete c.this_process in
      elim (Bool-cases (c.procobjmeta_oid == 0)) [
        | inl unknown ↦
            subst (λ z. InOrder z.shm)
              (some-injective (detach s c) l (rw (unknown, rtdb_disconnect) at e))
              (detach-InOrder s c o client)
        | inr known ↦ elim (Result-cases (own_objects s.localdata stack c.handle.proc_oid)) [
          | inl (x, fails) ↦
              subst (λ z. InOrder z.shm)
                (some-injective (record { code = err x; shm = s; session = c }) l
                  (rw (known, fails, rtdb_disconnect) at e))
                o
          | inr (cs, found) ↦
              elim (Option-cases (delete_objects c.handle now stray stack f imm cs s.localdata)) [
                | inl out ↦ absurd (none-ne-some l (rw (known, found, out, rtdb_disconnect) at e))
                | inr (d, emptied) ↦
                    elim (Option-cases
                      (delete_imm c.handle now stray stack f d c.procobjmeta_oid imm)) [
                        | inl out ↦
                            absurd (
                              none-ne-some l
                                (rw (known, found, emptied, out, rtdb_disconnect) at e))
                        | inr (r, gone) ↦
                            let listed =
                              own_objects-ok s.localdata stack c.handle.proc_oid cs found in
                            let all =
                              subst AllIds listed
                                (objects_of-AllIds s.localdata stack c.handle.proc_oid) in
                            let ok_d =
                              delete_objects-Reachable fl al refusals n c.handle now stray stack f
                                imm cs s.localdata d all o.1 emptied in
                            let ok_r = goes_on ok_d (
                              deletes c.handle now stray stack f c.procobjmeta_oid imm r
                                (λ z. ground arith) gone) in
                            subst (λ z. InOrder z.shm)
                              (some-injective
                                (detach (record s { localdata = trace_off c r.1 })
                                  (record c { procobjmeta_oid = 0 }))
                                l (rw (known, found, emptied, gone, rtdb_disconnect) at e))
                              (detach-InOrder (record s { localdata = trace_off c r.1 })
                                (record c { procobjmeta_oid = 0 })
                                (
                                  same-IsTable s (trace_off c r.1) o.0,
                                  trace_off-Reachable c r.1 ok_r,
                                )
                                client)
                      ]
              ]
        ]
      ]

  pub purge_procs-InOrder :
      (h : Handle) (now : ℕ) (stray : ℕ → ℕ) (stack : IdList) (dead : ℕ → Bool) (f : ℕ) (s s' : Shm)
      → InOrder s
      → purge_procs h now stray stack dead f s ≡ some s'
      → InOrder s'
  unfolding purge_procs
  purge_procs-InOrder h now stray stack dead f s s' o e =
      elim (Option-cases
        (purge_procs_loop h now stray stack dead f s.proc s.proc_free s.localdata)) [
          | inl out ↦ absurd (none-ne-some s' (rw (out, purge_procs) at e))
          | inr (r, done) ↦
              let t = o.0 in
              let small : s.proc_free + length s.proc < 2 ^ 32 =
                omega (arith, t.counted, t.short, free_count-le s.proc) in
              let (slots, count, reach) =
                purge_procs_loop-Reachable fl al refusals n h now stray stack dead f s.proc
                  s.proc_free s.localdata r o.1 small done in
              subst InOrder
                (some-injective (record s { proc = r.0; proc_free = r.1; localdata = r.2 }) s'
                  (rw (done, purge_procs) at e))
                (
                  record {
                    counted =
                        rw slots (omega (arith, count, t.counted, free_count-buried dead s.proc));
                    ids =
                        rw slots (
                          AllIn-buried dead s.proc_oid_next s.proc (omega (arith, t.started))
                            t.ids);
                    started = t.started;
                    short = rw slots (omega (arith, t.short, length-map dead s.proc));
                  },
                  reach,
                )
        ]
