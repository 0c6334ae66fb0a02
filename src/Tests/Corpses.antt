-- ===== src/Tests/Corpses.antt =====
-- The theorem on dead processes at a table of two processes, one of them dead.
use kogmo_rtdb.Base.{◌+◌, ◌≡◌, ◌==◌, ◌^◌, arith, if◌then◌else◌, [], ◌∷◌, some, map}
use kogmo_rtdb.Time.{timestamp_now}
use kogmo_rtdb.Memory.Balance.{IsBalanced}
use kogmo_rtdb.Procs.{Process, Shm, empty_process, is_dead, purge_procs}
use kogmo_rtdb.Procs.Purged.{dead_slots, purge_procs_lem}
use kogmo_rtdb.Tests.Data.{owner}
use kogmo_rtdb.Tests.Shop.{shop_db, shop_db-IsBalanced}

abbrev gone : Process
gone = record empty_process { proc_oid = 7; pid = 40; flags = 32 }

abbrev running : Process
running = record empty_process { proc_oid = 8; pid = 41 }

abbrev pub two_procs : Shm
two_procs = record {
  revision = 1;
  manager_pid = 39;
  manager_alive_ts = 2 ^ 33;
  proc_oid_next = 9;
  data_size = 1000;
  proc = gone ∷ running ∷ [];
  proc_free = 98;
  localdata = shop_db;
}

purge_procs_lem_example :
    (s' : Shm) × (purge_procs owner (2 ^ 34) (λ x. 9) (λ i. 7) (λ pid. pid == 40) 2 two_procs
      ≡ some s')
    × (s'.proc
        ≡ map (λ p. if is_dead (λ pid. pid == 40) p then empty_process else p) two_procs.proc)
    × (s'.proc_free ≡ 98 + dead_slots (λ pid. pid == 40) two_procs.proc)
    × IsBalanced 0 s'.localdata
unfolding timestamp_now
purge_procs_lem_example =
    purge_procs_lem owner (2 ^ 34) (λ x. 9) (λ i. 7) 0 1 (λ pid. pid == 40) two_procs
      shop_db-IsBalanced (λ e. omega arith) (omega arith) (omega arith)
