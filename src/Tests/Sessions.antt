-- ===== src/Tests/Sessions.antt =====
-- The theorems on sessions at a new table of processes.
use kogmo_rtdb.Base.{true, ◌^◌, some, set, ◌+◌, ◌≡◌, ◌<◌, ◌⊎◌, refl, arith, [], ◌∷◌}
use kogmo_rtdb.Types.{ok, err, Err}
use kogmo_rtdb.Time.{timestamp_now}
use kogmo_rtdb.Memory.Balance.{IsBalanced}
use kogmo_rtdb.Search.{
  searchinfo_deleted, searchinfo_full, search_loop, search_end, hit, skips, name_matches, not_found,
}
use kogmo_rtdb.Procs.{Process, Shm, empty_process, objects_of}
use kogmo_rtdb.ProcTable.{connect, disconnect, init_shm}
use kogmo_rtdb.ProcTable.Sessions.{IsTable, connect_lem, disconnect-connect, init_shm-IsTable}
use kogmo_rtdb.Connect.{Session, Left, own_objects, rtdb_disconnect}
use kogmo_rtdb.Connect.Leave.{IsClient, rtdb_disconnect_lem}
use kogmo_rtdb.Tests.Data.{base_db, owner}
use kogmo_rtdb.Tests.Shop.{shop_db, shop_db-IsBalanced}

abbrev new_table : Shm
new_table = record {
  revision = 1;
  manager_pid = 30;
  manager_alive_ts = 0;
  proc_oid_next = 2;
  data_size = 1000;
  proc = empty_process ∷ empty_process ∷ [];
  proc_free = 2;
  localdata = base_db;
}

abbrev client : Process
client = record empty_process { pid = 41 }

new_table-IsTable : IsTable new_table
new_table-IsTable = record {
  counted = refl;
  ids = (
    omega arith,
    (λ used. absurd (used refl)),
    (λ z. refl),
    (omega arith, (λ used. tt), (λ z. refl), tt),
  );
  started = omega arith;
  short = omega arith;
}

connect_lem_example :
    IsTable (connect new_table client).1
    × ((new_table.proc_free ≡ 0) × (connect new_table client ≡ (err Err.outofobj, new_table))
        ⊎ (0 < new_table.proc_free)
          × ((connect new_table client).0 ≡ ok new_table.proc_oid_next)
          × ((connect new_table client).1.proc_free + 1 ≡ new_table.proc_free)
          × ((connect new_table client).1.proc_oid_next ≡ new_table.proc_oid_next + 1))
connect_lem_example = connect_lem new_table client new_table-IsTable (omega arith)

disconnect-connect_example :
    disconnect (connect new_table client).1 (record client { proc_oid = 2 })
    ≡ record new_table { proc_oid_next = 3 }
disconnect-connect_example =
    disconnect-connect new_table client new_table-IsTable (omega arith) (omega arith) refl

-- The manager's table takes its first client in.
first_client : IsTable (connect (init_shm 1 30 1000 base_db) client).1
unfolding init_shm
first_client =
    (connect_lem (init_shm 1 30 1000 base_db) client (init_shm-IsTable 1 30 1000 base_db)
      (omega arith)).0

-- A process with number 7 and the object 5, which leaves.
abbrev leaving : Process
leaving = record empty_process { proc_oid = 7; pid = 41 }

abbrev busy_table : Shm
busy_table = record new_table {
  proc_oid_next = 8;
  proc = empty_process ∷ leaving ∷ [];
  proc_free = 1;
  localdata = shop_db;
}

busy_table-IsTable : IsTable busy_table
busy_table-IsTable = record {
  counted = refl;
  ids = (
    omega arith,
    (λ used. absurd (used refl)),
    (λ z. refl),
    (omega arith, (λ used. tt), (λ z. absurd (omega arith)), tt),
  );
  started = omega arith;
  short = omega arith;
}

abbrev session : Session
session = record {
  handle = owner;
  procobjmeta_oid = 5;
  this_process = leaving;
  rxtracing = true;
  attached = true;
}

session-IsClient : IsClient busy_table session 1
session-IsClient = record {
  entry = leaving;
  at_slot = refl;
  same_oid = refl;
  known = λ z. omega arith;
  no_manager = refl;
  attached = refl;
}

owned : own_objects shop_db (λ i. 7) 7 ≡ ok (5 ∷ [])
unfolding own_objects objects_of searchinfo_deleted searchinfo_full search_loop search_end hit skips
    name_matches not_found
owned = refl

rtdb_disconnect_lem_example :
    (l : Left) × (rtdb_disconnect (2 ^ 34) (λ x. 9) (λ i. 7) 2 busy_table session ≡ some l)
    × (l.code ≡ ok tt)
    × (l.shm.proc ≡ set busy_table.proc 1 empty_process)
    × (l.shm.proc_free ≡ 2)
    × IsTable l.shm
    × IsBalanced 0 l.shm.localdata
    × (rtdb_disconnect (2 ^ 34) (λ x. 9) (λ i. 7) 2 l.shm l.session ≡ some l)
unfolding timestamp_now
rtdb_disconnect_lem_example =
    rtdb_disconnect_lem (2 ^ 34) (λ x. 9) (λ i. 7) 0 1 busy_table session 1 (5 ∷ [])
      busy_table-IsTable session-IsClient (λ z. omega arith) shop_db-IsBalanced (λ z. omega arith)
      (omega arith) owned
