-- ===== src/Tests/Connects.antt =====
-- A manager that sets the database up, and a client that joins.
use kogmo_rtdb.Base.{◌<◌, arith, ℕ, ◌+◌, ◌^◌, ◌≡◌, refl, false, true, [], ◌∷◌}
use kogmo_rtdb.Types.{LocalData, Handle, Result, ok}
use kogmo_rtdb.Meta.{findmeta_byid, find_from, obj_trace_send, min_cycletime}
use kogmo_rtdb.Time.{timestamp_now, timestamp_add_secs}
use kogmo_rtdb.Memory.{mem_alloc, mem_init}
use kogmo_rtdb.Search.{
  searchinfo, searchinfo_full, search_loop, search_end, hit, skips, name_matches, not_found,
  name_eq,
}
use kogmo_rtdb.Purge.{delete_ts}
use kogmo_rtdb.Insert.{
  insert, insert_at, find_place, find_new, find_free, find_slot, is_reusable, init_meta, initinfo,
  ring_size, unsigned_ceil, enter, to_oid, has_clash,
}
use kogmo_rtdb.Write.{
  writedata, writedata_found, commit_block, publish, too_fast, fresh_ts, next_slot,
}
use kogmo_rtdb.Connect.{booted, local_init}
use kogmo_rtdb.Connect.Open.{
  ConnectInfo, root_info, processlist_info, process_info, rtdb_info, insert_and_write, open_root,
  open_process, open_rtdb, connect_manager,
}
use kogmo_rtdb.Memory.Balance.{IsBalanced, RingsApart}
use kogmo_rtdb.Insert.Unique.{HasIds}
use kogmo_rtdb.Procs.{Process, Shm, empty_process}
use kogmo_rtdb.ProcTable.{init_shm, connect}
use kogmo_rtdb.ProcTable
use kogmo_rtdb.ProcTable.Sessions.{IsTable}
use kogmo_rtdb.System.Shared.{SharedReach, joins, boots, lives}
use kogmo_rtdb.System.Whole.{SharedReach-IsTable}
use kogmo_rtdb.Tests.Data.{int_ops}
use kogmo_rtdb.Tests.Shop.{bump_of, bump_of-IsSound}

abbrev manager : Handle
manager = record { proc_oid = 1; is_manager = true; is_admin = true; cycletime = 0 }

abbrev manager_info : ConnectInfo
manager_info = record {
  procname = 109 ∷ 97 ∷ 110 ∷ [];
  cycletime = 10;
  connected_ts = 2 ^ 33;
  process_bytes = 1 ∷ [];
  rtdb_bytes = 2 ∷ [];
}

abbrev opened : Result ℕ × LocalData
opened =
    connect_manager int_ops (bump_of 100_000) 9 (λ k. 2 ^ 34 + k) manager_info manager
      (booted false false 10) 100_000

opened_ok : opened.0 ≡ ok 3
unfolding connect_manager open_root open_process open_rtdb insert_and_write root_info
    processlist_info process_info rtdb_info local_init mem_init insert insert_at find_place find_new
    find_free find_slot is_reusable init_meta initinfo ring_size unsigned_ceil enter to_oid
    has_clash findmeta_byid find_from obj_trace_send min_cycletime timestamp_now timestamp_add_secs
    mem_alloc searchinfo searchinfo_full search_loop search_end hit skips name_matches not_found
    name_eq delete_ts writedata writedata_found commit_block publish too_fast fresh_ts next_slot
opened_ok = refl

abbrev first_shm : Shm
first_shm = init_shm 1 30 100_000 opened.1

-- A client joins.
abbrev client : Process
client = record empty_process { pid = 41; tid = 41 }

abbrev client_handle : Handle
client_handle = record { proc_oid = 2; is_manager = false; is_admin = false; cycletime = 10 }

abbrev joined : Result ℕ × LocalData
joined =
    open_process int_ops (bump_of 100_000) 9 (λ k. 2 ^ 35 + k) manager_info client_handle opened.1

joined_ok : joined.0 ≡ ok 5
unfolding connect_manager open_root open_process open_rtdb insert_and_write root_info
    processlist_info process_info rtdb_info local_init mem_init insert insert_at find_place find_new
    find_free find_slot is_reusable init_meta initinfo ring_size unsigned_ceil enter to_oid
    has_clash findmeta_byid find_from obj_trace_send min_cycletime timestamp_now timestamp_add_secs
    mem_alloc searchinfo searchinfo_full search_loop search_end hit skips name_matches not_found
    name_eq delete_ts writedata writedata_found commit_block publish too_fast fresh_ts next_slot
joined_ok = refl

client_number : (connect first_shm client).0 ≡ ok 2
unfolding init_shm connect ProcTable.find_slot
client_number = refl

abbrev second_shm : Shm
second_shm = record (connect first_shm client).1 { localdata = joined.1 }

few : first_shm.proc_oid_next < 2 ^ 31
unfolding init_shm
few = omega arith

life : SharedReach int_ops (bump_of 100_000) false 100_000 second_shm
unfolding init_shm
life =
    lives (boots 1 30 100_000 manager 9 (λ k. 2 ^ 34 + k) manager_info false false 10 3 opened_ok)
      (joins client client_handle 9 (λ k. 2 ^ 35 + k) manager_info 2 5 few client_number joined_ok)

SharedReach-IsTable_example :
    IsTable second_shm
    × HasIds second_shm.localdata
    × (false ≡ false → IsBalanced 2 second_shm.localdata × RingsApart second_shm.localdata.objmeta)
SharedReach-IsTable_example =
    SharedReach-IsTable int_ops (bump_of 100_000) false 100_000 1 second_shm
      (bump_of-IsSound 100_000) (omega arith) refl life
