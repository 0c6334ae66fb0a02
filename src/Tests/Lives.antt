-- ===== src/Tests/Lives.antt =====
-- Two lives of the database. In the first it is set up, an object is inserted and written, and a purge
-- follows; in the second another insertion is refused.
use kogmo_rtdb.Base.{true, false, ℕ, some, get_elem?, ◌≢◌, ◌<◌, ◌≤◌, ◌^◌, ◌≡◌, refl, arith}
use mathlib.Core.Bool.{true≢false}
use kogmo_rtdb.Types.{ObjInfo, LocalData, ok, err, Err}
use kogmo_rtdb.Meta.{findmeta_byid, find_from, obj_trace_send, min_cycletime}
use kogmo_rtdb.Time.{timestamp_now, timestamp_add_secs}
use kogmo_rtdb.Memory.{mem_alloc, mem_init}
use kogmo_rtdb.Memory.Balance.{IsBalanced, RingsApart}
use kogmo_rtdb.Search.{
  searchinfo, searchinfo_full, search_loop, search_end, hit, skips, name_matches, not_found,
  name_eq,
}
use kogmo_rtdb.Purge.{delete_ts, purge_objs}
use kogmo_rtdb.Insert.{
  insert, insert_at, find_place, find_new, find_free, find_slot, is_reusable, init_meta, ring_size,
  unsigned_ceil, enter, to_oid, has_clash,
}
use kogmo_rtdb.Write.{writedata}
use kogmo_rtdb.Connect.{booted, local_init}
use kogmo_rtdb.System.{Reachable, inserts, refused, commits, purges, starts, goes_on}
use kogmo_rtdb.System.Ids.{Reachable-HasIds}
use kogmo_rtdb.System.Books.{Reachable-IsBalanced}
use kogmo_rtdb.Tests.Data.{int_ops, owner, new_data}
use kogmo_rtdb.Tests.Shop.{bike, bump, bump-IsSound}

abbrev first_db : LocalData
first_db = local_init int_ops bump (booted false false 10) 1000

abbrev second_db : LocalData
second_db = (insert int_ops bump owner 9 first_db (2 ^ 34) bike).db

abbrev last_db : LocalData
last_db = purge_objs int_ops (writedata int_ops owner second_db (2 ^ 35) 1 new_data).db (2 ^ 36)

first_inserted : (insert int_ops bump owner 9 first_db (2 ^ 34) bike).code ≡ ok 1
unfolding local_init mem_init insert insert_at find_place find_new find_free find_slot is_reusable
    init_meta ring_size unsigned_ceil enter to_oid has_clash findmeta_byid find_from obj_trace_send
    min_cycletime timestamp_now timestamp_add_secs mem_alloc searchinfo searchinfo_full search_loop
    search_end hit skips name_matches not_found name_eq delete_ts
first_inserted = refl

life : Reachable int_ops bump false 1000 last_db
life =
    goes_on
      (goes_on (goes_on (starts false false 10) (inserts owner 9 (2 ^ 34) bike 1 first_inserted))
        (commits owner (2 ^ 35) 1 new_data))
      (purges (2 ^ 36))

Reachable-IsBalanced_example :
    (last_db.heap_size ≡ 1000) × IsBalanced 2 last_db × RingsApart last_db.objmeta
Reachable-IsBalanced_example =
    Reachable-IsBalanced int_ops bump 1000 bump-IsSound 1 last_db (omega arith) refl life

-- A second object with the name and type of the first wants to be the only one, and is refused.
abbrev rival : ObjInfo
rival = record bike { flags = record bike.flags { unique = true } }

rival_refused : (insert int_ops bump owner 9 second_db (2 ^ 35) rival).code ≡ err Err.notuniq
unfolding local_init mem_init insert insert_at find_place find_new find_free find_slot is_reusable
    init_meta ring_size unsigned_ceil enter to_oid has_clash findmeta_byid find_from obj_trace_send
    min_cycletime timestamp_now timestamp_add_secs mem_alloc searchinfo searchinfo_full search_loop
    search_end hit skips name_matches not_found name_eq delete_ts
rival_refused = refl

id_left : to_oid second_db.objmeta_oid_next ≡ some 2
unfolding local_init mem_init insert insert_at find_place find_new find_free find_slot is_reusable
    init_meta ring_size unsigned_ceil enter to_oid has_clash findmeta_byid find_from obj_trace_send
    min_cycletime timestamp_now timestamp_add_secs mem_alloc searchinfo searchinfo_full search_loop
    search_end hit skips name_matches not_found name_eq delete_ts
id_left = refl

abbrev third_db : LocalData
third_db = (insert int_ops bump owner 9 second_db (2 ^ 35) rival).db

rough_life : Reachable int_ops bump true 1000 third_db
rough_life =
    goes_on (goes_on (starts false false 10) (inserts owner 9 (2 ^ 34) bike 1 first_inserted)) (
      refused owner 9 (2 ^ 35) rival Err.notuniq 2 rival_refused id_left
        (λ never. absurd (true≢false never)))

Reachable-HasIds_example :
    ((i : ℕ) (m : ObjInfo)
      → get_elem? third_db.objmeta i ≡ some m
      → m.oid ≢ 0
      → findmeta_byid third_db m.oid ≡ some (i, m))
    × ((i : ℕ) (m : ObjInfo)
        → get_elem? third_db.objmeta i ≡ some m
        → m.oid < third_db.objmeta_oid_next)
    × (third_db.objmeta_oid_next ≤ 2 ^ 31)
Reachable-HasIds_example = Reachable-HasIds int_ops bump true 1000 third_db rough_life
