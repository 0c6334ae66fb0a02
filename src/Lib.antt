-- ===== src/Lib.antt =====
-- KogMo-RTDB, a real-time database for cognitive automobiles: a model of its core and theorems on it.
--
-- Processes share one block of memory (`Types.LocalData`, rtdb/kogmo_rtdb_obj_local.h). It holds a
-- table of object metadata (`objmeta[]`) and a heap in which every object owns a ring of its last
-- data blocks. A process inserts an object, commits data blocks to it, and reads the latest block or
-- the one that belongs to a time; readers take no lock, and check after copying that the slot was
-- not overwritten. Searches go through the table.
--
-- Types: include/kogmo_rtdb_types.h, include/kogmo_rtdb_obj_base.h, rtdb/kogmo_rtdb_obj_local.h.
-- Floats: the floating-point arithmetic, a parameter. Time: rtdb/kogmo_time.c and the clock.
-- Meta: rtdb/kogmo_rtdb_helpers.c (kogmo_rtdb_obj_findmeta_byid), rtdb/kogmo_rtdb_proc_obj_notify.h,
-- rtdb/kogmo_rtdb_trace.c (sending). History: kogmo_rtdb_obj_histscan of rtdb/kogmo_rtdb_objdata.c.
-- Write: kogmo_rtdb_obj_writedata and writedata_ptr_begin and _commit. Read:
-- kogmo_rtdb_obj_readdata__mode and its callers. Search: _kogmo_rtdb_obj_searchinfo of
-- rtdb/kogmo_rtdb_objmeta.c and its callers. Insert, Remove: insertion, and reading, changing and
-- deleting metadata, of the same file. Memory: rtdb/kogmo_rtdb_rtmalloc.c, with the books that the
-- counters of slots and memory must balance (Memory/Balance). Purge: kogmo_rtdb_objmeta_purge_objs of
-- rtdb/kogmo_rtdb_housekeeping.c. Procs: kogmo_rtdb_objmeta_purge_procs of the same file. ProcTable: kogmo_rtdb_ipc_connect
-- and kogmo_rtdb_ipc_disconnect of rtdb/kogmo_rtdb_ipc_posix.c. Connect:
-- kogmo_rtdb_obj_local_init, kogmo_rtdb_connect and kogmo_rtdb_disconnect of
-- rtdb/kogmo_rtdb_obj_local.c. System: the operations on objects as the steps of one system, from the
-- memory that is set up, and (System/Shared) processes that join, leave and die on top of it. Slot:
-- rtdb/kogmo_rtdb_objdata_slot.c. Watch: kogmo_rtdb_obj_searchinfo_lists_nonblocking and
-- kogmo_rtdb_obj_searchinfo_waitnext_until of rtdb/kogmo_rtdb_objmeta.c, over Search. Wait:
-- _kogmo_rtdb_obj_readdata_waitnext_until of rtdb/kogmo_rtdb_objdata.c, over Read. Lockless: how a
-- commit and a read of rtdb/kogmo_rtdb_objdata.c interleave on one slot, word by word, as a step
-- relation. OidMap: record/kogmo_rtdb_oid_map.h. TimeIdx: record/kogmo_rtdb_timeidx.c. Tests: the theorems and operations at small databases.
--
-- What stands for what. Ids, sizes and timestamps are natural numbers: the model speaks of valid
-- parameters, and of times from the year 1970 on, as include/kogmo_time.h has them. Pointers are
-- never null, and a pointer into `objmeta[]` is a slot number. The heap maps the index at which a
-- block begins to the block; writes to slots of one ring do not overlap, since a block is no larger
-- than `size_max`. Locks of single objects and condition variables are no-ops in a sequential run:
-- `signals` records the signals, and `messages` the trace messages. The test of the upper half of a
-- commit time (CMP_INT64_HIGH) is kept. An interleaving with other processes during a read is an
-- argument of the read (`Read.Environment`).
--
-- Fuel: the scans of `Read` take a bound on their rounds, and answer `none` if it runs out; a bound
-- of `history_size` is enough for an object that has been written. A deletion goes down to the
-- children with a bound on its depth; the number of objects that are not deleted, and one, is enough.
--
-- Memory: the allocator (suba) is a parameter, `Memory.Allocator`, with the behaviour that
-- `Memory.IsSound` names; `size_t` and `uint32_t` counters wrap around, and the size of a ring is a
-- product that is taken to fit.
--
-- System: a life of the database is a sequence of calls, each with whatever it answers, but for an
-- insertion that finds no id left, since 2 ^ 31 - 1 were given out, and a deletion of the object number
-- 0; connections are those that succeed. `refusals` tells lives in which insertions may fail after they
-- have looked for a slot from those in which none does: such an insertion may leave a slot counted as taken.
--
-- Not modelled: regular expressions and the renaming of names by environment variables in searches,
-- debug output, weak memory orders, and what is not listed above.
pub mod Base
pub mod Types
pub mod Floats
pub mod Time
pub mod Meta
pub mod Memory
pub mod History
pub mod Write
pub mod Read
pub mod Search
pub mod Remove
pub mod Purge
pub mod Insert
pub mod Slot
pub mod OidMap
pub mod Watch
pub mod Procs
pub mod ProcTable
pub mod Connect
pub mod System
pub mod Lockless
pub mod TimeIdx
pub mod Wait
pub mod Tests
