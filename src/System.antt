-- ===== src/System.antt =====
-- The database over its life: what the processes do to the objects, in any order, from the memory that
-- kogmo_rtdb_obj_local_init (rtdb/kogmo_rtdb_obj_local.c) leaves. Each step is one call of an operation
-- that changes objects, by any process, at any time, with what it answers. Two calls are no steps: an
-- insertion when no id is left, since 2 ^ 31 - 1 were given out, and a deletion of the object number 0,
-- which is none. `refusals` says whether insertions may be refused after they have looked for a slot:
-- with NOTUNIQ, or with OUTOFOBJ for want of a slot. Such a call may leave a slot counted as
-- taken, or memory allocated (Insert). The one without a slot keeps the lock, at which the next call
-- would wait for ever; here the life may go on, so that more lives are spoken of than there are.
pub mod Books
pub mod Numbers
pub mod Renumber
pub mod Ids
pub mod Opened
pub mod Shared
pub mod Left
pub mod Table
pub mod Whole
use kogmo_rtdb.Base.{ℕ, ◌≡◌, ◌≢◌, Bool, false, some}
use kogmo_rtdb.Types.{LocalData, ObjInfo, Block, Handle, Result, ok, err, Err}
use kogmo_rtdb.Floats.{FloatOps}
use kogmo_rtdb.Time.{timestamp_set}
use kogmo_rtdb.Memory.{Allocator}
use kogmo_rtdb.Search.{IdList}
use kogmo_rtdb.Insert.{insert, to_oid}
use kogmo_rtdb.Remove.{changeinfo, delete_imm}
use kogmo_rtdb.Purge.{purge_objs}
use kogmo_rtdb.Write.{writedata, writedata_ptr_begin, writedata_ptr_commit}
use kogmo_rtdb.Connect.{booted, local_init}

module _ (fl : FloatOps) (al : Allocator) (refusals : Bool) where
  pub data Step (db : LocalData) : LocalData → Type 0 where
    inserts :
        (h : Handle) (stray now : ℕ) (new : ObjInfo) (oid : ℕ)
        → (insert fl al h stray db now new).code ≡ ok oid
        → Step db (insert fl al h stray db now new).db
    refused :
        (h : Handle) (stray now : ℕ) (new : ObjInfo) (x : Err) (k : ℕ)
        → (insert fl al h stray db now new).code ≡ err x
        → to_oid db.objmeta_oid_next ≡ some k
        → (refusals ≡ false → x ≡ Err.invalid)
        → Step db (insert fl al h stray db now new).db
    changes :
        (h : Handle) (now oid : ℕ) (new : ObjInfo) → Step db (changeinfo fl h db now oid new).1
    deletes :
        (h : Handle) (now : ℕ) (stray : ℕ → ℕ) (stack : IdList) (f oid : ℕ) (imm : Bool)
        (r : Result (Unit {0}) × LocalData)
        → oid ≢ 0
        → delete_imm h now stray stack f db oid imm ≡ some r
        → Step db r.1
    commits :
        (h : Handle) (now oid : ℕ) (data_p : Block) → Step db (writedata fl h db now oid data_p).db
    begins : (h : Handle) (oid : ℕ) → Step db (writedata_ptr_begin h db oid).1
    commits_in_place :
        (h : Handle) (now oid a : ℕ) → Step db (writedata_ptr_commit fl h db now oid a).1
    purges : (now : ℕ) → Step db (purge_objs fl db now)
    traces : (on : ℕ) → Step db (record db { rtdb_trace = on })
    sets_time : (new_ts : ℕ) → Step db (timestamp_set db new_ts).1

  -- What can come of a heap of `heap_size` bytes.
  pub data Reachable (heap_size : ℕ) : LocalData → Type 0 where
    starts :
        (simmode no_notifies : Bool) (bufsize : ℕ)
        → Reachable heap_size (local_init fl al (booted simmode no_notifies bufsize) heap_size)
    goes_on : {db db' : LocalData} → Reachable heap_size db → Step db db' → Reachable heap_size db'
