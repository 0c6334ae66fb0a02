-- ===== src/Wait.antt =====
-- Waiting for an object's next data (rtdb/kogmo_rtdb_objdata.c):
-- _kogmo_rtdb_obj_readdata_waitnext_until and the functions that call it. The locks around the change
-- condition are no-ops in a sequential run.
pub mod Next
use kogmo_rtdb.Base.{
  ℕ, Bool, true, false, ◌||◌, not, ◌==◌, ltb, if◌then◌else◌, List, [], ◌∷◌, get_elem?, Option, none,
  some,
}
use kogmo_rtdb.Types.{LocalData, ObjInfo, Block, Handle, Result, ok, err, Err, base_size}
use kogmo_rtdb.Floats.{FloatOps}
use kogmo_rtdb.Meta.{findmeta_byid}
use kogmo_rtdb.Read.{Mode, Environment, ReadResult, readdata, readdata_mode_ptr}

-- What a call finds in one round of its loop: the database and the time, what other processes do to
-- a block while it is copied, and the database and the time at which the full object is read then.
pub record Round : Type 0 where
  pub db : LocalData
  pub now : ℕ
  pub env : Environment
  pub later_db : LocalData
  pub later_now : ℕ
  pub later_env : Environment

module _ (f : ℕ) (fl : FloatOps) (h : Handle) (oid old_ts : ℕ) (base_obj : Block) where
  -- The read of the header into `base_obj`, which is all that the search needs.
  unfoldable pub read_header : Round → Option ReadResult
  read_header r = readdata f fl h r.db r.now r.env oid 0 base_obj base_size

  -- `scan_objmeta_p->deleted_ts`, by the pointer to slot `i`.
  unfoldable pub is_deleted : ℕ → Round → Bool
  is_deleted i r = elim (get_elem? r.db.objmeta i) [
    | none ↦ true
    | some m ↦ not (m.deleted_ts == 0)
  ]

  -- Whether a round ends the loop: `none` goes on, with what the read of the header returned.
  unfoldable pub ends : ℕ → Round → ReadResult → Option (Result ℕ)
  unfolding is_deleted
  ends i r base = elim base.code [
    | ok n ↦ if ltb old_ts base.buffer.committed_ts then some (ok n) else none
    | err e ↦ elim e [
      | Err.notfound ↦ if is_deleted i r then some (err Err.notfound) else none
      | other ↦ some (err other)
    ]
  ]

  -- The loop over the rounds until the wakeup time. The wait for the change condition tells a timeout
  -- by its own code; where notifications are off, the loop polls, and returns `ret` as it stands.
  -- `full` reads the full object.
  unfoldable pub wait_loop :
      Bool → ℕ → (Round → Option ReadResult) → Block → List Round → Result ℕ → Option ReadResult
  wait_loop no_notifies i full data_p [] ret =
      some (record { code = if no_notifies then ret else err Err.timeout; buffer = data_p })
  wait_loop no_notifies i full data_p (r ∷ rs) ret = elim (read_header r) [
    | none ↦ none
    | some base ↦ elim (ends i r base) [
      | none ↦ wait_loop no_notifies i full data_p rs base.code
      | some (ok n) ↦ full r
      | some (err e) ↦ some (record { code = err e; buffer = data_p })
    ]
  ]

  -- The lookup before the loop, in the database of the first round.
  unfoldable pub waitnext :
      (Round → Option ReadResult) → Block → Round → List Round → Option ReadResult
  waitnext full data_p r rs = elim (findmeta_byid r.db oid) [
    | none ↦ some (record { code = err Err.notfound; buffer = data_p })
    | some (i, m) ↦
        wait_loop (m.flags.no_notifies || r.db.no_notifies) i full data_p (r ∷ rs) (ok 0)
  ]

  -- kogmo_rtdb_obj_readdata_waitnext_until, and _waitnext, where the rounds do not come to an end by
  -- the time.
  unfoldable pub readdata_waitnext_until : Block → ℕ → Round → List Round → Option ReadResult
  readdata_waitnext_until data_p size =
      waitnext (λ r. readdata f fl h r.later_db r.later_now r.later_env oid 0 data_p size) data_p

  -- The same with a pointer (_until_ptr, _ptr), which stands here for the block that it points to.
  unfoldable pub readdata_waitnext_until_ptr : Block → Round → List Round → Option ReadResult
  readdata_waitnext_until_ptr data_p =
      waitnext
        (λ r. elim (readdata_mode_ptr f h r.later_db Mode.last oid 0) [
          | none ↦ none
          | some (ok (n, b)) ↦ some (record { code = ok n; buffer = b })
          | some (err e) ↦ some (record { code = err e; buffer = data_p })
        ])
        data_p
