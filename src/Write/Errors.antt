-- ===== src/Write/Errors.antt =====
-- Which commits are refused, and that a refused commit changes nothing.
use kogmo_rtdb.Base.{ℕ, ◌≤◌, ◌<◌, ◌≡◌, arith, true, false, some, ◌↔◌, Option-cases, inl, inr}
use kogmo_rtdb.Types.{LocalData, ObjInfo, Block, Handle, ok, err, Err, base_size}
use kogmo_rtdb.Floats.{FloatOps}
use kogmo_rtdb.Meta.{findmeta_byid, may_write}
use kogmo_rtdb.Time.{timestamp_now}
use kogmo_rtdb.Write.{writedata, writedata_found, commit_block, too_fast}

-- The checks that a commit has to pass.
pub record Accepts (fl : FloatOps) (h : Handle) (db : LocalData) (ts : ℕ) (m : ObjInfo)
    (data_p : Block) : Type 0 where
  pub allocated : 0 < m.buffer_idx
  pub not_long : data_p.size ≤ m.size_max
  pub not_short : base_size ≤ data_p.size
  pub permitted : may_write h m ≡ true
  pub slow : too_fast fl db m ts ≡ false

pub writedata_found-Accepts :
    (fl : FloatOps) (h : Handle) (db : LocalData) (ts : ℕ) (data_p : Block) (i : ℕ) (m : ObjInfo)
    → Accepts fl h db ts m data_p
    → writedata_found fl h db ts data_p i m ≡ commit_block h db i m ts data_p
unfolding writedata_found
writedata_found-Accepts fl h db ts data_p i m acc = ground arith

found_refused :
    (fl : FloatOps) (h : Handle) (db : LocalData) (ts : ℕ) (data_p : Block) (i : ℕ) (m : ObjInfo)
    (e : Err)
    → (writedata_found fl h db ts data_p i m).code ≡ err e
    → (writedata_found fl h db ts data_p i m).db ≡ db
unfolding writedata_found commit_block
found_refused fl h db ts data_p i m e r = ground arith

-- A commit that returns an error leaves the database as it was.
pub writedata-refused :
    (fl : FloatOps) (h : Handle) (db : LocalData) (now oid : ℕ) (data_p : Block) (e : Err)
    → (writedata fl h db now oid data_p).code ≡ err e
    → (writedata fl h db now oid data_p).db ≡ db
unfolding writedata
writedata-refused fl h db now oid data_p e r = elim (Option-cases (findmeta_byid db oid)) [
  | inl absent ↦ rw (absent, writedata)
  | inr ((i, m), found) ↦
      rw (found, writedata)
        (found_refused fl h db (timestamp_now db now) data_p i m e (rw (found, writedata) at r))
]

found_accepted :
    (fl : FloatOps) (h : Handle) (db : LocalData) (ts : ℕ) (data_p : Block) (i : ℕ) (m : ObjInfo)
    → (writedata_found fl h db ts data_p i m).code ≡ ok tt
    → Accepts fl h db ts m data_p
unfolding writedata_found
found_accepted fl h db ts data_p i m r = record {
  allocated = ground arith;
  not_long = ground arith;
  not_short = ground arith;
  permitted = ground arith;
  slow = ground arith;
}

-- A commit to an object that exists succeeds exactly if the object has memory, the data fits into a
-- slot and has at least a header, the caller may write, and the cycle watch does not object.
pub writedata_ok_iff :
    (fl : FloatOps) (h : Handle) (db : LocalData) (now oid : ℕ) (data_p : Block) (i : ℕ)
    (m : ObjInfo)
    → findmeta_byid db oid ≡ some (i, m)
    → ((writedata fl h db now oid data_p).code ≡ ok tt)
      ↔ Accepts fl h db (timestamp_now db now) m data_p
unfolding writedata commit_block
writedata_ok_iff fl h db now oid data_p i m found =
    rw (found, writedata)
      (
        found_accepted fl h db (timestamp_now db now) data_p i m,
        λ acc. rw (writedata_found-Accepts fl h db (timestamp_now db now) data_p i m acc),
      )
