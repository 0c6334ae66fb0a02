-- ===== src/Read/RoundTrip.antt =====
-- Commits and reads together: a read after a commit gives the data back, and what was committed
-- before stays readable under its time.
use kogmo_rtdb.Base.{
  ℕ, zero, suc, ◌-◌, ◌^◌, ◌≤◌, ◌≡◌, refl, ◌∙◌, arith, true, false, List, [], ◌∷◌, some, take, drop,
  ap, ◌++◌, ◌==◌, if◌then◌else◌, length,
}
use kogmo_rtdb.Types.{LocalData, ObjInfo, Block, Handle, ok, base_size}
use kogmo_rtdb.Floats.{FloatOps}
use kogmo_rtdb.Time.{timestamp_now}
use kogmo_rtdb.Meta.{findmeta_byid, may_read}
use kogmo_rtdb.History.{slot_addr}
use kogmo_rtdb.History.Ring.{HasRing}
use kogmo_rtdb.Write.{writedata, committed_block, fresh_ts, next_slot}
use kogmo_rtdb.Write.Errors.{Accepts}
use kogmo_rtdb.Write.Refine.{advanced, new_block, writedata-history}
use kogmo_rtdb.Read.{Mode, find_block, readdata, readdata_mode, quiet, copy_out, is_stale}
use kogmo_rtdb.Read.Refine.{find_block-history, wanted_of, wanted}

-- After an accepted commit, a reader that asks for the latest data gets the block that was
-- committed.
pub find_block-writedata :
    (fl : FloatOps) (h r : Handle) (db : LocalData) (now oid : ℕ) (data_p : Block) (i k f : ℕ)
    (m : ObjInfo)
    → findmeta_byid db oid ≡ some (i, m)
    → HasRing m k
    → Accepts fl h db (timestamp_now db now) m data_p
    → 2 ^ 32 ≤ timestamp_now db now
    → m.deleted_ts ≡ 0
    → may_read r m ≡ true
    → m.history_size ≤ f
    → find_block f r (writedata fl h db now oid data_p).db Mode.last oid 0
      ≡ some (ok (new_block h db m (timestamp_now db now) data_p))
unfolding wanted_of wanted
find_block-writedata fl h r db now oid data_p i k f m found ring acc late alive may fuel =
    let (c, found', ring', hist) =
      writedata-history fl h db now oid data_p i k m found ring acc late in
    find_block-history f r _ Mode.last oid 0 i _ (advanced m) found' ring' may fuel
    ∙ rw hist (ground arith)

take-length-append : (n : ℕ) (xs ys : List ℕ) → length xs ≡ n → take n (take n xs ++ ys) ≡ xs
take-length-append zero [] ys e = refl
take-length-append zero (x ∷ xs) ys e = absurd (omega arith)
take-length-append (suc n) [] ys e = absurd (omega arith)
take-length-append (suc n) (x ∷ xs) ys e = ap (◌∷◌ x) (take-length-append n xs ys (omega arith))

-- What a reader with a large enough buffer copies out of a block that was committed.
abbrev pub as_read : Handle → ℕ → Block → Block
as_read h ts data_p = record data_p {
  committed_ts = ts;
  committed_proc = h.proc_oid;
  data_ts = if data_p.data_ts == 0 then ts else data_p.data_ts;
}

copy_out-committed :
    (fl : FloatOps) (h : Handle) (db : LocalData) (m : ObjInfo) (now size ts : ℕ)
    (data_p old : Block)
    → length data_p.payload ≡ data_p.size - base_size
    → data_p.size ≤ size
    → is_stale fl db m now (committed_block h ts data_p old) ≡ false
    → copy_out fl db m now size
        (committed_block h ts data_p old)
        (committed_block h ts data_p old)
        (committed_block h ts data_p old)
      ≡ record { code = ok data_p.size; buffer = as_read h ts data_p }
unfolding copy_out committed_block
copy_out-committed fl h db m now size ts data_p old len fits fresh = ground (
  arith,
  take-length-append (data_p.size - base_size) data_p.payload
      (drop (data_p.size - base_size) old.payload) len,
)

readdata-found :
    (f : ℕ) (fl : FloatOps) (h : Handle) (db : LocalData) (now : ℕ) (oid ts : ℕ) (data_p b : Block)
    (size i : ℕ) (m : ObjInfo)
    → find_block f h db Mode.last oid ts ≡ some (ok b)
    → findmeta_byid db oid ≡ some (i, m)
    → readdata f fl h db now quiet oid ts data_p size ≡ some (copy_out fl db m now size b b b)
unfolding readdata readdata_mode
readdata-found f fl h db now oid ts data_p b size i m found meta =
    rw (found, readdata_mode) (rw (meta, readdata_mode))

-- A read of the latest data after an accepted commit gives back what was committed: the size, the
-- bytes, and a header that carries the writer, the commit's time, and the data's time if it had
-- one. The reader's buffer is large enough, it may read the object, which is not deleted, and the
-- data is not withheld as stale; nobody writes in between.
pub readdata-writedata :
    (fl : FloatOps) (h r : Handle) (db : LocalData) (now later oid : ℕ) (data_p buf : Block)
    (size i k f : ℕ) (m : ObjInfo)
    → findmeta_byid db oid ≡ some (i, m)
    → HasRing m k
    → Accepts fl h db (timestamp_now db now) m data_p
    → 2 ^ 32 ≤ timestamp_now db now
    → m.deleted_ts ≡ 0
    → may_read r m ≡ true
    → m.history_size ≤ f
    → length data_p.payload ≡ data_p.size - base_size
    → data_p.size ≤ size
    → let w = writedata fl h db now oid data_p in
      let b = new_block h db m (timestamp_now db now) data_p in
      is_stale fl w.db (advanced m) later b ≡ false
      → readdata f fl r w.db later quiet oid 0 buf size
        ≡ some (record { code = ok data_p.size; buffer = as_read h b.committed_ts data_p })
unfolding committed_block
readdata-writedata fl h r db now later oid data_p buf size i k f m found ring acc late alive may
      fuel len fits fresh =
    let (c, found', ring', hist) =
      writedata-history fl h db now oid data_p i k m found ring acc late in
    readdata-found f fl r _ later oid 0 buf _ size i (advanced m)
      (find_block-writedata fl h r db now oid data_p i k f m found ring acc late alive may fuel)
      found'
    ∙ ap some (
        copy_out-committed fl h (writedata fl h db now oid data_p).db (advanced m) later size
          (fresh_ts db (timestamp_now db now) old) data_p old len fits fresh)
  where
    old : Block
    old = db.heap (slot_addr m (next_slot m))
