-- ===== src/Wait/Next.antt =====
-- What a call that waits for the next data answers.
use kogmo_rtdb.Base.{
  ℕ, ◌≤◌, ◌<◌, ◌≡◌, refl, ap, ◌∙◌, arith, Bool, ◌||◌, if◌then◌else◌, lt→ltb, List, [], ◌∷◌, ◌++◌,
  Option, none, some, get_elem?,
}
use kogmo_rtdb.Types.{ObjInfo, Block, Handle, Result, ok, err, Err}
use kogmo_rtdb.Floats.{FloatOps}
use kogmo_rtdb.Meta.{findmeta_byid}
use kogmo_rtdb.Read.{ReadResult, readdata}
use kogmo_rtdb.Wait.{
  Round, read_header, is_deleted, ends, wait_loop, waitnext, readdata_waitnext_until,
}

module _ (f : ℕ) (fl : FloatOps) (h : Handle) (oid old_ts : ℕ) (base_obj : Block) where
  -- A round that does not end the wait, with what the read of the header returned: data that are no
  -- newer than `old_ts`, or that there are none yet, while the object in slot `i` is not deleted.
  pub data IsIdle (i : ℕ) (r : Round) : Result ℕ → Type 0 where
    old_data :
        (n : ℕ) (base : ReadResult)
        → read_header f fl h oid old_ts base_obj r ≡ some base
        → base.code ≡ ok n
        → base.buffer.committed_ts ≤ old_ts
        → IsIdle i r (ok n)
    no_data :
        (m : ObjInfo) (base : ReadResult)
        → read_header f fl h oid old_ts base_obj r ≡ some base
        → base.code ≡ err Err.notfound
        → get_elem? r.db.objmeta i ≡ some m
        → m.deleted_ts ≡ 0
        → IsIdle i r (err Err.notfound)

  abbrev pub AllIdle : ℕ → List Round → Type 0
  AllIdle i [] = Unit
  AllIdle i (r ∷ rs) = ((ret : Result ℕ) × IsIdle i r ret) × AllIdle i rs

  -- Such a round is read, and the loop goes on.
  GoesOn : ℕ → Round → Result ℕ → Type 0
  GoesOn i r ret =
      (base : ReadResult) × (read_header f fl h oid old_ts base_obj r ≡ some base)
      × (base.code ≡ ret)
      × (ends f fl h oid old_ts base_obj i r base ≡ none)

  IsIdle-GoesOn : (i : ℕ) (r : Round) (ret : Result ℕ) → IsIdle i r ret → GoesOn i r ret
  unfolding GoesOn ends is_deleted
  IsIdle-GoesOn i r _ (old_data n base read size old) =
      (base, read, size, rw (size, ends) (ground (arith, old)))
  IsIdle-GoesOn i r _ (no_data m base read missing at_i alive) =
      (base, read, missing, rw (missing, at_i, alive, ends, is_deleted) refl)

  ends-newer :
      (i n : ℕ) (r : Round) (base : ReadResult)
      → base.code ≡ ok n
      → old_ts < base.buffer.committed_ts
      → ends f fl h oid old_ts base_obj i r base ≡ some (ok n)
  unfolding ends
  ends-newer i n r base size newer =
      rw (size, lt→ltb old_ts base.buffer.committed_ts newer, ends) refl

  wait_loop-AllIdle :
      (quiet : Bool) (i : ℕ) (full : Round → Option ReadResult) (data_p : Block) (pre : List Round)
      (r : Round) (post : List Round) (ret : Result ℕ)
      → AllIdle i pre
      → (ret' : Result ℕ) × (wait_loop f fl h oid old_ts base_obj quiet i full data_p
            (pre ++ r ∷ post)
            ret
          ≡ wait_loop f fl h oid old_ts base_obj quiet i full data_p (r ∷ post) ret')
  unfolding wait_loop GoesOn
  wait_loop-AllIdle quiet i full data_p [] r post ret idle = (ret, refl)
  wait_loop-AllIdle quiet i full data_p (x ∷ xs) r post ret idle =
      let (base, read, _, goes_on) = IsIdle-GoesOn i x idle.0.0 idle.0.1 in
      let (ret', rest) = wait_loop-AllIdle quiet i full data_p xs r post base.code idle.1 in
      (ret', rw (read, goes_on, wait_loop) rest)

  abbrev full_read : Block → ℕ → Round → Option ReadResult
  full_read data_p size x = readdata f fl h x.later_db x.later_now x.later_env oid 0 data_p size

  -- A call, after the rounds in which it finds old data.
  waitnext-AllIdle :
      (data_p : Block) (size i : ℕ) (m : ObjInfo) (first r : Round) (rest pre post : List Round)
      → findmeta_byid first.db oid ≡ some (i, m)
      → first ∷ rest ≡ pre ++ r ∷ post
      → AllIdle i pre
      → (ret : Result ℕ) × (readdata_waitnext_until f fl h oid old_ts base_obj data_p size first
            rest
          ≡ wait_loop f fl h oid old_ts base_obj
              (m.flags.no_notifies || first.db.no_notifies)
              i
              (full_read data_p size)
              data_p
              (r ∷ post)
              ret)
  unfolding readdata_waitnext_until waitnext
  waitnext-AllIdle data_p size i m first r rest pre post found split idle =
      let quiet = m.flags.no_notifies || first.db.no_notifies in
      let loop : List Round → Option ReadResult =
        λ l. wait_loop f fl h oid old_ts base_obj quiet i (full_read data_p size) data_p l (ok 0) in
      let (ret, skipped) =
        wait_loop-AllIdle quiet i (full_read data_p size) data_p pre r post (ok 0) idle in
      let start : readdata_waitnext_until f fl h oid old_ts base_obj data_p size first rest
          ≡ loop (first ∷ rest) =
        rw (found, readdata_waitnext_until, waitnext) refl in
      (ret, start ∙ ap loop split ∙ skipped)

  -- A call that waits for data newer than `old_ts` gets them in the first round in which the header
  -- shows any, after any number of rounds in which it shows older ones, or in which the object, which
  -- is not deleted, has no data yet: it answers what a read of the latest data answers at that moment,
  -- whether notifications are on or off.
  pub waitnext-newer :
      (data_p : Block) (size n i : ℕ) (m : ObjInfo) (first r : Round) (rest pre post : List Round)
      (base : ReadResult)
      → findmeta_byid first.db oid ≡ some (i, m)
      → first ∷ rest ≡ pre ++ r ∷ post
      → AllIdle i pre
      → read_header f fl h oid old_ts base_obj r ≡ some base
      → base.code ≡ ok n
      → old_ts < base.buffer.committed_ts
      → readdata_waitnext_until f fl h oid old_ts base_obj data_p size first rest
        ≡ readdata f fl h r.later_db r.later_now r.later_env oid 0 data_p size
  unfolding wait_loop
  waitnext-newer data_p size n i m first r rest pre post base found split idle header code newer =
      let (ret, skipped) =
        waitnext-AllIdle data_p size i m first r rest pre post found split idle in
      skipped ∙ rw (header, ends-newer i n r base code newer, wait_loop) refl

  -- A call whose time runs out while the data are old, or while there are none, leaves the caller's
  -- buffer as it was. It answers the timeout if notifications are on. If they are off, it answers what
  -- the last read of the header returned: a size, like a call that succeeded, or that nothing was found.
  pub waitnext_timeout :
      (data_p : Block) (size i : ℕ) (ret : Result ℕ) (m : ObjInfo) (first r : Round)
      (rest pre : List Round)
      → findmeta_byid first.db oid ≡ some (i, m)
      → first ∷ rest ≡ pre ++ r ∷ []
      → AllIdle i pre
      → IsIdle i r ret
      → readdata_waitnext_until f fl h oid old_ts base_obj data_p size first rest
        ≡ some (record {
          code = if m.flags.no_notifies || first.db.no_notifies then ret else err Err.timeout;
          buffer = data_p;
        })
  unfolding wait_loop GoesOn
  waitnext_timeout data_p size i ret m first r rest pre found split idle last =
      let (before, skipped) =
        waitnext-AllIdle data_p size i m first r rest pre [] found split idle in
      let (base, read, code, goes_on) = IsIdle-GoesOn i r ret last in
      skipped ∙ rw (read, goes_on, code, wait_loop) refl
