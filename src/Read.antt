-- ===== src/Read.antt =====
-- Reading an object's data (rtdb/kogmo_rtdb_objdata.c): kogmo_rtdb_obj_readdata__mode with its six
-- ways to choose a block by time, and the functions that call it.
pub mod Loops
pub mod Refine
pub mod RoundTrip
pub mod ByTime
pub mod Stale
use kogmo_rtdb.Base.{
  ℕ, zero, suc, ◌+◌, ◌-◌, ℤ, pos, negsuc, Bool, true, false, ◌&&◌, ◌||◌, not, ◌==◌, ltb, leb,
  if◌then◌else◌, take, Option, none, some,
}
use kogmo_rtdb.Types.{LocalData, ObjInfo, Block, Handle, Result, ok, err, Err, base_size}
use kogmo_rtdb.Floats.{FloatOps}
use kogmo_rtdb.Time.{timestamp_now, timestamp_diff_secs}
use kogmo_rtdb.Meta.{findmeta_byid, may_read, max_cycletime}
use kogmo_rtdb.History.{Scan, histscan, no_scan}

-- RTDBSEL_LAST and so on, without the pointer bit.
pub data Mode : Type 0 where
  last older younger datatime dataolder datayounger : Mode

-- `while (wanted newer block) histscan(-1)` of the modes that go back to the first block that is
-- old enough: `too_new` is the loop's test. `none` is fuel that ran out.
unfoldable pub scan_older :
    ℕ → LocalData → ObjInfo → (Block → Bool) → Block → Scan → Option (Result Block)
scan_older zero db m too_new b s = none
scan_older (suc f) db m too_new b s = elim (too_new b) [
  | false ↦ some (ok b)
  | true ↦
      let s' = histscan db m (negsuc 0) s in
      elim s'.found [ none ↦ some (err Err.notfound) | some b' ↦ scan_older f db m too_new b' s' ]
]

-- The loop of the "younger" modes: it goes back as long as blocks are young enough, and answers the
-- last of these. `b` is the block in hand (`scan_objbase`), which is young enough.
unfoldable pub scan_younger :
    ℕ → LocalData → ObjInfo → (Block → Bool) → Block → Scan → Option (Result Block)
scan_younger zero db m young b s = none
scan_younger (suc f) db m young b s =
    let s' = histscan db m (negsuc 0) s in
    elim s'.found [
      | none ↦ some (ok b)
      | some b' ↦ elim (young b') [ false ↦ some (ok b) | true ↦ scan_younger f db m young b' s' ]
    ]

-- The switch over the modes, from the latest block `b` on.
unfoldable pub select : ℕ → LocalData → ObjInfo → Mode → ℕ → Block → Scan → Option (Result Block)
select f db m Mode.last ts b s =
    if ts == 0
    then (if m.deleted_ts == 0 then some (ok b) else some (err Err.notfound))
    else scan_older f db m (λ x. ltb ts x.committed_ts) b s
select f db m Mode.older ts b s = scan_older f db m (λ x. leb ts x.committed_ts) b s
select f db m Mode.younger ts b s =
    if leb b.committed_ts ts
    then some (err Err.notfound)
    else scan_younger f db m (λ x. ltb ts x.committed_ts) b s
select f db m Mode.datatime ts b s = scan_older f db m (λ x. ltb ts x.data_ts) b s
select f db m Mode.dataolder ts b s = scan_older f db m (λ x. leb ts x.data_ts) b s
select f db m Mode.datayounger ts b s =
    if leb b.data_ts ts
    then some (err Err.notfound)
    else scan_younger f db m (λ x. ltb ts x.data_ts) b s

-- The lookup, the permission, the latest block and the switch: what precedes the copy.
unfoldable pub find_block : ℕ → Handle → LocalData → Mode → ℕ → ℕ → Option (Result Block)
find_block f h db mode oid ts = elim (findmeta_byid db oid) [
  | none ↦ some (err Err.notfound)
  | some (i, m) ↦
      if m.buffer_idx == 0
      then some (err Err.notfound)
      else if not (may_read h m)
      then some (err Err.noperm)
      else let s = histscan db m (pos 0) no_scan in
        elim s.found [ none ↦ some (err Err.notfound) | some b ↦ select f db m mode ts b s ]
]

-- What a call returns: its code (the object's real size), and the caller's buffer.
pub record ReadResult : Type 0 where
  pub code : Result ℕ
  pub buffer : Block

-- What other processes have made of the block that was found, by the time that it is copied and by
-- the time that it is looked at again.
abbrev pub Environment : Type 0
Environment = Block → Block × Block

abbrev pub quiet : Environment
quiet b = (b, b)

-- The age check of flags.withhold_stale.
unfoldable pub is_stale : FloatOps → LocalData → ObjInfo → ℕ → Block → Bool
is_stale fl db m now b =
    m.flags.withhold_stale
    && fl.lt (max_cycletime fl m)
        (fl.narrow (timestamp_diff_secs fl b.committed_ts (timestamp_now db now)))

-- The lockless copy: as much as fits, and then the check that the slot was not overwritten. The
-- caller's buffer has room for at least a header.
unfoldable pub copy_out :
    FloatOps → LocalData → ObjInfo → ℕ → ℕ → Block → Block → Block → ReadResult
copy_out fl db m now size b copied checked =
    let avail : ℕ = if leb copied.size size then copied.size else size in
    let copy : Block = record copied {
      committed_ts = checked.committed_ts;
      size = avail;
      payload = take (avail - base_size) copied.payload;
    } in
    if not (checked.committed_ts == b.committed_ts)
    then record { code = err Err.histwrap; buffer = copy }
    else if is_stale fl db m now checked
    then record { code = err Err.toofast; buffer = copy }
    else record { code = ok checked.size; buffer = copy }

-- kogmo_rtdb_obj_readdata__mode without the pointer bit; `none` is a scan without end.
unfoldable pub readdata_mode :
    ℕ
    → FloatOps
    → Handle
    → LocalData
    → ℕ
    → Environment
    → Mode
    → ℕ
    → ℕ
    → Block
    → ℕ
    → Option ReadResult
readdata_mode f fl h db now env mode oid ts data_p size = elim (find_block f h db mode oid ts) [
  | none ↦ none
  | some (err e) ↦ some (record { code = err e; buffer = data_p })
  | some (ok b) ↦ elim (findmeta_byid db oid) [
    | none ↦ some (record { code = err Err.notfound; buffer = data_p })
    | some (i, m) ↦ some (copy_out fl db m now size b (env b).0 (env b).1)
  ]
]

-- With the pointer bit the block itself is handed out, and its size returned.
unfoldable pub readdata_mode_ptr :
    ℕ → Handle → LocalData → Mode → ℕ → ℕ → Option (Result (ℕ × Block))
readdata_mode_ptr f h db mode oid ts = elim (find_block f h db mode oid ts) [
  | none ↦ none
  | some (err e) ↦ some (err e)
  | some (ok b) ↦ some (ok (b.size, b))
]

module _ (f : ℕ) (fl : FloatOps) (h : Handle) (db : LocalData) (now : ℕ) (env : Environment) where
  unfoldable pub readdata : ℕ → ℕ → Block → ℕ → Option ReadResult
  readdata oid ts data_p size = readdata_mode f fl h db now env Mode.last oid ts data_p size

  unfoldable pub readdata_older : ℕ → ℕ → Block → ℕ → Option ReadResult
  readdata_older oid ts data_p size = readdata_mode f fl h db now env Mode.older oid ts data_p size

  unfoldable pub readdata_younger : ℕ → ℕ → Block → ℕ → Option ReadResult
  readdata_younger oid ts data_p size =
      readdata_mode f fl h db now env Mode.younger oid ts data_p size

  unfoldable pub readdata_datatime : ℕ → ℕ → Block → ℕ → Option ReadResult
  readdata_datatime oid ts data_p size =
      readdata_mode f fl h db now env Mode.datatime oid ts data_p size

  unfoldable pub readdata_dataolder : ℕ → ℕ → Block → ℕ → Option ReadResult
  readdata_dataolder oid ts data_p size =
      readdata_mode f fl h db now env Mode.dataolder oid ts data_p size

  unfoldable pub readdata_datayounger : ℕ → ℕ → Block → ℕ → Option ReadResult
  readdata_datayounger oid ts data_p size =
      readdata_mode f fl h db now env Mode.datayounger oid ts data_p size
