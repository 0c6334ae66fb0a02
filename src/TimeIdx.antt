-- ===== src/TimeIdx.antt =====
-- The player's index from times to file positions (record/kogmo_rtdb_timeidx.c, .h): slot `k` belongs
-- to the k-th interval after the first time.
pub mod Add
pub mod File
use kogmo_rtdb.Base.{
  ℕ, zero, suc, ◌+◌, ◌-◌, ◌*◌, ◌/◌, ◌%◌, ◌^◌, ℤ, pos, negsuc, pos_part, is_neg, lt_ℤ, sub_ℕ, Bool,
  true, false, ◌&&◌, ◌||◌, not, ◌==◌, ltb, leb, if◌then◌else◌, List, Option, none, some, [], ◌∷◌,
  length, get_elem?,
}
use kogmo_rtdb.Types.{Result, ok, err, Err}
use kogmo_rtdb.Floats.{FloatOps}
use kogmo_rtdb.Time.{timestamp_diff_secs, timestamp_add_secs}

-- timeidx_entry_t
pub record IndexEntry : Type 0 where
  pub ts : ℕ
  pub off : ℕ

-- timeidx_info_size, timeidx_entry_size, TIMEIDXENTRIES_DEFAULT
abbrev pub info_size : ℕ
info_size = 76

abbrev pub entry_size : ℕ
entry_size = 16

abbrev pub entries_default : ℕ
entries_default = 6000

-- timeidx_info_t, as it lies in memory. `last_entry` and `max_entries` are uint32_t; `allocated` is the
-- number of entries that the memory has room for.
pub record TimeIdx : Type 0 where
  pub idxtype : ℕ
  pub with_timestamps : Bool
  pub changed : Bool
  pub interval : ℕ
  pub first_ts : ℕ
  pub last_ts : ℕ
  pub last_entry : ℕ
  pub max_entries : ℕ
  pub entry : ℕ → IndexEntry
  pub allocated : ℕ

-- uint32_t arithmetic, and a uint32_t as an int.
abbrev pub inc_u32 : ℕ → ℕ
inc_u32 n = (n + 1) % 2 ^ 32

abbrev pub dec_u32 : ℕ → ℕ
dec_u32 n = (n + 2 ^ 32 - 1) % 2 ^ 32

abbrev pub as_int : ℕ → ℤ
as_int n = if ltb n (2 ^ 31) then pos n else negsuc (2 ^ 32 - 1 - n)

-- timeidx_init with no file: cleared memory, no entry yet (`last_entry = -1`). `interval` is
-- TIMEIDXINTERVAL_DEFAULT.
unfoldable pub init : ℕ → TimeIdx
init interval = record {
  idxtype = 1;
  with_timestamps = true;
  changed = false;
  interval = interval;
  first_ts = 0;
  last_ts = 0;
  last_entry = 2 ^ 32 - 1;
  max_entries = entries_default;
  entry = λ i. record { ts = 0; off = 0 };
  allocated = entries_default;
}

-- An index file: the header's fields, and the entries that its size has room for.
pub record IndexFile : Type 0 where
  pub idxtype : ℕ
  pub with_timestamps : Bool
  pub interval : ℕ
  pub first_ts : ℕ
  pub last_ts : ℕ
  pub last_entry : ℕ
  pub entries : List IndexEntry

-- What lies in the memory for an entry that the file has.
abbrev pub read_entry : List IndexEntry → ℕ → IndexEntry
read_entry es i = elim (get_elem? es i) [ some e ↦ e | none ↦ record { ts = 0; off = 0 } ]

-- timeidx_init with a file; `none` is an error that ends the program.
unfoldable pub init_file : IndexFile → Option TimeIdx
init_file f =
    let max = length f.entries in
    if not (f.idxtype == 1) || not f.with_timestamps
    then none
    else some (record {
      idxtype = f.idxtype;
      with_timestamps = f.with_timestamps;
      changed = false;
      interval = f.interval;
      first_ts = f.first_ts;
      last_ts = f.last_ts;
      last_entry = if ltb (dec_u32 max) f.last_entry then dec_u32 max else f.last_entry;
      max_entries = max;
      entry = read_entry f.entries;
      allocated = max;
    })

abbrev pub first_entries : ℕ → ℕ → (ℕ → IndexEntry) → List IndexEntry
first_entries zero i entry = []
first_entries (suc n) i entry = entry i ∷ first_entries n (suc i) entry

-- timeidx_write: the file, if there is something new.
unfoldable pub write : TimeIdx → Option IndexFile × TimeIdx
write x =
    if x.changed
    then (
      some (record {
        idxtype = x.idxtype;
        with_timestamps = x.with_timestamps;
        interval = x.interval;
        first_ts = x.first_ts;
        last_ts = x.last_ts;
        last_entry = x.last_entry;
        entries = first_entries (inc_u32 x.last_entry) 0 x.entry;
      }),
      record x { max_entries = inc_u32 x.last_entry },
    )
    else (none, x)

-- The slot of a time, `(int) (diff_secs (first_ts, ts) / interval)`.
unfoldable pub slot_of : FloatOps → TimeIdx → ℕ → ℤ
slot_of fl x ts = fl.to_signed (fl.div (timestamp_diff_secs fl x.first_ts ts) x.interval)

unfoldable pub next_needed : FloatOps → TimeIdx → ℕ
next_needed fl x = timestamp_add_secs fl x.last_ts x.interval

-- A write to an entry; `none` is a write past the memory that was allocated.
abbrev pub put_entry : TimeIdx → ℕ → ℕ → ℕ → Option TimeIdx
put_entry x i ts off =
    if ltb i x.allocated
    then some
        (record x { entry = λ j. if i == j then record { ts = ts; off = off } else x.entry j })
    else none

-- The index is made longer if entry `i` comes near its end; `none` is a size that `int` does not hold.
unfoldable pub extend : TimeIdx → ℕ → Option TimeIdx
extend x i =
    let max = (x.max_entries + entries_default) % 2 ^ 32 in
    if leb (dec_u32 x.max_entries) i
    then (if ltb (info_size + entry_size * max) (2 ^ 31)
        then some (record x { max_entries = max; allocated = max })
        else none)
    else some x

-- The loop from entry `i` on, over `n` entries.
unfoldable pub fill : ℕ → TimeIdx → ℕ → ℕ → ℕ → Option TimeIdx
unfolding extend
fill zero x i ts off = some x
fill (suc n) x i ts off = elim (extend x i) [
  | none ↦ none
  | some y ↦ elim (put_entry y i ts off) [ none ↦ none | some z ↦ fill n z (suc i) ts off ]
]

-- timeidx_add, for a time and a position that are not negative; the outer `none` is a fault.
unfoldable pub add : FloatOps → TimeIdx → ℕ → ℕ → Option (Result ℕ × TimeIdx)
add fl x ts off =
    let diff = fl.narrow (timestamp_diff_secs fl x.last_ts ts) in
    let idx = slot_of fl x ts in
    let from = inc_u32 x.last_entry in
    if (ts == 0) || (off == 0)
    then some (err Err.invalid, x)
    else if fl.lt diff x.interval && not (x.first_ts == 0)
    then some (ok 0, x)
    else if x.first_ts == 0
    then elim (put_entry (record x { first_ts = ts; last_ts = ts; last_entry = 0 }) 0 ts off) [
      | none ↦ none
      | some y ↦ some (ok 0, y)
    ]
    else if is_neg idx
    then some (err Err.invalid, x)
    else elim (fill (pos_part idx + 1 - from) x from ts off) [
      | none ↦ none
      | some y ↦ some (ok 0, record y { last_ts = ts; last_entry = pos_part idx; changed = true })
    ]

-- timeidx_lookup: the position, or that there is none; the outer `none` is a read past the memory.
unfoldable pub lookup : FloatOps → TimeIdx → ℕ → Option (Result ℕ)
unfolding lt_ℤ
lookup fl x ts =
    let idx = slot_of fl x ts in
    let clipped = if lt_ℤ (as_int x.last_entry) idx then as_int x.last_entry else idx in
    if ltb x.last_ts ts || is_neg idx
    then some (err Err.notfound)
    else if is_neg clipped || leb x.allocated (pos_part clipped)
    then none
    else some (ok (x.entry (pos_part clipped)).off)
