-- ===== src/Tests/Indexes.antt =====
-- The theorems on the time index at an index of two entries, one a second.
use kogmo_rtdb.Base.{ℕ, ◌≡◌, ◌≤◌, refl, arith, true, ◌==◌, ltb, if◌then◌else◌, some}
use kogmo_rtdb.Types.{ok}
use kogmo_rtdb.Time.{timestamp_diff_secs}
use kogmo_rtdb.TimeIdx.{IndexEntry, TimeIdx, IndexFile, add, init_file, lookup, slot_of, write}
use kogmo_rtdb.TimeIdx.Add.{IsIndex, lookup-add}
use kogmo_rtdb.TimeIdx.File.{lookup-write}
use kogmo_rtdb.Tests.Data.{int_ops}

-- Entries for the seconds 7 and 8 of a recording, of which the second came at 8.5 s.
abbrev entries : ℕ → IndexEntry
entries i =
    if i == 0
    then record { ts = 7_000_000_000; off = 100 }
    else record { ts = 8_500_000_000; off = 200 }

abbrev two_entries : TimeIdx
two_entries = record {
  idxtype = 1;
  with_timestamps = true;
  changed = true;
  interval = 1;
  first_ts = 7_000_000_000;
  last_ts = 8_500_000_000;
  last_entry = 1;
  max_entries = 6000;
  entry = entries;
  allocated = 6000;
}

two_entries-IsIndex : IsIndex two_entries
two_entries-IsIndex = record {
  started = λ e. omega arith;
  within = omega arith;
  room = omega arith;
  bound = omega arith;
}

-- A chunk at second 11 is added; then the position for second 10 is looked up.
lookup-add_example :
    (y : TimeIdx) × (add int_ops two_entries 11_200_000_000 300 ≡ some (ok 0, y))
    × IsIndex y
    × (lookup int_ops y 10_000_000_000
        ≡ some (ok (if ltb two_entries.last_entry 3 then 300 else (two_entries.entry 3).off)))
    × (10_000_000_000 ≤ two_entries.last_ts
        → 3 ≤ two_entries.last_entry
        → lookup int_ops y 10_000_000_000 ≡ lookup int_ops two_entries 10_000_000_000)
unfolding slot_of timestamp_diff_secs
lookup-add_example =
    lookup-add int_ops two_entries 11_200_000_000 300 4 10_000_000_000 3 two_entries-IsIndex
      (λ e. omega arith) (λ e. omega arith) refl refl (omega arith) (omega arith) refl (omega arith)

lookup-write_example :
    (f : IndexFile) × (y : TimeIdx) × ((write two_entries).0 ≡ some f)
    × (init_file f ≡ some y)
    × IsIndex y
    × (lookup int_ops y 8_000_000_000 ≡ lookup int_ops two_entries 8_000_000_000)
lookup-write_example =
    lookup-write int_ops two_entries 8_000_000_000 two_entries-IsIndex refl refl refl
