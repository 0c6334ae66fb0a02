-- ===== src/Tests/Waits.antt =====
-- The theorems on waiting for data: an object shows no data first, then an old block, then a new one.
use kogmo_rtdb.Base.{ℕ, ◌+◌, ◌^◌, ◌≡◌, refl, arith, ◌||◌, if◌then◌else◌, [], ◌∷◌, some, pos, negsuc}
use kogmo_rtdb.Types.{LocalData, Block, ok, err, Err}
use kogmo_rtdb.Meta.{findmeta_byid, find_from}
use kogmo_rtdb.History.{histscan}
use kogmo_rtdb.Memory.{zero_block}
use kogmo_rtdb.Read.{
  ReadResult, find_block, select, readdata, readdata_mode, copy_out, is_stale, quiet,
}
use kogmo_rtdb.Wait.{Round, read_header, readdata_waitnext_until}
use kogmo_rtdb.Wait.Next.{IsIdle, old_data, no_data, waitnext-newer, waitnext_timeout}
use kogmo_rtdb.Tests.Data.{int_ops, base_db, car, guest, empty_block, older_block, old_block}

-- Before its last commit `car` showed `older_block`.
abbrev before_db : LocalData
before_db = record base_db { objmeta = record car { history_slot = pos 0 } ∷ [] }

abbrev round : LocalData → Round
round db = record {
  db = db;
  now = 2 ^ 34;
  env = quiet;
  later_db = base_db;
  later_now = 2 ^ 34;
  later_env = quiet;
}

-- What the read of a header leaves.
abbrev header : Block → ℕ → ReadResult
header b n = record { code = ok n; buffer = record b { size = 24; payload = [] } }

before-IsIdle : IsIdle 3 int_ops guest 5 (2 ^ 32 + 5) empty_block 0 (round before_db) (ok 25)
unfolding read_header readdata readdata_mode copy_out is_stale find_block select findmeta_byid
    find_from histscan
before-IsIdle = old_data 25 (header older_block 25) refl refl (omega arith)

-- Before its first commit `car` had a clear ring.
abbrev clear_db : LocalData
clear_db = record base_db {
  objmeta = record car { history_slot = negsuc 0 } ∷ [];
  heap = λ a. zero_block;
}

clear-IsIdle :
    IsIdle 3 int_ops guest 5 (2 ^ 32 + 5) empty_block 0 (round clear_db) (err Err.notfound)
unfolding read_header readdata readdata_mode copy_out is_stale find_block select findmeta_byid
    find_from histscan
clear-IsIdle =
    no_data (record car { history_slot = negsuc 0 })
      (record { code = err Err.notfound; buffer = empty_block }) refl refl refl refl

after_header :
    read_header 3 int_ops guest 5 (2 ^ 32 + 5) empty_block (round base_db)
    ≡ some (header old_block 26)
unfolding read_header readdata readdata_mode copy_out is_stale find_block select findmeta_byid
    find_from histscan
after_header = refl

-- There are no data in the first round, old ones in the second, and new ones in the third.
waitnext-newer_example :
    readdata_waitnext_until 3 int_ops guest 5
      (2 ^ 32 + 5)
      empty_block
      empty_block
      30
      (round clear_db)
      (round before_db ∷ round base_db ∷ [])
    ≡ readdata 3 int_ops guest base_db (2 ^ 34) quiet 5 0 empty_block 30
unfolding findmeta_byid find_from
waitnext-newer_example =
    waitnext-newer 3 int_ops guest 5 (2 ^ 32 + 5) empty_block empty_block 30 26 0
      (record car { history_slot = negsuc 0 }) (round clear_db) (round base_db)
      (round before_db ∷ round base_db ∷ []) (round clear_db ∷ round before_db ∷ []) []
      (header old_block 26) refl refl
      ((err Err.notfound, clear-IsIdle), ((ok 25, before-IsIdle), tt)) after_header refl
      (omega arith)

-- One round, with notifications on.
waitnext_timeout_example :
    readdata_waitnext_until 3 int_ops guest 5
      (2 ^ 32 + 5)
      empty_block
      empty_block
      30
      (round before_db)
      []
    ≡ some (record {
      code = if car.flags.no_notifies || before_db.no_notifies then ok 25 else err Err.timeout;
      buffer = empty_block;
    })
unfolding findmeta_byid find_from
waitnext_timeout_example =
    waitnext_timeout 3 int_ops guest 5 (2 ^ 32 + 5) empty_block empty_block 30 0 (ok 25)
      (record car { history_slot = pos 0 }) (round before_db) (round before_db) [] [] refl refl tt
      before-IsIdle
