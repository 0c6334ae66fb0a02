-- ===== src/Tests/Reads.antt =====
-- The theorems on reads at concrete inputs.
use kogmo_rtdb.Base.{◌+◌, ◌-◌, ◌^◌, ◌≡◌, ◌<◌, refl, arith, none, some}
use kogmo_rtdb.Types.{Block, ok, err, Err}
use kogmo_rtdb.Time.{timestamp_now}
use kogmo_rtdb.Meta.{findmeta_byid, find_from}
use kogmo_rtdb.History.{histscan}
use kogmo_rtdb.History.Ring.{history}
use kogmo_rtdb.Write.{writedata}
use kogmo_rtdb.Write.Refine.{new_block}
use kogmo_rtdb.Read.{Mode, find_block, select, scan_younger, readdata, quiet, is_stale}
use kogmo_rtdb.Read.Refine.{find_block-history, wanted_of}
use kogmo_rtdb.Read.RoundTrip.{readdata-writedata, as_read}
use kogmo_rtdb.Read.ByTime.{
  NewestUpTo, YoungerAnswer, IsIn, IsDecreasing, find_block-last, find_block-younger,
}
use kogmo_rtdb.Read.Stale.{IsUnwritten, unwritten_stale, unwritten_endless}
use kogmo_rtdb.Tests.Data.{
  int_ops, base_db, stale_db, car, new_car, owner, guest, new_data, empty_block, old_block,
}
use kogmo_rtdb.Tests.Commits.{car_ring, car_found, car-Accepts, late}

find_block-history_example :
    find_block 3 guest base_db Mode.last 5 (2 ^ 33 - 1)
    ≡ some (wanted_of car Mode.last (2 ^ 33 - 1) (history base_db car))
find_block-history_example =
    find_block-history 3 guest base_db Mode.last 5 (2 ^ 33 - 1) 0 1 car car_found car_ring refl
      (omega arith)

pub car-IsDecreasing : IsDecreasing (λ b. b.committed_ts) (history base_db car)
car-IsDecreasing = omega arith

find_block-last_example :
    ((x : Block)
      → find_block 3 guest base_db Mode.last 5 (2 ^ 33 - 1) ≡ some (ok x)
      → NewestUpTo (λ b. b.committed_ts) (2 ^ 33 - 1) (history base_db car) x)
    × (find_block 3 guest base_db Mode.last 5 (2 ^ 33 - 1) ≡ some (err Err.notfound)
        → (y : Block) → IsIn y (history base_db car)
        → 2 ^ 33 - 1 < y.committed_ts)
find_block-last_example =
    find_block-last 3 guest base_db 5 (2 ^ 33 - 1) 0 1 car car_found car_ring refl (omega arith)
      (omega arith) car-IsDecreasing

younger_found : find_block 3 guest base_db Mode.younger 5 (2 ^ 32 + 5) ≡ some (ok old_block)
unfolding find_block select scan_younger findmeta_byid find_from histscan
younger_found = refl

find_block-younger_example :
    YoungerAnswer
      (2 ^ 32 + 5)
      (history base_db car)
      (find_block 3 guest base_db Mode.younger 5 (2 ^ 32 + 5))
find_block-younger_example =
    find_block-younger 3 guest base_db 5 (2 ^ 32 + 5) 0 1 car car_found car_ring refl (omega arith)
      car-IsDecreasing

readdata-writedata_example :
    readdata 3 int_ops guest
      (writedata int_ops owner base_db (2 ^ 34) 5 new_data).db
      (2 ^ 34)
      quiet
      5
      0
      empty_block
      100
    ≡ some (record {
      code = ok 27;
      buffer =
          as_read owner
            (new_block owner base_db car (timestamp_now base_db (2 ^ 34)) new_data).committed_ts
            new_data;
    })
unfolding is_stale
readdata-writedata_example =
    readdata-writedata int_ops owner guest base_db (2 ^ 34) (2 ^ 34) 5 new_data empty_block 100 0 1
      3 car car_found car_ring car-Accepts late refl refl (omega arith) refl (omega arith) refl

new_car-IsUnwritten : IsUnwritten new_car
new_car-IsUnwritten = record { allocated = omega arith; slot = refl; has_slots = omega arith }

new_car_found : findmeta_byid stale_db 5 ≡ some (0, new_car)
unfolding findmeta_byid find_from
new_car_found = refl

unwritten_stale_example : find_block 3 guest stale_db Mode.last 5 0 ≡ some (ok old_block)
unwritten_stale_example =
    unwritten_stale 3 guest stale_db 5 0 new_car new_car_found new_car-IsUnwritten refl refl refl

unwritten_endless_example : find_block 1000 guest stale_db Mode.older 5 (2 ^ 33) ≡ none
unwritten_endless_example =
    unwritten_endless 1000 guest stale_db 5 0 new_car new_car_found new_car-IsUnwritten refl
      (2 ^ 33) (λ j lt. (refl, omega arith))
