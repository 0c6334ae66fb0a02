-- ===== src/Tests/Commits.antt =====
-- The theorems on commits at concrete inputs.
use kogmo_rtdb.Base.{◌^◌, ◌≡◌, ◌≤◌, refl, arith, ◌∷◌, [], some, take, ◌↔◌}
use kogmo_rtdb.Types.{LocalData, ok, err, Err}
use kogmo_rtdb.Time.{timestamp_now}
use kogmo_rtdb.Meta.{findmeta_byid, find_from}
use kogmo_rtdb.History.Ring.{history, HasRing}
use kogmo_rtdb.Write.{writedata, writedata_found, next_slot, too_fast}
use kogmo_rtdb.Write.Errors.{Accepts, writedata_ok_iff, writedata-refused}
use kogmo_rtdb.Write.Refine.{advanced, new_block, writedata-history}
use kogmo_rtdb.Write.First.{IsClear, writedata-first}
use kogmo_rtdb.Tests.Data.{new_car, empty_block, int_ops, base_db, car, owner, guest, new_data}

pub car_ring : HasRing car 1
car_ring = record {
  allocated = omega arith;
  stride_pos = omega arith;
  slot = refl;
  in_ring = omega arith;
}

pub car_found : findmeta_byid base_db 5 ≡ some (0, car)
unfolding findmeta_byid find_from
car_found = refl

pub car-Accepts : Accepts int_ops owner base_db (timestamp_now base_db (2 ^ 34)) car new_data
unfolding too_fast
car-Accepts = record {
  allocated = omega arith;
  not_long = omega arith;
  not_short = omega arith;
  permitted = refl;
  slow = refl;
}

pub late : 2 ^ 32 ≤ timestamp_now base_db (2 ^ 34)
unfolding timestamp_now
late = omega arith

writedata-history_example :
    ((writedata int_ops owner base_db (2 ^ 34) 5 new_data).code ≡ ok tt)
    × (findmeta_byid (writedata int_ops owner base_db (2 ^ 34) 5 new_data).db 5
        ≡ some (0, advanced car))
    × HasRing (advanced car) (next_slot car)
    × (history (writedata int_ops owner base_db (2 ^ 34) 5 new_data).db (advanced car)
        ≡ new_block owner base_db car (timestamp_now base_db (2 ^ 34)) new_data
          ∷ take 2 (history base_db car))
writedata-history_example =
    writedata-history int_ops owner base_db (2 ^ 34) 5 new_data 0 1 car car_found car_ring
      car-Accepts late

writedata_ok_iff_example :
    ((writedata int_ops guest base_db (2 ^ 34) 5 new_data).code ≡ ok tt)
    ↔ Accepts int_ops guest base_db (timestamp_now base_db (2 ^ 34)) car new_data
writedata_ok_iff_example =
    writedata_ok_iff int_ops guest base_db (2 ^ 34) 5 new_data 0 car car_found

guest_refused : (writedata int_ops guest base_db (2 ^ 34) 5 new_data).code ≡ err Err.noperm
unfolding writedata writedata_found findmeta_byid find_from
guest_refused = refl

writedata-refused_example : (writedata int_ops guest base_db (2 ^ 34) 5 new_data).db ≡ base_db
writedata-refused_example =
    writedata-refused int_ops guest base_db (2 ^ 34) 5 new_data Err.noperm guest_refused

-- `car` before its first write, on clear memory.
abbrev clear_db : LocalData
clear_db = record base_db { objmeta = new_car ∷ []; heap = λ a. empty_block }

new_car-IsClear : IsClear clear_db new_car
new_car-IsClear = record {
  allocated = omega arith;
  stride_pos = omega arith;
  slots = omega arith;
  unwritten = refl;
  clear = λ k lt. refl;
}

new_car_found : findmeta_byid clear_db 5 ≡ some (0, new_car)
unfolding findmeta_byid find_from
new_car_found = refl

new_car-Accepts : Accepts int_ops owner clear_db (timestamp_now clear_db (2 ^ 34)) new_car new_data
unfolding too_fast
new_car-Accepts = record {
  allocated = omega arith;
  not_long = omega arith;
  not_short = omega arith;
  permitted = refl;
  slow = refl;
}

new_car_late : 2 ^ 32 ≤ timestamp_now clear_db (2 ^ 34)
unfolding timestamp_now
new_car_late = omega arith

writedata-first_example :
    let w = writedata int_ops owner clear_db (2 ^ 34) 5 new_data in
    (w.code ≡ ok tt)
    × (findmeta_byid w.db 5 ≡ some (0, advanced new_car))
    × HasRing (advanced new_car) 0
    × (history w.db (advanced new_car)
        ≡ new_block owner clear_db new_car (timestamp_now clear_db (2 ^ 34)) new_data ∷ [])
writedata-first_example =
    writedata-first int_ops owner clear_db (2 ^ 34) 5 new_data 0 new_car new_car_found
      new_car-IsClear new_car-Accepts new_car_late
