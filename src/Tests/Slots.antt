-- ===== src/Tests/Slots.antt =====
-- The theorems on slots and on the player's map at concrete inputs.
use kogmo_rtdb.Base.{
  ◌+◌, ◌-◌, ◌%◌, ◌≡◌, ◌≢◌, ℕ, pos, refl, arith, ◌==◌, if◌then◌else◌, List, [], ◌∷◌, take, some,
}
use kogmo_rtdb.Types.{ok}
use kogmo_rtdb.Slot.{ObjSlot, readdataslot_init, readdataslot_relative_ptr}
use kogmo_rtdb.Slot.Walk.{back}
use kogmo_rtdb.Slot.History.{slot_at, readdataslot_relative_ptr-history}
use kogmo_rtdb.OidMap.{Entry, free_entry, map_del, map_add, find_entry, fill_free}
use kogmo_rtdb.OidMap.Laws.{IsMap, map_add_lem}
use kogmo_rtdb.Tests.Data.{base_db, car, older_block}
use kogmo_rtdb.Tests.Commits.{car_found, car_ring}
use kogmo_rtdb.Tests.Reads.{car-IsDecreasing}

abbrev new_slot : ObjSlot
new_slot = record { oid = 0; committed_ts = 0; object_slot = pos 0; history_slot = pos 0 }

readdataslot_relative_ptr-history_example :
    readdataslot_relative_ptr base_db (readdataslot_init base_db new_slot 5).slot (back 1)
    ≡ record {
      code = ok older_block;
      slot = record (slot_at base_db new_slot 5 0 car ((1 + 3 - 1) % 3)) {
        committed_ts = older_block.committed_ts;
      };
    }
readdataslot_relative_ptr-history_example =
    readdataslot_relative_ptr-history base_db new_slot 5 0 1 1 car older_block car_found car_ring
      car-IsDecreasing refl

-- Object 4 was played back as 9.
abbrev played : List Entry
played = record { src = 4; dest = 9; name = []; otype = 3 } ∷ free_entry ∷ []

abbrev replayed : List Entry
replayed = record { src = 4; dest = 12; name = []; otype = 3 } ∷ free_entry ∷ []

played-IsMap : IsMap played
unfolding find_entry
played-IsMap = ((λ p. refl), ((λ p. refl), tt))

replay : map_add played 4 12 [] 3 ≡ some replayed
unfolding map_add map_del fill_free
replay = refl

map_add_lem_example :
    IsMap replayed
    × ((k : ℕ)
        → k ≢ 0
        → find_entry replayed k ≡ (
            if k == 4
            then some (record { src = 4; dest = 12; name = take 32 []; otype = 3 })
            else find_entry played k))
map_add_lem_example = map_add_lem played replayed 4 12 [] 3 played-IsMap (λ e. omega arith) replay
