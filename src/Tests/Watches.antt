-- ===== src/Tests/Watches.antt =====
-- The theorems on watching objects at a database with one match.
use kogmo_rtdb.Base.{ℕ, ◌≡◌, get_elem?, some, ◌+◌, ◌≢◌, ◌&&◌, not, refl, List, [], ◌∷◌, length}
use kogmo_rtdb.Types.{LocalData, ok}
use kogmo_rtdb.Search.{
  IdList, searchinfo, skips, name_matches, not_found, searchinfo_full, search_end, search_loop, hit,
}
use kogmo_rtdb.Watch.{
  contains, missing, current, Lists, compare_lists, searchinfo_lists_nonblocking,
  searchinfo_waitnext_until,
}
use kogmo_rtdb.Watch.Diff.{lists_nonblocking-diff, waitnext-changed}
use kogmo_rtdb.Tests.Data.{base_db}
use kogmo_rtdb.Tests.Searches.{by_type}

abbrev known_8 : Lists
known_8 = record { code = ok 0; known = 8 ∷ []; added = []; deleted = [] }

abbrev array : IdList
array = λ i. 77

now_5 : current base_db by_type array ≡ ok (5 ∷ [])
unfolding current skips name_matches searchinfo searchinfo_full search_end search_loop hit
now_5 = refl

lists_nonblocking-diff_example :
    let r = searchinfo_lists_nonblocking base_db by_type array known_8 in
    ((x : ℕ) → contains r.added x ≡ (contains (5 ∷ []) x && not (contains (8 ∷ []) x)))
    × ((x : ℕ) → contains r.deleted x ≡ (contains (8 ∷ []) x && not (contains (5 ∷ []) x)))
    × (r.code ≡ ok (length r.added + length r.deleted))
    × (r.known ≡ 5 ∷ [])
    × ((searchinfo_lists_nonblocking base_db by_type array r).code ≡ ok 0)
lists_nonblocking-diff_example = lists_nonblocking-diff base_db by_type array known_8 (5 ∷ []) now_5

-- The first round finds what is known, the second that an object is gone.
abbrev two_rounds : List (LocalData × IdList)
two_rounds = (base_db, array) ∷ (record base_db { objmeta = [] }, array) ∷ []

abbrev known_5 : Lists
known_5 = record { code = ok 0; known = 5 ∷ []; added = []; deleted = [] }

one_gone : (searchinfo_waitnext_until two_rounds by_type known_5).code ≡ ok 1
unfolding searchinfo_waitnext_until compare_lists current skips name_matches missing contains
    searchinfo searchinfo_full search_end search_loop hit not_found
one_gone = refl

waitnext-changed_example :
    (◌≢◌ {A = ℕ} 1 0)
    × (i : ℕ) × (db : LocalData) × (stack : IdList) × (new : List ℕ) × (get_elem? two_rounds i
        ≡ some (db, stack))
    × (current db by_type stack ≡ ok new)
    × (searchinfo_waitnext_until two_rounds by_type known_5 ≡ compare_lists new (5 ∷ []))
waitnext-changed_example = waitnext-changed two_rounds by_type known_5 1 one_gone
