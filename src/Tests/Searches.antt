-- ===== src/Tests/Searches.antt =====
-- The theorems on searches at concrete inputs.
use kogmo_rtdb.Base.{ℕ, ◌≡◌, ◌-◌, refl, false, none, some, length, replicate, zero, suc, ap}
use kogmo_rtdb.Types.{LocalData, ok, objidlist_max}
use kogmo_rtdb.Search.{Query, IdList, NameTest, searchinfo_full, skips, name_matches}
use kogmo_rtdb.Search.Nth.{matching, NthAnswer, searchinfo_full-nth}
use kogmo_rtdb.Search.Lists.{searchinfo_full-lost}
use kogmo_rtdb.Tests.Data.{base_db, car}

abbrev pub by_type : Query
by_type = record {
  name = NameTest.any;
  otype = 3;
  parent_oid = 0;
  proc_oid = 0;
  ts = 0;
  includedeleted = false;
}

searchinfo_full-nth_example : NthAnswer base_db by_type 0 (searchinfo_full base_db by_type none 1).0
searchinfo_full-nth_example = searchinfo_full-nth base_db by_type 0

-- A database in which every slot holds a match.
abbrev full_db : LocalData
full_db = record base_db { objmeta = replicate 1000 car }

matching-replicate : (n : ℕ) → length (matching by_type (replicate n car)) ≡ n
unfolding skips name_matches
matching-replicate zero = refl
matching-replicate (suc n) = ap suc (matching-replicate n)

searchinfo_full-lost_example :
    (l' : IdList) × (searchinfo_full full_db by_type (some (λ i. 77)) 0
      ≡ (ok objidlist_max, some l'))
    × (l' (objidlist_max - 1) ≡ 77)
searchinfo_full-lost_example =
    searchinfo_full-lost full_db by_type (λ i. 77) (matching-replicate 1000)
