-- ===== src/Watch.antt =====
-- Watching which objects come and go (rtdb/kogmo_rtdb_objmeta.c):
-- kogmo_rtdb_obj_searchinfo_lists_nonblocking and kogmo_rtdb_obj_searchinfo_waitnext_until. An id list
-- of the caller is the list of its ids before the terminating 0.
pub mod Diff
use kogmo_rtdb.Base.{
  ℕ, suc, ◌+◌, Bool, true, false, ◌==◌, ◌&&◌, if◌then◌else◌, List, [], ◌∷◌, length, Option, none,
  some,
}
use kogmo_rtdb.Types.{LocalData, Result, ok, err, Err, objidlist_max}
use kogmo_rtdb.Search.{Query, IdList, searchinfo}
use kogmo_rtdb.Remove.{ids}

-- The inner loops, which look for one id in the other list.
unfoldable pub contains : List ℕ → ℕ → Bool
contains [] x = false
contains (y ∷ ys) x = if y == x then true else contains ys x

-- The outer loops: the ids of the first list that are not in the second, in their order.
unfoldable pub missing : List ℕ → List ℕ → List ℕ
missing [] known = []
missing (x ∷ xs) known = let rest = missing xs known in if contains known x then rest else x ∷ rest

-- The search, as of now, that fills `newidlist`, an array on the stack: an error other than NOTFOUND, or its ids.
unfoldable pub current : LocalData → Query → IdList → Result (List ℕ)
current db q stack =
    let found = searchinfo db (record q { ts = 0 }) (some stack) 0 in
    let listed : List ℕ = elim found.1 [ none ↦ [] | some l ↦ ids (objidlist_max + 1) l 0 ] in
    elim found.0 [
      | ok n ↦ ok listed
      | err e ↦ elim e [ Err.notfound ↦ ok listed | other ↦ err other ]
    ]

-- What a call returns: its code, and the three lists of the caller.
pub record Lists : Type 0 where
  pub code : Result ℕ
  pub known : List ℕ
  pub added : List ℕ
  pub deleted : List ℕ

-- The lists after the comparison with what is there now.
unfoldable pub compare_lists : List ℕ → List ℕ → Lists
compare_lists new known =
    let added = missing new known in
    let deleted = missing known new in
    record {
      code = ok (length added + length deleted);
      known = new;
      added = added;
      deleted = deleted;
    }

-- kogmo_rtdb_obj_searchinfo_lists_nonblocking
unfoldable pub searchinfo_lists_nonblocking : LocalData → Query → IdList → Lists → Lists
searchinfo_lists_nonblocking db q stack s = elim (current db q stack) [
  | err e ↦ record s { code = err e }
  | ok new ↦ compare_lists new s.known
]

-- kogmo_rtdb_obj_searchinfo_waitnext_until: `rounds` are the databases that the call finds at its
-- start and whenever it is woken up, each with what `newidlist` holds then; after them the time is over.
unfoldable pub searchinfo_waitnext_until : List (LocalData × IdList) → Query → Lists → Lists
searchinfo_waitnext_until [] q s = record s { code = err Err.timeout }
searchinfo_waitnext_until ((db, stack) ∷ rounds) q s = elim (current db q stack) [
  | err e ↦ record s { code = err e }
  | ok new ↦
      let r = compare_lists new s.known in
      let next = searchinfo_waitnext_until rounds q (record s { added = []; deleted = [] }) in
      if (length r.added == 0) && (length r.deleted == 0) then next else r
]
