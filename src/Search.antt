-- ===== src/Search.antt =====
-- The search for objects by their metadata (rtdb/kogmo_rtdb_objmeta.c): _kogmo_rtdb_obj_searchinfo
-- from the point on where the name has been understood, and the functions that call it. Regular
-- expressions are the C library's; a query carries the test that its expression makes.
pub mod Nth
pub mod Lists
use kogmo_rtdb.Base.{
  ℕ, zero, suc, ◌+◌, ◌-◌, Bool, true, false, ◌&&◌, ◌||◌, not, ◌==◌, ltb, leb, if◌then◌else◌, List,
  [], ◌∷◌, Option, none, some,
}
use kogmo_rtdb.Types.{LocalData, ObjInfo, Name, Result, ok, err, Err, objidlist_max}
use kogmo_rtdb.Meta.{findmeta_byid}

-- What the name parameter asks for: nothing (NULL or ""), this name, or a match of an expression.
pub data NameTest : Type 0 where
  any : NameTest
  exactly : Name → NameTest
  regex : (Name → Bool) → NameTest

pub record Query : Type 0 where
  pub name : NameTest
  pub otype : ℕ
  pub parent_oid : ℕ
  pub proc_oid : ℕ
  pub ts : ℕ
  pub includedeleted : Bool

unfoldable pub name_eq : Name → Name → Bool
name_eq [] [] = true
name_eq (a ∷ as') (b ∷ bs) = a == b && name_eq as' bs
name_eq _ _ = false

unfoldable pub name_matches : NameTest → Name → Bool
name_matches any n = true
name_matches (exactly q) n = name_eq q n
name_matches (regex test) n = test n

-- The `continue` conditions of the scan, in their order.
unfoldable pub skips : Query → ObjInfo → Bool
skips q m =
    if (m.oid == 0) || (m.created_ts == 0)
    then true
    else if not (m.otype == q.otype) && not (q.otype == 0)
    then true
    else if not (m.parent_oid == q.parent_oid) && not (q.parent_oid == 0)
    then true
    else if not (m.created_proc == q.proc_oid) && not (q.proc_oid == 0)
    then true
    else if not (m.deleted_ts == 0)
        && not q.includedeleted
        && (ltb m.deleted_ts q.ts || (q.ts == 0))
    then true
    else if ltb q.ts m.created_ts && not (q.ts == 0)
    then true
    else not (name_matches q.name m.name)

-- A caller's kogmo_rtdb_objid_list_t: the contents of its OBJIDLIST_MAX + 1 entries.
abbrev pub IdList : Type 0
IdList = ℕ → ℕ

abbrev pub put_id : IdList → ℕ → ℕ → IdList
put_id l i x = λ j. if j == i then x else l j

-- The scan's variables: `nfound`, `oid` and the list.
pub record Hits : Type 0 where
  pub nfound : ℕ
  pub oid : ℕ
  pub idlist : Option IdList

-- A match is counted, and entered into the list if one is given and has space.
unfoldable pub hit : ObjInfo → Hits → Hits
hit m s = elim s.idlist [
  | none ↦ record { nfound = s.nfound + 1; oid = m.oid; idlist = none }
  | some l ↦ record {
    nfound = s.nfound + 1;
    oid = m.oid;
    idlist =
        some (if ltb (s.nfound + 1) objidlist_max then put_id l (s.nfound + 1 - 1) m.oid else l);
  }
]

-- The scan over the slots, which stops after the nth match.
unfoldable pub search_loop : Query → ℕ → List ObjInfo → Hits → Hits
search_loop q nth [] s = s
search_loop q nth (m ∷ ms) s = elim (skips q m) [
  | true ↦ search_loop q nth ms s
  | false ↦ elim (nth == s.nfound + 1) [ true ↦ hit m s | false ↦ search_loop q nth ms (hit m s) ]
]

-- The code for "no match": a parent that is not there is an invalid parameter.
unfoldable pub not_found : LocalData → Query → Err
not_found db q = if q.parent_oid == 0 then Err.notfound else elim (findmeta_byid db q.parent_oid) [
  | none ↦ Err.invalid
  | some (i, p) ↦
      if not (p.deleted_ts == 0) && (ltb q.ts p.deleted_ts || (q.ts == 0))
      then Err.invalid
      else Err.notfound
]

-- What follows the scan: an id or a count, and the list with its terminating 0.
unfoldable pub search_end : LocalData → Query → ℕ → Hits → Result ℕ × Option IdList
search_end db q nth s =
    if s.nfound == 0
    then (err (not_found db q), elim s.idlist [ none ↦ none | some l ↦ some (put_id l 0 0) ])
    else elim s.idlist [
      | none ↦ (if nth == s.nfound then ok s.oid else err Err.notfound, none)
      | some l ↦ (
        ok s.nfound,
        some (put_id l (if ltb objidlist_max s.nfound then objidlist_max else s.nfound) 0),
      )
    ]

unfoldable pub searchinfo_full : LocalData → Query → Option IdList → ℕ → Result ℕ × Option IdList
searchinfo_full db q idlist nth =
    search_end db q nth
      (search_loop q nth db.objmeta (record { nfound = 0; oid = 0; idlist = idlist }))

-- A name such as "~(42)" asks for the object with this id.
unfoldable pub search_oid : LocalData → ℕ → Option IdList → ℕ → Result ℕ × Option IdList
search_oid db oid idlist nth = elim (findmeta_byid db oid) [
  | none ↦ (err Err.notfound, idlist)
  | some (i, m) ↦ elim idlist [
    | none ↦ (if nth == 1 then ok oid else err Err.notfound, none)
    | some l ↦ (ok 1, some (put_id (put_id l 0 oid) 1 0))
  ]
]

-- kogmo_rtdb_obj_searchinfo (and _nolock, which differs in the lock alone), and _deleted.
unfoldable pub searchinfo : LocalData → Query → Option IdList → ℕ → Result ℕ × Option IdList
searchinfo db q idlist nth = searchinfo_full db (record q { includedeleted = false }) idlist nth

unfoldable pub searchinfo_deleted : LocalData → Query → Option IdList → ℕ → Result ℕ × Option IdList
searchinfo_deleted db q idlist nth =
    searchinfo_full db (record q { includedeleted = true }) idlist nth
