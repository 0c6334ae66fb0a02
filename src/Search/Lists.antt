-- ===== src/Search/Lists.antt =====
-- The search for all matches, into a caller's list.
use kogmo_rtdb.Base.{
  ℕ, ◌+◌, ◌-◌, ◌≤◌, ◌<◌, ◌≡◌, refl, ◌∙◌, ap, arith, List, [], ◌∷◌, some, ltb, if◌then◌else◌, length,
  Bool-cases, inl, inr,
}
use kogmo_rtdb.Types.{LocalData, ObjInfo, ok, objidlist_max}
use kogmo_rtdb.Search.{
  Query, Hits, IdList, put_id, skips, hit, search_loop, search_end, searchinfo_full,
}
use kogmo_rtdb.Search.Nth.{matching, loop-skip, loop-go}

-- The list after the matches `ms` were entered, the first of them as match number `n`.
abbrev pub fill : IdList → ℕ → List ObjInfo → IdList
fill l n [] = l
fill l n (m ∷ ms) =
    fill (if ltb (n + 1) objidlist_max then put_id l (n + 1 - 1) m.oid else l) (n + 1) ms

abbrev with_list : ℕ → ℕ → IdList → Hits
with_list n oid l = record { nfound = n; oid = oid; idlist = some l }

-- With nth = 0 the scan never stops early.
search_loop-all :
    (q : Query) (n oid : ℕ) (l : IdList) (ms : List ObjInfo)
    → let r = search_loop q 0 ms (with_list n oid l) in
      (r.nfound ≡ n + length (matching q ms)) × (r.idlist ≡ some (fill l n (matching q ms)))
unfolding search_loop hit
search_loop-all q n oid l [] = (omega arith, refl)
search_loop-all q n oid l (x ∷ ms) = elim (Bool-cases (skips q x)) [
  | inl skip ↦ rw (loop-skip q 0 x ms (with_list n oid l) skip, skip) (search_loop-all q n oid l ms)
  | inr take ↦
      let l' : IdList = if ltb (n + 1) objidlist_max then put_id l (n + 1 - 1) x.oid else l in
      let r = search_loop-all q (n + 1) x.oid l' ms in
      rw (loop-go q 0 x ms (with_list n oid l) take (ground arith), take) (r.0 ∙ omega arith, r.1)
]

-- The entry before the last is never written.
fill_beyond :
    (l : IdList) (n j : ℕ) (ms : List ObjInfo) → objidlist_max ≤ j + 1 → fill l n ms j ≡ l j
fill_beyond l n j [] p = refl
fill_beyond l n j (m ∷ ms) p =
    fill_beyond (if ltb (n + 1) objidlist_max then put_id l (n + 1 - 1) m.oid else l) (n + 1) j ms p
    ∙ ground arith

end_list :
    (db : LocalData) (q : Query) (s : Hits) (c : ℕ) (l : IdList)
    → 0 < c
    → s.nfound ≡ c
    → s.idlist ≡ some l
    → search_end db q 0 s
      ≡ (ok c, some (put_id l (if ltb objidlist_max c then objidlist_max else c) 0))
unfolding search_end
end_list db q s c l p e f = ground arith

fill_beyond_at :
    (l : IdList) (ms : List ObjInfo)
    → length ms ≡ objidlist_max
    → put_id
        (fill l 0 ms)
        (if ltb objidlist_max (length ms) then objidlist_max else length ms)
        0
        (objidlist_max - 1)
      ≡ l (objidlist_max - 1)
fill_beyond_at l ms all = ground (arith, fill_beyond l 0 (objidlist_max - 1) ms)

-- The list that a search for `c` matches `ms` leaves.
filled : IdList → List ObjInfo → IdList
filled l ms =
    put_id (fill l 0 ms) (if ltb objidlist_max (length ms) then objidlist_max else length ms) 0

search_list :
    (db : LocalData) (q : Query) (l : IdList)
    → 0 < length (matching q db.objmeta)
    → searchinfo_full db q (some l) 0
      ≡ (ok (length (matching q db.objmeta)), some (filled l (matching q db.objmeta)))
unfolding searchinfo_full filled
search_list db q l p =
    let r = search_loop-all q 0 0 l db.objmeta in end_list db q _ _ _ p (r.0 ∙ omega arith) r.1

-- With exactly as many matches as the list is meant to hold, the entry of the last one keeps what
-- the caller had there.
pub searchinfo_full-lost :
    (db : LocalData) (q : Query) (l : IdList)
    → length (matching q db.objmeta) ≡ objidlist_max
    → (l' : IdList) × (searchinfo_full db q (some l) 0 ≡ (ok objidlist_max, some l'))
      × (l' (objidlist_max - 1) ≡ l (objidlist_max - 1))
unfolding filled
searchinfo_full-lost db q l all = (
  filled l (matching q db.objmeta),
  search_list db q l (omega arith) ∙ ap (λ n. (ok n, some (filled l (matching q db.objmeta)))) all,
  fill_beyond_at l (matching q db.objmeta) all,
)
