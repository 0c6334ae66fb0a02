-- ===== src/Search/Nth.antt =====
-- The search for one object: the nth match, in the order of the slots.
use kogmo_rtdb.Base.{
  ℕ, zero, suc, ◌+◌, ◌≤◌, ◌<◌, ◌≡◌, refl, ◌∙◌, ap, arith, true, false, List, [], ◌∷◌, none, some,
  ◌==◌, ◌||◌, ltb, if◌then◌else◌, get_elem?, length, Bool-cases, Option-cases, inl, inr, ◌≢◌, ◌⊎◌,
  sym, subst,
}
use kogmo_rtdb.Types.{LocalData, ObjInfo, Result, ok, err, Err}
use kogmo_rtdb.Meta.{findmeta_byid}
use kogmo_rtdb.Search.{Query, Hits, skips, hit, search_loop, search_end, searchinfo_full, not_found}

-- The objects that a query matches, in the order of their slots.
abbrev pub matching : Query → List ObjInfo → List ObjInfo
matching q [] = []
matching q (m ∷ ms) = if skips q m then matching q ms else m ∷ matching q ms

module _ (q : Query) (nth : ℕ) (x : ObjInfo) (ms : List ObjInfo) (s : Hits) where
  pub loop-skip : skips q x ≡ true → search_loop q nth (x ∷ ms) s ≡ search_loop q nth ms s
  unfolding search_loop
  loop-skip e = ground arith

  pub loop-stop : skips q x ≡ false → nth ≡ s.nfound + 1 → search_loop q nth (x ∷ ms) s ≡ hit x s
  unfolding search_loop
  loop-stop e n = ground arith

  pub loop-go :
      skips q x ≡ false
      → nth ≢ s.nfound + 1
      → search_loop q nth (x ∷ ms) s ≡ search_loop q nth ms (hit x s)
  unfolding search_loop
  loop-go e n = ground arith

abbrev no_list : ℕ → ℕ → Hits
no_list n oid = record { nfound = n; oid = oid; idlist = none }

-- The scan for the nth match, after n matches, stops at the kth match that is left.
search_loop-nth :
    (q : Query) (nth k n oid : ℕ) (ms : List ObjInfo) (m : ObjInfo)
    → nth ≡ n + suc k
    → get_elem? (matching q ms) k ≡ some m
    → search_loop q nth ms (no_list n oid) ≡ no_list nth m.oid
unfolding hit
search_loop-nth q nth k n oid [] m p e = cc
search_loop-nth q nth k n oid (x ∷ ms) m p e = elim (Bool-cases (skips q x)) [
  | inl skip ↦
      loop-skip q nth x ms (no_list n oid) skip
      ∙ search_loop-nth q nth k n oid ms m p (rw skip at e)
  | inr take ↦
      found q nth k n oid x ms m p take (rw take at e)
        (λ k' p' e'. search_loop-nth q nth k' (n + 1) x.oid ms m p' e')
]
  where
    found :
        (q : Query) (nth k n oid : ℕ) (x : ObjInfo) (ms : List ObjInfo) (m : ObjInfo)
        → nth ≡ n + suc k
        → skips q x ≡ false
        → get_elem? (x ∷ matching q ms) k ≡ some m
        → ((k' : ℕ)
            → nth ≡ n + 1 + suc k'
            → get_elem? (matching q ms) k' ≡ some m
            → search_loop q nth ms (no_list (n + 1) x.oid) ≡ no_list nth m.oid)
        → search_loop q nth (x ∷ ms) (no_list n oid) ≡ no_list nth m.oid
    found q nth zero n oid x ms m p take e go =
        loop-stop q nth x ms (no_list n oid) take (omega arith) ∙ ground arith
    found q nth (suc k) n oid x ms m p take e go =
        loop-go q nth x ms (no_list n oid) take (omega arith) ∙ go k (omega arith) e

-- With too few matches the scan goes through all slots, and counts them.
search_loop-few :
    (q : Query) (nth n oid : ℕ) (ms : List ObjInfo)
    → (nth ≡ 0) ⊎ (n + length (matching q ms) < nth)
    → (search_loop q nth ms (no_list n oid)).nfound ≡ n + length (matching q ms)
unfolding search_loop hit
search_loop-few q nth n oid [] h = omega arith
search_loop-few q nth n oid (x ∷ ms) h = elim (Bool-cases (skips q x)) [
  | inl skip ↦
      rw (loop-skip q nth x ms (no_list n oid) skip, skip)
        (search_loop-few q nth n oid ms (rw skip at h))
  | inr take ↦
      let h' = rw take at h in
      rw (loop-go q nth x ms (no_list n oid) take (ground arith), take)
        (search_loop-few q nth (n + 1) x.oid ms
            (elim h' [ inl e ↦ inl e | inr l ↦ inr (omega arith) ])
          ∙ omega arith)
]

get_elem?-none : (ms : List ObjInfo) (k : ℕ) → get_elem? ms k ≡ none → length ms ≤ k
get_elem?-none [] k e = omega arith
get_elem?-none (x ∷ ms) zero e = cc
get_elem?-none (x ∷ ms) (suc k) e = let r = get_elem?-none ms k e in omega arith

end-hit :
    (db : LocalData) (q : Query) (nth oid : ℕ)
    → 0 < nth
    → search_end db q nth (no_list nth oid) ≡ (ok oid, none)
unfolding search_end
end-hit db q nth oid p = ground arith

end-miss :
    (db : LocalData) (q : Query) (nth : ℕ) (s : Hits)
    → s.idlist ≡ none
    → s.nfound ≢ nth
    → (search_end db q nth s).0 ≡ err (if s.nfound == 0 then not_found db q else Err.notfound)
unfolding search_end
end-miss db q nth s e n = ground arith

idlist-loop :
    (q : Query) (nth n oid : ℕ) (ms : List ObjInfo)
    → (search_loop q nth ms (no_list n oid)).idlist ≡ none
unfolding search_loop hit
idlist-loop q nth n oid [] = refl
idlist-loop q nth n oid (x ∷ ms) =
    ground (arith, idlist-loop q nth n oid ms, idlist-loop q nth (n + 1) x.oid ms)

-- The answer to a search for the (k + 1)th match, in one formula.
pub searchinfo_full-get :
    (db : LocalData) (q : Query) (k : ℕ)
    → (searchinfo_full db q none (suc k)).0 ≡ elim (get_elem? (matching q db.objmeta) k) [
      | none ↦ err (if length (matching q db.objmeta) == 0 then not_found db q else Err.notfound)
      | some m ↦ ok m.oid
    ]
unfolding searchinfo_full
searchinfo_full-get db q k = elim (Option-cases (get_elem? (matching q db.objmeta) k)) [
  | inr (m, e) ↦
      rw (e, search_loop-nth q (suc k) k 0 0 db.objmeta m (omega arith) e)
        (ap (λ r. r.0) (end-hit db q (suc k) m.oid (omega arith)))
  | inl e ↦
      let few = get_elem?-none (matching q db.objmeta) k e in
      let n = search_loop-few q (suc k) 0 0 db.objmeta (inr (omega arith)) in
      rw e (
        end-miss db q (suc k) _ (idlist-loop q (suc k) 0 0 db.objmeta) (omega arith)
        ∙ ap (λ (x : ℕ). err (if x == 0 then not_found db q else Err.notfound)) (n ∙ omega arith))
]

-- The error for a search that nothing matches. A parent that is not in the table is an invalid
-- parameter, and so is one that is deleted, if the search is for the present or for a time before the
-- deletion; for a later time, and below a living parent, nothing was found.
pub data MissError (db : LocalData) (q : Query) : Err → Type 0 where
  no_parent : q.parent_oid ≡ 0 → MissError db q Err.notfound
  unknown_parent :
      q.parent_oid ≢ 0 → findmeta_byid db q.parent_oid ≡ none → MissError db q Err.invalid
  living_parent :
      (i : ℕ) (p : ObjInfo)
      → q.parent_oid ≢ 0
      → findmeta_byid db q.parent_oid ≡ some (i, p)
      → p.deleted_ts ≡ 0
      → MissError db q Err.notfound
  deleted_parent :
      (i : ℕ) (p : ObjInfo)
      → q.parent_oid ≢ 0
      → findmeta_byid db q.parent_oid ≡ some (i, p)
      → p.deleted_ts ≢ 0
      → (q.ts ≡ 0) ⊎ (q.ts < p.deleted_ts)
      → MissError db q Err.invalid
  parent_was_deleted :
      (i : ℕ) (p : ObjInfo)
      → q.parent_oid ≢ 0
      → findmeta_byid db q.parent_oid ≡ some (i, p)
      → p.deleted_ts ≢ 0
      → q.ts ≢ 0
      → p.deleted_ts ≤ q.ts
      → MissError db q Err.notfound

not_found-MissError : (db : LocalData) (q : Query) → MissError db q (not_found db q)
unfolding not_found
not_found-MissError db q = elim (Bool-cases (q.parent_oid == 0)) [
  | inl root ↦ rw (root, not_found) (no_parent (ground arith))
  | inr below ↦ elim (Option-cases (findmeta_byid db q.parent_oid)) [
    | inl missing ↦ rw (below, missing, not_found) (unknown_parent (λ z. ground arith) missing)
    | inr ((i, p), found) ↦ elim (Bool-cases (p.deleted_ts == 0)) [
      | inl lives ↦
          rw (below, found, lives, not_found)
            (living_parent i p (λ z. ground arith) found (ground arith))
      | inr dead ↦ elim (Bool-cases (ltb q.ts p.deleted_ts || (q.ts == 0))) [
        | inl early ↦
            rw (below, found, dead, early, not_found)
              (deleted_parent i p (λ z. ground arith) found (λ z. ground arith) (ground arith))
        | inr late ↦
            rw (below, found, dead, late, not_found)
              (parent_was_deleted i p (λ z. ground arith) found (λ z. ground arith)
                (λ z. ground arith) (ground arith))
      ]
    ]
  ]
]

-- What a search for the match number `k`, counted from 0, answers.
pub data NthAnswer (db : LocalData) (q : Query) (k : ℕ) : Result ℕ → Type 0 where
  found_it :
      (m : ObjInfo) → get_elem? (matching q db.objmeta) k ≡ some m → NthAnswer db q k (ok m.oid)
  too_few :
      length (matching q db.objmeta) ≤ k
      → 0 < length (matching q db.objmeta)
      → NthAnswer db q k (err Err.notfound)
  nothing :
      (e : Err) → length (matching q db.objmeta) ≡ 0 → MissError db q e → NthAnswer db q k (err e)

-- A search for the (k + 1)th match answers the id of the kth matching slot, counted from 0. If some
-- slots match, but too few, it answers that nothing was found. If none does, it answers that the
-- parameters are invalid where the query names a parent that is not in the table, or one that is
-- deleted when the query is for the present or for a time before the deletion; and otherwise that
-- nothing was found.
pub searchinfo_full-nth :
    (db : LocalData) (q : Query) (k : ℕ) → NthAnswer db q k (searchinfo_full db q none (suc k)).0
searchinfo_full-nth db q k =
    let path = searchinfo_full-get db q k in
    elim (Option-cases (get_elem? (matching q db.objmeta) k)) [
      | inr (m, e) ↦ subst (NthAnswer db q k) (sym (path ∙ rw e refl)) (found_it m e)
      | inl e ↦
          let few = get_elem?-none (matching q db.objmeta) k e in
          elim (Bool-cases (length (matching q db.objmeta) == 0)) [
            | inl empty ↦
                subst (NthAnswer db q k) (sym (path ∙ rw (e, empty) refl))
                  (nothing (not_found db q) (ground arith) (not_found-MissError db q))
            | inr some_match ↦
                subst (NthAnswer db q k) (sym (path ∙ rw (e, some_match) refl))
                  (too_few few (ground arith))
          ]
    ]
