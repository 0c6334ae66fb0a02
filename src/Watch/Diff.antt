-- ===== src/Watch/Diff.antt =====
-- The comparison of two id lists.
use kogmo_rtdb.Base.{
  ℕ, zero, suc, ◌+◌, ◌≡◌, ◌≢◌, refl, sym, ap, ◌∙◌, arith, Bool, true, false, ◌==◌, ◌&&◌, not,
  if◌then◌else◌, List, [], ◌∷◌, length, get_elem?, some, inl, inr, Bool-cases, subst, ◌⊎◌,
}
use mathlib.Core.Bool.{true≢false}
use kogmo_rtdb.Types.{LocalData, Result, ok, err, Err}
use kogmo_rtdb.Search.{Query, IdList}
use kogmo_rtdb.Watch.{
  contains, missing, current, Lists, compare_lists, searchinfo_lists_nonblocking,
  searchinfo_waitnext_until,
}

contains-missing :
    (xs known : List ℕ) (x : ℕ)
    → contains (missing xs known) x ≡ (contains xs x && not (contains known x))
unfolding contains missing
contains-missing [] known x = refl
contains-missing (y ∷ ys) known x = elim (Bool-cases (y == x)) [
  | inl here ↦
      let at_x : contains known y ≡ contains known x = ap (contains known) (ground arith) in
      elim (Bool-cases (contains known x)) [
        | inl old ↦
            rw (at_x ∙ old, here, old)
              (contains-missing ys known x ∙ rw old (and-false (contains ys x)))
        | inr new ↦ rw (at_x ∙ new, here, new, contains) refl
      ]
  | inr there ↦ elim (Bool-cases (contains known y)) [
    | inl old ↦ rw (old, there) (contains-missing ys known x)
    | inr new ↦ rw (new, there, contains) (contains-missing ys known x)
  ]
]
  where
    and-false : (b : Bool) → (b && false) ≡ false
    and-false true = refl
    and-false false = refl

missing-none :
    (xs known : List ℕ)
    → ((x : ℕ) → contains xs x ≡ true → contains known x ≡ true)
    → missing xs known ≡ []
unfolding contains missing
missing-none [] known all = refl
missing-none (y ∷ ys) known all =
    let here : contains known y ≡ true = all y (ground arith) in
    rw here (missing-none ys known (λ x e. all x (behind x e)))
  where
    behind : (x : ℕ) → contains ys x ≡ true → (if y == x then true else contains ys x) ≡ true
    behind x e = ground arith

-- A comparison puts every id into the list of added ones that is there now and was not known, and
-- into the list of deleted ones that was known and is not there now; its value is the number of
-- entries of the two. The known ids are what is there afterwards, so that a comparison that follows
-- while nothing changes reports nothing. The search found no error but that nothing matches.
pub lists_nonblocking-diff :
    (db : LocalData) (q : Query) (stack : IdList) (s : Lists) (new : List ℕ)
    → current db q stack ≡ ok new
    → let r = searchinfo_lists_nonblocking db q stack s in
      ((x : ℕ) → contains r.added x ≡ (contains new x && not (contains s.known x)))
      × ((x : ℕ) → contains r.deleted x ≡ (contains s.known x && not (contains new x)))
      × (r.code ≡ ok (length r.added + length r.deleted))
      × (r.known ≡ new)
      × ((searchinfo_lists_nonblocking db q stack r).code ≡ ok 0)
unfolding searchinfo_lists_nonblocking compare_lists
lists_nonblocking-diff db q stack s new e = subst Reported (sym (compared s)) (
  contains-missing new s.known,
  contains-missing s.known new,
  refl,
  refl,
  ap (λ r. r.code) (compared (compare_lists new s.known)) ∙ rw none_missing refl,
)
  where
    Reported : Lists → Type 0
    Reported r =
        ((x : ℕ) → contains r.added x ≡ (contains new x && not (contains s.known x)))
        × ((x : ℕ) → contains r.deleted x ≡ (contains s.known x && not (contains new x)))
        × (r.code ≡ ok (length r.added + length r.deleted))
        × (r.known ≡ new)
        × ((searchinfo_lists_nonblocking db q stack r).code ≡ ok 0)

    compared : (r : Lists) → searchinfo_lists_nonblocking db q stack r ≡ compare_lists new r.known
    compared r = rw (e, searchinfo_lists_nonblocking) refl

    none_missing : missing new new ≡ []
    none_missing = missing-none new new (λ x c. c)

Result-cases : (r : Result (List ℕ)) → ((e : Err) × (r ≡ err e)) ⊎ ((new : List ℕ) × (r ≡ ok new))
Result-cases (ok new) = inr (new, refl)
Result-cases (err e) = inl (e, refl)

is_ok : Result ℕ → Bool
is_ok (ok n) = true
is_ok (err e) = false

count : Result ℕ → ℕ
count (ok n) = n
count (err e) = 0

not-both : (a b : ℕ) → ((a == 0) && (b == 0)) ≡ false → a + b ≢ 0
not-both zero zero e = absurd (true≢false e)
not-both zero (suc b) e = ground arith
not-both (suc a) b e = ground arith

err-absurd {κ} : {C : Type κ} (e : Err) (n : ℕ) → err e ≡ ok n → C
unfolding is_ok
err-absurd e n p = absurd (true≢false (sym (ap is_ok p)))

-- A call that waits and answers a number has found a change: the number is not 0, and the lists are
-- those of the comparison with one of the databases that it found when it was woken up.
pub waitnext-changed :
    (rounds : List (LocalData × IdList)) (q : Query) (s : Lists) (n : ℕ)
    → (searchinfo_waitnext_until rounds q s).code ≡ ok n
    → (n ≢ 0)
      × (i : ℕ) × (db : LocalData) × (stack : IdList) × (new : List ℕ) × (get_elem? rounds i
          ≡ some (db, stack))
      × (current db q stack ≡ ok new)
      × (searchinfo_waitnext_until rounds q s ≡ compare_lists new s.known)
unfolding searchinfo_waitnext_until compare_lists count
waitnext-changed [] q s n e = err-absurd Err.timeout n e
waitnext-changed ((db, stack) ∷ rounds) q s n e = elim (Result-cases (current db q stack)) [
  | inl (x, failed) ↦ err-absurd x n (rw (failed, searchinfo_waitnext_until) at e)
  | inr (new, found) ↦ elim (Bool-cases (unchanged new)) [
    | inl same ↦
        let rest = record s { added = []; deleted = [] } in
        let path : searchinfo_waitnext_until ((db, stack) ∷ rounds) q s
            ≡ searchinfo_waitnext_until rounds q rest =
          rw (found, same, searchinfo_waitnext_until) refl in
        let (pos, i, d, arr, l, at_i, now, eq) =
          waitnext-changed rounds q rest n (ap (λ r. r.code) (sym path) ∙ e) in
        (pos, suc i, d, arr, l, at_i, now, path ∙ eq)
    | inr changed ↦
        let path : searchinfo_waitnext_until ((db, stack) ∷ rounds) q s
            ≡ compare_lists new s.known =
          rw (found, changed, searchinfo_waitnext_until) refl in
        (
          some-reported new n changed (ap (λ r. r.code) (sym path) ∙ e),
          0,
          db,
          stack,
          new,
          refl,
          found,
          path,
        )
  ]
]
  where
    unchanged : List ℕ → Bool
    unchanged new = (length (missing new s.known) == 0) && (length (missing s.known new) == 0)

    some-reported :
        (new : List ℕ) (k : ℕ)
        → unchanged new ≡ false
        → ok (length (missing new s.known) + length (missing s.known new)) ≡ ok k
        → k ≢ 0
    some-reported new k changed same none_left =
        not-both (length (missing new s.known)) (length (missing s.known new)) changed
          (ap count same ∙ none_left)
