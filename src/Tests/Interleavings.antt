-- ===== src/Tests/Interleavings.antt =====
-- The theorems on the lockless protocol at a reader that overlaps a commit.
use kogmo_rtdb.Base.{ℕ, zero, suc, ◌+◌, ◌*◌, ◌^◌, ◌≡◌, refl, arith, [], ◌∷◌}
use kogmo_rtdb.Lockless.{
  high, System, valid, final, clear_high, clear_low, copy_word, set_low, set_high, store, read_high,
  read_low, load_word, read_final_low, read_final_high, Reach, begin, write, read,
}
use kogmo_rtdb.Lockless.Invariant.{AllFrom}
use kogmo_rtdb.Lockless.Safety.{copy_intact, copy_torn}

-- A commit every nanosecond from second 4 on, of blocks that differ in two words.
abbrev clock : ℕ → ℕ
clock c = 2 ^ 32 + 7 + c

abbrev striped : ℕ → ℕ → ℕ
striped c zero = c
striped c (suc zero) = c
striped c (suc (suc i)) = 9

-- The reader takes the high half of commit 0, the writer copies commit 1 and sets the low half; then
-- the reader takes that, copies, and looks at the low half again before the writer sets the high one.
overlapped : Reach clock striped (record {
  slot = record { hi = 1; lo = 8; words = store (store (striped 0) 0 1) 1 1 };
  writer = valid 1;
  reader = final 1 8 ((1, 1) ∷ (0, 1) ∷ []) 8 1;
})
overlapped =
    let begun = write (write (read begin read_high) clear_high) clear_low in
    let copied = write (write begun (copy_word 0 1)) (copy_word 1 1) in
    let scanned = read (write copied (set_low full)) read_low in
    let loaded = read (read scanned (load_word 0)) (load_word 1) in
    read (write (read loaded read_final_low) set_high) read_final_high
  where
    full : (i : ℕ) → store (store (striped 0) 0 1) 1 1 i ≡ striped 1 i
    full zero = refl
    full (suc zero) = refl
    full (suc (suc i)) = ground arith

copy_intact_example :
    (c : ℕ) × (clock c ≡ 1 * 2 ^ 32 + 8) × AllFrom (striped c) ((1, 1) ∷ (0, 1) ∷ [])
copy_intact_example =
    copy_intact clock striped (λ i j lt. omega arith) overlapped refl (λ e. omega arith)
      (λ e. omega arith)

copy_torn_example :
    (s : System) × Reach clock striped s
    × (s.reader ≡ final (high (clock 0)) 0 ((1, 0) ∷ (0, 1) ∷ []) 0 (high (clock 0)))
copy_torn_example = copy_torn clock striped refl (λ i. refl)
