-- ===== src/Lockless/Safety.antt =====
-- What a reader gets that finds the time unchanged.
use kogmo_rtdb.Base.{ℕ, zero, suc, ◌+◌, ◌*◌, ◌^◌, ◌<◌, ◌≡◌, ◌≢◌, refl, ap, arith, List, [], ◌∷◌}
use kogmo_rtdb.Lockless.{
  high, low, valid, copying, final_low, final, System, clear_high, clear_low, copy_word, set_low,
  set_high, store, read_high, read_low, load_word, read_final_low, read_final_high, Reach, begin,
  write, read,
}
use kogmo_rtdb.Lockless.Invariant.{AllFrom, Reach-Intact}

module _ (time : ℕ → ℕ) (block : ℕ → ℕ → ℕ) where
  -- A reader that accepts its copy, since it finds the time of the slot unchanged, has copied words of
  -- one commit only, and the time that it reports is that commit's, however its steps and those of the
  -- writer interleave. The times of a slot's commits increase, and neither half of the time that was
  -- read is 0.
  pub copy_intact :
      {s : System} {h l : ℕ} {b : List (ℕ × ℕ)}
      → ((i j : ℕ) → i < j → time i < time j)
      → Reach time block s
      → s.reader ≡ final h l b l h
      → h ≢ 0
      → l ≢ 0
      → (c : ℕ) × (time c ≡ h * 2 ^ 32 + l) × AllFrom (block c) b
  copy_intact grows r done pos pos' =
      let i = Reach-Intact time block grows r done pos pos' in (i.commit, i.at_time, i.words_of)

  -- Without the condition on the low half a copy can be torn. If two commits to a slot follow one
  -- another within the same upper half of the clock, and differ in their first two words only, then
  -- there is an interleaving after which the reader accepts a time with a low half of 0, and holds the
  -- first word of the new block beside the second one of the old.
  pub copy_torn :
      high (time 1) ≡ high (time 0)
      → ((i : ℕ) → block 1 (suc (suc i)) ≡ block 0 (suc (suc i)))
      → (s : System) × Reach time block s
        × (s.reader
            ≡ final (high (time 0)) 0 ((1, block 0 1) ∷ (0, block 1 0) ∷ []) 0 (high (time 0)))
  copy_torn same tail = (_, accepted, ap (final (high (time 0)) 0 copied 0) same)
    where
      copied : List (ℕ × ℕ)
      copied = (1, block 0 1) ∷ (0, block 1 0) ∷ []

      halfway : Reach time block (record {
        slot = record { hi = 0; lo = 0; words = store (block 0) 0 (block 1 0) };
        writer = copying 0;
        reader = final_low (high (time 0)) 0 copied 0;
      })
      halfway =
          let scanned = read (write (write (read begin read_high) clear_high) clear_low) read_low in
          let stored = write scanned (copy_word 0 (block 1 0)) in
          read (read (read stored (load_word 0)) (load_word 1)) read_final_low

      full : (i : ℕ) → store (store (block 0) 0 (block 1 0)) 1 (block 1 1) i ≡ block 1 i
      full zero = refl
      full (suc zero) = refl
      full (suc (suc i)) = ground (arith, tail i)

      accepted : Reach time block (record {
        slot = record {
          hi = high (time 1);
          lo = low (time 1);
          words = store (store (block 0) 0 (block 1 0)) 1 (block 1 1);
        };
        writer = valid 1;
        reader = final (high (time 0)) 0 copied 0 (high (time 1));
      })
      accepted =
          read (write (write (write halfway (copy_word 1 (block 1 1))) (set_low full)) set_high)
            read_final_high
