-- ===== src/Lockless.antt =====
-- The lockless protocol of one history slot, word by word (rtdb/kogmo_rtdb_objdata.c): steps 4 to 6
-- of kogmo_rtdb_obj_writedata against the copy in kogmo_rtdb_obj_readdata__mode. A commit time is
-- written and read in two halves (COPY_INT64_HIGHFIRST and _LOWFIRST, rtdb/kogmo_rtdb_helpers.h).
-- One writer commits again and again, since the writers of an object exclude each other by
-- ownership or by its lock; one reader looks at the slot at any time. Single words are read and
-- written at once, in the order of the program.
pub mod Invariant
pub mod Safety
use kogmo_rtdb.Base.{
  ℕ, zero, suc, ◌+◌, ◌*◌, ◌/◌, ◌%◌, ◌^◌, ◌≡◌, ◌==◌, ◌&&◌, Bool, if◌then◌else◌, List, [], ◌∷◌,
}

abbrev pub high : ℕ → ℕ
high ts = ts / 2 ^ 32

abbrev pub low : ℕ → ℕ
low ts = ts % 2 ^ 32

-- The slot in the heap: the two halves of `committed_ts`, and the other words of the block.
pub record Slot : Type 0 where
  pub hi : ℕ
  pub lo : ℕ
  pub words : ℕ → ℕ

-- Where the writer is. `valid c`: commit `c` is complete. `invalid_high c`: the high half is 0 again.
-- `copying c`: both halves are 0, the next commit is copied. `valid_low c`: of commit `c` all is there
-- but the high half.
pub data Writer : Type 0 where
  valid invalid_high copying valid_low : ℕ → Writer

-- Where the reader is: `scan_ts` in halves, the words copied so far, and `final_ts` in halves.
pub data Reader : Type 0 where
  start : Reader
  scan_high : ℕ → Reader
  copy : ℕ → ℕ → List (ℕ × ℕ) → Reader
  final_low : ℕ → ℕ → List (ℕ × ℕ) → ℕ → Reader
  final : ℕ → ℕ → List (ℕ × ℕ) → ℕ → ℕ → Reader

pub record System : Type 0 where
  pub slot : Slot
  pub writer : Writer
  pub reader : Reader

abbrev pub store : (ℕ → ℕ) → ℕ → ℕ → ℕ → ℕ
store words i v j = if i == j then v else words j

-- `time c` is the time of the slot's commit number `c`, and `block c` what the slot holds after it.
module _ (time : ℕ → ℕ) (block : ℕ → ℕ → ℕ) where
  -- Steps 4, 5 and 6 of a commit. Words are copied in any order, and may be written again (step 5b
  -- writes `data_ts`).
  pub data WriterStep (s : Slot) : Writer → Slot → Writer → Type 0 where
    clear_high : {c : ℕ} → WriterStep s (valid c) (record s { hi = 0 }) (invalid_high c)
    clear_low : {c : ℕ} → WriterStep s (invalid_high c) (record s { lo = 0 }) (copying c)
    copy_word :
        {c : ℕ} (i v : ℕ)
        → WriterStep s (copying c) (record s { words = store s.words i v }) (copying c)
    set_low :
        {c : ℕ}
        → ((i : ℕ) → s.words i ≡ block (suc c) i)
        → WriterStep s (copying c) (record s { lo = low (time (suc c)) }) (valid_low (suc c))
    set_high : {c : ℕ} → WriterStep s (valid_low c) (record s { hi = high (time c) }) (valid c)

  -- The reader: COPY_INT64_HIGHFIRST of `scan_ts`, memcpy, COPY_INT64_LOWFIRST of `final_ts`.
  pub data ReaderStep (s : Slot) : Reader → Reader → Type 0 where
    read_high : ReaderStep s start (scan_high s.hi)
    read_low : {h : ℕ} → ReaderStep s (scan_high h) (copy h s.lo [])
    load_word :
        {h l : ℕ} {b : List (ℕ × ℕ)} (i : ℕ)
        → ReaderStep s (copy h l b) (copy h l ((i, s.words i) ∷ b))
    read_final_low : {h l : ℕ} {b : List (ℕ × ℕ)} → ReaderStep s (copy h l b) (final_low h l b s.lo)
    read_final_high :
        {h l l' : ℕ} {b : List (ℕ × ℕ)} → ReaderStep s (final_low h l b l') (final h l b l' s.hi)

  -- An interleaving of the two, from a slot that holds commit 0.
  pub data Reach : System → Type 0 where
    begin : Reach (record {
      slot = record { hi = high (time 0); lo = low (time 0); words = block 0 };
      writer = valid 0;
      reader = start;
    })
    write :
        {s s' : Slot} {w w' : Writer} {r : Reader}
        → Reach (record { slot = s; writer = w; reader = r })
        → WriterStep s w s' w'
        → Reach (record { slot = s'; writer = w'; reader = r })
    read :
        {s : Slot} {w : Writer} {r r' : Reader}
        → Reach (record { slot = s; writer = w; reader = r })
        → ReaderStep s r r'
        → Reach (record { slot = s; writer = w; reader = r' })
