-- ===== src/Lockless/Invariant.antt =====
-- What holds in every state of the protocol.
use kogmo_rtdb.Base.{
  ℕ, ◌+◌, ◌*◌, ◌^◌, ◌≤◌, ◌<◌, ◌≡◌, ◌≢◌, refl, sym, ◌∙◌, subst, arith, ◌==◌, Bool-cases, inl, inr,
  List, [], ◌∷◌,
}
use kogmo_rtdb.Lockless.{
  high, low, Slot, Writer, valid, invalid_high, copying, valid_low, Reader, start, scan_high, copy,
  final_low, final, System, WriterStep, clear_high, clear_low, copy_word, set_low, set_high,
  ReaderStep, read_high, read_low, load_word, read_final_low, read_final_high, Reach, begin, write,
  read,
}

-- The newest commit whose low half has been in the slot.
abbrev pub newest : Writer → ℕ
newest (valid c) = c
newest (invalid_high c) = c
newest (copying c) = c
newest (valid_low c) = c

-- The slot holds the words of commit `c`, and the low half of its time.
abbrev pub Holds : Writer → ℕ → Type 0
Holds (valid c) b = c ≡ b
Holds (invalid_high c) b = c ≡ b
Holds (copying c) b = ⊥
Holds (valid_low c) b = c ≡ b

-- All words that were copied are those of one block.
abbrev pub AllFrom : (ℕ → ℕ) → List (ℕ × ℕ) → Type 0
AllFrom d [] = Unit
AllFrom d (x ∷ xs) = (x.1 ≡ d x.0) × AllFrom d xs

-- Everything that is known of a later state of the writer.
pub record Later (w w' : Writer) : Type 0 where
  pub grows : newest w ≤ newest w'
  pub once : (b : ℕ) → b ≤ newest w → Holds w' b → Holds w b

module _ (time : ℕ → ℕ) (block : ℕ → ℕ → ℕ) where
  -- The slot, as the writer left it.
  abbrev pub SlotIs : Slot → Writer → Type 0
  SlotIs s (valid c) =
      (s.hi ≡ high (time c)) × (s.lo ≡ low (time c)) × ((i : ℕ) → s.words i ≡ block c i)
  SlotIs s (invalid_high c) = (s.hi ≡ 0) × (s.lo ≡ low (time c)) × ((i : ℕ) → s.words i ≡ block c i)
  SlotIs s (copying c) = (s.hi ≡ 0) × (s.lo ≡ 0)
  SlotIs s (valid_low c) = (s.hi ≡ 0) × (s.lo ≡ low (time c)) × ((i : ℕ) → s.words i ≡ block c i)

  -- The commit `a` whose high half was read first, and `b` whose low half was read then.
  record Copied (w : Writer) (h l : ℕ) (buf : List (ℕ × ℕ)) : Type 0 where
    a : ℕ
    b : ℕ
    upto : a ≤ b
    known : b ≤ newest w
    high_of : h ≡ high (time a)
    low_of : l ≡ low (time b)
    whole : Holds w b → AllFrom (block b) buf

  -- The same, with `e` whose low half was read after the copy.
  record Compared (w : Writer) (h l : ℕ) (buf : List (ℕ × ℕ)) : Type 0 where
    a : ℕ
    b : ℕ
    e : ℕ
    upto : a ≤ b
    still : b ≤ e
    known : e ≤ newest w
    high_of : h ≡ high (time a)
    low_of : l ≡ low (time b)
    low_again : l ≡ low (time e)
    whole : b ≡ e → AllFrom (block b) buf

  -- What was copied is the block of the commit at the time that was read.
  pub record Intact (h l : ℕ) (buf : List (ℕ × ℕ)) : Type 0 where
    pub commit : ℕ
    pub at_time : time commit ≡ h * 2 ^ 32 + l
    pub words_of : AllFrom (block commit) buf

  abbrev Known : Writer → Reader → Type 0
  Known w start = Unit
  Known w (scan_high h) = h ≢ 0 → (a : ℕ) × (a ≤ newest w) × (h ≡ high (time a))
  Known w (copy h l buf) = h ≢ 0 → l ≢ 0 → Copied w h l buf
  Known w (final_low h l buf l') = h ≢ 0 → l ≢ 0 → l' ≡ l → Compared w h l buf
  Known w (final h l buf l' h') = h ≢ 0 → l ≢ 0 → l' ≡ l → h' ≡ h → Intact h l buf

  Known-Later : {w w' : Writer} (r : Reader) → Later w w' → Known w r → Known w' r
  Known-Later start later k = tt
  Known-Later (scan_high h) later k =
      λ pos. let (a, le, e) = k pos in (a, omega (arith, later.grows), e)
  Known-Later (copy h l buf) later k = λ pos pos'.
      let c = k pos pos' in
      record {
        a = c.a;
        b = c.b;
        upto = c.upto;
        known = omega (arith, later.grows, c.known);
        high_of = c.high_of;
        low_of = c.low_of;
        whole = λ here. c.whole (later.once c.b c.known here);
      }
  Known-Later (final_low h l buf l') later k = λ pos pos' same.
      let c = k pos pos' same in
      record {
        a = c.a;
        b = c.b;
        e = c.e;
        upto = c.upto;
        still = c.still;
        known = omega (arith, later.grows, c.known);
        high_of = c.high_of;
        low_of = c.low_of;
        low_again = c.low_again;
        whole = c.whole;
      }
  Known-Later (final h l buf l' h') later k = k

  WriterStep-Later : {s s' : Slot} {w w' : Writer} → WriterStep time block s w s' w' → Later w w'
  WriterStep-Later clear_high = record { grows = omega arith; once = λ b le h. h }
  WriterStep-Later clear_low = record { grows = omega arith; once = λ b le h. absurd h }
  WriterStep-Later (copy_word i v) = record { grows = omega arith; once = λ b le h. h }
  WriterStep-Later (set_low full) = record {
    grows = omega arith;
    once = λ b le h. absurd (omega arith);
  }
  WriterStep-Later set_high = record { grows = omega arith; once = λ b le h. h }

  WriterStep-SlotIs :
      {s s' : Slot} {w w' : Writer} → WriterStep time block s w s' w' → SlotIs s w → SlotIs s' w'
  WriterStep-SlotIs clear_high i = (refl, i.1, i.2)
  WriterStep-SlotIs clear_low i = (i.0, refl)
  WriterStep-SlotIs (copy_word j v) i = i
  WriterStep-SlotIs (set_low full) i = (i.0, refl, full)
  WriterStep-SlotIs set_high i = (refl, i.1, i.2)

  SlotIs-low : (s : Slot) (w : Writer) → SlotIs s w → s.lo ≢ 0 → s.lo ≡ low (time (newest w))
  SlotIs-low s (valid c) i pos = i.1
  SlotIs-low s (invalid_high c) i pos = i.1
  SlotIs-low s (copying c) i pos = absurd (pos i.1)
  SlotIs-low s (valid_low c) i pos = i.1

  SlotIs-words :
      (s : Slot) (w : Writer) (b : ℕ) → SlotIs s w → Holds w b → (i : ℕ) → s.words i ≡ block b i
  SlotIs-words s (valid c) b i e j = rw (sym e) (i.2 j)
  SlotIs-words s (invalid_high c) b i e j = rw (sym e) (i.2 j)
  SlotIs-words s (copying c) b i e j = absurd e
  SlotIs-words s (valid_low c) b i e j = rw (sym e) (i.2 j)

  SlotIs-high : (s : Slot) (w : Writer) → SlotIs s w → s.hi ≢ 0 → s.hi ≡ high (time (newest w))
  SlotIs-high s (valid c) i pos = i.0
  SlotIs-high s (invalid_high c) i pos = absurd (pos i.0)
  SlotIs-high s (copying c) i pos = absurd (pos i.0)
  SlotIs-high s (valid_low c) i pos = absurd (pos i.0)

  -- A low half that is not 0 is there together with the words.
  Holds-newest : (s : Slot) (w : Writer) → SlotIs s w → s.lo ≢ 0 → Holds w (newest w)
  Holds-newest s (valid c) i pos = refl
  Holds-newest s (invalid_high c) i pos = refl
  Holds-newest s (copying c) i pos = absurd (pos i.1)
  Holds-newest s (valid_low c) i pos = refl

  module _ (grows : (i j : ℕ) → i < j → time i < time j) where
    time-le : (i j : ℕ) → i ≤ j → time i ≤ time j
    time-le i j le = elim (Bool-cases (i == j)) [
      | inl same ↦ let e : i ≡ j = ground arith in rw e (omega arith)
      | inr below ↦ omega (arith, grows i j (ground arith))
    ]

    time-injective : (i j : ℕ) → i ≤ j → time i ≡ time j → i ≡ j
    time-injective i j le e = elim (Bool-cases (i == j)) [
      | inl same ↦ ground arith
      | inr below ↦ absurd (omega (arith, e, grows i j (ground arith)))
    ]

    -- The high half was read of one commit before the copy, and of a later one after it: commits
    -- between these have it too.
    Intact-Compared :
        (w : Writer) (h l : ℕ) (buf : List (ℕ × ℕ))
        → Compared w h l buf
        → h ≡ high (time (newest w))
        → Intact h l buf
    Intact-Compared w h l buf c e =
        let low_bound = time-le c.a c.b c.upto in
        let mid = time-le c.b c.e c.still in
        let up_bound = time-le c.e (newest w) c.known in
        let same : time c.b ≡ time c.e =
          omega (arith, c.high_of, c.low_of, c.low_again, e, low_bound, mid, up_bound) in
        record {
          commit = c.b;
          at_time = omega (arith, c.high_of, c.low_of, e, low_bound, mid, up_bound);
          words_of = c.whole (time-injective c.b c.e c.still same);
        }

    ReaderStep-Known :
        {s : Slot} (w : Writer) {r r' : Reader}
        → SlotIs s w
        → ReaderStep time block s r r'
        → Known w r
        → Known w r'
    ReaderStep-Known {s} w i read_high k = λ pos. (newest w, omega arith, SlotIs-high s w i pos)
    ReaderStep-Known {s} w i read_low k = λ pos pos'.
        let (a, le, e) = k pos in
        record {
          a = a;
          b = newest w;
          upto = le;
          known = omega arith;
          high_of = e;
          low_of = SlotIs-low s w i pos';
          whole = λ here. tt;
        }
    ReaderStep-Known {s} w i (load_word j) k = λ pos pos'.
        let c = k pos pos' in
        record {
          a = c.a;
          b = c.b;
          upto = c.upto;
          known = c.known;
          high_of = c.high_of;
          low_of = c.low_of;
          whole = λ here. (SlotIs-words s w c.b i here j, c.whole here);
        }
    ReaderStep-Known {s} w i (read_final_low {l = l}) k = λ pos pos' same.
        let c = k pos pos' in
        let there : s.lo ≢ 0 = λ z. pos' (sym same ∙ z) in
        record {
          a = c.a;
          b = c.b;
          e = newest w;
          upto = c.upto;
          still = c.known;
          known = omega arith;
          high_of = c.high_of;
          low_of = c.low_of;
          low_again = sym same ∙ SlotIs-low s w i there;
          whole = λ last. c.whole (rw last (Holds-newest s w i there));
        }
    ReaderStep-Known {s} w i (read_final_high {h = h} {l = l} {b = buf}) k = λ pos pos' same same'.
        Intact-Compared w h l buf (k pos pos' same)
          (sym same' ∙ SlotIs-high s w i (λ z. pos (sym same' ∙ z)))

    Reach-Known :
        {s : System} → Reach time block s → SlotIs s.slot s.writer × Known s.writer s.reader
    Reach-Known begin = ((refl, refl, λ i. refl), tt)
    Reach-Known (write {w = w} {r = r} rest st) =
        let (i, k) = Reach-Known rest in
        (WriterStep-SlotIs st i, Known-Later r (WriterStep-Later st) k)
    Reach-Known (read {w = w} rest st) =
        let (i, k) = Reach-Known rest in (i, ReaderStep-Known w i st k)

    -- A reader that finds the time unchanged, and neither half of it 0.
    pub Reach-Intact :
        {s : System} {h l : ℕ} {b : List (ℕ × ℕ)}
        → Reach time block s
        → s.reader ≡ final h l b l h
        → h ≢ 0
        → l ≢ 0
        → Intact h l b
    Reach-Intact {s} {h} {l} {b} r done pos pos' =
        subst (Known s.writer) done (Reach-Known r).1 pos pos' refl refl
