-- ===== src/TimeIdx/File.antt =====
-- The time index in a file: what is read back after it was written.
use kogmo_rtdb.Base.{
  ℕ, zero, suc, ◌+◌, ◌≤◌, ◌<◌, ◌≡◌, ℤ, pos, negsuc, is_neg, refl, sym, ap, ◌∙◌, arith, true, false,
  ◌||◌, ltb, if◌then◌else◌, some, Bool-cases, inl, inr, length,
}
use kogmo_rtdb.Types.{ok, err, Err}
use kogmo_rtdb.Floats.{FloatOps}
use kogmo_rtdb.TimeIdx.{
  IndexEntry, TimeIdx, IndexFile, first_entries, read_entry, dec_u32, inc_u32, slot_of, lookup,
  write, init_file,
}
use kogmo_rtdb.TimeIdx.Add.{IsIndex, lookup_lem, slot_of-same}

length-first_entries : (n i : ℕ) (entry : ℕ → IndexEntry) → length (first_entries n i entry) ≡ n
length-first_entries zero i entry = refl
length-first_entries (suc n) i entry = ap suc (length-first_entries n (suc i) entry)

read_entry-first_entries :
    (n i j : ℕ) (entry : ℕ → IndexEntry)
    → j < n
    → read_entry (first_entries n i entry) j ≡ entry (i + j)
read_entry-first_entries zero i j entry h = absurd (omega arith)
read_entry-first_entries (suc n) i zero entry h = ap entry (omega arith)
read_entry-first_entries (suc n) i (suc j) entry h =
    read_entry-first_entries n (suc i) j entry (omega arith) ∙ ap entry (omega arith)

lookup_none :
    (fl : FloatOps) (x : TimeIdx) (t : ℕ)
    → (ltb x.last_ts t || is_neg (slot_of fl x t)) ≡ true
    → lookup fl x t ≡ some (err Err.notfound)
unfolding lookup
lookup_none fl x t h = rw h refl

-- The index that is read back has the same header and the same entries up to the last one.
record SameIndex (x y : TimeIdx) : Type 0 where
  same_first : y.first_ts ≡ x.first_ts
  same_last_ts : y.last_ts ≡ x.last_ts
  same_interval : y.interval ≡ x.interval
  same_last : y.last_entry ≡ x.last_entry
  same_entry : (j : ℕ) → j ≤ x.last_entry → y.entry j ≡ x.entry j

lookup-SameIndex :
    (fl : FloatOps) (x y : TimeIdx) (t : ℕ)
    → SameIndex x y
    → IsIndex x
    → IsIndex y
    → lookup fl y t ≡ lookup fl x t
lookup-SameIndex fl x y t s is is' = go (slot_of fl x t) refl
  where
    slots : slot_of fl y t ≡ slot_of fl x t
    slots = slot_of-same fl x y t s.same_first s.same_interval

    go : (i : ℤ) → slot_of fl x t ≡ i → lookup fl y t ≡ lookup fl x t
    go (negsuc n) e =
        let below : is_neg (slot_of fl x t) ≡ true = rw e refl in
        lookup_none fl y t (rw (slots ∙ e) (ground arith))
        ∙ sym (lookup_none fl x t (rw e (ground arith)))
    go (pos j) e = elim (Bool-cases (ltb x.last_ts t)) [
      | inl late ↦
          lookup_none fl y t (rw (s.same_last_ts, late) refl)
          ∙ sym (lookup_none fl x t (rw late refl))
      | inr in_time ↦
          lookup_lem fl y t j (ground (arith, s.same_last_ts)) (slots ∙ e)
            (omega (arith, is'.within, is'.room)) (omega (arith, is'.within, is'.bound))
          ∙ ap (λ z. some (ok z))
              (elim (Bool-cases (ltb x.last_entry j)) [
                | inl behind ↦
                    rw (s.same_last, behind)
                      (ap (λ z. z.off) (s.same_entry x.last_entry (omega arith)))
                | inr inside ↦
                    rw (s.same_last, inside) (ap (λ z. z.off) (s.same_entry j (ground arith)))
              ])
          ∙ sym (
              lookup_lem fl x t j (ground arith) e (omega (arith, is.within, is.room))
                (omega (arith, is.within, is.bound)))
    ]

-- An index that is in order, has changed, and has the type of this program comes back from its file:
-- reading what was written succeeds, gives an index in order, and every lookup answers the same.
pub lookup-write :
    (fl : FloatOps) (x : TimeIdx) (t : ℕ)
    → IsIndex x
    → x.changed ≡ true
    → x.idxtype ≡ 1
    → x.with_timestamps ≡ true
    → (f : IndexFile) × (y : TimeIdx) × ((write x).0 ≡ some f)
      × (init_file f ≡ some y)
      × IsIndex y
      × (lookup fl y t ≡ lookup fl x t)
unfolding write init_file
lookup-write fl x t is changed idxtype stamped = (
  file,
  back,
  rw changed refl,
  rw (idxtype, stamped) refl,
  back-IsIndex,
  lookup-SameIndex fl x back t same is back-IsIndex,
)
  where
    file : IndexFile
    file = record {
      idxtype = x.idxtype;
      with_timestamps = x.with_timestamps;
      interval = x.interval;
      first_ts = x.first_ts;
      last_ts = x.last_ts;
      last_entry = x.last_entry;
      entries = first_entries (inc_u32 x.last_entry) 0 x.entry;
    }

    back : TimeIdx
    back = record {
      idxtype = file.idxtype;
      with_timestamps = file.with_timestamps;
      changed = false;
      interval = file.interval;
      first_ts = file.first_ts;
      last_ts = file.last_ts;
      last_entry =
          if ltb (dec_u32 (length file.entries)) file.last_entry
          then dec_u32 (length file.entries)
          else file.last_entry;
      max_entries = length file.entries;
      entry = read_entry file.entries;
      allocated = length file.entries;
    }

    count : length file.entries ≡ x.last_entry + 1
    count =
        length-first_entries (inc_u32 x.last_entry) 0 x.entry ∙ omega (arith, is.within, is.bound)

    last : back.last_entry ≡ x.last_entry
    last =
        let wraps : dec_u32 (length file.entries) ≡ x.last_entry =
          omega (arith, count, is.within, is.bound) in
        let none_above : ltb x.last_entry x.last_entry ≡ false = ground arith in
        rw (wraps, none_above) refl

    back-IsIndex : IsIndex back
    back-IsIndex = record {
      started = is.started;
      within = omega (arith, last, count);
      room = omega arith;
      bound = omega (arith, count, is.within, is.bound);
    }

    same : SameIndex x back
    same = record {
      same_first = refl;
      same_last_ts = refl;
      same_interval = refl;
      same_last = last;
      same_entry = λ j le.
          read_entry-first_entries (inc_u32 x.last_entry) 0 j x.entry
            (omega (arith, is.within, is.bound))
          ∙ ap x.entry (omega arith);
    }
