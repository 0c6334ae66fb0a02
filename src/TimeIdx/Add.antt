-- ===== src/TimeIdx/Add.antt =====
-- An addition to the time index, and what is looked up after it.
use kogmo_rtdb.Base.{
  ℕ, zero, suc, ◌+◌, ◌-◌, ◌*◌, ◌%◌, ◌^◌, ◌≤◌, ◌<◌, ◌≡◌, ◌≢◌, pos, pos_part, refl, sym, ap, ◌∙◌,
  arith, true, false, ◌||◌, ◌==◌, ltb, leb, if◌then◌else◌, some, Bool-cases, inl, inr, leb→le,
  lt→ltb,
}
use kogmo_rtdb.Types.{ok}
use kogmo_rtdb.Floats.{FloatOps}
use kogmo_rtdb.Time.{timestamp_diff_secs}
use kogmo_rtdb.TimeIdx.{
  TimeIdx, entries_default, entry_size, info_size, dec_u32, inc_u32, as_int, extend, fill, slot_of,
  add, lookup,
}

-- The bound on slots, 77 days at ten entries a second.
abbrev pub slots_max : ℕ
slots_max = 2 ^ 26

-- An index that is not empty, and whose entries lie in its memory.
pub record IsIndex (x : TimeIdx) : Type 0 where
  pub started : x.first_ts ≢ 0
  pub within : x.last_entry < x.max_entries
  pub room : x.max_entries ≤ x.allocated
  pub bound : x.max_entries ≤ slots_max + entries_default + 1

-- `y` is `x` with entries `i` to `i + n - 1` written.
pub record Filled (n : ℕ) (x : TimeIdx) (i ts off : ℕ) (y : TimeIdx) : Type 0 where
  pub same_first : y.first_ts ≡ x.first_ts
  pub same_interval : y.interval ≡ x.interval
  pub reaches : i + n ≤ y.max_entries
  pub room : y.max_entries ≤ y.allocated
  pub bound : y.max_entries ≤ slots_max + entries_default + 1
  pub new_entry : (j : ℕ) → i ≤ j → j < i + n → y.entry j ≡ record { ts = ts; off = off }
  pub old_entry : (j : ℕ) → j < i → y.entry j ≡ x.entry j

-- Before a write to entry `i`, which follows the last one.
record Extended (x : TimeIdx) (i : ℕ) (y : TimeIdx) : Type 0 where
  done : extend x i ≡ some y
  same_first : y.first_ts ≡ x.first_ts
  same_interval : y.interval ≡ x.interval
  same_entry : y.entry ≡ x.entry
  fits : i < y.max_entries
  room : y.max_entries ≤ y.allocated
  bound : y.max_entries ≤ slots_max + entries_default + 1

extend_lem :
    (x : TimeIdx) (i : ℕ)
    → 0 < x.max_entries
    → i ≤ x.max_entries
    → x.max_entries ≤ x.allocated
    → x.max_entries ≤ slots_max + entries_default + 1
    → i < slots_max
    → (y : TimeIdx) × Extended x i y
unfolding extend
extend_lem x i some_entries le room bound small =
    elim (Bool-cases (leb (dec_u32 x.max_entries) i)) [
      | inl near ↦
          let max = (x.max_entries + entries_default) % 2 ^ 32 in
          let value : max ≡ x.max_entries + entries_default = omega arith in
          let near_end : x.max_entries ≤ i + 1 =
            omega (arith, leb→le (dec_u32 x.max_entries) i near) in
          let size : ltb (info_size + entry_size * max) (2 ^ 31) ≡ true =
            lt→ltb (info_size + entry_size * max) (2 ^ 31) (omega arith) in
          (
            record x { max_entries = max; allocated = max },
            record {
              done = rw (near, size) refl;
              same_first = refl;
              same_interval = refl;
              same_entry = refl;
              fits = omega arith;
              room = omega arith;
              bound = omega arith;
            },
          )
      | inr far ↦ (
        x,
        record {
          done = rw far refl;
          same_first = refl;
          same_interval = refl;
          same_entry = refl;
          fits = ground arith;
          room = room;
          bound = bound;
        },
      )
    ]

-- The loop stays within the memory, which grows with it.
fill_lem :
    (n : ℕ) (x : TimeIdx) (i ts off : ℕ)
    → 0 < x.max_entries
    → i ≤ x.max_entries
    → x.max_entries ≤ x.allocated
    → x.max_entries ≤ slots_max + entries_default + 1
    → i + n ≤ slots_max
    → (y : TimeIdx) × (fill n x i ts off ≡ some y) × Filled n x i ts off y
unfolding fill
fill_lem zero x i ts off many le room bound small = (
  x,
  refl,
  record {
    same_first = refl;
    same_interval = refl;
    reaches = omega arith;
    room = room;
    bound = bound;
    new_entry = λ j lo hi. absurd (omega arith);
    old_entry = λ j lo. refl;
  },
)
fill_lem (suc n) x i ts off many le room bound small =
    let (y, e) = extend_lem x i many le room bound (omega arith) in
    let here : ltb i y.allocated ≡ true = lt→ltb i y.allocated (omega (arith, e.fits, e.room)) in
    let z : TimeIdx = record y {
      entry = λ j. if i == j then record { ts = ts; off = off } else y.entry j;
    } in
    let (w, done, f) =
      fill_lem n z (suc i) ts off (omega (arith, e.fits)) (omega (arith, e.fits)) e.room e.bound
        (omega arith) in
    (
      w,
      rw (e.done, here, fill) done,
      record {
        same_first = f.same_first ∙ e.same_first;
        same_interval = f.same_interval ∙ e.same_interval;
        reaches = omega (arith, f.reaches);
        room = f.room;
        bound = f.bound;
        new_entry = λ j lo hi. elim (Bool-cases (i == j)) [
          | inl at_i ↦ f.old_entry j (ground arith) ∙ rw at_i refl
          | inr later ↦ f.new_entry j (ground arith) (omega arith)
        ];
        old_entry = λ j lo.
            let other : (i == j) ≡ false = ground arith in
            f.old_entry j (omega arith) ∙ rw other (ap (λ g. g j) e.same_entry);
      },
    )

pub slot_of-same :
    (fl : FloatOps) (x y : TimeIdx) (t : ℕ)
    → y.first_ts ≡ x.first_ts
    → y.interval ≡ x.interval
    → slot_of fl y t ≡ slot_of fl x t
unfolding slot_of
slot_of-same fl x y t p q = rw (p, q)

-- A lookup that falls into the index, or behind it.
pub lookup_lem :
    (fl : FloatOps) (x : TimeIdx) (t j : ℕ)
    → t ≤ x.last_ts
    → slot_of fl x t ≡ pos j
    → x.last_entry < x.allocated
    → x.last_entry < 2 ^ 31
    → lookup fl x t ≡ some (ok (x.entry (if ltb x.last_entry j then x.last_entry else j)).off)
unfolding lookup
lookup_lem fl x t j le slot room small =
    let in_range : as_int x.last_entry ≡ pos x.last_entry =
      rw (lt→ltb x.last_entry (2 ^ 31) small) refl in
    let in_time : ltb x.last_ts t ≡ false = ground arith in
    elim (Bool-cases (ltb x.last_entry j)) [
      | inl behind ↦ rw (slot, in_range, in_time) (ground (arith, behind))
      | inr inside ↦ rw (slot, in_range, in_time) (ground (arith, inside))
    ]

-- What an addition leaves, once the loop is done.
abbrev added : TimeIdx → ℕ → ℕ → TimeIdx
added y ts k = record y { last_ts = ts; last_entry = k; changed = true }

-- An addition that gets to its loop.
add_done :
    (fl : FloatOps) (x y : TimeIdx) (ts off k n from : ℕ)
    → inc_u32 x.last_entry ≡ from
    → k + 1 - from ≡ n
    → ((ts == 0) || (off == 0)) ≡ false
    → fl.lt (fl.narrow (timestamp_diff_secs fl x.last_ts ts)) x.interval ≡ false
    → (x.first_ts == 0) ≡ false
    → slot_of fl x ts ≡ pos k
    → fill n x from ts off ≡ some y
    → add fl x ts off ≡ some (ok 0, added y ts k)
unfolding add
add_done fl x y ts off k n from is_from is_n real due begun slot done =
    rw (real, due, begun, slot, is_from, is_n, done)
      (ap (λ i. some (ok 0, added y ts (pos_part i))) slot)

add_lem :
    (fl : FloatOps) (x : TimeIdx) (ts off k : ℕ)
    → IsIndex x
    → ts ≢ 0
    → off ≢ 0
    → fl.lt (fl.narrow (timestamp_diff_secs fl x.last_ts ts)) x.interval ≡ false
    → slot_of fl x ts ≡ pos k
    → x.last_entry < k
    → k < slots_max
    → (y : TimeIdx) × (add fl x ts off ≡ some (ok 0, added y ts k))
      × Filled (k - x.last_entry) x (x.last_entry + 1) ts off y
add_lem fl x ts off k is some_ts some_off due slot later small =
    let from : inc_u32 x.last_entry ≡ x.last_entry + 1 = omega (arith, is.within, is.bound) in
    let rounds : k + 1 - (x.last_entry + 1) ≡ k - x.last_entry = omega arith in
    let (y, done, f) =
      fill_lem (k - x.last_entry) x (x.last_entry + 1) ts off (omega (arith, is.within))
        (omega (arith, is.within)) is.room is.bound (omega arith) in
    let real : ((ts == 0) || (off == 0)) ≡ false = ground arith in
    let begun : (x.first_ts == 0) ≡ false = ground (arith, is.started) in
    (y, add_done fl x y ts off k _ _ from rounds real due begun slot done, f)

-- The entry that a lookup takes, once the loop has written up to entry `k`.
lookup-Filled :
    (x y : TimeIdx) (ts off k j : ℕ)
    → x.last_entry < k
    → k < slots_max
    → Filled (k - x.last_entry) x (x.last_entry + 1) ts off y
    → (y.entry (if ltb k j then k else j)).off
      ≡ (if ltb x.last_entry j then off else (x.entry j).off)
lookup-Filled x y ts off k j later small f = elim (Bool-cases (ltb k j)) [
  | inl behind ↦
      let new : ltb x.last_entry j ≡ true = ground arith in
      rw (behind, new) (ap (λ e. e.off) (f.new_entry k (omega arith) (omega arith)))
  | inr inside ↦ elim (Bool-cases (ltb x.last_entry j)) [
    | inl new ↦ rw (inside, new) (ap (λ e. e.off) (f.new_entry j (ground arith) (ground arith)))
    | inr old ↦ rw (inside, old) (ap (λ e. e.off) (f.old_entry j (ground arith)))
  ]
]

-- An addition to an index that is not empty, of a time in a later interval, stays within the memory
-- of the index, which it makes larger where it is too small, and leaves an index in order. A lookup
-- of a time up to the new one answers the position that the index had for its interval, if it had an
-- entry there, and otherwise the new position. If the time was not after the last one of the index
-- and its interval had an entry, that is what a lookup answered before the addition. Slots stay below
-- 2 ^ 26.
pub lookup-add :
    (fl : FloatOps) (x : TimeIdx) (ts off k t j : ℕ)
    → IsIndex x
    → ts ≢ 0
    → off ≢ 0
    → fl.lt (fl.narrow (timestamp_diff_secs fl x.last_ts ts)) x.interval ≡ false
    → slot_of fl x ts ≡ pos k
    → x.last_entry < k
    → k < slots_max
    → slot_of fl x t ≡ pos j
    → t ≤ ts
    → (y : TimeIdx) × (add fl x ts off ≡ some (ok 0, y))
      × IsIndex y
      × (lookup fl y t ≡ some (ok (if ltb x.last_entry j then off else (x.entry j).off)))
      × (t ≤ x.last_ts → j ≤ x.last_entry → lookup fl y t ≡ lookup fl x t)
lookup-add fl x ts off k t j is some_ts some_off due slot later small slot_t le =
    let (y, done, f) = add_lem fl x ts off k is some_ts some_off due slot later small in
    let y' = added y ts k in
    let same : slot_of fl y' t ≡ pos j =
      slot_of-same fl x y' t f.same_first f.same_interval ∙ slot_t in
    let found =
      lookup_lem fl y' t j le same (omega (arith, f.reaches, f.room)) (omega arith)
      ∙ ap (λ n. some (ok n)) (lookup-Filled x y ts off k j later small f) in
    (
      y',
      done,
      record {
        started = λ z. is.started (sym f.same_first ∙ z);
        within = omega (arith, f.reaches);
        room = f.room;
        bound = f.bound;
      },
      found,
      λ before inside.
          let old : ltb x.last_entry j ≡ false = ground arith in
          let here : (if ltb x.last_entry j then off else (x.entry j).off) ≡ (x.entry j).off =
            rw old refl in
          let was : lookup fl x t ≡ some (ok (x.entry j).off) =
            lookup_lem fl x t j before slot_t (omega (arith, is.within, is.room))
              (omega (arith, is.within, is.bound))
            ∙ rw old refl in
          found ∙ ap (λ n. some (ok n)) here ∙ sym was,
    )
