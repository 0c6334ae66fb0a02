-- ===== src/Remove/Gone.antt =====
-- A deleted object is not there any more, whatever else goes with it.
use kogmo_rtdb.Base.{
  ℕ, zero, suc, ◌≡◌, ◌≢◌, ◌<◌, ◌⊎◌, refl, sym, ap, ◌∙◌, arith, Bool, false, List, some, get_elem?,
  inl, inr, Option-cases, subst,
}
use mathlib.Core.Option.{some-injective, none-ne-some}
use kogmo_rtdb.Types.{LocalData, ObjInfo, Handle, Result, ok, err, Err}
use kogmo_rtdb.Meta.{findmeta_byid}
use kogmo_rtdb.Meta.Find.{findmeta-get}
use kogmo_rtdb.Time.{timestamp_now}
use kogmo_rtdb.Search.{IdList}
use kogmo_rtdb.Memory.Balance.{get_elem?-set}
use kogmo_rtdb.Remove.Cases.{delete_children-keeps, children-AllIds, delete_imm-Answers}
use kogmo_rtdb.Remove.Total.{Buried, timestamp_now-delete_mark, delete_mark-Buried}
use kogmo_rtdb.Remove.{readinfo, delete_mark, delete_imm, children}

-- No slot has the object, unless as one that was deleted at `ts`.
abbrev pub IsGone : ℕ → ℕ → List ObjInfo → Type 0
IsGone ts oid ms = (j : ℕ) (x : ObjInfo) → get_elem? ms j ≡ some x → x.oid ≡ oid → x.deleted_ts ≡ ts

-- No other slot has the id of slot `i`.
abbrev pub IsOnly : ℕ → ℕ → List ObjInfo → Type 0
IsOnly i oid ms = (j : ℕ) (x : ObjInfo) → get_elem? ms j ≡ some x → x.oid ≡ oid → j ≡ i

readinfo-IsGone :
    (db : LocalData) (ts oid t : ℕ)
    → ts ≢ 0
    → IsGone ts oid db.objmeta
    → (t ≡ 0) ⊎ (ts < t)
    → readinfo db oid t ≡ err Err.notfound
unfolding readinfo
readinfo-IsGone db ts oid t timed gone late = elim (Option-cases (findmeta_byid db oid)) [
  | inl missing ↦ rw (missing, readinfo) refl
  | inr ((i, m), found) ↦
      let (at_i, is_oid) = findmeta-get db oid i m found in
      let dead : m.deleted_ts ≡ ts = gone i m at_i is_oid in
      rw (found, readinfo) (ground (arith, dead, late))
]

Buried-dead :
    (ts oid : ℕ) (m m' : ObjInfo) → oid ≢ 0 → Buried ts m m' → m'.oid ≡ oid → m'.deleted_ts ≡ ts
Buried-dead ts oid m m' pos (inl free) is_oid = absurd (pos (sym is_oid ∙ free))
Buried-dead ts oid m m' pos (inr (_, at_ts)) is_oid = at_ts

module _ (h : Handle) (now : ℕ) (stray : ℕ → ℕ) (stack : IdList) where
  -- It is `ts`, and the object is gone.
  abbrev Rests : ℕ → ℕ → LocalData → Type 0
  Rests ts oid d = (timestamp_now d now ≡ ts) × IsGone ts oid d.objmeta

  Rests-delete_mark :
      (ts : ℕ) (db : LocalData) (oid i : ℕ) (m : ObjInfo) (imm : Bool)
      → oid ≢ 0
      → timestamp_now db now ≡ ts
      → get_elem? db.objmeta i ≡ some m
      → ((j : ℕ) (x : ObjInfo)
          → i ≢ j
          → get_elem? db.objmeta j ≡ some x
          → x.oid ≡ oid
          → x.deleted_ts ≡ ts)
      → Rests ts oid (delete_mark h now stray stack db i m imm)
  Rests-delete_mark ts db oid i m imm pos timed e others = (
    timestamp_now-delete_mark h now stray stack db i m imm ∙ timed,
    λ j x g is_oid.
        let (m', set_lem, buried) = delete_mark-Buried h now stray stack db i m imm in
        elim (get_elem?-set db.objmeta i j m m' x e (ap (λ l. get_elem? l j) (sym set_lem) ∙ g)) [
          | inl (_, is_m') ↦
              rw is_m' (
                Buried-dead (timestamp_now db now) oid m m' pos buried
                  (ap (λ z. z.oid) (sym is_m') ∙ is_oid))
              ∙ timed
          | inr (ne, g') ↦ others j x ne g' is_oid
        ],
  )

  Rests-delete_imm :
      (ts oid f : ℕ) (db : LocalData) (c : ℕ) (imm : Bool) (r : Result (Unit {0}) × LocalData)
      → oid ≢ 0
      → Rests ts oid db
      → delete_imm h now stray stack f db c imm ≡ some r
      → Rests ts oid r.1
  unfolding delete_imm timestamp_now
  Rests-delete_imm ts oid zero db c imm r pos rests e = absurd (none-ne-some r e)
  Rests-delete_imm ts oid (suc f) db c imm r pos rests e =
      elim (delete_imm-Answers h now stray stack f db c imm r e) [
        | inl (same, _) ↦ subst (λ d. Rests ts oid d) (sym same) rests
        | inr (i, m, found, _, done) ↦
            delete_children-keeps (λ d. Rests ts oid d)
              (λ d k. delete_imm h now stray stack f d k false)
              (λ d d' k x _ rests' p. Rests-delete_imm ts oid f d k false (x, d') pos rests' p)
              (children db stack c) _ r.1 (children-AllIds h now stray stack db c)
              (Rests-delete_mark ts db oid i m imm pos rests.0 (findmeta-get db c i m found).0
                (λ j x _ g. rests.1 j x g))
              done
      ]

  -- After a deletion that succeeds, a read of the object's metadata for the present, or for any time
  -- after the deletion, reports that nothing was found, whatever else was deleted with the object: no
  -- other slot had its id, and the clock has left 0. Reads for earlier times are not spoken of.
  pub readinfo-delete_imm :
      (f : ℕ) (db : LocalData) (oid i t : ℕ) (m : ObjInfo) (imm : Bool)
      (r : Result (Unit {0}) × LocalData)
      → oid ≢ 0
      → timestamp_now db now ≢ 0
      → findmeta_byid db oid ≡ some (i, m)
      → IsOnly i oid db.objmeta
      → delete_imm h now stray stack f db oid imm ≡ some r
      → r.0 ≡ ok tt
      → (t ≡ 0) ⊎ (timestamp_now db now < t)
      → readinfo r.1 oid t ≡ err Err.notfound
  unfolding delete_imm
  readinfo-delete_imm zero db oid i t m imm r pos timed found only e success late =
      absurd (none-ne-some r e)
  readinfo-delete_imm (suc f) db oid i t m imm r pos timed found only e success late =
      elim (delete_imm-Answers h now stray stack f db oid imm r e) [
        | inl (_, (x, refused)) ↦ absurd (cc)
        | inr (k, n, found', _, done) ↦
            let ts = timestamp_now db now in
            let slot : i ≡ k = ap (λ z. z.0) (some-injective (i, m) (k, n) (sym found ∙ found')) in
            let marked =
              Rests-delete_mark ts db oid k n imm pos refl (findmeta-get db oid k n found').0
                (λ j x ne g is_oid. absurd (ne (sym slot ∙ sym (only j x g is_oid)))) in
            readinfo-IsGone r.1 ts oid t timed
              (delete_children-keeps (λ d. Rests ts oid d)
                (λ d c. delete_imm h now stray stack f d c false)
                (λ d d' c x _ rests p. Rests-delete_imm ts oid f d c false (x, d') pos rests p)
                (children db stack oid) _ r.1 (children-AllIds h now stray stack db oid) marked
                done).1
              late
      ]
