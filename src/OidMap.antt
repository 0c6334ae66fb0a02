-- ===== src/OidMap.antt =====
-- The player's map from recorded object ids to the ids that the objects got when they were played
-- back (record/kogmo_rtdb_oid_map.h). An entry with source 0 is free.
pub mod Laws
use kogmo_rtdb.Base.{
  ℕ, suc, Bool, true, false, ◌==◌, if◌then◌else◌, take, List, [], ◌∷◌, Option, none, some,
  replicate,
}
use kogmo_rtdb.Types.{Name, name_maxlen}

-- oid_map_t
pub record Entry : Type 0 where
  pub src : ℕ
  pub dest : ℕ
  pub name : Name
  pub otype : ℕ

abbrev pub free_entry : Entry
free_entry = record { src = 0; dest = 0; name = []; otype = 0 }

-- map_init, of a map with `n` slots
unfoldable pub map_init : ℕ → List Entry
map_init n = replicate n free_entry

-- The first entry for a source is cleared.
unfoldable pub map_del : List Entry → ℕ → Bool × List Entry
map_del [] src = (false, [])
map_del (e ∷ es) src =
    let rest = map_del es src in
    if e.src == src then (true, free_entry ∷ es) else (rest.0, e ∷ rest.1)

-- The first free entry is filled; `none` is a map that is full.
unfoldable pub fill_free : List Entry → Entry → Option (List Entry)
fill_free [] new = none
fill_free (e ∷ es) new =
    let rest = fill_free es new in
    if e.src == 0 then some (new ∷ es) else elim rest [ none ↦ none | some r ↦ some (e ∷ r) ]

-- map_add; `none` is the end of the program with "no free id-map slots available".
unfoldable pub map_add : List Entry → ℕ → ℕ → Name → ℕ → Option (List Entry)
map_add m src dest name otype =
    fill_free (map_del m src).1
      (record { src = src; dest = dest; name = take name_maxlen name; otype = otype })

-- The loop that the queries share.
unfoldable pub find_entry : List Entry → ℕ → Option Entry
find_entry [] src = none
find_entry (e ∷ es) src = if e.src == src then some e else find_entry es src

unfoldable pub map_querydest : List Entry → ℕ → ℕ
map_querydest m src = elim (find_entry m src) [ none ↦ 0 | some e ↦ e.dest ]

-- The name of an id that is not there is "?".
unfoldable pub map_queryname : List Entry → ℕ → Name
map_queryname m src = elim (find_entry m src) [ none ↦ 63 ∷ [] | some e ↦ e.name ]

unfoldable pub map_queryotype : List Entry → ℕ → ℕ
map_queryotype m src = elim (find_entry m src) [ none ↦ 0 | some e ↦ e.otype ]

unfoldable pub map_exists : List Entry → ℕ → Bool
map_exists m src = elim (find_entry m src) [ none ↦ false | some e ↦ true ]
