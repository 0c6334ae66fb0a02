-- ===== src/Memory.antt =====
-- The front end of the heap (rtdb/kogmo_rtdb_rtmalloc.c, as it is built for the allocator suba). The
-- allocator is another project's; `pool` lists the blocks that it has given out.
pub mod Balance
pub mod Steps
pub mod Entry
use kogmo_rtdb.Base.{
  ℕ, ◌+◌, ◌-◌, ◌%◌, ◌^◌, ◌<◌, ◌≤◌, ◌≡◌, ◌⊎◌, ◌&&◌, ◌==◌, ltb, leb, if◌then◌else◌, List, [], ◌∷◌,
  Option, none, some,
}
use kogmo_rtdb.Types.{LocalData, Block}

-- suba_alloc: the blocks that are in use and a size give the index of a new block, or nothing.
pub record Allocator : Type 0 where
  pub alloc : List (ℕ × ℕ) → ℕ → Option ℕ

abbrev pub total : List (ℕ × ℕ) → ℕ
total [] = 0
total (b ∷ bs) = b.1 + total bs

-- The size of the block that begins at an index.
abbrev pub block_size : ℕ → List (ℕ × ℕ) → Option ℕ
block_size idx [] = none
block_size idx (b ∷ bs) = if b.0 == idx then some b.1 else block_size idx bs

-- The `size` bytes from `idx` on overlap no block of the pool.
abbrev pub IsApart : ℕ → ℕ → List (ℕ × ℕ) → Type 0
IsApart idx size [] = Unit {0}
IsApart idx size (b ∷ bs) = ((idx + size ≤ b.0) ⊎ (b.0 + b.1 ≤ idx)) × IsApart idx size bs

-- Documented behaviour of an allocator for `n` bytes: it never gives out more than there is, the block
-- that it gives out neither begins where one in use begins nor overlaps one, and its own header stands
-- at index 0.
pub record IsSound (al : Allocator) (n : ℕ) : Type 0 where
  pub fresh :
      (pool : List (ℕ × ℕ)) (size idx : ℕ)
      → al.alloc pool size ≡ some idx
      → block_size idx pool ≡ none
  pub disjoint :
      (pool : List (ℕ × ℕ)) (size idx : ℕ) → al.alloc pool size ≡ some idx → IsApart idx size pool
  pub room :
      (pool : List (ℕ × ℕ)) (size idx : ℕ) → al.alloc pool size ≡ some idx → total pool + size ≤ n
  pub header : (pool : List (ℕ × ℕ)) (size idx : ℕ) → al.alloc pool size ≡ some idx → 0 < idx

-- The arithmetic of `size_t` and `uint32_t`.
abbrev pub add_64 : ℕ → ℕ → ℕ
add_64 a b = (a + b) % 2 ^ 64

abbrev pub sub_64 : ℕ → ℕ → ℕ
sub_64 a b = (a + 2 ^ 64 - b) % 2 ^ 64

abbrev pub inc_32 : ℕ → ℕ
inc_32 a = (a + 1) % 2 ^ 32

abbrev pub dec_32 : ℕ → ℕ
dec_32 a = (a + 2 ^ 32 - 1) % 2 ^ 32

-- A header of zeros; bytes that no commit has written are not listed.
abbrev pub zero_block : Block
zero_block = record { committed_ts = 0; committed_proc = 0; data_ts = 0; size = 0; payload = [] }

-- memset of the block to 0.
abbrev pub clear : (ℕ → Block) → ℕ → ℕ → ℕ → Block
clear heap idx size = λ a. if leb idx a && ltb a (idx + size) then zero_block else heap a

-- kogmo_rtdb_obj_mem_alloc; `none` is its -1.
unfoldable pub mem_alloc : Allocator → LocalData → ℕ → Option ℕ × LocalData
mem_alloc al db size = if size == 0 then (none, db) else elim (al.alloc db.pool size) [
  | none ↦ (none, db)
  | some idx ↦ (
    some idx,
    record db {
      heap_free = sub_64 db.heap_free size;
      heap_used = add_64 db.heap_used size;
      pool = (idx, size) ∷ db.pool;
      heap = clear db.heap idx size;
    },
  )
]

-- suba_free
abbrev pub release : ℕ → List (ℕ × ℕ) → List (ℕ × ℕ)
release idx [] = []
release idx (b ∷ bs) = if b.0 == idx then bs else b ∷ release idx bs

-- kogmo_rtdb_obj_mem_free
unfoldable pub mem_free : LocalData → ℕ → ℕ → LocalData
mem_free db idx size = record db {
  heap_free = add_64 db.heap_free size;
  heap_used = sub_64 db.heap_used size;
  pool = release idx db.pool;
}

-- kogmo_rtdb_obj_mem_init: all memory is free.
unfoldable pub mem_init : LocalData → LocalData
mem_init db = record db { heap_free = db.heap_size; heap_used = 0; pool = [] }
