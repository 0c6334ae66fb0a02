-- ===== src/System/Books.antt =====
-- The books of every database that can come about.
use kogmo_rtdb.Base.{
  ℕ, ◌^◌, ◌<◌, ◌≡◌, refl, sym, ◌∙◌, not, false, [], some, inl, inr, Bool-cases, subst,
}
use kogmo_rtdb.Types.{LocalData}
use kogmo_rtdb.Floats.{FloatOps}
use kogmo_rtdb.Time.{timestamp_set}
use kogmo_rtdb.Memory.{Allocator, IsSound}
use kogmo_rtdb.Memory.Balance.{IsBalanced, RingsApart, books-RingsApart}
use kogmo_rtdb.Insert.Books.{insert-IsBalanced}
use kogmo_rtdb.Insert.Refused.{insert-refused}
use kogmo_rtdb.Insert.HeapSize.{heap_size-insert}
use kogmo_rtdb.Remove.Books.{delete_imm-IsBalanced}
use kogmo_rtdb.Remove.Change.{changeinfo-IsBalanced}
use kogmo_rtdb.Remove.HeapSize.{heap_size-changeinfo, heap_size-delete_imm}
use kogmo_rtdb.Purge.Books.{purge_objs-IsBalanced}
use kogmo_rtdb.Purge.HeapSize.{heap_size-purge_objs}
use kogmo_rtdb.Write.Books.{
  IsSteady, writedata-IsSteady, writedata_ptr_begin-IsSteady, writedata_ptr_commit-IsSteady,
}
use kogmo_rtdb.Connect.Init.{local_init-IsBalanced, heap_size-local_init}
use kogmo_rtdb.System.{
  Step, Reachable, inserts, refused, changes, deletes, commits, begins, commits_in_place, purges,
  traces, sets_time, starts, goes_on,
}

timestamp_set-IsSteady :
    (n extra : ℕ) (db : LocalData) (new_ts : ℕ)
    → IsSteady n extra db
    → IsSteady n extra (timestamp_set db new_ts).1
unfolding timestamp_set
timestamp_set-IsSteady n extra db new_ts s = elim (Bool-cases (not db.simmode)) [
  | inl real ↦ rw real s
  | inr simulated ↦ rw simulated s
]

module _ (fl : FloatOps) (al : Allocator) (n : ℕ) (sound : IsSound al n) where
  -- Every step keeps the books.
  Step-IsSteady :
      (extra : ℕ) (db db' : LocalData)
      → IsSteady n extra db
      → Step fl al false db db'
      → IsSteady n extra db'
  Step-IsSteady extra db _ s (inserts h stray now new oid success) = (
    heap_size-insert fl al h stray db now new oid success ∙ s.0,
    insert-IsBalanced fl al h stray db now new oid extra (subst (λ k. IsSound al k) (sym s.0) sound)
        s.1 success,
  )
  Step-IsSteady extra db _ s (refused h stray now new x k e ids harmless) =
      elim (insert-refused fl al h stray db now new x k e ids) [
        | inl (_, same) ↦ subst (IsSteady n extra) (sym same) s
        | inr (other, _) ↦ absurd (other (harmless refl))
      ]
  Step-IsSteady extra db _ s (changes h now oid new) = (
    heap_size-changeinfo fl h db now oid new ∙ s.0,
    changeinfo-IsBalanced fl h db now oid new extra s.1,
  )
  Step-IsSteady extra db _ s (deletes h now stray stack f oid imm r pos e) = (
    heap_size-delete_imm h now stray stack f db oid imm r e ∙ s.0,
    delete_imm-IsBalanced h now stray stack extra f db oid imm r s.1 pos e,
  )
  Step-IsSteady extra db _ s (commits h now oid data_p) =
      writedata-IsSteady fl h n extra db now oid data_p s
  Step-IsSteady extra db _ s (begins h oid) = writedata_ptr_begin-IsSteady h n extra db oid s
  Step-IsSteady extra db _ s (commits_in_place h now oid a) =
      writedata_ptr_commit-IsSteady fl h n extra db now oid a s
  Step-IsSteady extra db _ s (purges now) =
      (heap_size-purge_objs fl db now ∙ s.0, purge_objs-IsBalanced fl extra db now s.1)
  Step-IsSteady extra db _ s (traces on) = s
  Step-IsSteady extra db _ s (sets_time new_ts) = timestamp_set-IsSteady n extra db new_ts s

  -- Reachable databases keep the books.
  Reachable-IsSteady :
      (idx : ℕ) (db : LocalData)
      → n < 2 ^ 64
      → al.alloc [] 2 ≡ some idx
      → Reachable fl al false n db
      → IsSteady n 2 db
  Reachable-IsSteady idx _ fits given (starts simmode no_notifies bufsize) = (
    heap_size-local_init fl al simmode no_notifies bufsize n idx given,
    local_init-IsBalanced fl al simmode no_notifies bufsize n idx sound fits given,
  )
  Reachable-IsSteady idx db' fits given (goes_on {db} r step) =
      Step-IsSteady 2 db db' (Reachable-IsSteady idx db fits given r) step

  -- Whatever the processes do, in whatever order, as long as each insertion succeeds or is refused for
  -- its arguments, no id runs out, and the object number 0 is not deleted: the number of free slots is
  -- the number of slots that hold no object; the memory in use is that of the rings of all objects and
  -- the 2 bytes that are allocated first; every ring is a block of the allocator of the right size; and
  -- the rings of two objects do not overlap. The heap had room for the 2 bytes and is smaller than
  -- 2 ^ 64, and the allocator behaves as documented.
  pub Reachable-IsBalanced :
      (idx : ℕ) (db : LocalData)
      → n < 2 ^ 64
      → al.alloc [] 2 ≡ some idx
      → Reachable fl al false n db
      → (db.heap_size ≡ n) × IsBalanced 2 db × RingsApart db.objmeta
  Reachable-IsBalanced idx db fits given r =
      let (size, b) = Reachable-IsSteady idx db fits given r in
      (size, b, books-RingsApart 2 db.objmeta _ _ _ _ db.pool b)
