-- ===== src/System/Whole.antt =====
-- The invariant of the whole shared memory.
use kogmo_rtdb.Base.{ℕ, ◌^◌, ◌<◌, ◌≡◌, Bool, false, [], some, subst}
use kogmo_rtdb.Floats.{FloatOps}
use kogmo_rtdb.Memory.{Allocator, IsSound}
use kogmo_rtdb.Memory.Balance.{IsBalanced, RingsApart}
use kogmo_rtdb.Insert.Unique.{HasIds}
use kogmo_rtdb.Procs.{Shm}
use kogmo_rtdb.ProcTable.{connect, init_shm}
use kogmo_rtdb.ProcTable.Sessions.{IsTable, connect_lem, init_shm-IsTable}
use kogmo_rtdb.System.{Reachable, goes_on}
use kogmo_rtdb.System.Books.{Reachable-IsBalanced}
use kogmo_rtdb.System.Ids.{Reachable-HasIds}
use kogmo_rtdb.System.Opened.{open_process-Reachable, connect_manager-Reachable}
use kogmo_rtdb.System.Shared.{SharedStep, SharedReach, joins, works, leaves, buries, boots, lives}
use kogmo_rtdb.System.Table.{InOrder, same-IsTable, rtdb_disconnect-InOrder, purge_procs-InOrder}

module _ (fl : FloatOps) (al : Allocator) (refusals : Bool) (n : ℕ) where
  SharedStep-InOrder :
      (s s' : Shm)
      → InOrder fl al refusals n s
      → SharedStep fl al refusals s s'
      → InOrder fl al refusals n s'
  SharedStep-InOrder s _ o (joins p h stray clock c oid procoid few _ opened) = (
    same-IsTable fl al refusals n (connect s p).1 _ (connect_lem s p o.0 few).0,
    open_process-Reachable fl al refusals n stray clock c (record h { proc_oid = oid }) s.localdata
        procoid o.1 opened,
  )
  SharedStep-InOrder s _ o (works db' step) =
      (same-IsTable fl al refusals n s db' o.0, goes_on o.1 step)
  SharedStep-InOrder s _ o (leaves now stray stack f c l client e) =
      rtdb_disconnect-InOrder fl al refusals n now stray stack f s c l o client e
  SharedStep-InOrder s s' o (buries h now stray stack dead f _ e) =
      purge_procs-InOrder fl al refusals n h now stray stack dead f s s' o e

  SharedReach-InOrder : (s : Shm) → SharedReach fl al refusals n s → InOrder fl al refusals n s
  unfolding init_shm
  SharedReach-InOrder _
        (boots revision pid data_size h stray clock c simmode no_notifies bufsize procoid e) =
      (
        init_shm-IsTable revision pid data_size _,
        connect_manager-Reachable fl al refusals n stray clock c h simmode no_notifies bufsize
            procoid e,
      )
  SharedReach-InOrder s' (lives {s} r step) = SharedStep-InOrder s s' (SharedReach-InOrder s r) step

  -- Whatever the processes do once the manager has set the shared memory up, in whatever order they
  -- join, work, leave or are removed after they died: the table of processes is in order, so that the
  -- number of free slots is right and no two processes have the same id; and every object is found by
  -- its id. If moreover no insertion is refused but for its arguments, the books of slots and memory of
  -- the objects are kept, and no two rings overlap. Connections succeed, each insertion finds an id
  -- left, the object number 0 is not deleted, and the allocator behaves as documented on a heap smaller
  -- than 2 ^ 64 that has room for 2 bytes.
  pub SharedReach-IsTable :
      (idx : ℕ) (s : Shm)
      → IsSound al n
      → n < 2 ^ 64
      → al.alloc [] 2 ≡ some idx
      → SharedReach fl al refusals n s
      → IsTable s
        × HasIds s.localdata
        × (refusals ≡ false → IsBalanced 2 s.localdata × RingsApart s.localdata.objmeta)
  SharedReach-IsTable idx s sound fits given r =
      let o = SharedReach-InOrder s r in
      (
        o.0,
        (Reachable-HasIds fl al refusals n s.localdata o.1).0,
        λ none_refused.
            let kept = subst (λ z. Reachable fl al z n s.localdata) none_refused o.1 in
            let (_, books, rings) =
              Reachable-IsBalanced fl al n sound idx s.localdata fits given kept in
            (books, rings),
      )
