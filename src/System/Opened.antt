-- ===== src/System/Opened.antt =====
-- Connecting, in terms of the system: what kogmo_rtdb_connect does to the objects is a sequence of steps.
use kogmo_rtdb.Base.{ℕ, Bool, ◌≡◌, refl, sym, ◌∙◌, none, subst}
use kogmo_rtdb.Types.{LocalData, ObjInfo, Block, Handle, Result, ok, err}
use kogmo_rtdb.Floats.{FloatOps}
use kogmo_rtdb.Memory.{Allocator}
use kogmo_rtdb.Search.{searchinfo}
use kogmo_rtdb.Insert.{insert}
use kogmo_rtdb.Write.{writedata}
use kogmo_rtdb.Connect.{booted, local_init}
use kogmo_rtdb.Connect.Open.{
  ConnectInfo, root_info, processlist_info, processlist_query, andthen, insert_and_write, open_root,
  open_process, open_rtdb, connect_manager,
}
use kogmo_rtdb.System.{Reachable, inserts, commits, starts, goes_on}

andthen_ok :
    {A : Type 0} (r : Result A) (d : LocalData) (f : A → Result ℕ × LocalData) (n : ℕ)
    → (andthen r d f).0 ≡ ok n
    → (a : A) × (r ≡ ok a) × (andthen r d f ≡ f a) × ((f a).0 ≡ ok n)
andthen_ok (ok a) d f n e = (a, refl, refl, e)
andthen_ok (err x) d f n e = absurd (cc)

module _ (fl : FloatOps) (al : Allocator) (refusals : Bool) (n : ℕ) where
  abbrev Good : Result ℕ × LocalData → Type 0
  Good r = Reachable fl al refusals n r.1

  -- What an object that is inserted and written leaves can come about.
  insert_and_write-Reachable :
      (h : Handle) (stray : ℕ) (db : LocalData) (now now' : ℕ) (m : ObjInfo) (b : Block) (oid : ℕ)
      → Reachable fl al refusals n db
      → (insert_and_write fl al h stray db now now' m b).0 ≡ ok oid
      → Good (insert_and_write fl al h stray db now now' m b)
  unfolding insert_and_write
  insert_and_write-Reachable h stray db now now' m b oid r e =
      let i = insert fl al h stray db now m in
      let (k, done, path, e') = andthen_ok i.code i.db _ oid e in
      let w = writedata fl h i.db now' k b in
      let (u, written, path', _) = andthen_ok w.code w.db _ oid e' in
      subst Good (sym (path ∙ path'))
        (goes_on (goes_on r (inserts h stray now m k done)) (commits h now' k b))

  module _ (stray : ℕ) (clock : ℕ → ℕ) (c : ConnectInfo) (h : Handle) where
    open_root-Reachable :
        (db : LocalData) (oid : ℕ)
        → Reachable fl al refusals n db
        → (open_root fl al stray clock c h db).0 ≡ ok oid
        → Good (open_root fl al stray clock c h db)
    unfolding open_root
    open_root-Reachable db oid r e =
        let i = insert fl al h stray db (clock 0) (root_info fl h db) in
        let (k, done, path, e') = andthen_ok i.code i.db _ oid e in
        let q = insert fl al h stray i.db (clock 1) (processlist_info fl h i.db k) in
        let (l, listed, path', _) = andthen_ok q.code q.db _ oid e' in
        subst Good (sym (path ∙ path')) (
          goes_on (goes_on r (inserts h stray (clock 0) _ k done))
            (inserts h stray (clock 1) _ l listed))

    -- The connection of a client leaves a database that can come about, if there was one before: what
    -- it does is a sequence of steps of the system. The connection succeeds.
    pub open_process-Reachable :
        (db : LocalData) (oid : ℕ)
        → Reachable fl al refusals n db
        → (open_process fl al stray clock c h db).0 ≡ ok oid
        → Reachable fl al refusals n (open_process fl al stray clock c h db).1
    unfolding open_process
    open_process-Reachable db oid r e =
        let (k, found, path, e') =
          andthen_ok (searchinfo db processlist_query none 1).0 db _ oid e in
        subst Good (sym path)
          (insert_and_write-Reachable h stray db (clock 2) (clock 3) _ _ oid r e')

    -- The connection of the manager, from the setup of the memory to the object that describes the
    -- database, leaves a database that can come about: all it does after the setup is a sequence of
    -- steps of the system. The connection succeeds.
    pub connect_manager-Reachable :
        (simmode no_notifies : Bool) (bufsize oid : ℕ)
        → (connect_manager fl al stray clock c h (booted simmode no_notifies bufsize) n).0 ≡ ok oid
        → Reachable fl al refusals n
            (connect_manager fl al stray clock c h (booted simmode no_notifies bufsize) n).1
    unfolding connect_manager open_rtdb
    connect_manager-Reachable simmode no_notifies bufsize oid e =
        let boot = local_init fl al (booted simmode no_notifies bufsize) n in
        let r = open_root fl al stray clock c h boot in
        let (l, rooted, path, e') = andthen_ok r.0 r.1 _ oid e in
        let p = open_process fl al stray clock c h r.1 in
        let (k, entered, path', e'') = andthen_ok p.0 p.1 _ oid e' in
        let h' : Handle = record h { cycletime = c.cycletime } in
        let d = open_rtdb fl al stray clock c h' p.1 k in
        let (i, described, path'', _) = andthen_ok d.0 d.1 _ oid e'' in
        subst Good (sym (path ∙ path' ∙ path'')) (
          insert_and_write-Reachable h' stray p.1 (clock 4) (clock 5) _ _ i
            (open_process-Reachable r.1 k
              (open_root-Reachable boot l (starts simmode no_notifies bufsize) rooted) entered)
            described)
