-- ===== src/Tests/Changes.antt =====
-- The theorems on changes of metadata at a database with two objects.
use kogmo_rtdb.Base.{◌≡◌, refl, arith, true, [], ◌∷◌, ◌^◌}
use kogmo_rtdb.Types.{LocalData, ObjInfo, Handle, ok}
use kogmo_rtdb.Meta.{findmeta_byid, find_from}
use kogmo_rtdb.Time.{timestamp_now}
use kogmo_rtdb.Remove.{readinfo, changeinfo}
use kogmo_rtdb.Remove.Change.{IsChanged, readinfo-changeinfo}
use kogmo_rtdb.Tests.Data.{int_ops, owner, base_db, car}
use kogmo_rtdb.Tests.Shop.{bike}

abbrev admin : Handle
admin = record owner { is_admin = true }

abbrev two_db : LocalData
two_db = record base_db { objmeta = car ∷ record car { oid = 6 } ∷ [] }

readinfo-changeinfo_example :
    ((changeinfo int_ops admin two_db (2 ^ 34) 5 bike).0 ≡ ok 5)
    × ((x : ObjInfo) × (readinfo (changeinfo int_ops admin two_db (2 ^ 34) 5 bike).1 5 0 ≡ ok x)
        × IsChanged int_ops admin (timestamp_now two_db (2 ^ 34)) bike car x)
    × (readinfo (changeinfo int_ops admin two_db (2 ^ 34) 5 bike).1 6 0 ≡ readinfo two_db 6 0)
unfolding findmeta_byid find_from
readinfo-changeinfo_example =
    readinfo-changeinfo int_ops admin two_db (2 ^ 34) 5 bike 0 car 6 0 refl refl refl
      (λ e. omega arith)
