-- ===== src/Connect/Init.antt =====
-- The books of a new database.
use kogmo_rtdb.Base.{
  Bool, ℕ, zero, suc, ◌^◌, ◌<◌, ◌≡◌, refl, sym, ap, arith, [], some, get_elem?, length, replicate,
}
use mathlib.Core.Option.{some-injective, none-ne-some}
use kogmo_rtdb.Types.{ObjInfo}
use kogmo_rtdb.Floats.{FloatOps}
use kogmo_rtdb.Memory.{Allocator, IsSound, mem_alloc, mem_init}
use kogmo_rtdb.Memory.Balance.{IsBalanced, HasBooks, reserved, vacancies}
use kogmo_rtdb.Memory.Entry.{books-alloc}
use kogmo_rtdb.Insert.{zero_info}
use kogmo_rtdb.Connect.{obj_max, booted, local_init}

reserved-replicate : (n : ℕ) → reserved (replicate n zero_info) ≡ 0
reserved-replicate zero = refl
reserved-replicate (suc n) = omega (arith, reserved-replicate n)

vacancies-replicate : (n : ℕ) → vacancies (replicate n zero_info) ≡ n
vacancies-replicate zero = refl
vacancies-replicate (suc n) = omega (arith, vacancies-replicate n)

length-replicate : (n : ℕ) (m : ObjInfo) → length (replicate n m) ≡ n
length-replicate zero m = refl
length-replicate (suc n) m = ap suc (length-replicate n m)

pub get_elem?-replicate : (n i : ℕ) (x m : ObjInfo) → get_elem? (replicate n x) i ≡ some m → x ≡ m
get_elem?-replicate zero i x m e = absurd (none-ne-some m e)
get_elem?-replicate (suc n) zero x m e = some-injective x m e
get_elem?-replicate (suc n) (suc i) x m e = get_elem?-replicate n i x m e

-- A clear table of `n` slots over a heap that is free.
clear-books :
    (n hsize : ℕ)
    → hsize < 2 ^ 64
    → n < 2 ^ 32
    → HasBooks 0 (replicate n zero_info) n hsize 0 hsize []
clear-books n hsize fits small = record {
  slots = sym (vacancies-replicate n);
  used = omega (arith, reserved-replicate n);
  pooled = refl;
  whole = omega arith;
  disjoint = tt;
  size_bound = fits;
  slots_bound = omega (arith, length-replicate n zero_info);
  held =
      λ i m e own. absurd (own.0 (ap (λ z. z.oid) (sym (get_elem?-replicate n i zero_info m e))));
  apart = λ i j m x e e' own own' ne.
      absurd (own.0 (ap (λ z. z.oid) (sym (get_elem?-replicate n i zero_info m e))));
}

-- The 2 bytes that are allocated first belong to no object.
pub local_init-IsBalanced :
    (fl : FloatOps) (al : Allocator) (simmode no_notifies : Bool) (bufsize heap_size idx : ℕ)
    → IsSound al heap_size
    → heap_size < 2 ^ 64
    → al.alloc [] 2 ≡ some idx
    → IsBalanced 2 (local_init fl al (booted simmode no_notifies bufsize) heap_size)
unfolding local_init mem_alloc mem_init
local_init-IsBalanced fl al simmode no_notifies bufsize heap_size idx sound fits given =
    rw (given, local_init)
      (books-alloc 0 (replicate obj_max zero_info) obj_max heap_size 0 heap_size [] al 2 idx sound
        (clear-books obj_max heap_size fits (omega arith)) given)

pub heap_size-local_init :
    (fl : FloatOps) (al : Allocator) (simmode no_notifies : Bool) (bufsize heap_size idx : ℕ)
    → al.alloc [] 2 ≡ some idx
    → (local_init fl al (booted simmode no_notifies bufsize) heap_size).heap_size ≡ heap_size
unfolding local_init mem_alloc mem_init
heap_size-local_init fl al simmode no_notifies bufsize heap_size idx given =
    rw (given, local_init) refl
