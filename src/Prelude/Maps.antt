-- ===== src/Prelude/Maps.antt =====
-- A `HashMap` with number keys is the function of its lookups; a `HashSet` is the function of
-- its membership tests. The program iterates over none of those that are modelled so.
use Prim.Native.Nat.{ℕ}
use mathlib.Core.Bool.{Bool, true, false}
use mathlib.Core.Option.{Option, none, some}
use rgraph.Prelude.Tests.{◌==◌, if◌then◌else◌}

abbrev pub HashMap {ℓ} : Type ℓ → Type ℓ
HashMap V = ℕ → Option V

abbrev pub HashSet : Type 0
HashSet = ℕ → Bool

module _ {ℓ} {V : Type ℓ} where
  abbrev pub empty_map : HashMap V
  empty_map k = none

  abbrev pub insert_map : ℕ → V → HashMap V → HashMap V
  insert_map k v m = λ j. if j == k then some v else m j

  abbrev pub remove_map : ℕ → HashMap V → HashMap V
  remove_map k m = λ j. if j == k then none else m j

abbrev pub empty_set : HashSet
empty_set k = false

abbrev pub insert_set : ℕ → HashSet → HashSet
insert_set k s = λ j. if j == k then true else s j

abbrev pub remove_set : ℕ → HashSet → HashSet
remove_set k s = λ j. if j == k then false else s j
