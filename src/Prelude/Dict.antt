-- ===== src/Prelude/Dict.antt =====
-- A Go map with string keys that the code only reads, writes and deletes from: the function that
-- a read computes.
use iflygo.Prelude.Tests.{if◌then◌else◌, str_eq, eq_iff}
use Prim.Native.String.{String}
use mathlib.Core.Path.{◌≡◌}
use mathlib.Core.Logic.{◌≢◌}
use mathlib.Core.Option.{Option, none, some}
use native.Mathlib.Omega.{arith}

abbrev pub Dict {ℓ} : Type ℓ → Type ℓ
Dict V = String → Option V

module _ {ℓ} {V : Type ℓ} where
  abbrev pub empty : Dict V
  empty k = none

  abbrev pub insert : String → V → Dict V → Dict V
  insert k v m j = if str_eq k j then some v else m j

  pub insert_self : (k : String) (v : V) (m : Dict V) → insert k v m k ≡ some v
  insert_self k v m = ground (arith, eq_iff k k)

  pub insert_ne : (k j : String) (v : V) (m : Dict V) → k ≢ j → insert k v m j ≡ m j
  insert_ne k j v m h = ground (arith, eq_iff k j)
