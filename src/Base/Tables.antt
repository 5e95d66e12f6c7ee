-- ===== src/Base/Tables.antt =====
-- A Go map as a function from its keys, where only lookups matter.
use Prim.Native.Nat.{ℕ}
use mathlib.Core.Option.{Option, none, some}
use regent_backend.Base.Tests.{◌==◌, if◌then◌else◌}

abbrev pub Table {ℓ} : Type ℓ → Type ℓ
Table V = ℕ → Option V

module _ {ℓ} {V : Type ℓ} where
  abbrev pub nothing : Table V
  nothing k = none

  abbrev pub put : ℕ → V → Table V → Table V
  put k v t j = if k == j then some v else t j

  abbrev pub remove : ℕ → Table V → Table V
  remove k t j = if k == j then none else t j
