-- ===== src/Prelude/Ascending.antt =====
-- Lists of records that ascend by key.
use Prim.Native.Nat.{ℕ, suc, ◌≤◌, ◌<◌}
use mathlib.Core.Path.{◌≡◌, refl}
use mathlib.Core.Option.{Option, none, some}
use mathlib.Core.List.{List, [], ◌∷◌, ◌++◌}
use native.Mathlib.Omega.{arith}
use treeline.Prelude.Tests.{◌==◌, if◌then◌else◌}

module _ {ℓ} {V : Type ℓ} where
  -- The keys are at least the bound, and each is above the one before it.
  abbrev pub IsAscending : ℕ → List (ℕ × V) → Type 0
  IsAscending low [] = Unit {0}
  IsAscending low ((key, value) ∷ rs) = (low ≤ key) × IsAscending (suc key) rs

  abbrev pub value_of : ℕ → List (ℕ × V) → Option V
  value_of k [] = none
  value_of k ((key, value) ∷ rs) = if k == key then some value else value_of k rs

  abbrev pub or_else : Option V → Option V → Option V
  or_else (some v) o = some v
  or_else none o = o

  -- A key below the bound is not there.
  pub absent : (k low : ℕ) (rs : List (ℕ × V)) → k < low → IsAscending low rs → value_of k rs ≡ none
  absent k low [] h a = refl
  absent k low ((key, value) ∷ rs) h a = ground (arith, absent k (suc key) rs)

  pub prefix-IsAscending :
      (low : ℕ) (rs more : List (ℕ × V)) → IsAscending low (rs ++ more) → IsAscending low rs
  prefix-IsAscending low [] more a = tt
  prefix-IsAscending low ((key, value) ∷ rs) more a =
      (a.0, prefix-IsAscending (suc key) rs more a.1)
