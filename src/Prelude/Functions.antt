-- ===== src/Prelude/Functions.antt =====
-- Functions of a number, changed at one place.
use Prim.Native.Nat.{ℕ}
use mathlib.Core.Path.{◌≡◌, refl, fun_ext}
use mathlib.Core.Logic.{◌≢◌, ◌⊎◌, inl, inr}
use mathlib.Core.Bool.{Bool, true, false}
use native.Mathlib.Omega.{arith}
use treeline.Prelude.Tests.{◌==◌, if◌then◌else◌, Bool-cases}

pub same_or_not : (i j : ℕ) → (j ≡ i) ⊎ (j ≢ i)
same_or_not i j = elim (Bool-cases (j == i)) [
  | inl h ↦ inl (ground arith)
  | inr h ↦ inr (λ e. ground arith)
]

module _ {ℓ} {A : Type ℓ} where
  abbrev pub update : (ℕ → A) → ℕ → A → ℕ → A
  update f i v j = if j == i then v else f j

  pub update_self : (f : ℕ → A) (i : ℕ) (v : A) → update f i v i ≡ v
  update_self f i v = let same : (i == i) ≡ true = ground arith in rw same refl

  pub update_ne : (f : ℕ → A) (i j : ℕ) (v : A) → j ≢ i → update f i v j ≡ f j
  update_ne f i j v h = let differs : (j == i) ≡ false = ground arith in rw differs refl

  twice : (b : Bool) (x v w : A) → (if b then w else (if b then v else x)) ≡ (if b then w else x)
  twice true x v w = refl
  twice false x v w = refl

  pub update_twice : (f : ℕ → A) (i : ℕ) (v w : A) → update (update f i v) i w ≡ update f i w
  update_twice f i v w = fun_ext (λ j. twice (j == i) (f j) v w)

  -- Writing what is there changes nothing.
  pub update_same : (f : ℕ → A) (i : ℕ) → update f i (f i) ≡ f
  update_same f i = fun_ext (λ j. ground arith)

  pub update_swap :
      (f : ℕ → A) (i j : ℕ) (v w : A)
      → i ≢ j
      → update (update f i v) j w ≡ update (update f j w) i v
  update_swap f i j v w h = fun_ext (λ k. ground arith)
