-- ===== src/Base/Tables.antt =====
-- Arrays and maps as functions from an index, with a pointwise update.
use Prim.Native.Nat.{ℕ}
use mathlib.Core.Path.{◌≡◌}
use mathlib.Core.Logic.{◌≢◌}
use native.Mathlib.Omega.{arith}
use vots.Base.Tests.{◌==◌, if◌then◌else◌}

module _ {ℓ} {A : Type ℓ} where
  abbrev pub update : (ℕ → A) → ℕ → A → ℕ → A
  update f p v q = if p == q then v else f q

  pub update_self : (f : ℕ → A) (p : ℕ) (v : A) → update f p v p ≡ v
  update_self f p v = ground arith

  pub update_ne : (f : ℕ → A) (p : ℕ) (v : A) (q : ℕ) → p ≢ q → update f p v q ≡ f q
  update_ne f p v q h = ground arith
