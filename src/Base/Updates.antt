-- ===== src/Base/Updates.antt =====
-- Memory as total functions on addresses, and a write at one address.
use Prim.Native.Nat.{ℕ}
use mathlib.Core.Path.{◌≡◌, refl}
use mathlib.Core.Logic.{◌≢◌}
use rtmalloc.Base.Tests.{◌==◌, if◌then◌else◌, ne→==, eq→==}

module _ {ℓ} {A : Type ℓ} where
  unfoldable pub update : (ℕ → A) → ℕ → A → ℕ → A
  update f p v q = if q == p then v else f q

  pub update_lem :
      (f : ℕ → A) (p : ℕ) (v : A) (q : ℕ) → update f p v q ≡ (if q == p then v else f q)
  unfolding update
  update_lem f p v q = refl

  pub update_self : (f : ℕ → A) (p : ℕ) (v : A) → update f p v p ≡ v
  unfolding update
  update_self f p v = rw (eq→== p p refl)

  pub update_ne : (f : ℕ → A) (p : ℕ) (v : A) (q : ℕ) → q ≢ p → update f p v q ≡ f q
  unfolding update
  update_ne f p v q h = rw (ne→== q p h)
