-- ===== src/Base/Maps.antt =====
-- Maps from numbers as functions: arrays by index, object stores by address.
use Prim.Native.Nat.{ℕ}
use mathlib.Core.Path.{◌≡◌}
use mathlib.Core.Logic.{◌≢◌}
use votv_mp.Base.Tests.{◌==◌, if◌then◌else◌, ==_refl, ==_ne}

module _ {ℓ} {A : Type ℓ} where
  abbrev pub update : (ℕ → A) → ℕ → A → ℕ → A
  update f k v j = if j == k then v else f j

  pub update_self : (f : ℕ → A) (k : ℕ) (v : A) → update f k v k ≡ v
  update_self f k v = rw ==_refl

  pub update_ne : (f : ℕ → A) (k : ℕ) (v : A) (j : ℕ) → j ≢ k → update f k v j ≡ f j
  update_ne f k v j h = rw (==_ne j k h)
