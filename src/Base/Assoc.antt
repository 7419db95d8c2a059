-- ===== src/Base/Assoc.antt =====
-- Association lists with number keys: `std::unordered_map` with each key at most once.
use Prim.Native.Nat.{ℕ}
use mathlib.Core.Path.{◌≡◌, refl}
use mathlib.Core.Bool.{Bool}
use mathlib.Core.Option.{Option, none, some}
use mathlib.Core.List.{List, [], ◌∷◌}
use native.Mathlib.Omega.{arith}
use votv_mp.Base.Tests.{◌==◌, if◌then◌else◌}
use votv_mp.Base.Lists.{keep_if}

module _ {ℓ} {V : Type ℓ} where
  unfoldable pub lookup : ℕ → List (ℕ × V) → Option V
  lookup k [] = none
  lookup k ((j, v) ∷ m) = if j == k then some v else lookup k m

  unfoldable pub erase : ℕ → List (ℕ × V) → List (ℕ × V)
  erase k [] = []
  erase k ((j, v) ∷ m) = if j == k then m else (j, v) ∷ erase k m

  -- No key occurs twice.
  abbrev pub Keyed : List (ℕ × V) → Type ℓ
  Keyed [] = Unit
  Keyed ((k, v) ∷ m) = (lookup k m ≡ none) × Keyed m

  -- A later entry is found past one of another key.
  pub lookup-cons_tail :
      (k j : ℕ) (v w : V) (m : List (ℕ × V))
      → lookup k m ≡ none
      → lookup j m ≡ some w
      → lookup j ((k, v) ∷ m) ≡ some w
  unfolding lookup
  lookup-cons_tail k j v w m h e = ground (arith, h)

  pub lookup-erase :
      (k j : ℕ) (m : List (ℕ × V))
      → Keyed m
      → lookup j (erase k m) ≡ (if k == j then none else lookup j m)
  unfolding lookup erase
  lookup-erase k j [] d = ground arith
  lookup-erase k j ((i, v) ∷ m) d = ground (arith, lookup-erase k j m d.1, d.0)

  pub erase-Keyed : (k : ℕ) (m : List (ℕ × V)) → Keyed m → Keyed (erase k m)
  unfolding erase
  erase-Keyed k [] d = tt
  erase-Keyed k ((i, v) ∷ m) d = ground (arith, lookup-erase k i m d.1, d.0, erase-Keyed k m d.1)

  -- The entries that pass a test, as a lookup.
  abbrev pub passing : (V → Bool) → Option V → Option V
  passing f none = none
  passing f (some v) = if f v then some v else none

  pub lookup-keep_if :
      (f : V → Bool) (k : ℕ) (m : List (ℕ × V))
      → Keyed m
      → lookup k (keep_if (λ x. f x.1) m) ≡ passing f (lookup k m)
  unfolding lookup keep_if
  lookup-keep_if f k [] d = refl
  lookup-keep_if f k ((i, v) ∷ m) d = ground (arith, lookup-keep_if f k m d.1, d.0)

  pub keep_if-Keyed : (f : V → Bool) (m : List (ℕ × V)) → Keyed m → Keyed (keep_if (λ x. f x.1) m)
  unfolding keep_if
  keep_if-Keyed f [] d = tt
  keep_if-Keyed f ((i, v) ∷ m) d =
      ground (arith, lookup-keep_if f i m d.1, d.0, keep_if-Keyed f m d.1)
