-- ===== src/Registry/Fill.antt =====
-- The free stacks as RefillFreeStacks_ and SetLocalPeerBand fill them.
use votv_mp.Base.{
  ℕ, zero, suc, ◌+◌, ◌≤◌, ◌<◌, ◌≡◌, List, ◌∷◌, arith, length, All, All-map, Distinct,
}
use votv_mp.Registry.{push_down}

pub All-push_down {κ} :
    (P : ℕ → Type κ) (b n : ℕ) (stack : List ℕ)
    → ((k : ℕ) → b ≤ k → k < b + n → P k)
    → All P stack
    → All P (push_down b n stack)
unfolding push_down
All-push_down P b zero stack f h = h
All-push_down P b (suc n) stack f h =
    All-push_down P b n ((b + n) ∷ stack) (λ k lo hi. f k lo (omega arith))
      (f (b + n) (omega arith) (omega arith), h)

pub push_down-Distinct :
    (b n : ℕ) (stack : List ℕ)
    → All (λ y. b + n ≤ y) stack
    → Distinct stack
    → Distinct (push_down b n stack)
unfolding push_down
push_down-Distinct b zero stack h d = d
push_down-Distinct b (suc n) stack h d =
    push_down-Distinct b n ((b + n) ∷ stack) (omega arith, All-map stack (λ y le. omega arith) h)
      (All-map stack (λ y le e. omega arith) h, d)

pub length-push_down : (b n : ℕ) (stack : List ℕ) → length (push_down b n stack) ≡ n + length stack
unfolding push_down
length-push_down b zero stack = omega arith
length-push_down b (suc n) stack = omega (arith, length-push_down b n ((b + n) ∷ stack))
