-- ===== src/Handshake/Collapsed.antt =====
-- What the first loop of SanitizeNickname leaves.
use votv_mp.Base.{
  either_branch, ℕ, ◌+◌, ◌≤◌, ◌≡◌, ◌⊎◌, refl, Bool, true, false, not, ◌&&◌, ◌||◌, List, [], ◌∷◌,
  leb, ◌==◌, if◌then◌else◌, length, arith, inl, inr, Bool-cases, All,
}
use votv_mp.Handshake.Nickname.{max_nick_len, space, is_alnum, is_safe_punct, keep_char, collapse}
use votv_mp.Handshake.Text.{Printable, Spaced}

-- The three things that the loop does with a character.
keep_char-cases :
    (c : ℕ) (after_space : Bool)
    → ((keep_char c after_space ≡ (c ∷ [], false)) × (Printable c × ((c == space) ≡ false)))
      ⊎ (((keep_char c after_space ≡ (space ∷ [], true)) × (after_space ≡ false))
          ⊎ (keep_char c after_space ≡ ([], after_space)))
unfolding keep_char
keep_char-cases c after_space = elim (Bool-cases (is_alnum c || is_safe_punct c)) [
  | inl kept ↦ inl (rw kept refl, (ground (arith, kept), ground (arith, kept)))
  | inr other ↦ elim (Bool-cases ((c == space) && not after_space)) [
    | inl spaced ↦ inr (inl (rw (other, spaced) refl, ground (arith, spaced)))
    | inr dropped ↦ inr (inr (rw (other, dropped) refl))
  ]
]

pub collapse-Printable :
    (raw : List ℕ) (after_space : Bool) (size : ℕ) → All Printable (collapse raw after_space size)
unfolding collapse
collapse-Printable [] after_space size = tt
collapse-Printable (c ∷ raw) after_space size = elim (keep_char-cases c after_space) [
  | inl (e, (p, ne)) ↦
      rw e (p, either_branch _ (All Printable) [] _ tt (collapse-Printable raw false (size + 1)))
  | inr (inl (e, b)) ↦
      rw e (refl, either_branch _ (All Printable) [] _ tt (collapse-Printable raw true (size + 1)))
  | inr (inr e) ↦
      rw e (either_branch _ (All Printable) [] _ tt (collapse-Printable raw after_space (size + 0)))
]

pub collapse-Spaced :
    (raw : List ℕ) (after_space : Bool) (size : ℕ)
    → Spaced after_space (collapse raw after_space size)
unfolding collapse
collapse-Spaced [] after_space size = tt
collapse-Spaced (c ∷ raw) after_space size = elim (keep_char-cases c after_space) [
  | inl (e, (p, ne)) ↦ rw e (
    λ b. ground (arith, ne),
    rw ne (either_branch _ (Spaced false) [] _ tt (collapse-Spaced raw false (size + 1))),
  )
  | inr (inl (e, b)) ↦ rw e (
    λ t. ground (arith, b, t),
    either_branch _ (Spaced true) [] _ tt (collapse-Spaced raw true (size + 1)),
  )
  | inr (inr e) ↦
      rw e
        (either_branch _ (Spaced after_space) [] _ tt (collapse-Spaced raw after_space (size + 0)))
]

length-cut :
    (s : List ℕ) (size : ℕ)
    → (size ≤ 19 → size + length s ≤ max_nick_len)
    → size ≤ max_nick_len
    → size + length (if leb max_nick_len size then [] else s) ≤ max_nick_len
length-cut s size h le = elim (Bool-cases (leb max_nick_len size)) [
  | inl full ↦ rw full (omega (arith, le))
  | inr room ↦ rw room (h (ground (arith, room)))
]

pub length-collapse :
    (raw : List ℕ) (after_space : Bool) (size : ℕ)
    → size ≤ 19
    → size + length (collapse raw after_space size) ≤ max_nick_len
unfolding collapse
length-collapse [] after_space size le = omega (arith, le)
length-collapse (c ∷ raw) after_space size le = elim (keep_char-cases c after_space) [
  | inl (e, (p, ne)) ↦ rw e (
      omega (
        arith,
        length-cut (collapse raw false (size + 1)) (size + 1) (length-collapse raw false (size + 1))
            (omega (arith, le)),
      ))
  | inr (inl (e, b)) ↦ rw e (
      omega (
        arith,
        length-cut (collapse raw true (size + 1)) (size + 1) (length-collapse raw true (size + 1))
            (omega (arith, le)),
      ))
  | inr (inr e) ↦ rw e (
      omega (
        arith,
        length-cut (collapse raw after_space (size + 0)) (size + 0)
            (length-collapse raw after_space (size + 0)) (omega (arith, le)),
      ))
]
