-- ===== src/Handshake/Unchanged.antt =====
-- The nicknames that SanitizeNickname leaves as they are: both ends of a connection agree on them.
use votv_mp.Base.{
  ℕ, ◌+◌, ◌≤◌, ◌≡◌, ◌≢◌, refl, ap, Bool, true, false, ◌||◌, List, [], ◌∷◌, leb, ◌==◌, if◌then◌else◌,
  length, arith, inl, inr, Bool-cases, All, ==_ne,
}
use votv_mp.Handshake.Nickname.{
  max_nick_len, space, hyphen, is_alnum, is_safe_punct, keep_char, collapse, trim_end, trim_hyphens,
  or_default, sanitize_nickname,
}
use votv_mp.Handshake.Text.{Printable, Spaced, Ended, Begun, Displayable}

keep_char-Printable_kept :
    (c : ℕ) (after_space : Bool)
    → Printable c
    → (after_space ≡ true → c ≢ space)
    → keep_char c after_space ≡ (c ∷ [], c == space)
unfolding keep_char
keep_char-Printable_kept c after_space p h = elim (Bool-cases (c == space)) [
  | inl y ↦
      let e : c ≡ space = ground (arith, y) in
      let f : after_space ≡ false = elim (Bool-cases after_space) [
        | inl t ↦ absurd (h t e)
        | inr n ↦ n
      ] in
      rw (e, f) refl
  | inr n ↦ let k : (is_alnum c || is_safe_punct c) ≡ true = ground (arith, p, n) in rw (k, n) refl
]

-- The loop stops with the last character at the latest.
full_or_kept :
    (s : List ℕ) (size : ℕ) {r : List ℕ}
    → r ≡ s
    → size + length s ≤ max_nick_len
    → (if leb max_nick_len size then [] else r) ≡ s
full_or_kept s size e le = elim (Bool-cases (leb max_nick_len size)) [
  | inl full ↦ rw full (nothing_left s (ground (arith, full, le)))
  | inr room ↦ rw room e
]
  where
    nothing_left : (t : List ℕ) → length t ≤ 0 → [] ≡ t
    nothing_left [] h = refl
    nothing_left (c ∷ t) h = absurd (omega (arith, h))

collapse-Printable_same :
    (s : List ℕ) (after_space : Bool) (size : ℕ)
    → All Printable s
    → Spaced after_space s
    → size + length s ≤ max_nick_len
    → collapse s after_space size ≡ s
unfolding collapse
collapse-Printable_same [] after_space size p sp le = refl
collapse-Printable_same (c ∷ s) after_space size p sp le =
    rw (keep_char-Printable_kept c after_space p.0 sp.0) (
      ap (λ r. c ∷ r)
        (full_or_kept s (size + 1)
          (collapse-Printable_same s (c == space) (size + 1) p.1 sp.1 (omega (arith, le)))
          (omega (arith, le))))

trim_end-Ended_same : (s : List ℕ) → Ended s → trim_end s ≡ s
unfolding trim_end
trim_end-Ended_same [] h = refl
trim_end-Ended_same (c ∷ []) h = rw h refl
trim_end-Ended_same (c ∷ d ∷ s) h = rw (trim_end-Ended_same (d ∷ s) h) refl

trim_hyphens-Begun_same : (s : List ℕ) → Begun s → trim_hyphens s ≡ s
unfolding trim_hyphens
trim_hyphens-Begun_same [] h = refl
trim_hyphens-Begun_same (c ∷ s) h = rw (==_ne c hyphen h) refl

or_default-shown : (s : List ℕ) → 1 ≤ length s → or_default s ≡ s
or_default-shown [] h = absurd (omega (arith, h))
or_default-shown (c ∷ s) h = refl

-- A displayable nickname whose first character is not a space is left as it is, so the nickname that
-- the sender has sanitized is the nickname that the receiver shows.
pub sanitize_nickname_same : (s : List ℕ) → Displayable s → Spaced true s → sanitize_nickname s ≡ s
unfolding sanitize_nickname
sanitize_nickname_same s d sp =
    rw
      (
        collapse-Printable_same s true 0 d.printable sp (omega (arith, d.short)),
        trim_end-Ended_same s d.ended,
        trim_hyphens-Begun_same s d.begun,
      )
      (or_default-shown s d.shown)
