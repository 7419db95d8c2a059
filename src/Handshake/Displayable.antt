-- ===== src/Handshake/Displayable.antt =====
-- What a sanitized nickname looks like, and which nicknames are left as they are.
use votv_mp.Base.{
  either_branch, ℕ, ◌≤◌, refl, Bool, true, false, ◌&&◌, List, [], ◌∷◌, ◌==◌, if◌then◌else◌, length,
  arith, inl, inr, Bool-cases, All,
}
use votv_mp.Handshake.Nickname.{
  max_nick_len, space, hyphen, collapse, is_empty, is_tail, trim_end, trim_hyphens, or_default,
  sanitize_nickname,
}
use votv_mp.Handshake.Text.{Printable, Spaced, Ended, Begun, Displayable}
use votv_mp.Handshake.Collapsed.{collapse-Printable, collapse-Spaced, length-collapse}

Spaced-false : (after_space : Bool) (s : List ℕ) → Spaced after_space s → Spaced false s
Spaced-false after_space [] h = tt
Spaced-false after_space (c ∷ s) h = (λ t. ground (arith, t), h.1)

trim_end-Printable : (s : List ℕ) → All Printable s → All Printable (trim_end s)
unfolding trim_end
trim_end-Printable [] h = tt
trim_end-Printable (c ∷ s) h =
    either_branch (is_empty (trim_end s) && is_tail c) (All Printable) [] (c ∷ trim_end s) tt
      (h.0, trim_end-Printable s h.1)

trim_end-Spaced :
    (after_space : Bool) (s : List ℕ) → Spaced after_space s → Spaced after_space (trim_end s)
unfolding trim_end
trim_end-Spaced after_space [] h = tt
trim_end-Spaced after_space (c ∷ s) h =
    either_branch (is_empty (trim_end s) && is_tail c) (Spaced after_space) [] (c ∷ trim_end s) tt
      (h.0, trim_end-Spaced (c == space) s h.1)

length-trim_end : (s : List ℕ) → length (trim_end s) ≤ length s
unfolding trim_end
length-trim_end [] = omega arith
length-trim_end (c ∷ s) = ground (arith, length-trim_end s)

keep_end :
    (c : ℕ) (rest : List ℕ)
    → Ended rest
    → Ended (if is_empty rest && is_tail c then [] else c ∷ rest)
keep_end c [] h = elim (Bool-cases (is_tail c)) [ inl tail ↦ rw tail tt | inr kept ↦ rw kept kept ]
keep_end c (d ∷ rest) h = h

trim_end-Ended : (s : List ℕ) → Ended (trim_end s)
unfolding trim_end
trim_end-Ended [] = tt
trim_end-Ended (c ∷ s) = keep_end c (trim_end s) (trim_end-Ended s)

trim_hyphens-Printable : (s : List ℕ) → All Printable s → All Printable (trim_hyphens s)
unfolding trim_hyphens
trim_hyphens-Printable [] h = tt
trim_hyphens-Printable (c ∷ s) h = elim (Bool-cases (c == hyphen)) [
  | inl y ↦ rw y (trim_hyphens-Printable s h.1)
  | inr n ↦ rw n h
]

trim_hyphens-Spaced : (s : List ℕ) → Spaced false s → Spaced false (trim_hyphens s)
unfolding trim_hyphens
trim_hyphens-Spaced [] h = tt
trim_hyphens-Spaced (c ∷ s) h = elim (Bool-cases (c == hyphen)) [
  | inl y ↦ rw y (trim_hyphens-Spaced s (Spaced-false (c == space) s h.1))
  | inr n ↦ rw n h
]

length-trim_hyphens : (s : List ℕ) → length (trim_hyphens s) ≤ length s
unfolding trim_hyphens
length-trim_hyphens [] = omega arith
length-trim_hyphens (c ∷ s) = ground (arith, length-trim_hyphens s)

tail-Ended : (c : ℕ) (s : List ℕ) → Ended (c ∷ s) → Ended s
tail-Ended c [] h = tt
tail-Ended c (d ∷ s) h = h

trim_hyphens-Ended : (s : List ℕ) → Ended s → Ended (trim_hyphens s)
unfolding trim_hyphens
trim_hyphens-Ended [] h = tt
trim_hyphens-Ended (c ∷ s) h = elim (Bool-cases (c == hyphen)) [
  | inl y ↦ rw y (trim_hyphens-Ended s (tail-Ended c s h))
  | inr n ↦ rw n h
]

trim_hyphens-Begun : (s : List ℕ) → Begun (trim_hyphens s)
unfolding trim_hyphens
trim_hyphens-Begun [] = tt
trim_hyphens-Begun (c ∷ s) = elim (Bool-cases (c == hyphen)) [
  | inl y ↦ rw y (trim_hyphens-Begun s)
  | inr n ↦ rw n (ground (arith, n))
]

or_default-Displayable :
    (s : List ℕ)
    → All Printable s
    → Spaced false s
    → Begun s
    → Ended s
    → length s ≤ max_nick_len
    → Displayable (or_default s)
or_default-Displayable [] p sp b e le = record {
  printable = (refl, (refl, (refl, (refl, (refl, (refl, tt))))));
  spaced = ground arith;
  begun = ground arith;
  ended = refl;
  short = omega arith;
  shown = omega arith;
}
or_default-Displayable (c ∷ s) p sp b e le = record {
  printable = p;
  spaced = sp;
  begun = b;
  ended = e;
  short = le;
  shown = omega arith;
}

-- Whatever the raw nickname is, the sanitized one has 1 to 20 characters, all of them ASCII letters
-- and digits, space, hyphen, underscore or full stop, no two spaces in a row, no hyphen at the front
-- and neither a space nor a hyphen at the end.
pub sanitize_nickname-Displayable : (raw : List ℕ) → Displayable (sanitize_nickname raw)
unfolding sanitize_nickname
sanitize_nickname-Displayable raw =
    let kept = collapse raw true 0 in
    let trimmed = trim_end kept in
    or_default-Displayable (trim_hyphens trimmed)
      (trim_hyphens-Printable trimmed (trim_end-Printable kept (collapse-Printable raw true 0)))
      (trim_hyphens-Spaced trimmed
        (Spaced-false true trimmed (trim_end-Spaced true kept (collapse-Spaced raw true 0))))
      (trim_hyphens-Begun trimmed) (trim_hyphens-Ended trimmed (trim_end-Ended kept))
      (omega (
        arith,
        length-trim_hyphens trimmed,
        length-trim_end kept,
        length-collapse raw true 0 (omega arith),
      ))
