-- ===== src/Handshake/Text.antt =====
-- What a nickname on display looks like.
use votv_mp.Base.{ℕ, ◌≤◌, ◌≡◌, ◌≢◌, Bool, true, false, ◌||◌, List, [], ◌∷◌, ◌==◌, length, All}
use votv_mp.Handshake.Nickname.{max_nick_len, space, hyphen, is_alnum, is_safe_punct, is_tail}

abbrev pub Printable : ℕ → Type 0
Printable c = (is_alnum c || is_safe_punct c || (c == space)) ≡ true

-- No two spaces in a row; none at the front if `after_space`.
abbrev pub Spaced : Bool → List ℕ → Type 0
Spaced after_space [] = Unit
Spaced after_space (c ∷ s) = (after_space ≡ true → c ≢ space) × Spaced (c == space) s

-- The last character is neither a space nor a hyphen.
abbrev pub Ended : List ℕ → Type 0
Ended [] = Unit
Ended (c ∷ []) = is_tail c ≡ false
Ended (c ∷ d ∷ s) = Ended (d ∷ s)

abbrev pub Begun : List ℕ → Type 0
Begun [] = Unit
Begun (c ∷ s) = c ≢ hyphen

pub record Displayable (s : List ℕ) : Type 0 where
  pub printable : All Printable s
  pub spaced : Spaced false s
  pub begun : Begun s
  pub ended : Ended s
  pub short : length s ≤ max_nick_len
  pub shown : 1 ≤ length s
