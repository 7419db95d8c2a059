-- ===== src/Handshake/Nickname.antt =====
-- SanitizeNickname of coop/player_handshake.cpp. A wide string is a list of code units.
use votv_mp.Base.{
  ℕ, ◌+◌, Bool, true, false, not, ◌&&◌, ◌||◌, List, [], ◌∷◌, ◌++◌, leb, ◌==◌, if◌then◌else◌, length,
}

abbrev pub max_nick_len : ℕ
max_nick_len = 20

abbrev pub space : ℕ
space = 32

abbrev pub hyphen : ℕ
hyphen = 45

abbrev pub is_alnum : ℕ → Bool
is_alnum c = (leb 48 c && leb c 57) || (leb 65 c && leb c 90) || (leb 97 c && leb c 122)

abbrev pub is_safe_punct : ℕ → Bool
is_safe_punct c = (c == hyphen) || (c == 95) || (c == 46)

-- What the loop does with one character: what it appends, and the next `lastWasSpace`.
unfoldable pub keep_char : ℕ → Bool → List ℕ × Bool
keep_char c last_was_space =
    if is_alnum c || is_safe_punct c
    then (c ∷ [], false)
    else if (c == space) && not last_was_space
    then (space ∷ [], true)
    else ([], last_was_space)

-- The loop, which stops as soon as it has the size: what it appends to `size` characters.
unfoldable pub collapse : List ℕ → Bool → ℕ → List ℕ
unfolding keep_char
collapse [] last_was_space size = []
collapse (c ∷ raw) last_was_space size =
    let kept = keep_char c last_was_space in
    let grown = size + length kept.0 in
    let rest = collapse raw kept.1 grown in kept.0 ++ (if leb max_nick_len grown then [] else rest)

abbrev pub is_empty : List ℕ → Bool
is_empty [] = true
is_empty (c ∷ s) = false

abbrev pub is_tail : ℕ → Bool
is_tail c = (c == space) || (c == hyphen)

-- `while (out.back() == ' ' || out.back() == '-') out.pop_back()`
unfoldable pub trim_end : List ℕ → List ℕ
trim_end [] = []
trim_end (c ∷ s) = let rest = trim_end s in if is_empty rest && is_tail c then [] else c ∷ rest

unfoldable pub trim_hyphens : List ℕ → List ℕ
trim_hyphens [] = []
trim_hyphens (c ∷ s) = let rest = trim_hyphens s in if c == hyphen then rest else c ∷ s

-- L"Player"
abbrev pub default_nick : List ℕ
default_nick = 80 ∷ 108 ∷ 97 ∷ 121 ∷ 101 ∷ 114 ∷ []

abbrev pub or_default : List ℕ → List ℕ
or_default [] = default_nick
or_default (c ∷ s) = c ∷ s

unfoldable pub sanitize_nickname : List ℕ → List ℕ
unfolding collapse trim_end trim_hyphens
sanitize_nickname raw = or_default (trim_hyphens (trim_end (collapse raw true 0)))
