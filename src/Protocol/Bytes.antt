-- ===== src/Protocol/Bytes.antt =====
-- Little-endian fields in a list of bytes.
use votv_mp.Base.{ℕ, zero, suc, ◌+◌, ◌*◌, ◌/◌, ◌%◌, List, [], ◌∷◌, get_or}

abbrev pub byte_at : List ℕ → ℕ → ℕ
byte_at bytes i = get_or bytes i 0

abbrev pub u16_at : List ℕ → ℕ → ℕ
u16_at bytes i = byte_at bytes i + 256 * byte_at bytes (i + 1)

abbrev pub u32_at : List ℕ → ℕ → ℕ
u32_at bytes i = u16_at bytes i + 65536 * u16_at bytes (i + 2)

abbrev pub u16_bytes : ℕ → List ℕ
u16_bytes n = (n % 256) ∷ (n / 256 % 256) ∷ []

abbrev pub u32_bytes : ℕ → List ℕ
u32_bytes n = (n % 256) ∷ (n / 256 % 256) ∷ (n / 65536 % 256) ∷ (n / 16777216 % 256) ∷ []

abbrev pub zeros : ℕ → List ℕ
zeros zero = []
zeros (suc n) = 0 ∷ zeros n
