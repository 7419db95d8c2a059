-- ===== src/Session/Relay/Restamp.antt =====
-- What a client reads in the header of a packet that the host has restamped.
use votv_mp.Base.{
  ℕ, zero, suc, ◌≡◌, ◌<◌, ◌≤◌, ◌+◌, ◌^◌, ◌%◌, refl, ◌∙◌, ap, List, [], ◌∷◌, ◌++◌, some, length,
  arith, take, drop, get_or, length-append,
}
use votv_mp.Protocol.{
  PacketHeader, parse_header, read_header, magic, protocol_version, u32_bytes, u32_at,
}
use votv_mp.Session.{restamp}

get_or-front :
    (n i : ℕ) (xs ys : List ℕ)
    → i < n
    → n ≤ length xs
    → get_or (take n xs ++ ys) i 0 ≡ get_or xs i 0
get_or-front zero i xs ys lt le = ground arith
get_or-front (suc n) i [] ys lt le = ground arith
get_or-front (suc n) zero (x ∷ xs) ys lt le = refl
get_or-front (suc n) (suc i) (x ∷ xs) ys lt le = get_or-front n i xs ys (omega arith) (omega arith)

get_or-back :
    (n i : ℕ) (xs ys : List ℕ) → n ≤ length xs → get_or (take n xs ++ ys) (n + i) 0 ≡ get_or ys i 0
get_or-back zero i xs ys le = ap (λ j. get_or ys j 0) (zero-left i)
  where
    zero-left : (i : ℕ) → 0 + i ≡ i
    zero-left i = omega arith
get_or-back (suc n) i [] ys le = ground arith
get_or-back (suc n) i (x ∷ xs) ys le =
    ap (λ j. get_or (x ∷ (take n xs ++ ys)) j 0) (suc-left n i)
    ∙ get_or-back n i xs ys (omega arith)
  where
    suc-left : (n i : ℕ) → suc n + i ≡ suc (n + i)
    suc-left n i = omega arith

length-take : (n : ℕ) (xs : List ℕ) → n ≤ length xs → length (take n xs) ≡ n
length-take zero xs h = refl
length-take (suc n) [] h = ground arith
length-take (suc n) (x ∷ xs) h = ap suc (length-take n xs (omega arith))

length-restamp :
    (epoch origin : ℕ) (bytes : List ℕ)
    → 20 ≤ length bytes
    → 20 ≤ length (restamp epoch origin bytes)
unfolding restamp
length-restamp epoch origin bytes h = omega (
  arith,
  length-append (take 12 bytes) (u32_bytes epoch ++ ((origin % 256) ∷ 0 ∷ 0 ∷ 0 ∷ drop 20 bytes)),
  length-take 12 bytes,
)

u32_at-u32_bytes : (n : ℕ) (rest : List ℕ) → n < 2 ^ 32 → u32_at (u32_bytes n ++ rest) 0 ≡ n
u32_at-u32_bytes n rest h = omega arith

read_header-restamp :
    (epoch origin : ℕ) (bytes : List ℕ)
    → 20 ≤ length bytes
    → epoch < 2 ^ 32
    → origin < 256
    → read_header (restamp epoch origin bytes)
      ≡ record (read_header bytes) { sender_epoch = epoch; sender_slot = origin }
unfolding read_header restamp
read_header-restamp epoch origin bytes h he ho =
    rw
      (
        front 0 (omega arith),
        front 1 (omega arith),
        front 2 (omega arith),
        front 3 (omega arith),
        front 4 (omega arith),
        front 5 (omega arith),
        front 6 (omega arith),
        front 8 (omega arith),
        front 9 (omega arith),
        front 10 (omega arith),
        front 11 (omega arith),
        back 0,
        back 1,
        back 2,
        back 3,
        back 4,
      )
      (ground arith)
  where
    tail : List ℕ
    tail = u32_bytes epoch ++ ((origin % 256) ∷ 0 ∷ 0 ∷ 0 ∷ drop 20 bytes)

    front : (i : ℕ) → i < 12 → get_or (take 12 bytes ++ tail) i 0 ≡ get_or bytes i 0
    front i lt = get_or-front 12 i bytes tail lt (omega arith)

    back : (i : ℕ) → get_or (take 12 bytes ++ tail) (12 + i) 0 ≡ get_or tail i 0
    back i = get_or-back 12 i bytes tail (omega arith)

parse_of :
    (bytes : List ℕ)
    → 20 ≤ length bytes
    → (read_header bytes).magic_word ≡ magic
    → (read_header bytes).version ≡ protocol_version
    → parse_header bytes ≡ some (read_header bytes)
unfolding parse_header read_header
parse_of bytes h m v = ground arith

read_of :
    (bytes : List ℕ) (h : PacketHeader)
    → parse_header bytes ≡ some h
    → (20 ≤ length bytes)
      × ((read_header bytes).magic_word ≡ magic)
      × ((read_header bytes).version ≡ protocol_version)
      × (read_header bytes ≡ h)
unfolding parse_header read_header
read_of bytes h e = ground arith

-- If the host could read the header of a packet, then what any peer reads in the restamped packet is
-- that header with the host's epoch and the slot of the origin: nothing else in it changed.
pub parse_header-restamp :
    (epoch origin : ℕ) (bytes : List ℕ) (h : PacketHeader)
    → epoch < 2 ^ 32
    → origin < 256
    → parse_header bytes ≡ some h
    → parse_header (restamp epoch origin bytes)
      ≡ some (record h { sender_epoch = epoch; sender_slot = origin })
parse_header-restamp epoch origin bytes h he ho parsed =
    let (long, magic_ok, version_ok, same) = read_of bytes h parsed in
    let read = read_header-restamp epoch origin bytes long he ho in
    parse_of (restamp epoch origin bytes) (length-restamp epoch origin bytes long)
      (ap (λ x. x.magic_word) read ∙ magic_ok) (ap (λ x. x.version) read ∙ version_ok)
    ∙ ap some (read ∙ ap stamped same)
  where
    stamped : PacketHeader → PacketHeader
    stamped x = record x { sender_epoch = epoch; sender_slot = origin }
