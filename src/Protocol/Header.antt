-- ===== src/Protocol/Header.antt =====
-- The header round trip.
use votv_mp.Base.{ℕ, ◌^◌, ◌<◌, ◌≡◌, some, List, ◌++◌, arith}
use votv_mp.Protocol.{write_header, parse_header, magic, protocol_version}

-- ParseHeader reads back what WriteHeader wrote, whatever follows the header.
pub parse_header-write_header :
    (type seq epoch slot : ℕ) (rest : List ℕ)
    → type < 256
    → seq < 2 ^ 32
    → epoch < 2 ^ 32
    → slot < 256
    → parse_header (write_header type seq epoch slot ++ rest)
      ≡ some (record {
        magic_word = magic;
        version = protocol_version;
        type = type;
        seq = seq;
        sender_epoch = epoch;
        sender_slot = slot;
      })
unfolding parse_header write_header
parse_header-write_header type seq epoch slot rest ht hs he hl = ground arith
