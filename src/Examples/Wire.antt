-- ===== src/Examples/Wire.antt =====
-- Headers, written, restamped and read.
use votv_mp.Base.{ℕ, ◌≡◌, some, [], ◌∷◌, ◌++◌, arith}
use votv_mp.Protocol.{PacketHeader, write_header, parse_header, magic, protocol_version}
use votv_mp.Protocol.Header.{parse_header-write_header}
use votv_mp.Session.{restamp}
use votv_mp.Session.Relay.Restamp.{parse_header-restamp}

abbrev header : ℕ → ℕ → PacketHeader
header epoch slot = record {
  magic_word = magic;
  version = protocol_version;
  type = 2;
  seq = 5;
  sender_epoch = epoch;
  sender_slot = slot;
}

parse_header-write_header_example :
    parse_header (write_header 2 5 900 1 ++ 7 ∷ []) ≡ some (header 900 1)
parse_header-write_header_example =
    parse_header-write_header 2 5 900 1 (7 ∷ []) (omega arith) (omega arith) (omega arith)
      (omega arith)

stamped : parse_header (write_header 2 5 900 1 ++ 7 ∷ []) ≡ some (header 900 1)
stamped =
    parse_header-write_header 2 5 900 1 (7 ∷ []) (omega arith) (omega arith) (omega arith)
      (omega arith)

parse_header-restamp_example :
    parse_header (restamp 77 2 (write_header 2 5 900 1 ++ 7 ∷ [])) ≡ some (header 77 2)
parse_header-restamp_example =
    parse_header-restamp 77 2 (write_header 2 5 900 1 ++ 7 ∷ []) (header 900 1) (omega arith)
      (omega arith) stamped
