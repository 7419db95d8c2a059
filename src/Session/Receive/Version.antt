-- ===== src/Session/Receive/Version.antt =====
-- A peer of another protocol version.
use votv_mp.Base.{ℕ, ◌<◌, ◌≡◌, ◌≢◌, refl, none, List, arith, ltb, inl, inr, Bool-cases, length}
use votv_mp.ElementId.{max_peers}
use votv_mp.Protocol.{parse_header, peek_protocol_version, protocol_version, header_size}
use votv_mp.Session.{Gns, Session, tell, close}
use votv_mp.Session.Receive.{handle_message, reject_version}

unparsed :
    (bytes : List ℕ) → peek_protocol_version bytes ≢ protocol_version → parse_header bytes ≡ none
unfolding parse_header peek_protocol_version
unparsed bytes other = elim (Bool-cases (ltb (length bytes) header_size)) [
  | inl short ↦ rw (short, parse_header) refl
  | inr long ↦ ground arith
]

-- A packet of the right magic and of a protocol version that is neither this one nor 0, on an
-- occupied slot, makes the session close the connection of the slot; the slot table keeps it.
pub other_version_closes :
    (g : Gns) (s : Session) (slot : ℕ) (bytes : List ℕ)
    → peek_protocol_version bytes ≢ 0
    → peek_protocol_version bytes ≢ protocol_version
    → slot < max_peers
    → s.peer_conns slot ≢ 0
    → handle_message g s slot bytes ≡ tell s (close (s.peer_conns slot))
unfolding handle_message reject_version
other_version_closes g s slot bytes real other lt taken =
    rw (unparsed bytes other, handle_message) (ground arith)
