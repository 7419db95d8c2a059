-- ===== src/ElementId.antt =====
-- Element ids: the constants of include/coop/element/element.h, the range predicates of
-- include/coop/element/registry.h and the peer bands of coop/element/registry.cpp.
-- An id is a 32-bit number; a pointer is the address of an object, `none` for nullptr.
pub mod Bands
use votv_mp.Base.{ℕ, ◌+◌, ◌*◌, ◌/◌, ◌-◌, Bool, not, ◌&&◌, ltb, leb, ◌==◌, if◌then◌else◌}

abbrev pub invalid_id : ℕ
invalid_id = 0xffff_ffff

abbrev pub max_elements : ℕ
max_elements = 65536

abbrev pub host_range_size : ℕ
host_range_size = 32768

-- kMaxPeers of players_registry.h: the host and three clients.
abbrev pub max_peers : ℕ
max_peers = 4

abbrev pub peer_id_host : ℕ
peer_id_host = 0

abbrev pub peer_id_unknown : ℕ
peer_id_unknown = 0xff

abbrev pub peer_band_count : ℕ
peer_band_count = max_peers

abbrev pub slot_band_size : ℕ
slot_band_size = (max_elements - host_range_size) / peer_band_count

unfoldable pub band_base : ℕ → ℕ
band_base band = host_range_size + band * slot_band_size

unfoldable pub band_end : ℕ → ℕ
unfolding band_base
band_end band =
    if band + 1 == peer_band_count then max_elements else band_base band + slot_band_size

unfoldable pub is_host_id : ℕ → Bool
is_host_id id = ltb id host_range_size

unfoldable pub is_local_id : ℕ → Bool
is_local_id id = leb host_range_size id && ltb id max_elements

unfoldable pub is_allowed_host_allocated_eid : ℕ → Bool
is_allowed_host_allocated_eid id = not (id == invalid_id) && leb 1 id && ltb id host_range_size

unfoldable pub is_allowed_peer_allocated_eid : ℕ → Bool
is_allowed_peer_allocated_eid id =
    not (id == invalid_id) && leb host_range_size id && ltb id max_elements

unfoldable pub is_allowed_sender_eid : Bool → ℕ → Bool
unfolding is_allowed_host_allocated_eid is_allowed_peer_allocated_eid
is_allowed_sender_eid sender_is_host id =
    if sender_is_host then is_allowed_host_allocated_eid id else is_allowed_peer_allocated_eid id
