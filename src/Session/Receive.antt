-- ===== src/Session/Receive.antt =====
-- Session::HandleMessage of coop/net/session.cpp, for a packet on a connection slot, and the
-- readers of what it stores: TryGetRemotePose, TryGetRemotePropPose and TryGetReliable.
pub mod Cases
pub mod Epoch
pub mod Growth
pub mod Stored
pub mod Version
pub mod Origin
use votv_mp.Base.{
  ℕ, ◌+◌, ◌-◌, ◌%◌, ◌^◌, Bool, true, false, not, ◌&&◌, ◌||◌, Option, none, some, List, [], ◌∷◌,
  ◌++◌, ltb, leb, ◌==◌, if◌then◌else◌, length, take, drop, update,
}
use votv_mp.Base.Int.{int32, is_at_most_zero}
use votv_mp.ElementId.{max_peers}
use votv_mp.Protocol.{
  PacketHeader, PoseSnapshot, PropPoseSnapshot, protocol_version, header_size, reliable_header_size,
  pose_packet_size, prop_pose_packet_size, max_reliable_payload, parse_header,
  peek_protocol_version, read_pose, validate_pose, read_prop_pose, validate_prop_pose, byte_at,
  u16_at,
}
use votv_mp.Protocol.Kind
use votv_mp.Lanes.{is_client_relayable_reliable_kind}
use votv_mp.Session.{
  Gns, Session, Remote, ReliableMessage, Role, is_host, is_connected, close, tell, next64,
  relay_unreliable_to_other_clients, relay_reliable_to_other_clients,
}

-- static_cast<int32_t>(seq - last) <= 0
unfoldable pub is_stale : ℕ → ℕ → Bool
is_stale seq last = is_at_most_zero (int32 ((seq + 2 ^ 32 - last) % 2 ^ 32))

abbrev pub set_remote : Session → ℕ → Remote → Session
set_remote s slot r = record s { remotes = update s.remotes slot r }

abbrev pub inbox_cap : ℕ
inbox_cap = 8192

-- A packet that does not parse: a peer of another protocol version is disconnected.
unfoldable pub reject_version : Session → ℕ → List ℕ → Session
unfolding tell
reject_version s slot bytes =
    let version = peek_protocol_version bytes in
    if not (version == 0)
      && not (version == protocol_version)
      && ltb slot max_peers
      && not (s.peer_conns slot == 0)
    then tell s (close (s.peer_conns slot))
    else s

abbrev pub with_pose : Remote → ℕ → PoseSnapshot → Remote
with_pose r seq pose = record r {
  pose = pose;
  last_remote_seq = seq;
  has_remote = true;
  remote_stamp = next64 r.remote_stamp;
}

unfoldable pub on_pose : Gns → Session → ℕ → ℕ → PacketHeader → List ℕ → Session
unfolding is_stale
on_pose g s slot route h bytes =
    let r = s.remotes route in
    if ltb (length bytes) pose_packet_size
    then s
    else if not (validate_pose (read_pose bytes))
    then s
    else if r.has_remote && is_stale h.seq r.last_remote_seq
    then s
    else let t = set_remote s route (with_pose r h.seq (read_pose bytes)) in
      if is_host s.role then relay_unreliable_to_other_clients g t slot bytes else t

abbrev pub with_prop_pose : Remote → ℕ → PropPoseSnapshot → Remote
with_prop_pose r seq pose = record r {
  prop_pose = pose;
  last_remote_prop_seq = seq;
  has_remote_prop = true;
  remote_prop_stamp = next64 r.remote_prop_stamp;
}

unfoldable pub on_prop_pose : Gns → Session → ℕ → ℕ → PacketHeader → List ℕ → Session
unfolding is_stale
on_prop_pose g s slot route h bytes =
    let r = s.remotes route in
    if ltb (length bytes) prop_pose_packet_size
    then s
    else if not (validate_prop_pose (read_prop_pose bytes))
    then s
    else if r.has_remote_prop && is_stale h.seq r.last_remote_prop_seq
    then s
    else let t = set_remote s route (with_prop_pose r h.seq (read_prop_pose bytes)) in
      if is_host s.role then relay_unreliable_to_other_clients g t slot bytes else t

-- The queued message: its origin is the route, its payload follows both headers.
unfoldable pub message_of : ℕ → List ℕ → ReliableMessage
message_of route bytes = record {
  kind = byte_at bytes 20;
  sender_peer_slot = route;
  payload = take (u16_at bytes 24) (drop 28 bytes);
}

unfoldable pub on_reliable : Gns → Session → ℕ → ℕ → List ℕ → Session
on_reliable g s slot route bytes =
    if ltb (length bytes) (header_size + reliable_header_size)
    then s
    else if ltb max_reliable_payload (u16_at bytes 24)
    then s
    else if ltb (length bytes) (header_size + reliable_header_size + u16_at bytes 24)
    then s
    else if leb inbox_cap (length s.inbox)
    then s
    else let t = record s { inbox = s.inbox ++ message_of route bytes ∷ [] } in
      if is_host s.role && is_client_relayable_reliable_kind (byte_at bytes 20)
      then relay_reliable_to_other_clients g t slot (byte_at bytes 20) bytes
      else t

unfoldable pub dispatch : Gns → Session → ℕ → ℕ → PacketHeader → List ℕ → Session
dispatch g s slot route h bytes =
    if h.type == Kind.pose_snapshot_type
    then on_pose g s slot route h bytes
    else if h.type == Kind.prop_pose_type
    then on_prop_pose g s slot route h bytes
    else if h.type == Kind.reliable_type
    then on_reliable g s slot route bytes
    else s

-- The origin of the data: the connection on the host, the stamped slot on a client.
unfoldable pub route_slot : Session → ℕ → PacketHeader → ℕ
route_slot s slot h = if is_host s.role then slot else h.sender_slot

unfoldable pub route : Gns → Session → ℕ → PacketHeader → List ℕ → Session
unfolding route_slot
route g s slot h bytes =
    if not (is_host s.role) && leb max_peers h.sender_slot
    then s
    else dispatch g s slot (route_slot s slot h) h bytes

-- The stale-generation check and its latch.
unfoldable pub admit : Gns → Session → ℕ → PacketHeader → List ℕ → Session
admit g s slot h bytes =
    let r = s.remotes slot in
    if h.sender_epoch == 0
    then s
    else if r.expected_epoch == 0
    then route g (set_remote s slot (record r { expected_epoch = h.sender_epoch })) slot h bytes
    else if r.expected_epoch == h.sender_epoch
    then route g s slot h bytes
    else s

unfoldable pub handle_message : Gns → Session → ℕ → List ℕ → Session
handle_message g s slot bytes = elim (parse_header bytes) [
  | none ↦ reject_version s slot bytes
  | some h ↦
      if leb max_peers slot then s else admit g (record s { recv = next64 s.recv }) slot h bytes
]

-- What the net thread hands over: on the host the slot is the connection's user data, which must
-- name a client slot (`ud` below 1 is none).
unfoldable pub receive : Gns → Session → ℕ → List ℕ → Session
receive g s user_data bytes =
    if is_host s.role
    then (if user_data == 0 || leb max_peers user_data
        then s
        else handle_message g s user_data bytes)
    else handle_message g s 0 bytes

-- The pose of a slot and whether it is new since the last read.
unfoldable pub try_get_remote_pose : Session → ℕ → Session × Option (PoseSnapshot × Bool)
try_get_remote_pose s slot =
    let r = s.remotes slot in
    if not (is_connected s.state) || leb max_peers slot || not r.has_remote then (s, none) else (
      set_remote s slot (record r { last_read_stamp = r.remote_stamp }),
      some (r.pose, not (r.remote_stamp == r.last_read_stamp)),
    )

unfoldable pub try_get_remote_prop_pose : Session → ℕ → Session × Option (PropPoseSnapshot × Bool)
try_get_remote_prop_pose s slot =
    let r = s.remotes slot in
    if not (is_connected s.state) || leb max_peers slot || not r.has_remote_prop
    then (s, none)
    else (
      set_remote s slot (record r { last_read_prop_stamp = r.remote_prop_stamp }),
      some (r.prop_pose, not (r.remote_prop_stamp == r.last_read_prop_stamp)),
    )

unfoldable pub try_get_reliable : Session → Session × Option ReliableMessage
try_get_reliable s = elim s.inbox [
  | [] ↦ (s, none)
  | m ∷ rest ↦ (record s { inbox = rest }, some m)
]
