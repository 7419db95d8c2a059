-- ===== src/Session.antt =====
-- coop/net/session.{h,cpp}, session_status.cpp, session_relay.cpp and session_lanes.h: one peer's
-- end of the session. GameNetworkingSockets is a parameter: its answers to the calls that can fail,
-- by the number of calls made so far; what the session asks of it is a list of effects.
-- The mutexes and atomics make each step of the net thread or the game thread one transition.
pub mod Quiet
pub mod Receive
pub mod Status
pub mod Relay
pub mod Life
pub mod Stream
pub mod Reach
use votv_mp.Base.{
  ℕ, zero, suc, ◌+◌, ◌-◌, ◌%◌, ◌^◌, Bool, true, false, not, ◌&&◌, ◌||◌, Option, none, some, List,
  [], ◌∷◌, ◌++◌, ltb, leb, ◌==◌, if◌then◌else◌, length, take, drop, update, keep_if,
}
use votv_mp.ElementId.{max_peers}
use votv_mp.Lanes.{Lane, lane_for_kind}
use votv_mp.Protocol.Kind
use votv_mp.Protocol.{
  PoseSnapshot, PropPoseSnapshot, header_size, reliable_header_size, max_packet_bytes,
  max_reliable_payload, write_header, u16_bytes, u32_bytes, zeros,
}

pub data Role : Type 0 where
  host client : Role

pub data ConnState : Type 0 where
  disconnected handshaking connected : ConnState

-- The calls to GameNetworkingSockets.
pub data Effect : Type 0 where
  accept : ℕ → Effect
  close : ℕ → Effect
  close_linger : ℕ → Effect
  destroy_poll_group : ℕ → Effect
  close_listen_socket : ℕ → Effect
  set_user_data : ℕ → ℕ → Effect
  set_poll_group : ℕ → ℕ → Effect
  configure_lanes : ℕ → Effect
  send_unreliable : ℕ → List ℕ → Effect
  send_reliable : ℕ → Lane → List ℕ → Effect

-- The answers of the library to AcceptConnection, AllocateMessage and the sends.
pub record Gns : Type 0 where
  pub accepts : ℕ → Bool
  pub allocates : ℕ → Bool
  pub delivers : ℕ → Bool

pub record ReliableMessage : Type 0 where
  pub kind : ℕ
  pub sender_peer_slot : ℕ
  pub payload : List ℕ

-- The entries of the per-slot arrays that `remoteMutex_` guards.
pub record Remote : Type 0 where
  pub has_remote : Bool
  pub pose : PoseSnapshot
  pub last_remote_seq : ℕ
  pub remote_stamp : ℕ
  pub last_read_stamp : ℕ
  pub has_remote_prop : Bool
  pub prop_pose : PropPoseSnapshot
  pub last_remote_prop_seq : ℕ
  pub remote_prop_stamp : ℕ
  pub last_read_prop_stamp : ℕ
  pub expected_epoch : ℕ

pub record Session : Type 0 where
  pub role : Role
  pub own_epoch : ℕ
  pub state : ConnState
  pub running : Bool
  pub h_listen : ℕ
  pub h_poll : ℕ
  pub peer_conns : ℕ → ℕ
  pub lanes_configured : ℕ → Bool
  pub remotes : ℕ → Remote
  pub inbox : List ReliableMessage
  pub send_seq : ℕ
  pub sent : ℕ
  pub recv : ℕ
  pub last_rtt_ms : ℕ
  pub calls : ℕ
  pub effects : List Effect

abbrev pub all_slots : List ℕ
all_slots = 0 ∷ 1 ∷ 2 ∷ 3 ∷ []

abbrev pub client_slots : List ℕ
client_slots = 1 ∷ 2 ∷ 3 ∷ []

abbrev pub is_host : Role → Bool
is_host host = true
is_host client = false

abbrev pub is_connected : ConnState → Bool
is_connected connected = true
is_connected _ = false

-- fetch_add(1) on a 32-bit and on a 64-bit counter.
abbrev pub next32 : ℕ → ℕ
next32 n = (n + 1) % 2 ^ 32

abbrev pub next64 : ℕ → ℕ
next64 n = (n + 1) % 2 ^ 64

-- A call to the library. Those that can fail are counted, and answered by the count.
unfoldable pub tell : Session → Effect → Session
tell s e = record s { effects = e ∷ s.effects }

unfoldable pub count_call : Session → Session
count_call s = record s { calls = s.calls + 1 }

unfoldable pub find_slot : (ℕ → Bool) → List ℕ → Option ℕ
find_slot test [] = none
find_slot test (i ∷ slots) = if test i then some i else find_slot test slots

unfoldable pub find_free_peer_slot_for_client : Session → Option ℕ
unfolding find_slot
find_free_peer_slot_for_client s = find_slot (λ i. s.peer_conns i == 0) client_slots

unfoldable pub find_peer_slot_for_conn : Session → ℕ → Option ℕ
unfolding find_slot
find_peer_slot_for_conn s conn = find_slot (λ i. s.peer_conns i == conn) all_slots

-- IsSlotConnected and IsSlotReady, and the test of connectedPeerCount.
abbrev pub is_slot_connected : Session → ℕ → Bool
is_slot_connected s i = if leb max_peers i then false else not (s.peer_conns i == 0)

abbrev pub is_slot_ready : Session → ℕ → Bool
is_slot_ready s i = if leb max_peers i then false else s.lanes_configured i

abbrev pub is_counted : Session → ℕ → Bool
is_counted s i = not (s.peer_conns i == 0) && s.lanes_configured i

unfoldable pub count_slots : (ℕ → Bool) → List ℕ → ℕ
count_slots test [] = 0
count_slots test (i ∷ slots) = (if test i then 1 else 0) + count_slots test slots

unfoldable pub connected_peer_count : Session → ℕ
unfolding count_slots
connected_peer_count s = count_slots (is_counted s) all_slots

-- One datagram to one connection: `sent_` counts it if the library takes it.
unfoldable pub send_message : Gns → Effect → Session → Session
unfolding tell count_call
send_message g e s =
    let t = count_call (tell s e) in
    if g.delivers s.calls then record t { sent = next64 t.sent } else t

-- One reliable message: it is allocated, filled and handed over. The result is its success.
unfoldable pub post_reliable : Gns → ℕ → Lane → List ℕ → Session → Session × Bool
unfolding tell count_call
post_reliable g conn lane bytes s =
    if not (g.allocates s.calls)
    then (count_call s, false)
    else let t = count_call (tell s (send_reliable conn lane bytes)) in
      if g.delivers s.calls then (record t { sent = next64 t.sent }, true) else (t, false)

-- The bytes of a reliable message: both headers and the payload.
unfoldable pub reliable_bytes : ℕ → ℕ → ℕ → ℕ → List ℕ → List ℕ
reliable_bytes seq epoch slot kind payload =
    write_header Kind.reliable_type seq epoch slot
    ++ ((kind % 256) ∷ 0 ∷ 0 ∷ 0 ∷ (u16_bytes (length payload) ++ (0 ∷ 0 ∷ payload)))

unfoldable pub send_reliable_to_slot : Gns → Session → ℕ → ℕ → List ℕ → ℕ → Session × Bool
send_reliable_to_slot g s slot kind payload sender_slot =
    if leb max_peers slot || ltb max_reliable_payload (length payload)
    then (s, false)
    else if s.peer_conns slot == 0
    then (s, false)
    else post_reliable g (s.peer_conns slot) (lane_for_kind kind)
        (reliable_bytes s.send_seq s.own_epoch sender_slot kind payload)
        (record s { send_seq = next32 s.send_seq })

-- The fan-out over the slots: one message for each connection.
unfoldable pub fan_out : Gns → Lane → List ℕ → List ℕ → Session → Session × Bool
fan_out g lane bytes [] s = (s, false)
fan_out g lane bytes (i ∷ slots) s =
    let here =
      if s.peer_conns i == 0 then (s, false) else post_reliable g (s.peer_conns i) lane bytes s in
    let rest = fan_out g lane bytes slots here.0 in (rest.0, here.1 || rest.1)

unfoldable pub send_reliable_to_all : Gns → Session → ℕ → List ℕ → Session × Bool
unfolding fan_out
send_reliable_to_all g s kind payload =
    if ltb max_reliable_payload (length payload)
    then (s, false)
    else fan_out g (lane_for_kind kind) (reliable_bytes s.send_seq s.own_epoch 0 kind payload)
        all_slots (record s { send_seq = next32 s.send_seq })

-- What the host writes over the origin's header before it forwards a packet.
unfoldable pub restamp : ℕ → ℕ → List ℕ → List ℕ
restamp epoch origin bytes =
    take 12 bytes ++ (u32_bytes epoch ++ ((origin % 256) ∷ 0 ∷ 0 ∷ 0 ∷ drop 20 bytes))

-- The send loops of the relays: every occupied client slot but the origin's.
unfoldable pub relay_loop : (ℕ → Session → Session) → ℕ → List ℕ → Session → Session
relay_loop post origin [] s = s
relay_loop post origin (i ∷ slots) s =
    relay_loop post origin slots
      (if i == origin then s else if s.peer_conns i == 0 then s else post (s.peer_conns i) s)

abbrev pub out_of_packet : List ℕ → Bool
out_of_packet bytes = ltb (length bytes) header_size || ltb max_packet_bytes (length bytes)

-- The bodies of the two loops: one restamped datagram or message for a connection.
unfoldable pub forward_unreliable : Gns → ℕ → ℕ → List ℕ → ℕ → Session → Session
forward_unreliable g epoch origin bytes conn =
    send_message g (send_unreliable conn (restamp epoch origin bytes))

unfoldable pub forward_reliable : Gns → ℕ → ℕ → ℕ → List ℕ → ℕ → Session → Session
forward_reliable g epoch origin kind bytes conn s =
    (post_reliable g conn (lane_for_kind kind) (restamp epoch origin bytes) s).0

unfoldable pub relay_unreliable_to_other_clients : Gns → Session → ℕ → List ℕ → Session
relay_unreliable_to_other_clients g s origin bytes =
    if not (is_host s.role) || out_of_packet bytes
    then s
    else relay_loop (forward_unreliable g s.own_epoch origin bytes) origin client_slots s

unfoldable pub relay_reliable_to_other_clients : Gns → Session → ℕ → ℕ → List ℕ → Session
relay_reliable_to_other_clients g s origin kind bytes =
    if not (is_host s.role) || out_of_packet bytes
    then s
    else relay_loop (forward_reliable g s.own_epoch origin kind bytes) origin client_slots s
