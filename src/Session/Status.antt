-- ===== src/Session/Status.antt =====
-- coop/net/session_status.cpp: HandleConnStatusChanged, the slot table's only writer while a session
-- runs. The id of the local player's element, which the AssignPeerSlot message carries, is an argument.
pub mod Table
pub mod Closing
pub mod Admission
pub mod Ready
pub mod Mismatch
pub mod Received
use votv_mp.Base.{
  ℕ, zero, Bool, true, false, not, ◌&&◌, ◌||◌, Option, none, some, List, [], ◌∷◌, ◌++◌, leb, ◌==◌,
  if◌then◌else◌, update, keep_if,
}
use votv_mp.ElementId.{max_peers}
use votv_mp.Protocol.{u32_bytes}
use votv_mp.Protocol.Kind
use votv_mp.Session.{
  Gns, Session, Remote, ReliableMessage, ConnState, is_host, accept, close, set_user_data,
  set_poll_group, configure_lanes, disconnected, handshaking, connected, tell, count_call,
  find_free_peer_slot_for_client, find_peer_slot_for_conn, connected_peer_count,
  send_reliable_to_slot,
}
use votv_mp.Session.Receive.{set_remote}

-- The states of a connection that the callback tells apart; `other` is every other state.
pub data GnsState : Type 0 where
  no_state connecting conn_open closed_by_peer problem_detected_locally other : GnsState

-- SteamNetConnectionStatusChangedCallback_t
pub record StatusChange : Type 0 where
  pub conn : ℕ
  pub old_state : GnsState
  pub new_state : GnsState

abbrev pub cleared : Remote → Remote
cleared r = record r {
  has_remote = false;
  last_remote_seq = 0;
  remote_stamp = 0;
  last_read_stamp = 0;
  has_remote_prop = false;
  last_remote_prop_seq = 0;
  remote_prop_stamp = 0;
  last_read_prop_stamp = 0;
  expected_epoch = 0;
}

unfoldable pub reset_peer_remote_state : Session → ℕ → Session
reset_peer_remote_state s slot =
    if leb max_peers slot then s else set_remote s slot (cleared (s.remotes slot))

-- A connection takes a slot: tagged with it, polled with the others, entered in the table.
unfoldable pub register : Session → ℕ → ℕ → Session
unfolding tell
register s conn slot =
    let t = tell s (set_user_data conn slot) in
    let u = if t.h_poll == 0 then t else tell t (set_poll_group conn t.h_poll) in
    record u { peer_conns = update u.peer_conns slot conn }

abbrev pub handshake : ConnState → ConnState
handshake disconnected = handshaking
handshake s = s

-- None to Connecting, on the host.
unfoldable pub on_connecting : Gns → Session → ℕ → Session
unfolding tell count_call register
on_connecting g s conn = elim (find_free_peer_slot_for_client s) [
  | none ↦ tell s (close conn)
  | some slot ↦
      let t = count_call (tell s (accept conn)) in
      if not (g.accepts s.calls)
      then tell t (close conn)
      else let u = register t conn slot in record u { state = handshake u.state }
]

-- The payload of AssignPeerSlot: the slot, three bytes of padding, the host's element id.
abbrev pub assign_peer_slot_payload : ℕ → ℕ → List ℕ
assign_peer_slot_payload slot host_element_id = slot ∷ 0 ∷ 0 ∷ 0 ∷ u32_bytes host_element_id

-- The rest of the Connected branch, once the slot is known.
unfoldable pub open_slot : Gns → ℕ → Session → ℕ → ℕ → Session
unfolding tell
open_slot g element_id s conn slot =
    let t = tell s (configure_lanes conn) in
    let u = record t {
      lanes_configured = update t.lanes_configured slot true;
      state = connected;
    } in
    if is_host u.role
    then (send_reliable_to_slot g u slot Kind.assign_peer_slot
        (assign_peer_slot_payload slot element_id) 0).0
    else u

unfoldable pub on_connected : Gns → ℕ → Session → ℕ → Session
unfolding tell register
on_connected g element_id s conn = elim (find_peer_slot_for_conn s conn) [
  | some slot ↦ open_slot g element_id s conn slot
  | none ↦ if not (is_host s.role) then s else elim (find_free_peer_slot_for_client s) [
    | none ↦ tell s (close conn)
    | some slot ↦ open_slot g element_id (register s conn slot) conn slot
  ]
]

-- The state of a departing peer's slot goes, and its queued messages.
unfoldable pub release_slot : Session → ℕ → ℕ → Session
unfolding reset_peer_remote_state tell
release_slot s conn slot =
    let t =
      tell
        (record s {
          peer_conns = update s.peer_conns slot 0;
          lanes_configured = update s.lanes_configured slot false;
        })
        (close conn) in
    let u = reset_peer_remote_state t slot in
    record u { inbox = keep_if (λ m. not (m.sender_peer_slot == slot)) u.inbox }

-- All four slots' remote state.
unfoldable pub reset_all : Session → Session
unfolding reset_peer_remote_state
reset_all s =
    reset_peer_remote_state
      (reset_peer_remote_state (reset_peer_remote_state (reset_peer_remote_state s 0) 1) 2) 3

unfoldable pub settle : Session → Session
settle s =
    if connected_peer_count s == 0
    then record (reset_all s) { state = disconnected; inbox = []; last_rtt_ms = 0 }
    else s

unfoldable pub on_closed : Session → ℕ → Session
unfolding tell release_slot settle
on_closed s conn = elim (find_peer_slot_for_conn s conn) [
  | none ↦ settle (tell s (close conn))
  | some slot ↦ settle (release_slot s conn slot)
]

unfoldable pub handle_conn_status_changed : Gns → ℕ → Session → StatusChange → Session
handle_conn_status_changed g element_id s c = elim c.new_state [
  | connecting ↦ elim c.old_state [
    | no_state ↦ if is_host s.role then on_connecting g s c.conn else s
    | _ ↦ s
  ]
  | conn_open ↦ on_connected g element_id s c.conn
  | closed_by_peer ↦ on_closed s c.conn
  | problem_detected_locally ↦ on_closed s c.conn
  | _ ↦ s
]
