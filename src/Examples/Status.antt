-- ===== src/Examples/Status.antt =====
-- Connections of the sample host that come and go, and sessions that start.
use votv_mp.Base.{◌≡◌, ◌≢◌, refl, true, false, some, [], arith, update}
use votv_mp.Session.{
  Session, client, disconnected, handshaking, connected_peer_count, find_slot,
  find_peer_slot_for_conn, tell, close,
}
use votv_mp.Session.Status.{
  StatusChange, no_state, connecting, conn_open, closed_by_peer, on_connected, on_closed,
  handle_conn_status_changed,
}
use votv_mp.Session.Status.Closing.{Departed, on_closed-Departed}
use votv_mp.Session.Status.Ready.{Ready, on_connected-Ready, full_host_rejects}
use votv_mp.Session.Life.{Boot, start, stop}
use votv_mp.Session.Life.Beginning.{Fresh, started-Good}
use votv_mp.Session.Life.Restart.{stop-start_half_open}
use votv_mp.Session.Reach.{Good, begins, next, status_changed, packet, step, Reported}
use votv_mp.Examples.Session.State.{gns, quiet_remote, sample, from_one, far_version}
use votv_mp.Protocol.{peek_protocol_version, read_header}
use votv_mp.Session.Receive.{handle_message}
use votv_mp.Session.Status.Mismatch.{mismatched_peer_blocks}

first_found : find_peer_slot_for_conn sample 71 ≡ some 1
unfolding find_peer_slot_for_conn find_slot
first_found = refl

on_closed-Departed_example : Departed sample (on_closed sample 71) 1
on_closed-Departed_example = on_closed-Departed sample 71 1 first_found

on_connected-Ready_example : Ready sample (on_connected gns 4 sample 73) 73
on_connected-Ready_example =
    on_connected-Ready gns 4 sample 73 3 refl (λ e. ground arith) (omega arith) (omega arith) refl

abbrev full : Session
full = record sample { peer_conns = update sample.peer_conns 3 73 }

full_host_rejects_example :
    (handle_conn_status_changed gns 4 full
        (record { conn = 74; old_state = no_state; new_state = connecting })
      ≡ tell full (close 74))
    × (handle_conn_status_changed gns 4 full
          (record { conn = 74; old_state = connecting; new_state = conn_open })
        ≡ tell full (close 74))
full_host_rejects_example =
    full_host_rejects gns 4 full 74 refl (λ i lt e. ground arith) (λ i lo lt e. ground arith)

far_version-read : peek_protocol_version far_version ≡ 9
unfolding peek_protocol_version read_header
far_version-read = refl

mismatched_peer_blocks_example :
    let t = handle_message gns full 2 far_version in
    (handle_conn_status_changed gns 4 t
        (record { conn = 74; old_state = no_state; new_state = connecting })
      ≡ tell (tell full (close 72)) (close 74))
    × (handle_conn_status_changed gns 4 t
          (record { conn = 74; old_state = connecting; new_state = conn_open })
        ≡ tell (tell full (close 72)) (close 74))
mismatched_peer_blocks_example =
    mismatched_peer_blocks gns 4 full 2 74 far_version refl (λ i lt e. ground arith)
      (λ i lo lt e. ground arith) (omega arith) (omega arith)
      (λ e. ground (arith, far_version-read)) (λ e. ground (arith, far_version-read))

abbrev first_closed : StatusChange
first_closed = record { conn = 71; old_state = conn_open; new_state = closed_by_peer }

first_closed-Reported : Reported sample first_closed
first_closed-Reported = record { valid = λ e. ground arith; fresh = λ e. ground arith }

abbrev pub constructed : Session
constructed = record sample {
  own_epoch = 0;
  state = disconnected;
  running = false;
  h_listen = 0;
  h_poll = 0;
  peer_conns = λ i. 0;
  lanes_configured = λ i. false;
  remotes = λ i. quiet_remote;
}

pub constructed-Fresh : Fresh constructed
constructed-Fresh = record {
  stopped = refl;
  state = refl;
  conns = λ i. refl;
  lanes = λ i. refl;
  poses = λ i. refl;
  props = λ i. refl;
  inbox = refl;
}

abbrev pub dial : Boot
dial = record {
  role = client;
  epoch = 31;
  gns_ready = true;
  listen_handle = 0;
  poll_handle = 0;
  address_parses = true;
  conn_handle = 90;
}

abbrev dialled : Session
dialled = (start dial constructed).0

-- The host answers the dial.
abbrev pub host_answers : StatusChange
host_answers = record { conn = 90; old_state = connecting; new_state = conn_open }

started-Good_example :
    Good (step gns 4 (step gns 4 dialled (status_changed host_answers)) (packet 0 (from_one 5)))
started-Good_example =
    started-Good gns 4 dial constructed
      (step gns 4 (step gns 4 dialled (status_changed host_answers)) (packet 0 (from_one 5)))
      constructed-Fresh
      (next (packet 0 (from_one 5))
        (next (status_changed host_answers) begins
          (record { valid = λ e. ground arith; fresh = λ e. ground arith }))
        tt)

abbrev joined : Session
joined = record sample {
  role = client;
  peer_conns = update (λ i. 0) 0 90;
  lanes_configured = update (λ i. false) 0 true;
}

stop-start_half_open_example :
    ((start dial (stop gns 4 [] joined)).1 ≡ true)
    × ((start dial (stop gns 4 [] joined)).0.state ≡ handshaking)
    × (connected_peer_count (start dial (stop gns 4 [] joined)).0 ≢ 0)
stop-start_half_open_example =
    stop-start_half_open gns 4 dial joined refl refl refl refl refl (λ e. ground arith)
