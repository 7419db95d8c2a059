-- ===== src/Examples/Session.antt =====
-- A host with two clients, and packets for it.
pub mod State
use votv_mp.Base.{
  ℕ, ◌≡◌, ◌≢◌, ◌<◌, ◌==◌, if◌then◌else◌, refl, Bool, true, false, some, none, Option, List, All, [],
  ◌∷◌, ◌++◌, arith,
}
use votv_mp.Protocol.{
  PoseSnapshot, PacketHeader, write_header, validate_pose, read_pose, parse_header, read_header,
  peek_protocol_version, zeros, magic, protocol_version,
}
use votv_mp.Protocol.Header.{parse_header-write_header}
use votv_mp.Session.{
  Session, host, next64, tell, close, restamp, out_of_packet, client_slots, all_slots,
  relay_unreliable_to_other_clients, relay_loop, forward_unreliable, send_message, count_call,
}
use votv_mp.Examples.Session.State.{gns, sample, sample-Good, from_one, far_version}
use votv_mp.Session.Receive.{handle_message, admit, route, dispatch, on_pose}
use votv_mp.Session.Receive.Stored.{StoredValid, handle_message-StoredValid}
use votv_mp.Session.Stream.{stream, best_ping, sample_rtt}
use votv_mp.Session.Stream.Rtt.{Sampled, sample_rtt-Sampled}
use votv_mp.Session.Stream.Arrival.{FitsPose}
use votv_mp.Session.Stream.Turn.{walking, streamed_to, logged, Arrives, stream-Arrives}
use votv_mp.Session.Receive.Origin.{OnlyFrom, handle_message-OnlyFrom}
use votv_mp.Session.Receive.Epoch.{latched_epoch_kept}
use votv_mp.Session.Relay.{audience, datagrams, relay_unreliable-audience}

handle_message-StoredValid_example : StoredValid (handle_message gns sample 1 (from_one 900))
handle_message-StoredValid_example =
    handle_message-StoredValid gns sample 1 (from_one 900) sample-Good.stored

handle_message-OnlyFrom_example : OnlyFrom 1 sample (handle_message gns sample 1 (from_one 900))
handle_message-OnlyFrom_example = handle_message-OnlyFrom gns sample 1 (from_one 900) refl

latched_epoch_kept_example :
    ((handle_message gns sample 2 (from_one 900)).remotes 1).expected_epoch ≡ 900
latched_epoch_kept_example = latched_epoch_kept gns sample 2 1 (from_one 900) (λ e. ground arith)

abbrev at_origin : PoseSnapshot
at_origin = record {
  x = 0;
  y = 0;
  z = 0;
  yaw = 0;
  pitch = 0;
  head_yaw_delta = 0;
  speed = 0;
  state_bits = 0;
  health_frac = 0;
  food_frac = 0;
  sleep_frac = 0;
}

origin-FitsPose : FitsPose at_origin
origin-FitsPose = record {
  x = omega arith;
  y = omega arith;
  z = omega arith;
  yaw = omega arith;
  pitch = omega arith;
  head_yaw_delta = omega arith;
  speed = omega arith;
}

origin_valid : validate_pose at_origin ≡ true
unfolding validate_pose
origin_valid = refl

stream-Arrives_example :
    ((stream gns (walking at_origin) true sample).effects
      ≡ logged 77 at_origin (streamed_to sample.peer_conns 0 all_slots) [])
    × All (Arrives 77 at_origin) (streamed_to sample.peer_conns 0 all_slots)
stream-Arrives_example =
    stream-Arrives gns sample at_origin origin-FitsPose origin_valid refl (omega arith)
      (λ e. ground arith) (omega arith)

-- The library reports 40 for the handle 71, a value out of range for 72, and fails for the others.
abbrev reported_pings : ℕ → Option ℕ
reported_pings conn = if conn == 71 then some 40 else if conn == 72 then some 70000 else none

sample_rtt-Sampled_example : Sampled reported_pings sample (sample_rtt reported_pings true sample)
sample_rtt-Sampled_example = sample_rtt-Sampled reported_pings sample refl

sampled_rtt : (sample_rtt reported_pings true sample).last_rtt_ms ≡ 40
unfolding sample_rtt best_ping
sampled_rtt = refl

from_one-sized : (epoch : ℕ) → out_of_packet (from_one epoch) ≡ false
unfolding write_header
from_one-sized epoch = refl

relay_unreliable-audience_example :
    (relay_unreliable_to_other_clients gns sample 1 (from_one 900)).effects
    ≡ datagrams sample (restamp 77 1 (from_one 900)) (audience sample 1 client_slots) ++ []
relay_unreliable-audience_example =
    relay_unreliable-audience gns sample 1 (from_one 900) refl (from_one-sized 900)

-- Runs: the pose of a latched generation is stored and goes out to the other client, one datagram
-- of 52 bytes to the handle 72.
stored_pose : ((handle_message gns sample 1 (from_one 900)).remotes 1).has_remote ≡ true
unfolding handle_message parse_header write_header admit route dispatch on_pose
    relay_unreliable_to_other_clients relay_loop forward_unreliable send_message tell count_call
    validate_pose read_pose
stored_pose = refl

relayed_pose : (handle_message gns sample 1 (from_one 900)).sent ≡ 1
unfolding handle_message parse_header write_header admit route dispatch on_pose
    relay_unreliable_to_other_clients relay_loop forward_unreliable send_message tell count_call
    validate_pose read_pose
relayed_pose = refl
