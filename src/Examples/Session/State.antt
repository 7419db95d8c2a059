-- ===== src/Examples/Session/State.antt =====
-- The host of the examples: clients with the handles 71 and 72 in the slots 1 and 2.
use votv_mp.Base.{ℕ, ◌≢◌, refl, true, false, List, [], ◌∷◌, ◌++◌, arith, update}
use votv_mp.Protocol.{write_header, zeros, read_pose, read_prop_pose}
use votv_mp.Session.{Gns, Remote, Session, host, connected, connected_peer_count, count_slots}
use votv_mp.Session.Reach.{Good}

abbrev pub gns : Gns
gns = record { accepts = λ n. true; allocates = λ n. true; delivers = λ n. true }

abbrev pub quiet_remote : Remote
quiet_remote = record {
  has_remote = false;
  pose = read_pose [];
  last_remote_seq = 0;
  remote_stamp = 0;
  last_read_stamp = 0;
  has_remote_prop = false;
  prop_pose = read_prop_pose [];
  last_remote_prop_seq = 0;
  remote_prop_stamp = 0;
  last_read_prop_stamp = 0;
  expected_epoch = 0;
}

abbrev pub sample : Session
sample = record {
  role = host;
  own_epoch = 77;
  state = connected;
  running = true;
  h_listen = 5;
  h_poll = 6;
  peer_conns = update (update (λ i. 0) 1 71) 2 72;
  lanes_configured = update (update (λ i. false) 1 true) 2 true;
  remotes = update (λ i. quiet_remote) 1 (record quiet_remote { expected_epoch = 900 });
  inbox = [];
  send_seq = 0;
  sent = 0;
  recv = 0;
  last_rtt_ms = 0;
  calls = 0;
  effects = [];
}

-- A pose at the origin, of a generation; and a header of another protocol version.
abbrev pub from_one : ℕ → List ℕ
from_one epoch = write_header 2 5 epoch 1 ++ zeros 32

abbrev pub far_version : List ℕ
far_version = 0x50 ∷ 0x54 ∷ 0x4d ∷ 0x56 ∷ 9 ∷ zeros 15

two_ready : connected_peer_count sample ≢ 0
unfolding connected_peer_count count_slots
two_ready e = ground arith

pub sample-Good : Good sample
sample-Good = record {
  table = record {
    host_slot = λ h. refl;
    distinct = λ i j li lj ne same. ground arith;
    lanes = λ i e. ground arith;
    up = λ e. two_ready;
    down = λ n. ground arith;
  };
  stored = record {
    poses = λ i e. ground arith;
    props = λ i e. ground arith;
    bounded = omega arith;
    messages = tt;
  };
}
