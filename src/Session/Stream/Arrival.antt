-- ===== src/Session/Stream/Arrival.antt =====
-- A streamed pose at the other end.
use votv_mp.Base.{
  ℕ, ◌^◌, ◌<◌, ◌≡◌, ◌≢◌, ◌⊎◌, refl, ap, ◌∙◌, subst, true, false, ◌&&◌, some, List, ◌++◌, leb, ltb,
  ◌==◌, length, arith, inl, inr, Bool-cases, update_self, either_branch, ==_ne,
}
use votv_mp.ElementId.{max_peers}
use votv_mp.Protocol.{
  PacketHeader, PoseSnapshot, parse_header, read_pose, validate_pose, u32_at, pose_packet_size,
  write_header, magic, protocol_version,
}
use votv_mp.Protocol.Header.{parse_header-write_header}
use votv_mp.Protocol.Kind
use votv_mp.Session.{Gns, Session, is_host, next64}
use votv_mp.Session.Quiet.{relay_unreliable-Quiet}
use votv_mp.Session.Receive.{
  is_stale, with_pose, set_remote, on_pose, dispatch, route, route_slot, admit, handle_message,
}
use votv_mp.Session.Stream.{pose_bytes, pose_packet}

pub record FitsPose (p : PoseSnapshot) : Type 0 where
  pub x : p.x < 2 ^ 32
  pub y : p.y < 2 ^ 32
  pub z : p.z < 2 ^ 32
  pub yaw : p.yaw < 2 ^ 32
  pub pitch : p.pitch < 2 ^ 32
  pub head_yaw_delta : p.head_yaw_delta < 2 ^ 32
  pub speed : p.speed < 2 ^ 32

read_pose-pose_packet :
    (seq epoch : ℕ) (p : PoseSnapshot) → FitsPose p → read_pose (pose_packet seq epoch p) ≡ p
unfolding read_pose pose_packet pose_bytes write_header
read_pose-pose_packet seq epoch p f =
    let b = pose_packet seq epoch p in
    let a : u32_at b 20 ≡ p.x = omega (arith, f.x) in
    let c : u32_at b 24 ≡ p.y = omega (arith, f.y) in
    let d : u32_at b 28 ≡ p.z = omega (arith, f.z) in
    let e : u32_at b 32 ≡ p.yaw = omega (arith, f.yaw) in
    let h : u32_at b 36 ≡ p.pitch = omega (arith, f.pitch) in
    let i : u32_at b 40 ≡ p.head_yaw_delta = omega (arith, f.head_yaw_delta) in
    let j : u32_at b 44 ≡ p.speed = omega (arith, f.speed) in rw (a, c, d, e, h, i, j) refl

whole :
    (seq epoch : ℕ) (p : PoseSnapshot)
    → ltb (length (pose_packet seq epoch p)) pose_packet_size ≡ false
unfolding pose_packet pose_bytes write_header
whole seq epoch p = refl

on_pose-stores :
    (g : Gns) (s : Session) (slot to : ℕ) (h : PacketHeader) (bytes : List ℕ)
    → ltb (length bytes) pose_packet_size ≡ false
    → validate_pose (read_pose bytes) ≡ true
    → ((s.remotes to).has_remote && is_stale h.seq (s.remotes to).last_remote_seq) ≡ false
    → (on_pose g s slot to h bytes).remotes to ≡ with_pose (s.remotes to) h.seq (read_pose bytes)
unfolding on_pose
on_pose-stores g s slot to h bytes size valid fresh =
    let t = set_remote s to (with_pose (s.remotes to) h.seq (read_pose bytes)) in
    let here = update_self s.remotes to (with_pose (s.remotes to) h.seq (read_pose bytes)) in
    rw (size, valid, fresh)
      (either_branch (is_host s.role)
        (λ (v : Session). v.remotes to ≡ with_pose (s.remotes to) h.seq (read_pose bytes)) _ t
        (ap (λ r. r to) (relay_unreliable-Quiet g t slot bytes).remotes ∙ here) here)

-- The header of a streamed pose.
abbrev streamed : ℕ → ℕ → PacketHeader
streamed seq epoch = record {
  magic_word = magic;
  version = protocol_version;
  type = Kind.pose_snapshot_type;
  seq = seq;
  sender_epoch = epoch;
  sender_slot = 0;
}

-- The slot shows the pose.
abbrev pub Shows : Session → ℕ → PoseSnapshot → Type 0
Shows s slot p = ((s.remotes slot).has_remote ≡ true) × ((s.remotes slot).pose ≡ p)

route-Shows :
    (g : Gns) (s : Session) (slot seq epoch : ℕ) (p : PoseSnapshot)
    → FitsPose p
    → validate_pose p ≡ true
    → (is_host s.role ≡ false → slot ≡ 0)
    → ((s.remotes slot).has_remote && is_stale seq (s.remotes slot).last_remote_seq) ≡ false
    → Shows (route g s slot (streamed seq epoch) (pose_packet seq epoch p)) slot p
unfolding route route_slot dispatch
route-Shows g s slot seq epoch p fits valid own fresh =
    let b = pose_packet seq epoch p in
    let h = streamed seq epoch in
    let back = read_pose-pose_packet seq epoch p fits in
    let good : validate_pose (read_pose b) ≡ true = ap validate_pose back ∙ valid in
    let stored : Shows (on_pose g s slot slot h b) slot p =
      let e = on_pose-stores g s slot slot h b (whole seq epoch p) good fresh in
      (ap (λ r. r.has_remote) e, ap (λ r. r.pose) e ∙ back) in
    elim (Bool-cases (is_host s.role)) [
      | inl host ↦ rw host stored
      | inr client ↦
          rw client (subst (λ i. Shows (on_pose g s slot i h b) slot p) (own client) stored)
    ]

admit-Shows :
    (g : Gns) (s : Session) (slot seq epoch : ℕ) (p : PoseSnapshot)
    → FitsPose p
    → validate_pose p ≡ true
    → epoch ≢ 0
    → (is_host s.role ≡ false → slot ≡ 0)
    → ((s.remotes slot).expected_epoch ≡ 0) ⊎ ((s.remotes slot).expected_epoch ≡ epoch)
    → ((s.remotes slot).has_remote && is_stale seq (s.remotes slot).last_remote_seq) ≡ false
    → Shows (admit g s slot (streamed seq epoch) (pose_packet seq epoch p)) slot p
unfolding admit
admit-Shows g s slot seq epoch p fits valid real own latch fresh =
    elim (Bool-cases ((s.remotes slot).expected_epoch == 0)) [
      | inl open_slot ↦
          let r = record (s.remotes slot) { expected_epoch = epoch } in
          let here = update_self s.remotes slot r in
          rw (==_ne epoch 0 real, open_slot)
            (route-Shows g (set_remote s slot r) slot seq epoch p fits valid own
              (ap (λ q. q.has_remote && is_stale seq q.last_remote_seq) here ∙ fresh))
      | inr latched ↦
          let same : ((s.remotes slot).expected_epoch == epoch) ≡ true =
            ground (arith, latch, latched) in
          rw (==_ne epoch 0 real, latched, same)
            (route-Shows g s slot seq epoch p fits valid own fresh)
    ]

-- A pose packet that the net thread streams, when it reaches the peer, is the pose that the peer
-- shows for that slot, field by field. The receiver is a client that has it from the host, or a host
-- that has it from a client's slot; the pose is in its bounds, the sender's generation is the latched
-- one or the first, and the sequence number is ahead of the last.
pub handle_message-pose_packet :
    (g : Gns) (s : Session) (slot seq epoch : ℕ) (p : PoseSnapshot)
    → FitsPose p
    → validate_pose p ≡ true
    → seq < 2 ^ 32
    → epoch < 2 ^ 32
    → epoch ≢ 0
    → slot < max_peers
    → (is_host s.role ≡ false → slot ≡ 0)
    → ((s.remotes slot).expected_epoch ≡ 0) ⊎ ((s.remotes slot).expected_epoch ≡ epoch)
    → ((s.remotes slot).has_remote && is_stale seq (s.remotes slot).last_remote_seq) ≡ false
    → Shows (handle_message g s slot (pose_packet seq epoch p)) slot p
unfolding handle_message
handle_message-pose_packet g s slot seq epoch p fits valid small_seq small_epoch real lt own latch
      fresh =
    let inside : leb max_peers slot ≡ false = ground (arith, lt) in
    let parsed =
      parse_header-write_header Kind.pose_snapshot_type seq epoch 0 (pose_bytes p) (omega arith)
        small_seq small_epoch (omega arith) in
    rw (packet_parses seq epoch p parsed, inside, handle_message)
      (admit-Shows g (record s { recv = next64 s.recv }) slot seq epoch p fits valid real own latch
        fresh)
  where
    packet_parses :
        (seq epoch : ℕ) (p : PoseSnapshot)
        → parse_header (write_header Kind.pose_snapshot_type seq epoch 0 ++ pose_bytes p)
          ≡ some (streamed seq epoch)
        → parse_header (pose_packet seq epoch p) ≡ some (streamed seq epoch)
    packet_parses seq epoch p e = unfold pose_packet in e
