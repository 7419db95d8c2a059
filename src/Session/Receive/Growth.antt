-- ===== src/Session/Receive/Growth.antt =====
-- A packet adds at most one message to the inbox.
use votv_mp.Base.{
  ℕ, suc, ◌+◌, ◌≤◌, ap, not, ◌&&◌, ◌||◌, List, [], ◌∷◌, ◌++◌, ltb, leb, ◌==◌, length, length-append,
  arith, inl, inr, Option-cases, either_branch,
}
use votv_mp.ElementId.{max_peers}
use votv_mp.Protocol.{
  PacketHeader, max_reliable_payload, parse_header, pose_packet_size, prop_pose_packet_size,
  header_size, reliable_header_size, read_pose, validate_pose, read_prop_pose, validate_prop_pose,
  u16_at, byte_at,
}
use votv_mp.Protocol.Kind
use votv_mp.Lanes.{is_client_relayable_reliable_kind}
use votv_mp.Session.{Gns, Session, is_host, next64}
use votv_mp.Session.Quiet.{Quiet, relay_unreliable-Quiet, relay_reliable-Quiet}
use votv_mp.Session.Receive.{
  is_stale, set_remote, inbox_cap, reject_version, with_pose, with_prop_pose, on_pose, on_prop_pose,
  message_of, on_reliable, dispatch, route_slot, route, admit, handle_message, receive,
}

module _ (n : ℕ) where
  abbrev pub Grown : Session → Type 0
  Grown t = length t.inbox ≤ suc n

  Grown-Quiet : (s t : Session) → Quiet s t → Grown s → Grown t
  Grown-Quiet s t q h = let same = ap length q.inbox in omega (arith, same, h)

  module _ (g : Gns) (slot : ℕ) (bytes : List ℕ) where
    on_pose-Grown :
        (s : Session) (h : PacketHeader) (r : ℕ)
        → length s.inbox ≤ n
        → Grown (on_pose g s slot r h bytes)
    unfolding on_pose
    on_pose-Grown s h r le =
        let same : Grown s = omega (arith, le) in
        let t = set_remote s r (with_pose (s.remotes r) h.seq (read_pose bytes)) in
        either_branch (ltb (length bytes) pose_packet_size) Grown _ _ same (
          either_branch (not (validate_pose (read_pose bytes))) Grown _ _ same (
            either_branch ((s.remotes r).has_remote && is_stale h.seq (s.remotes r).last_remote_seq)
              Grown _ _ same
              (either_branch (is_host s.role) Grown _ t
                (Grown-Quiet t _ (relay_unreliable-Quiet g t slot bytes) same) same)))

    on_prop_pose-Grown :
        (s : Session) (h : PacketHeader) (r : ℕ)
        → length s.inbox ≤ n
        → Grown (on_prop_pose g s slot r h bytes)
    unfolding on_prop_pose
    on_prop_pose-Grown s h r le =
        let same : Grown s = omega (arith, le) in
        let t = set_remote s r (with_prop_pose (s.remotes r) h.seq (read_prop_pose bytes)) in
        either_branch (ltb (length bytes) prop_pose_packet_size) Grown _ _ same (
          either_branch (not (validate_prop_pose (read_prop_pose bytes))) Grown _ _ same (
            either_branch
              ((s.remotes r).has_remote_prop && is_stale h.seq (s.remotes r).last_remote_prop_seq)
              Grown _ _ same
              (either_branch (is_host s.role) Grown _ t
                (Grown-Quiet t _ (relay_unreliable-Quiet g t slot bytes) same) same)))

    on_reliable-Grown :
        (s : Session) (r : ℕ) → length s.inbox ≤ n → Grown (on_reliable g s slot r bytes)
    unfolding on_reliable
    on_reliable-Grown s r le =
        let same : Grown s = omega (arith, le) in
        let t = record s { inbox = s.inbox ++ message_of r bytes ∷ [] } in
        let one : Grown t = omega (arith, le, length-append s.inbox (message_of r bytes ∷ [])) in
        either_branch (ltb (length bytes) (header_size + reliable_header_size)) Grown _ _ same (
          either_branch (ltb max_reliable_payload (u16_at bytes 24)) Grown _ _ same (
            either_branch
              (ltb (length bytes) (header_size + reliable_header_size + u16_at bytes 24)) Grown _ _
              same
              (either_branch (leb inbox_cap (length s.inbox)) Grown _ _ same (
                either_branch
                  (is_host s.role && is_client_relayable_reliable_kind (byte_at bytes 20)) Grown _ t
                  (Grown-Quiet t _ (relay_reliable-Quiet g t slot (byte_at bytes 20) bytes) one)
                  one))))

    route-Grown :
        (s : Session) (h : PacketHeader) → length s.inbox ≤ n → Grown (route g s slot h bytes)
    unfolding route dispatch
    route-Grown s h le =
        let same : Grown s = omega (arith, le) in
        let r = route_slot s slot h in
        either_branch (not (is_host s.role) && leb max_peers h.sender_slot) Grown _ _ same (
          either_branch (h.type == Kind.pose_snapshot_type) Grown _ _ (on_pose-Grown s h r le) (
            either_branch (h.type == Kind.prop_pose_type) Grown _ _ (on_prop_pose-Grown s h r le) (
              either_branch (h.type == Kind.reliable_type) Grown _ _ (on_reliable-Grown s r le)
                same)))

    admit-Grown :
        (s : Session) (h : PacketHeader) → length s.inbox ≤ n → Grown (admit g s slot h bytes)
    unfolding admit
    admit-Grown s h le =
        let same : Grown s = omega (arith, le) in
        either_branch (h.sender_epoch == 0) Grown _ _ same (
          either_branch ((s.remotes slot).expected_epoch == 0) Grown _ _ (route-Grown _ h le) (
            either_branch ((s.remotes slot).expected_epoch == h.sender_epoch) Grown _ _
              (route-Grown s h le) same))

    handle_message-Grown :
        (s : Session) → length s.inbox ≤ n → Grown (handle_message g s slot bytes)
    unfolding handle_message reject_version
    handle_message-Grown s le = elim (Option-cases (parse_header bytes)) [
      | inl bad ↦ rw (bad, handle_message) (ground (arith, le))
      | inr (h, parsed) ↦
          rw (parsed, handle_message)
            (either_branch (leb max_peers slot) Grown _ _ (omega (arith, le))
              (admit-Grown (record s { recv = next64 s.recv }) h le))
    ]

-- Whatever a packet is, it adds at most one message to the inbox.
pub receive-Grown :
    (g : Gns) (s : Session) (user_data : ℕ) (bytes : List ℕ)
    → length (receive g s user_data bytes).inbox ≤ 1 + length s.inbox
unfolding receive
receive-Grown g s user_data bytes =
    let n = length s.inbox in
    let P : Session → Type 0 = λ t. length t.inbox ≤ 1 + n in
    let any : (slot : ℕ) → P (handle_message g s slot bytes) =
      λ slot. let h = handle_message-Grown n g slot bytes s (omega arith) in omega (arith, h) in
    either_branch (is_host s.role) P _ _
      (either_branch (user_data == 0 || leb max_peers user_data) P _ _ (omega arith)
        (any user_data))
      (any 0)
