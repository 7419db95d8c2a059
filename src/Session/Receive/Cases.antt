-- ===== src/Session/Receive/Cases.antt =====
-- The ways in which a packet changes the session, as one rule: what holds before and is kept by each
-- of them holds after HandleMessage.
use votv_mp.Base.{
  ℕ, ◌+◌, ◌<◌, ◌≤◌, ◌≡◌, ◌≢◌, refl, true, false, not, ◌&&◌, some, List, [], ◌∷◌, ◌++◌, ltb, leb,
  ◌==◌, if◌then◌else◌, length, arith, inl, inr, Bool-cases, Option-cases,
}
use votv_mp.ElementId.{max_peers}
use votv_mp.Protocol.{
  PacketHeader, max_reliable_payload, parse_header, pose_packet_size, prop_pose_packet_size,
  header_size, reliable_header_size, read_pose, validate_pose, read_prop_pose, validate_prop_pose,
  u16_at, byte_at,
}
use votv_mp.Protocol.Kind
use votv_mp.Lanes.{is_client_relayable_reliable_kind}
use votv_mp.Session.{Gns, Session, is_host, next64, relay_reliable_to_other_clients}
use votv_mp.Session.Quiet.{Quiet, relay_unreliable-Quiet, relay_reliable-Quiet}
use votv_mp.Session.Receive.{
  is_stale, set_remote, inbox_cap, reject_version, with_pose, with_prop_pose, on_pose, on_prop_pose,
  message_of, on_reliable, dispatch, route_slot, route, admit, handle_message,
}

-- The packet parses, is of the latched generation, and its data goes to the slot `r`.
pub record Admitted (slot : ℕ) (bytes : List ℕ) (s : Session) (h : PacketHeader) (r : ℕ)
    : Type 0 where
  pub parsed : parse_header bytes ≡ some h
  pub connection : slot < max_peers
  pub latched : (s.remotes slot).expected_epoch ≡ h.sender_epoch
  pub real : h.sender_epoch ≢ 0
  pub origin : r ≡ route_slot s slot h
  pub in_range : r < max_peers

-- What each change has to keep.
pub record Kept {ℓ} (P : Session → Type ℓ) (slot : ℕ) (bytes : List ℕ) : Type ℓ where
  pub quiet : (s t : Session) → Quiet s t → P s → P t
  pub received : (s : Session) → P s → P (record s { recv = next64 s.recv })
  pub latch :
      (s : Session) (h : PacketHeader)
      → parse_header bytes ≡ some h
      → h.sender_epoch ≢ 0
      → (s.remotes slot).expected_epoch ≡ 0
      → P s
      → P (set_remote s slot (record (s.remotes slot) { expected_epoch = h.sender_epoch }))
  pub pose :
      (s : Session) (h : PacketHeader) (r : ℕ)
      → Admitted slot bytes s h r
      → validate_pose (read_pose bytes) ≡ true
      → ((s.remotes r).has_remote && is_stale h.seq (s.remotes r).last_remote_seq) ≡ false
      → P s
      → P (set_remote s r (with_pose (s.remotes r) h.seq (read_pose bytes)))
  pub prop_pose :
      (s : Session) (h : PacketHeader) (r : ℕ)
      → Admitted slot bytes s h r
      → validate_prop_pose (read_prop_pose bytes) ≡ true
      → ((s.remotes r).has_remote_prop && is_stale h.seq (s.remotes r).last_remote_prop_seq) ≡ false
      → P s
      → P (set_remote s r (with_prop_pose (s.remotes r) h.seq (read_prop_pose bytes)))
  pub queue :
      (s : Session) (h : PacketHeader) (r : ℕ)
      → Admitted slot bytes s h r
      → length s.inbox < inbox_cap
      → u16_at bytes 24 ≤ max_reliable_payload
      → 28 + u16_at bytes 24 ≤ length bytes
      → P s
      → P (record s { inbox = s.inbox ++ message_of r bytes ∷ [] })

module _ {ℓ} (P : Session → Type ℓ) (g : Gns) (slot : ℕ) (bytes : List ℕ)
    (k : Kept P slot bytes) where
  on_pose-keeps :
      (s : Session) (h : PacketHeader) (r : ℕ)
      → Admitted slot bytes s h r
      → P s
      → P (on_pose g s slot r h bytes)
  unfolding on_pose
  on_pose-keeps s h r a p = elim (Bool-cases (ltb (length bytes) pose_packet_size)) [
    | inl short ↦ rw short p
    | inr long ↦ rw long (elim (Bool-cases (validate_pose (read_pose bytes))) [
      | inr bad ↦ rw bad p
      | inl good ↦
          rw good
            (elim (Bool-cases
              ((s.remotes r).has_remote && is_stale h.seq (s.remotes r).last_remote_seq)) [
                | inl old ↦ rw old p
                | inr new ↦ rw new (elim (Bool-cases (is_host s.role)) [
                  | inl host ↦ rw host (
                      k.quiet _ _ (relay_unreliable-Quiet g _ slot bytes)
                        (k.pose s h r a good new p))
                  | inr client ↦ rw client (k.pose s h r a good new p)
                ])
              ])
    ])
  ]

  on_prop_pose-keeps :
      (s : Session) (h : PacketHeader) (r : ℕ)
      → Admitted slot bytes s h r
      → P s
      → P (on_prop_pose g s slot r h bytes)
  unfolding on_prop_pose
  on_prop_pose-keeps s h r a p = elim (Bool-cases (ltb (length bytes) prop_pose_packet_size)) [
    | inl short ↦ rw short p
    | inr long ↦ rw long (elim (Bool-cases (validate_prop_pose (read_prop_pose bytes))) [
      | inr bad ↦ rw bad p
      | inl good ↦
          rw good
            (elim (Bool-cases (
              (s.remotes r).has_remote_prop && is_stale h.seq (s.remotes r).last_remote_prop_seq)) [
                | inl old ↦ rw old p
                | inr new ↦ rw new (elim (Bool-cases (is_host s.role)) [
                  | inl host ↦ rw host (
                      k.quiet _ _ (relay_unreliable-Quiet g _ slot bytes)
                        (k.prop_pose s h r a good new p))
                  | inr client ↦ rw client (k.prop_pose s h r a good new p)
                ])
              ])
    ])
  ]

  on_reliable-keeps :
      (s : Session) (h : PacketHeader) (r : ℕ)
      → Admitted slot bytes s h r
      → P s
      → P (on_reliable g s slot r bytes)
  unfolding on_reliable
  on_reliable-keeps s h r a p =
      elim (Bool-cases (ltb (length bytes) (header_size + reliable_header_size))) [
        | inl short ↦ rw short p
        | inr long ↦ rw long (elim (Bool-cases (ltb max_reliable_payload (u16_at bytes 24))) [
          | inl big ↦ rw big p
          | inr fits ↦
              rw fits
                (elim (Bool-cases
                  (ltb (length bytes) (header_size + reliable_header_size + u16_at bytes 24))) [
                    | inl cut ↦ rw cut p
                    | inr whole ↦ rw whole (elim (Bool-cases (leb inbox_cap (length s.inbox))) [
                      | inl full ↦ rw full p
                      | inr room ↦ rw room (queued (ground arith) (ground arith) (ground arith))
                    ])
                  ])
        ])
      ]
    where
      queued :
          length s.inbox < inbox_cap
          → u16_at bytes 24 ≤ max_reliable_payload
          → 28 + u16_at bytes 24 ≤ length bytes
          → let t = record s { inbox = s.inbox ++ message_of r bytes ∷ [] } in
            P (
              if is_host s.role && is_client_relayable_reliable_kind (byte_at bytes 20)
              then relay_reliable_to_other_clients g t slot (byte_at bytes 20) bytes
              else t)
      queued room fits whole =
          elim (Bool-cases
            (is_host s.role && is_client_relayable_reliable_kind (byte_at bytes 20))) [
              | inl relay ↦ rw relay (
                  k.quiet _ _ (relay_reliable-Quiet g _ slot (byte_at bytes 20) bytes)
                    (k.queue s h r a room fits whole p))
              | inr keep ↦ rw keep (k.queue s h r a room fits whole p)
            ]

  dispatch-keeps :
      (s : Session) (h : PacketHeader) (r : ℕ)
      → Admitted slot bytes s h r
      → P s
      → P (dispatch g s slot r h bytes)
  unfolding dispatch
  dispatch-keeps s h r a p = elim (Bool-cases (h.type == Kind.pose_snapshot_type)) [
    | inl y ↦ rw y (on_pose-keeps s h r a p)
    | inr n ↦ rw n (elim (Bool-cases (h.type == Kind.prop_pose_type)) [
      | inl y ↦ rw y (on_prop_pose-keeps s h r a p)
      | inr n ↦ rw n (elim (Bool-cases (h.type == Kind.reliable_type)) [
        | inl y ↦ rw y (on_reliable-keeps s h r a p)
        | inr n ↦ rw n p
      ])
    ])
  ]

  route-keeps :
      (s : Session) (h : PacketHeader)
      → parse_header bytes ≡ some h
      → slot < max_peers
      → (s.remotes slot).expected_epoch ≡ h.sender_epoch
      → h.sender_epoch ≢ 0
      → P s
      → P (route g s slot h bytes)
  unfolding route
  route-keeps s h parsed lt latched real p =
      elim (Bool-cases (not (is_host s.role) && leb max_peers h.sender_slot)) [
        | inl out ↦ rw out p
        | inr inside ↦ rw inside (
            dispatch-keeps s h (route_slot s slot h)
              (record {
                parsed = parsed;
                connection = lt;
                latched = latched;
                real = real;
                origin = refl;
                in_range = unfold route_slot in ground arith;
              })
              p)
      ]

  admit-keeps :
      (s : Session) (h : PacketHeader)
      → parse_header bytes ≡ some h
      → slot < max_peers
      → P s
      → P (admit g s slot h bytes)
  unfolding admit
  admit-keeps s h parsed lt p = elim (Bool-cases (h.sender_epoch == 0)) [
    | inl zero ↦ rw zero p
    | inr real ↦ rw real (elim (Bool-cases ((s.remotes slot).expected_epoch == 0)) [
      | inl unlatched ↦ rw unlatched (
          route-keeps _ h parsed lt (ground arith) (ground arith)
            (k.latch s h parsed (ground arith) (ground arith) p))
      | inr latched ↦
          rw latched (elim (Bool-cases ((s.remotes slot).expected_epoch == h.sender_epoch)) [
            | inl same ↦ rw same (route-keeps s h parsed lt (ground arith) (ground arith) p)
            | inr other ↦ rw other p
          ])
    ])
  ]

  reject_version-Quiet : (s : Session) → Quiet s (reject_version s slot bytes)
  unfolding reject_version
  reject_version-Quiet s = ground arith

  -- What every change keeps, the whole handler keeps, on every path through it.
  pub handle_message-keeps : (s : Session) → P s → P (handle_message g s slot bytes)
  unfolding handle_message
  handle_message-keeps s p = elim (Option-cases (parse_header bytes)) [
    | inl none_read ↦ rw (none_read, handle_message) (k.quiet s _ (reject_version-Quiet s) p)
    | inr (h, parsed) ↦
        rw (parsed, handle_message)
          (elim (Bool-cases (leb max_peers slot)) [
            | inl out ↦ rw out p
            | inr inside ↦ rw inside (
                admit-keeps (record s { recv = next64 s.recv }) h parsed (ground arith)
                  (k.received s p))
          ])
  ]
