-- ===== src/Session/Stream/Turn.antt =====
-- A turn of the stream: what it sends, and what the receivers make of it.
use votv_mp.Base.{
  ℕ, ◌^◌, ◌<◌, ◌≡◌, ◌≢◌, ◌⊎◌, refl, ap, ◌∙◌, true, false, ◌&&◌, none, some, List, [], ◌∷◌, ◌==◌,
  if◌then◌else◌, arith, inl, inr, Bool-cases, All, either_branch,
}
use votv_mp.ElementId.{max_peers}
use votv_mp.Protocol.{PoseSnapshot, validate_pose}
use votv_mp.Session.{
  Gns, Session, Effect, send_unreliable, send_message, tell, count_call, next32, is_host,
  is_connected, all_slots,
}
use votv_mp.Session.Receive.{is_stale, handle_message}
use votv_mp.Session.Stream.{Local, pose_packet, post_unreliable, stream_slots, stream}
use votv_mp.Session.Stream.Arrival.{FitsPose, Shows, handle_message-pose_packet}

-- The connections that get the pose, each with its sequence number.
abbrev pub streamed_to : (ℕ → ℕ) → ℕ → List ℕ → List (ℕ × ℕ)
streamed_to conns seq [] = []
streamed_to conns seq (i ∷ slots) =
    let rest = streamed_to conns (if conns i == 0 then seq else next32 seq) slots in
    if conns i == 0 then rest else (conns i, seq) ∷ rest

-- The datagrams on top of what was asked before, the latest first.
abbrev pub logged : ℕ → PoseSnapshot → List (ℕ × ℕ) → List Effect → List Effect
logged epoch p [] es = es
logged epoch p ((conn, seq) ∷ rest) es =
    logged epoch p rest (send_unreliable conn (pose_packet seq epoch p) ∷ es)

record Posted (s t : Session) (e : Effect) : Type 0 where
  pub effects : t.effects ≡ e ∷ s.effects
  pub peer_conns : t.peer_conns ≡ s.peer_conns
  pub own_epoch : t.own_epoch ≡ s.own_epoch
  pub send_seq : t.send_seq ≡ next32 s.send_seq

post_unreliable-Posted :
    (g : Gns) (conn : ℕ) (packet : ℕ → List ℕ) (s : Session)
    → Posted s (post_unreliable g conn packet s) (send_unreliable conn (packet s.send_seq))
unfolding post_unreliable send_message tell count_call
post_unreliable-Posted g conn packet s =
    either_branch (g.delivers s.calls)
      (λ (t : Session). Posted s t (send_unreliable conn (packet s.send_seq))) _ _
      (record { effects = refl; peer_conns = refl; own_epoch = refl; send_seq = refl })
      (record { effects = refl; peer_conns = refl; own_epoch = refl; send_seq = refl })

-- A pose and no held prop.
abbrev pub walking : PoseSnapshot → Local
walking p = record { pose = some p; prop_pose = none }

stream_slots-logged :
    (g : Gns) (p : PoseSnapshot) (slots : List ℕ) (s : Session)
    → (stream_slots g (walking p) slots s).effects
      ≡ logged s.own_epoch p (streamed_to s.peer_conns s.send_seq slots) s.effects
unfolding stream_slots
stream_slots-logged g p [] s = refl
stream_slots-logged g p (i ∷ slots) s = elim (Bool-cases (s.peer_conns i == 0)) [
  | inl vacant ↦ rw (vacant, stream_slots) (stream_slots-logged g p slots s)
  | inr taken ↦
      let packet = λ (seq : ℕ). pose_packet seq s.own_epoch p in
      let t = post_unreliable g (s.peer_conns i) packet s in
      let q = post_unreliable-Posted g (s.peer_conns i) packet s in
      rw (taken, stream_slots)
        (stream_slots-logged g p slots t
          ∙ ap (λ e. logged e p (streamed_to t.peer_conns t.send_seq slots) t.effects) q.own_epoch
          ∙ ap (λ c. logged s.own_epoch p (streamed_to c t.send_seq slots) t.effects) q.peer_conns
          ∙ ap (λ n. logged s.own_epoch p (streamed_to s.peer_conns n slots) t.effects) q.send_seq
          ∙ ap (λ l. logged s.own_epoch p (streamed_to s.peer_conns (next32 s.send_seq) slots) l)
              q.effects)
]

-- A receiver in order takes the pose of a datagram: it is a client that has it from the host or a
-- host that has it from a client's slot, its latch is open or holds the sender's generation, and the
-- sequence number is ahead of the last.
abbrev pub Arrives : ℕ → PoseSnapshot → ℕ × ℕ → Type 0
Arrives epoch p (conn, seq) =
    (g : Gns) (r : Session) (slot : ℕ)
    → slot < max_peers
    → (is_host r.role ≡ false → slot ≡ 0)
    → ((r.remotes slot).expected_epoch ≡ 0) ⊎ ((r.remotes slot).expected_epoch ≡ epoch)
    → ((r.remotes slot).has_remote && is_stale seq (r.remotes slot).last_remote_seq) ≡ false
    → Shows (handle_message g r slot (pose_packet seq epoch p)) slot p

streamed_to-Arrives :
    (conns : ℕ → ℕ) (epoch seq : ℕ) (p : PoseSnapshot) (slots : List ℕ)
    → FitsPose p
    → validate_pose p ≡ true
    → epoch < 2 ^ 32
    → epoch ≢ 0
    → seq < 2 ^ 32
    → All (Arrives epoch p) (streamed_to conns seq slots)
streamed_to-Arrives conns epoch seq p [] fits valid small real lt = tt
streamed_to-Arrives conns epoch seq p (i ∷ slots) fits valid small real lt =
    elim (Bool-cases (conns i == 0)) [
      | inl vacant ↦
          rw vacant (streamed_to-Arrives conns epoch seq p slots fits valid small real lt)
      | inr taken ↦ rw taken (
        λ g r slot inside own latch fresh.
            handle_message-pose_packet g r slot seq epoch p fits valid lt small real inside own
              latch fresh,
        streamed_to-Arrives conns epoch (next32 seq) p slots fits valid small real (omega arith),
      )
    ]

-- In a turn of the stream that is due on a connected session, with a pose in its bounds and no held
-- prop, the session sends exactly one datagram to each connection, in the order of the slots and with
-- consecutive sequence numbers, and every receiver in order shows exactly this pose, field by field,
-- after each of them.
pub stream-Arrives :
    (g : Gns) (s : Session) (p : PoseSnapshot)
    → FitsPose p
    → validate_pose p ≡ true
    → is_connected s.state ≡ true
    → s.own_epoch < 2 ^ 32
    → s.own_epoch ≢ 0
    → s.send_seq < 2 ^ 32
    → ((stream g (walking p) true s).effects
        ≡ logged s.own_epoch p (streamed_to s.peer_conns s.send_seq all_slots) s.effects)
      × All (Arrives s.own_epoch p) (streamed_to s.peer_conns s.send_seq all_slots)
unfolding stream
stream-Arrives g s p fits valid up small real lt = (
  rw up (stream_slots-logged g p all_slots s),
  streamed_to-Arrives s.peer_conns s.own_epoch s.send_seq p all_slots fits valid small real lt,
)
