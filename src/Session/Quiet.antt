-- ===== src/Session/Quiet.antt =====
-- Sending changes what is sent, and the counters of that; nothing that a packet or a reader sees.
use votv_mp.Base.{ℕ, ◌≡◌, refl, ◌∙◌, List, [], ◌∷◌, arith, ◌==◌, inl, inr, Bool-cases, not, ◌||◌}
use votv_mp.Lanes.{Lane}
use votv_mp.Session.{
  Gns, Session, Effect, send_message, post_reliable, relay_loop, relay_unreliable_to_other_clients,
  relay_reliable_to_other_clients, tell, client_slots, is_host, out_of_packet, forward_unreliable,
  forward_reliable,
}

pub record Quiet (s t : Session) : Type 0 where
  pub role : t.role ≡ s.role
  pub own_epoch : t.own_epoch ≡ s.own_epoch
  pub state : t.state ≡ s.state
  pub h_poll : t.h_poll ≡ s.h_poll
  pub peer_conns : t.peer_conns ≡ s.peer_conns
  pub lanes_configured : t.lanes_configured ≡ s.lanes_configured
  pub remotes : t.remotes ≡ s.remotes
  pub inbox : t.inbox ≡ s.inbox
  pub recv : t.recv ≡ s.recv

pub Quiet-refl : (s : Session) → Quiet s s
Quiet-refl s = record {
  role = refl;
  own_epoch = refl;
  state = refl;
  h_poll = refl;
  peer_conns = refl;
  lanes_configured = refl;
  remotes = refl;
  inbox = refl;
  recv = refl;
}

pub Quiet-trans : {s t u : Session} → Quiet s t → Quiet t u → Quiet s u
Quiet-trans a b = record {
  role = b.role ∙ a.role;
  own_epoch = b.own_epoch ∙ a.own_epoch;
  state = b.state ∙ a.state;
  h_poll = b.h_poll ∙ a.h_poll;
  peer_conns = b.peer_conns ∙ a.peer_conns;
  lanes_configured = b.lanes_configured ∙ a.lanes_configured;
  remotes = b.remotes ∙ a.remotes;
  inbox = b.inbox ∙ a.inbox;
  recv = b.recv ∙ a.recv;
}

pub send_message-Quiet : (g : Gns) (e : Effect) (s : Session) → Quiet s (send_message g e s)
unfolding send_message
send_message-Quiet g e s = ground arith

pub tell-Quiet : (s : Session) (e : Effect) → Quiet s (tell s e)
unfolding tell
tell-Quiet s e = ground arith

pub post_reliable-Quiet :
    (g : Gns) (conn : ℕ) (lane : Lane) (bytes : List ℕ) (s : Session)
    → Quiet s (post_reliable g conn lane bytes s).0
unfolding post_reliable
post_reliable-Quiet g conn lane bytes s = ground arith

pub relay_loop-Quiet :
    (post : ℕ → Session → Session) (origin : ℕ) (slots : List ℕ) (s : Session)
    → ((conn : ℕ) (t : Session) → Quiet t (post conn t))
    → Quiet s (relay_loop post origin slots s)
unfolding relay_loop
relay_loop-Quiet post origin [] s h = Quiet-refl s
relay_loop-Quiet post origin (i ∷ slots) s h = elim (Bool-cases (i == origin)) [
  | inl own ↦ rw own (relay_loop-Quiet post origin slots s h)
  | inr other ↦ rw other (elim (Bool-cases (s.peer_conns i == 0)) [
    | inl vacant ↦ rw vacant (relay_loop-Quiet post origin slots s h)
    | inr taken ↦ rw taken (
        Quiet-trans (h (s.peer_conns i) s)
          (relay_loop-Quiet post origin slots (post (s.peer_conns i) s) h))
  ])
]

pub relay_unreliable-Quiet :
    (g : Gns) (s : Session) (origin : ℕ) (bytes : List ℕ)
    → Quiet s (relay_unreliable_to_other_clients g s origin bytes)
unfolding relay_unreliable_to_other_clients
relay_unreliable-Quiet g s origin bytes =
    elim (Bool-cases (not (is_host s.role) || out_of_packet bytes)) [
      | inl no_relay ↦ rw no_relay (Quiet-refl s)
      | inr relay ↦ rw relay (
          relay_loop-Quiet (forward_unreliable g s.own_epoch origin bytes) origin client_slots s
            (λ conn t. unfold forward_unreliable in send_message-Quiet g _ t))
    ]

pub relay_reliable-Quiet :
    (g : Gns) (s : Session) (origin kind : ℕ) (bytes : List ℕ)
    → Quiet s (relay_reliable_to_other_clients g s origin kind bytes)
unfolding relay_reliable_to_other_clients
relay_reliable-Quiet g s origin kind bytes =
    elim (Bool-cases (not (is_host s.role) || out_of_packet bytes)) [
      | inl no_relay ↦ rw no_relay (Quiet-refl s)
      | inr relay ↦ rw relay (
          relay_loop-Quiet (forward_reliable g s.own_epoch origin kind bytes) origin client_slots s
            (λ conn t. unfold forward_reliable in post_reliable-Quiet g conn _ _ t))
    ]
