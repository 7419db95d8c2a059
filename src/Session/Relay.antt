-- ===== src/Session/Relay.antt =====
-- coop/net/session_relay.cpp: what the host forwards, and to whom.
pub mod Restamp
use votv_mp.Base.{
  ℕ, ◌≡◌, ◌<◌, ◌≤◌, ◌+◌, ◌^◌, refl, ◌∙◌, ap, Bool, true, false, not, ◌&&◌, ◌||◌, List, [], ◌∷◌,
  ◌++◌, append_assoc, sym, some, zero, suc, take, drop, get_or, length, arith, ◌==◌, if◌then◌else◌,
  inl, inr, Bool-cases, keep_if,
}
use votv_mp.Protocol.{PacketHeader, parse_header, read_header, header_size}
use votv_mp.Session.{
  Gns, Session, Effect, send_unreliable, is_host, out_of_packet, restamp, send_message, relay_loop,
  forward_unreliable, relay_unreliable_to_other_clients, client_slots, tell, count_call,
}

-- The occupied slots but the origin's, and the effects of a datagram to each, the latest first.
unfoldable pub audience : Session → ℕ → List ℕ → List ℕ
audience s origin [] = []
audience s origin (i ∷ slots) =
    let rest = audience s origin slots in
    if not (i == origin) && not (s.peer_conns i == 0) then i ∷ rest else rest

unfoldable pub datagrams : Session → List ℕ → List ℕ → List Effect
datagrams s bytes [] = []
datagrams s bytes (i ∷ slots) =
    datagrams s bytes slots ++ send_unreliable (s.peer_conns i) bytes ∷ []

datagrams-conns :
    (s t : Session) (bytes slots : List ℕ)
    → t.peer_conns ≡ s.peer_conns
    → datagrams t bytes slots ≡ datagrams s bytes slots
unfolding datagrams
datagrams-conns s t bytes [] e = refl
datagrams-conns s t bytes (i ∷ slots) e =
    rw (datagrams-conns s t bytes slots e)
      (ap (λ c. datagrams s bytes slots ++ send_unreliable (c i) bytes ∷ []) e)

send-facts :
    (g : Gns) (e : Effect) (s : Session)
    → ((send_message g e s).peer_conns ≡ s.peer_conns)
      × ((send_message g e s).effects ≡ e ∷ s.effects)
unfolding send_message tell count_call
send-facts g e s = ground arith

audience-conns :
    (s t : Session) (origin : ℕ) (slots : List ℕ)
    → t.peer_conns ≡ s.peer_conns
    → audience t origin slots ≡ audience s origin slots
unfolding audience
audience-conns s t origin [] e = refl
audience-conns s t origin (i ∷ slots) e = rw (audience-conns s t origin slots e) (
    ap
      (λ c.
        if not (i == origin) && not (c i == 0)
        then i ∷ audience s origin slots
        else audience s origin slots)
      e)

-- One turn of the loop.
abbrev turn : Gns → ℕ → ℕ → List ℕ → ℕ → Session → Session
turn g epoch origin bytes i s =
    if i == origin
    then s
    else if s.peer_conns i == 0
    then s
    else forward_unreliable g epoch origin bytes (s.peer_conns i) s

turn-conns :
    (g : Gns) (epoch origin : ℕ) (bytes : List ℕ) (i : ℕ) (s : Session)
    → (turn g epoch origin bytes i s).peer_conns ≡ s.peer_conns
unfolding forward_unreliable send_message tell count_call
turn-conns g epoch origin bytes i s = ground arith

turn_effects :
    (g : Gns) (epoch origin : ℕ) (bytes : List ℕ) (i : ℕ) (s : Session) (rest : List ℕ)
    → datagrams s (restamp epoch origin bytes) rest ++ (turn g epoch origin bytes i s).effects
      ≡ datagrams s
          (restamp epoch origin bytes)
          (if not (i == origin) && not (s.peer_conns i == 0) then i ∷ rest else rest)
        ++ s.effects
unfolding datagrams forward_unreliable
turn_effects g epoch origin bytes i s rest = elim (Bool-cases (i == origin)) [
  | inl own ↦ rw own refl
  | inr other ↦ rw other (elim (Bool-cases (s.peer_conns i == 0)) [
    | inl vacant ↦ rw vacant refl
    | inr taken ↦ rw taken (
        let e = send_unreliable (s.peer_conns i) (restamp epoch origin bytes) in
        let earlier = datagrams s (restamp epoch origin bytes) rest in
        ap (λ x. earlier ++ x) (send-facts g e s).1 ∙ sym (append_assoc earlier (e ∷ []) s.effects))
  ])
]

loop_effects :
    (g : Gns) (epoch origin : ℕ) (bytes slots : List ℕ) (s : Session)
    → (relay_loop (forward_unreliable g epoch origin bytes) origin slots s).effects
      ≡ datagrams s (restamp epoch origin bytes) (audience s origin slots) ++ s.effects
unfolding relay_loop audience datagrams
loop_effects g epoch origin bytes [] s = refl
loop_effects g epoch origin bytes (i ∷ slots) s =
    loop_effects g epoch origin bytes slots t
    ∙ ap (λ a. datagrams t packet a ++ t.effects) (audience-conns s t origin slots conns)
    ∙ ap (λ d. d ++ t.effects) (datagrams-conns s t packet (audience s origin slots) conns)
    ∙ turn_effects g epoch origin bytes i s (audience s origin slots)
  where
    t : Session
    t = turn g epoch origin bytes i s

    packet : List ℕ
    packet = restamp epoch origin bytes

    conns : t.peer_conns ≡ s.peer_conns
    conns = turn-conns g epoch origin bytes i s

-- On the host, a packet of 20 to 256 bytes is sent, restamped, to every occupied client slot but
-- its origin's, each once, in the order of the slots, and nothing else is asked of the library.
pub relay_unreliable-audience :
    (g : Gns) (s : Session) (origin : ℕ) (bytes : List ℕ)
    → is_host s.role ≡ true
    → out_of_packet bytes ≡ false
    → (relay_unreliable_to_other_clients g s origin bytes).effects
      ≡ datagrams s (restamp s.own_epoch origin bytes) (audience s origin client_slots) ++ s.effects
unfolding relay_unreliable_to_other_clients
relay_unreliable-audience g s origin bytes host sized =
    rw host (rw sized (loop_effects g s.own_epoch origin bytes client_slots s))
