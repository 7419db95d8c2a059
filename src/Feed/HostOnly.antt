-- ===== src/Feed/HostOnly.antt =====
-- The gates of the kinds that only the host may send.
use votv_mp.Base.{ℕ, ◌≡◌, Bool, false, not, ◌||◌, ◌==◌, arith}
use votv_mp.Players.{Players}
use votv_mp.Protocol.{max_coord}
use votv_mp.Session.{ReliableMessage}
use votv_mp.Feed.Payloads.{
  finite_vector, vector_exceeds, read_entity_spawn, read_teleport_client, read_red_sky,
  read_lightning_strike, read_weather_state,
}
use votv_mp.Feed.Gates.{
  spawn_entity, teleport_client, set_red_sky, strike_lightning, apply_weather, max_weather,
  verify_sender_eid_range, gate_entity_spawn, gate_entity_destroy, gate_restore_vitals,
  gate_player_damage, gate_teleport_client, not_from_host, gate_red_sky, gate_lightning_strike,
  bad_scalar, gate_weather_state,
}
use votv_mp.Feed.Trusted.{
  Within, Attributed, FromHostToClient, Trusted, Passes, guard, passed, at_most, split_or,
  finite_vector-Finite, within_vector, attributed, split_and, allowed, by_host, switch_state,
}

pub gate_entity_spawn-Trusted :
    (on_host : Bool) (s : Players) (m : ReliableMessage)
    → Passes (Trusted on_host s m) (gate_entity_spawn m)
unfolding gate_entity_spawn
gate_entity_spawn-Trusted on_host s m =
    let P = Trusted on_host s m in
    guard P _ _ (λ size. guard P _ _ (λ host. guard P _ _ (λ class_len.
      passed P (spawn_entity (read_entity_spawn m.payload))
        (by_host m host, at_most 63 _ class_len))))

pub gate_entity_destroy-Trusted :
    (on_host : Bool) (s : Players) (m : ReliableMessage)
    → Passes (Trusted on_host s m) (gate_entity_destroy m)
unfolding gate_entity_destroy
gate_entity_destroy-Trusted on_host s m =
    let P = Trusted on_host s m in guard P _ _ (λ size. guard P _ _ (λ host. by_host m host))

pub gate_restore_vitals-Trusted :
    (on_host : Bool) (s : Players) (m : ReliableMessage)
    → Passes (Trusted on_host s m) (gate_restore_vitals m)
unfolding gate_restore_vitals
gate_restore_vitals-Trusted on_host s m = guard (Trusted on_host s m) _ _ (λ host. by_host m host)

pub gate_player_damage-Trusted :
    (on_host : Bool) (s : Players) (m : ReliableMessage)
    → Passes (Trusted on_host s m) (gate_player_damage m)
unfolding gate_player_damage
gate_player_damage-Trusted on_host s m =
    let P = Trusted on_host s m in guard P _ _ (λ host. guard P _ _ (λ size. by_host m host))

pub gate_teleport_client-Trusted :
    (on_host : Bool) (s : Players) (m : ReliableMessage)
    → Passes (Trusted on_host s m) (gate_teleport_client on_host m)
unfolding gate_teleport_client
gate_teleport_client-Trusted on_host s m =
    let P = Trusted on_host s m in
    let p = read_teleport_client m.payload in
    guard P _ _ (λ size. guard P _ _ (λ host. guard P _ _ (λ finite. guard P _ _ (λ bound.
      guard P _ _ (λ client. passed P (teleport_client p) (
        (client, by_host m host),
        (
          within_vector p.loc max_coord bound,
          finite_vector-Finite p.rot
              (split_and (finite_vector p.loc) (finite_vector p.rot) finite).1,
        ),
      ))))))

-- The three tests of the kinds that only a client takes.
from_host :
    (on_host : Bool) (m : ReliableMessage) (eid : ℕ)
    → not_from_host on_host m eid ≡ false
    → FromHostToClient on_host m.sender_peer_slot × Attributed m.sender_peer_slot eid
from_host on_host m eid e =
    let a =
      split_three on_host (not (m.sender_peer_slot == 0))
        (not (verify_sender_eid_range m.sender_peer_slot eid)) e in
    ((a.0, by_host m a.1.0), attributed m.sender_peer_slot eid (allowed _ a.1.1))
  where
    split_three : (a b c : Bool) → (a || b || c) ≡ false → (a ≡ false) × ((b ≡ false) × (c ≡ false))
    split_three a b c h = ground (arith, h)

pub gate_red_sky-Trusted :
    (on_host : Bool) (s : Players) (m : ReliableMessage)
    → Passes (Trusted on_host s m) (gate_red_sky on_host m)
unfolding gate_red_sky
gate_red_sky-Trusted on_host s m =
    let P = Trusted on_host s m in
    let p = read_red_sky m.payload in
    guard P _ _ (λ size. guard P _ _ (λ host. guard P _ _ (λ state.
      let (client, sender) = from_host on_host m p.sender_element_id host in
      passed P (set_red_sky p) (client, (sender, switch_state p.state state)))))

pub gate_lightning_strike-Trusted :
    (on_host : Bool) (s : Players) (m : ReliableMessage)
    → Passes (Trusted on_host s m) (gate_lightning_strike on_host m)
unfolding gate_lightning_strike
gate_lightning_strike-Trusted on_host s m =
    let P = Trusted on_host s m in
    let p = read_lightning_strike m.payload in
    guard P _ _ (λ size. guard P _ _ (λ host. guard P _ _ (λ bound.
      let (client, sender) = from_host on_host m p.sender_element_id host in
      passed P (strike_lightning p) (
        client,
        (
          sender,
          within_vector p.loc max_coord
              (split_or (not (finite_vector p.loc)) (vector_exceeds p.loc max_coord) bound).1,
        ),
      ))))

pub gate_weather_state-Trusted :
    (on_host : Bool) (s : Players) (m : ReliableMessage)
    → Passes (Trusted on_host s m) (gate_weather_state on_host m)
unfolding gate_weather_state
gate_weather_state-Trusted on_host s m =
    let P = Trusted on_host s m in
    let p = read_weather_state m.payload in
    guard P _ _ (λ size. guard P _ _ (λ host. guard P _ _ (λ bound.
      let (client, sender) = from_host on_host m p.sender_element_id host in
      passed P (apply_weather p) (
        client,
        (
          sender,
          scalars p.rain_strength p.rain_lightning_chance p.rain_deactivate_chance p.rain_wind_speed
              bound,
        ),
      ))))
  where
    scalar : (f : ℕ) → bad_scalar f ≡ false → Within max_weather f
    scalar f e = ground (arith, e)

    split_four :
        (a b c d : Bool)
        → (a || b || c || d) ≡ false
        → ((a ≡ false) × (b ≡ false)) × ((c ≡ false) × (d ≡ false))
    split_four a b c d h = ground (arith, h)

    scalars :
        (a b c d : ℕ)
        → (bad_scalar a || bad_scalar b || bad_scalar c || bad_scalar d) ≡ false
        → (Within max_weather a × Within max_weather b)
          × (Within max_weather c × Within max_weather d)
    scalars a b c d e =
        let r = split_four (bad_scalar a) (bad_scalar b) (bad_scalar c) (bad_scalar d) e in
        ((scalar a r.0.0, scalar b r.0.1), (scalar c r.1.0, scalar d r.1.1))
