-- ===== src/Examples/Items.antt =====
-- Flashlights of a host and its clients.
use votv_mp.Base.{
  ℕ, ◌≡◌, ◌+◌, ◌==◌, refl, ap, sym, ◌∙◌, subst, Option, Bool-cases, inr, Bool, true, false, none,
  some, [], arith, All, update, inl,
}
use mathlib.Core.Option.{some-injective}
use votv_mp.ElementId.{invalid_id, is_allowed_sender_eid}
use votv_mp.Players.{Players}
use votv_mp.Players.Mirrored.{vacant_players}
use votv_mp.Feed.Payloads.{ItemActivatePayload}
use votv_mp.Feed.Payloads.{read_item_activate}
use votv_mp.Feed.Gates.{
  gate_item_activate, drop_if◌else◌, is_self_echo, resolve_slot, verify_sender_eid_range,
}
use votv_mp.Registry.{Element, new_element, player, as_player, get, eqb_type}
use votv_mp.Items.{item_activate_bytes}
use votv_mp.Session.{Session, disconnected, client_slots}
use votv_mp.Items.{
  FlashlightState, FlashlightSnapshot, Engine, Items, store_sig, on_update_flashlight_post,
  replay_peer_states_to_slot, tick_connect, apply_to_puppet_or_defer, build_payload_from_local,
}
use votv_mp.Items.Replay.{
  Fits, Accepted, Admitted, Known, replays, post_replays, replay_peer_states_to_slot-Accepted,
}
use votv_mp.Items.Resent.{reconnected, on_update_flashlight_post-reconnected}
use votv_mp.Items.Deferred.{tick_connect-apply_to_puppet_or_defer}
use votv_mp.Examples.Session.State.{gns, sample}
use votv_mp.Examples.Players.{bare}

-- On, at 8.f with the angles 40.f and 0.f.
abbrev lit : ItemActivatePayload
lit = record {
  item_class_hash = 77;
  sender_element_id = 0;
  state = 1;
  flags = 0;
  mode = 0;
  actor_key_hash = 0;
  intensity = 0x4100_0000;
  outer_cone_angle = 0x4220_0000;
  inner_cone_angle = 0;
}

abbrev dark : Items
dark = record {
  session = sample;
  published = invalid_id;
  flashlight_class_hash = 77;
  last_sent_sig = 0;
  pending_apply = λ i. none;
  peer_activate = λ i. none;
  calls = [];
}

abbrev sent : Items
sent = record dark { last_sent_sig = store_sig lit }

abbrev switched : Bool → FlashlightState
switched b = record { flashlight = b; has_flashlight = true; crank_flashlight = false; mode = 0 }

abbrev beam : FlashlightSnapshot
beam = record { intensity = 0x4100_0000; outer_cone_angle = 0x4220_0000; inner_cone_angle = 0 }

abbrev down : Session
down = record sample { state = disconnected }

built : build_payload_from_local sent (switched true) (some beam) ≡ some lit
unfolding build_payload_from_local
built = refl

on_update_flashlight_post-reconnected_example :
    (on_update_flashlight_post gns
      (reconnected gns sent down sample 1 (switched false) (some beam))
      (some (switched true))
      (some beam)).session
    ≡ sample
on_update_flashlight_post-reconnected_example =
    on_update_flashlight_post-reconnected gns sent down sample 1 (switched true) (switched false)
      beam (some beam) lit built refl refl refl

-- Every slot has its puppet; the puppet of slot 2 is 102.
abbrev engine : Engine
engine = record { live_puppet = λ i. some (100 + i); has_light = λ q. true }

tick_connect-apply_to_puppet_or_defer_example :
    tick_connect engine (apply_to_puppet_or_defer engine dark 2 none lit)
    ≡ apply_to_puppet_or_defer engine dark 2 (some 102) lit
tick_connect-apply_to_puppet_or_defer_example =
    tick_connect-apply_to_puppet_or_defer engine dark 2 102 lit (omega arith) refl (λ j ne. refl)

-- The same light, from the client with the id 40960.
abbrev lit_by_one : ItemActivatePayload
lit_by_one = record lit { sender_element_id = 40960 }

-- Client 1 has its light on, and client 2 joins.
abbrev remembering : Items
remembering = record dark { peer_activate = update (λ i. none) 1 (some lit_by_one) }

abbrev player_one : Element
player_one = record (new_element player (as_player 1 none)) { id = 40960; mirror = true }

-- The joiner has a mirror of that client.
abbrev joiner : Players
joiner =
    record (vacant_players (record bare {
      heap = update (λ p. none) 0 (some player_one);
      by_id = update (λ i. none) 40960 (some 0);
    })) { local_peer_id = 2 }

lit-Fits : Fits lit_by_one
lit-Fits = record {
  item_class_hash = omega arith;
  sender_element_id = omega arith;
  actor_key_hash = omega arith;
  intensity = omega arith;
  outer_cone_angle = omega arith;
  inner_cone_angle = omega arith;
}

lit-Admitted : Admitted (vacant_players bare) 1 lit_by_one
unfolding gate_item_activate drop_if◌else◌ item_activate_bytes read_item_activate is_self_echo
    resolve_slot get verify_sender_eid_range is_allowed_sender_eid
lit-Admitted = refl

lit-Known : Known joiner 1 40960
unfolding get eqb_type
lit-Known = record { other = λ set same. ground (arith, same); seated = λ set. refl }

abbrev cached_by : ℕ → Option ItemActivatePayload
cached_by = update (λ i. none) 1 (some lit_by_one)

only_lit :
    (peer : ℕ) (p : ItemActivatePayload)
    → update (λ i. none) 1 (some lit_by_one) peer ≡ some p
    → Fits p × Admitted (vacant_players bare) peer p × Known joiner peer p.sender_element_id
only_lit peer p e = elim (Bool-cases (peer == 1)) [
  | inr other ↦ absurd (ground (arith, e, other))
  | inl one ↦
      let same : peer ≡ 1 = ground (arith, one) in
      let q : lit_by_one ≡ p = some-injective lit_by_one p (sym (ap cached_by same) ∙ e) in
      subst (λ i. Fits p × Admitted (vacant_players bare) i p × Known joiner i p.sender_element_id)
        (sym same)
        (subst
          (λ x. Fits x × Admitted (vacant_players bare) 1 x × Known joiner 1 x.sender_element_id) q
          (lit-Fits, lit-Admitted, lit-Known))
]

replay_peer_states_to_slot-Accepted_example :
    ((replay_peer_states_to_slot gns remembering 2).session
      ≡ post_replays gns 2 (replays remembering.peer_activate 2 client_slots) sample)
    × All (Accepted joiner) (replays remembering.peer_activate 2 client_slots)
replay_peer_states_to_slot-Accepted_example =
    replay_peer_states_to_slot-Accepted gns remembering (vacant_players bare) joiner 2 refl refl
      refl only_lit
