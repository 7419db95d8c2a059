-- ===== src/Feed/Gates.antt =====
-- The cases of the switch in Update of coop/event_feed.cpp that call the engine side: what each
-- lets through, in the order of its tests. Calls that are posted to the game thread and calls that
-- are made at once are both actions here.
use votv_mp.Base.{
  ℕ, ◌%◌, ◌/◌, Bool, true, false, not, ◌&&◌, ◌||◌, Option, none, some, List, [], ◌∷◌, leb, ltb,
  ◌==◌, if◌then◌else◌, length, take,
}
use votv_mp.ElementId.{invalid_id, max_peers, peer_id_unknown, is_allowed_sender_eid}
use votv_mp.Registry.{Process, Element, Derived, plain, as_player, player, eqb_type, get}
use votv_mp.Players.{Players}
use votv_mp.Protocol.{is_finite, exceeds, max_coord, u32_at}
use votv_mp.Session.{ReliableMessage}
use votv_mp.Feed.Payloads.{
  finite_vector, vector_exceeds, WireClassName, PropReleasePayload, prop_release_size,
  read_prop_release, PropSpawnPayload, prop_spawn_size, read_prop_spawn, PropDestroyPayload,
  prop_destroy_size, read_prop_destroy, EntitySpawnPayload, entity_spawn_size, read_entity_spawn,
  entity_destroy_size, PlayerDamagePayload, player_damage_size, read_player_damage,
  TeleportClientPayload, teleport_client_size, read_teleport_client, ItemActivatePayload,
  item_activate_size, read_item_activate, RedSkyPayload, red_sky_size, read_red_sky,
  LightningStrikePayload, lightning_strike_size, read_lightning_strike, WeatherStatePayload,
  weather_state_size, read_weather_state,
}

pub data Action : Type 0 where
  release_prop : ℕ → PropReleasePayload → Action
  spawn_prop : ℕ → PropSpawnPayload → Action
  destroy_prop : PropDestroyPayload → Action
  spawn_entity : EntitySpawnPayload → Action
  destroy_entity : ℕ → Action
  restore_vitals : Action
  damage_player : PlayerDamagePayload → Action
  teleport_client : TeleportClientPayload → Action
  activate_item : ℕ → ItemActivatePayload → Action
  set_red_sky : RedSkyPayload → Action
  strike_lightning : LightningStrikePayload → Action
  apply_weather : WeatherStatePayload → Action

-- 1.0e6f and 1.0e3f; kMaxConeAngle is 180.f.
abbrev pub max_velocity : ℕ
max_velocity = 0x4974_2400

abbrev pub max_weather : ℕ
max_weather = 0x447a_0000

abbrev pub max_cone_angle : ℕ
max_cone_angle = 0x4334_0000

abbrev pub is_unset : ℕ → Bool
is_unset eid = (eid == 0) || (eid == invalid_id)

unfoldable pub verify_sender_eid_range : ℕ → ℕ → Bool
verify_sender_eid_range sender eid =
    if is_unset eid then true else is_allowed_sender_eid (sender == 0) eid

-- A test after which the switch breaks.
infix 1 drop_if◌else◌
unfoldable pub drop_if◌else◌ : Bool → Option Action → Option Action
drop_if true else rest = none
drop_if false else rest = rest

unfoldable pub gate_prop_release : ReliableMessage → Option Action
gate_prop_release m =
    drop_if ltb (length m.payload) prop_release_size
    else drop_if leb max_peers m.sender_peer_slot
    else let p = read_prop_release m.payload in
      drop_if not (finite_vector p.lin_vel && finite_vector p.ang_vel)
      else drop_if vector_exceeds p.lin_vel max_velocity || vector_exceeds p.ang_vel max_velocity
      else some (release_prop m.sender_peer_slot p)

-- L"prop_food_mushroom7_C"
abbrev pub growing_mushroom : List ℕ
growing_mushroom =
    112 ∷ 114 ∷ 111 ∷ 112 ∷ 95 ∷ 102 ∷ 111 ∷ 111 ∷ 100 ∷ 95 ∷ 109 ∷ 117 ∷ 115 ∷ 104 ∷ 114 ∷ 111
    ∷ 111 ∷ 109 ∷ 55 ∷ 95 ∷ 67 ∷ []

unfoldable pub same_chars : List ℕ → List ℕ → Bool
same_chars [] [] = true
same_chars (c ∷ s) (d ∷ t) = (c == d) && same_chars s t
same_chars _ _ = false

abbrev pub class_chars : WireClassName → List ℕ
class_chars n = take n.len n.data_bytes

unfoldable pub gate_prop_spawn : ReliableMessage → Option Action
gate_prop_spawn m =
    drop_if ltb (length m.payload) prop_spawn_size
    else let p = read_prop_spawn m.payload in
      drop_if not (
        finite_vector p.loc
        && finite_vector p.rot
        && finite_vector p.scale
        && finite_vector p.init_lin_vel
        && finite_vector p.init_ang_vel)
      else drop_if vector_exceeds p.loc max_coord
      else drop_if vector_exceeds p.init_lin_vel max_velocity
          || vector_exceeds p.init_ang_vel max_velocity
      else drop_if ltb 63 p.class_name.len
      else drop_if ltb 31 p.key.len
      else drop_if not (is_allowed_sender_eid (m.sender_peer_slot == 0) p.element_id)
      else drop_if same_chars (class_chars p.class_name) growing_mushroom
      else some (spawn_prop m.sender_peer_slot p)

unfoldable pub gate_prop_destroy : ReliableMessage → Option Action
gate_prop_destroy m =
    drop_if ltb (length m.payload) prop_destroy_size
    else let p = read_prop_destroy m.payload in
      drop_if ltb 31 p.key.len
      else drop_if not (is_allowed_sender_eid (m.sender_peer_slot == 0) p.element_id)
      else some (destroy_prop p)

unfoldable pub gate_entity_spawn : ReliableMessage → Option Action
gate_entity_spawn m =
    drop_if ltb (length m.payload) entity_spawn_size
    else drop_if not (m.sender_peer_slot == 0)
    else let p = read_entity_spawn m.payload in
      drop_if ltb 63 p.class_name.len else some (spawn_entity p)

unfoldable pub gate_entity_destroy : ReliableMessage → Option Action
gate_entity_destroy m =
    drop_if ltb (length m.payload) entity_destroy_size
    else drop_if not (m.sender_peer_slot == 0)
    else some (destroy_entity (u32_at m.payload 0))

unfoldable pub gate_restore_vitals : ReliableMessage → Option Action
gate_restore_vitals m = drop_if not (m.sender_peer_slot == 0) else some restore_vitals

unfoldable pub gate_player_damage : ReliableMessage → Option Action
gate_player_damage m =
    drop_if not (m.sender_peer_slot == 0)
    else drop_if ltb (length m.payload) player_damage_size
    else some (damage_player (read_player_damage m.payload))

unfoldable pub gate_teleport_client : Bool → ReliableMessage → Option Action
gate_teleport_client on_host m =
    drop_if ltb (length m.payload) teleport_client_size
    else drop_if not (m.sender_peer_slot == 0)
    else let p = read_teleport_client m.payload in
      drop_if not (finite_vector p.loc && finite_vector p.rot)
      else drop_if vector_exceeds p.loc max_coord
      else drop_if on_host
      else some (teleport_client p)

-- The packet is our own, by its id, or by its slot where it has no id.
unfoldable pub is_self_echo : Players → ℕ → ℕ → Bool
is_self_echo s sender eid =
    (not (is_unset eid) && not (s.published == invalid_id) && (eid == s.published))
    || (is_unset eid && (sender % 256 == s.local_peer_id))

abbrev pub peer_slot_of : Derived → ℕ
peer_slot_of plain = peer_id_unknown
peer_slot_of (as_player slot puppet) = slot

abbrev pub player_slot : Option Element → ℕ
player_slot none = peer_id_unknown
player_slot (some e) = if eqb_type e.type player then peer_slot_of e.derived else peer_id_unknown

abbrev pub element_at : Process → Option ℕ → Option Element
element_at s none = none
element_at s (some q) = s.heap q

-- The slot of the player that the id names; failing that, the slot of the connection.
unfoldable pub resolve_slot : Players → ℕ → ℕ → Option ℕ
resolve_slot s sender eid =
    let named =
      if is_unset eid then peer_id_unknown else player_slot (element_at s.proc (get s.proc eid)) in
    if leb max_peers named then if ltb sender max_peers then some sender else none else some named

abbrev pub activated : ItemActivatePayload → Option ℕ → Option Action
activated p none = none
activated p (some slot) = some (activate_item slot p)

unfoldable pub gate_item_activate : Players → ReliableMessage → Option Action
gate_item_activate s m =
    drop_if ltb (length m.payload) item_activate_size
    else let p = read_item_activate m.payload in
      drop_if not (p.state == 0) && not (p.state == 1)
      else drop_if not (p.flags / 2 == 0)
      else drop_if not
          (is_finite p.intensity && is_finite p.outer_cone_angle && is_finite p.inner_cone_angle)
      else drop_if exceeds p.intensity max_velocity
          || exceeds p.outer_cone_angle max_cone_angle
          || exceeds p.inner_cone_angle max_cone_angle
      else drop_if is_self_echo s m.sender_peer_slot p.sender_element_id
      else drop_if not (verify_sender_eid_range m.sender_peer_slot p.sender_element_id)
      else activated p (resolve_slot s m.sender_peer_slot p.sender_element_id)

-- The three kinds that only a client takes, and only from the host.
abbrev pub not_from_host : Bool → ReliableMessage → ℕ → Bool
not_from_host on_host m eid =
    on_host || not (m.sender_peer_slot == 0) || not (verify_sender_eid_range m.sender_peer_slot eid)

unfoldable pub gate_red_sky : Bool → ReliableMessage → Option Action
gate_red_sky on_host m =
    drop_if ltb (length m.payload) red_sky_size
    else let p = read_red_sky m.payload in
      drop_if not_from_host on_host m p.sender_element_id
      else drop_if not (p.state == 0) && not (p.state == 1)
      else some (set_red_sky p)

unfoldable pub gate_lightning_strike : Bool → ReliableMessage → Option Action
gate_lightning_strike on_host m =
    drop_if ltb (length m.payload) lightning_strike_size
    else let p = read_lightning_strike m.payload in
      drop_if not_from_host on_host m p.sender_element_id
      else drop_if not (finite_vector p.loc) || vector_exceeds p.loc max_coord
      else some (strike_lightning p)

abbrev pub bad_scalar : ℕ → Bool
bad_scalar f = not (is_finite f) || exceeds f max_weather

unfoldable pub gate_weather_state : Bool → ReliableMessage → Option Action
gate_weather_state on_host m =
    drop_if ltb (length m.payload) weather_state_size
    else let p = read_weather_state m.payload in
      drop_if not_from_host on_host m p.sender_element_id
      else drop_if bad_scalar p.rain_strength
          || bad_scalar p.rain_lightning_chance
          || bad_scalar p.rain_deactivate_chance
          || bad_scalar p.rain_wind_speed
      else some (apply_weather p)
