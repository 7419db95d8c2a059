-- ===== src/Feed/Payloads.antt =====
-- The payload structs of include/coop/net/protocol.h that the event feed copies out of a message,
-- and its tests on their floats. The offsets are those of the packed structs.
use votv_mp.Base.{ℕ, ◌+◌, Bool, ◌&&◌, ◌||◌, List, take, drop}
use votv_mp.Protocol.{byte_at, u32_at, WireKey, is_finite, exceeds}

pub record Vector : Type 0 where
  pub x : ℕ
  pub y : ℕ
  pub z : ℕ

abbrev pub vector_at : List ℕ → ℕ → Vector
vector_at bytes i = record {
  x = u32_at bytes i;
  y = u32_at bytes (i + 4);
  z = u32_at bytes (i + 8);
}

abbrev pub finite_vector : Vector → Bool
finite_vector v = is_finite v.x && is_finite v.y && is_finite v.z

-- One of the components is larger than the bound in magnitude.
abbrev pub vector_exceeds : Vector → ℕ → Bool
vector_exceeds v bound = exceeds v.x bound || exceeds v.y bound || exceeds v.z bound

abbrev pub wire_key_at : List ℕ → ℕ → WireKey
wire_key_at bytes i = record { len = byte_at bytes i; chars = take 31 (drop (i + 1) bytes) }

pub record WireClassName : Type 0 where
  pub len : ℕ
  pub data_bytes : List ℕ

abbrev pub class_name_at : List ℕ → ℕ → WireClassName
class_name_at bytes i = record { len = byte_at bytes i; data_bytes = take 63 (drop (i + 1) bytes) }

pub record PropReleasePayload : Type 0 where
  pub key : WireKey
  pub lin_vel : Vector
  pub ang_vel : Vector

abbrev pub prop_release_size : ℕ
prop_release_size = 56

unfoldable pub read_prop_release : List ℕ → PropReleasePayload
read_prop_release b = record {
  key = wire_key_at b 0;
  lin_vel = vector_at b 32;
  ang_vel = vector_at b 44;
}

pub record PropSpawnPayload : Type 0 where
  pub class_name : WireClassName
  pub key : WireKey
  pub loc : Vector
  pub rot : Vector
  pub scale : Vector
  pub phys_flags : ℕ
  pub init_lin_vel : Vector
  pub init_ang_vel : Vector
  pub element_id : ℕ

abbrev pub prop_spawn_size : ℕ
prop_spawn_size = 168

unfoldable pub read_prop_spawn : List ℕ → PropSpawnPayload
read_prop_spawn b = record {
  class_name = class_name_at b 0;
  key = wire_key_at b 64;
  loc = vector_at b 96;
  rot = vector_at b 108;
  scale = vector_at b 120;
  phys_flags = byte_at b 132;
  init_lin_vel = vector_at b 136;
  init_ang_vel = vector_at b 148;
  element_id = u32_at b 160;
}

pub record PropDestroyPayload : Type 0 where
  pub key : WireKey
  pub element_id : ℕ

abbrev pub prop_destroy_size : ℕ
prop_destroy_size = 40

unfoldable pub read_prop_destroy : List ℕ → PropDestroyPayload
read_prop_destroy b = record { key = wire_key_at b 0; element_id = u32_at b 32 }

pub record EntitySpawnPayload : Type 0 where
  pub class_name : WireClassName
  pub element_id : ℕ
  pub loc : Vector
  pub rot : Vector

abbrev pub entity_spawn_size : ℕ
entity_spawn_size = 96

unfoldable pub read_entity_spawn : List ℕ → EntitySpawnPayload
read_entity_spawn b = record {
  class_name = class_name_at b 0;
  element_id = u32_at b 64;
  loc = vector_at b 72;
  rot = vector_at b 84;
}

-- EntityDestroyPayload, of which only the id is used.
abbrev pub entity_destroy_size : ℕ
entity_destroy_size = 8

pub record PlayerDamagePayload : Type 0 where
  pub target_element_id : ℕ
  pub damage : ℕ

abbrev pub player_damage_size : ℕ
player_damage_size = 8

unfoldable pub read_player_damage : List ℕ → PlayerDamagePayload
read_player_damage b = record { target_element_id = u32_at b 0; damage = u32_at b 4 }

pub record TeleportClientPayload : Type 0 where
  pub loc : Vector
  pub rot : Vector

abbrev pub teleport_client_size : ℕ
teleport_client_size = 24

unfoldable pub read_teleport_client : List ℕ → TeleportClientPayload
read_teleport_client b = record { loc = vector_at b 0; rot = vector_at b 12 }

pub record ItemActivatePayload : Type 0 where
  pub item_class_hash : ℕ
  pub sender_element_id : ℕ
  pub state : ℕ
  pub flags : ℕ
  pub mode : ℕ
  pub actor_key_hash : ℕ
  pub intensity : ℕ
  pub outer_cone_angle : ℕ
  pub inner_cone_angle : ℕ

abbrev pub item_activate_size : ℕ
item_activate_size = 28

unfoldable pub read_item_activate : List ℕ → ItemActivatePayload
read_item_activate b = record {
  item_class_hash = u32_at b 0;
  sender_element_id = u32_at b 4;
  state = byte_at b 8;
  flags = byte_at b 9;
  mode = byte_at b 10;
  actor_key_hash = u32_at b 12;
  intensity = u32_at b 16;
  outer_cone_angle = u32_at b 20;
  inner_cone_angle = u32_at b 24;
}

pub record RedSkyPayload : Type 0 where
  pub sender_element_id : ℕ
  pub state : ℕ

abbrev pub red_sky_size : ℕ
red_sky_size = 8

unfoldable pub read_red_sky : List ℕ → RedSkyPayload
read_red_sky b = record { sender_element_id = u32_at b 0; state = byte_at b 4 }

pub record LightningStrikePayload : Type 0 where
  pub sender_element_id : ℕ
  pub loc : Vector

abbrev pub lightning_strike_size : ℕ
lightning_strike_size = 16

unfoldable pub read_lightning_strike : List ℕ → LightningStrikePayload
read_lightning_strike b = record { sender_element_id = u32_at b 0; loc = vector_at b 4 }

pub record WeatherStatePayload : Type 0 where
  pub sender_element_id : ℕ
  pub flags : ℕ
  pub rain_strength : ℕ
  pub rain_lightning_chance : ℕ
  pub rain_deactivate_chance : ℕ
  pub rain_wind_speed : ℕ

abbrev pub weather_state_size : ℕ
weather_state_size = 24

unfoldable pub read_weather_state : List ℕ → WeatherStatePayload
read_weather_state b = record {
  sender_element_id = u32_at b 0;
  flags = byte_at b 4;
  rain_strength = u32_at b 8;
  rain_lightning_chance = u32_at b 12;
  rain_deactivate_chance = u32_at b 16;
  rain_wind_speed = u32_at b 20;
}
