-- ===== src/Protocol.antt =====
-- include/coop/net/protocol.h: the constants, the packed structs as bytes (little-endian, as the
-- structs lie in memory) and the checks on received values. A float is its 32-bit pattern.
mod Bytes
pub mod Header
pub mod Kind
pub use Bytes.{byte_at, u16_at, u32_at, u16_bytes, u32_bytes, zeros}
use votv_mp.Base.{
  ℕ, ◌-◌, ◌%◌, ◌^◌, Bool, true, false, not, ◌&&◌, ◌||◌, Option, none, some, List, [], ◌∷◌, ◌++◌,
  ltb, leb, ◌==◌, if◌then◌else◌, length, drop, take,
}

abbrev pub magic : ℕ
magic = 0x564d_5450

abbrev pub protocol_version : ℕ
protocol_version = 21

abbrev pub max_packet_bytes : ℕ
max_packet_bytes = 256

abbrev pub header_size : ℕ
header_size = 20

abbrev pub reliable_header_size : ℕ
reliable_header_size = 8

abbrev pub pose_packet_size : ℕ
pose_packet_size = 52

abbrev pub prop_pose_packet_size : ℕ
prop_pose_packet_size = 76

abbrev pub max_reliable_payload : ℕ
max_reliable_payload = max_packet_bytes - 20 - 8

pub record PacketHeader : Type 0 where
  pub magic_word : ℕ
  pub version : ℕ
  pub type : ℕ
  pub seq : ℕ
  pub sender_epoch : ℕ
  pub sender_slot : ℕ

-- WriteHeader: the twenty bytes, padding and reserved bytes zero.
unfoldable pub write_header : ℕ → ℕ → ℕ → ℕ → List ℕ
write_header type seq sender_epoch sender_slot =
    u32_bytes magic
    ++ (u16_bytes protocol_version
        ++ ((type ∷ 0 ∷ [])
            ++ (u32_bytes seq ++ (u32_bytes sender_epoch ++ (sender_slot ∷ 0 ∷ 0 ∷ 0 ∷ [])))))

-- `memcpy(&h, data, sizeof(h))`
unfoldable pub read_header : List ℕ → PacketHeader
read_header bytes = record {
  magic_word = u32_at bytes 0;
  version = u16_at bytes 4;
  type = byte_at bytes 6;
  seq = u32_at bytes 8;
  sender_epoch = u32_at bytes 12;
  sender_slot = byte_at bytes 16;
}

unfoldable pub parse_header : List ℕ → Option PacketHeader
unfolding read_header
parse_header bytes =
    if ltb (length bytes) header_size
    then none
    else let h = read_header bytes in
      if not (h.magic_word == magic) || not (h.version == protocol_version) then none else some h

unfoldable pub peek_protocol_version : List ℕ → ℕ
unfolding read_header
peek_protocol_version bytes =
    if ltb (length bytes) header_size
    then 0
    else let h = read_header bytes in if h.magic_word == magic then h.version else 0

-- The tests on floats. The exponent field of a finite float is not all ones; finite floats of one
-- sign are ordered as their magnitude bits.
abbrev pub magnitude : ℕ → ℕ
magnitude f = f % 2 ^ 31

abbrev pub is_finite : ℕ → Bool
is_finite f = ltb (magnitude f) 0x7f80_0000

abbrev pub is_negative : ℕ → Bool
is_negative f = leb (2 ^ 31) f && ltb 0 (magnitude f)

-- std::fabs(f) > bound, for a finite f and a positive bound.
abbrev pub exceeds : ℕ → ℕ → Bool
exceeds f bound = ltb bound (magnitude f)

-- 1.0e6f, 1.0e5f and 180.f
abbrev pub max_coord : ℕ
max_coord = 0x4974_2400

abbrev pub max_speed : ℕ
max_speed = 0x47c3_5000

abbrev pub half_turn : ℕ
half_turn = 0x4334_0000

pub record PoseSnapshot : Type 0 where
  pub x : ℕ
  pub y : ℕ
  pub z : ℕ
  pub yaw : ℕ
  pub pitch : ℕ
  pub head_yaw_delta : ℕ
  pub speed : ℕ
  pub state_bits : ℕ
  pub health_frac : ℕ
  pub food_frac : ℕ
  pub sleep_frac : ℕ

-- The pose of a PosePacket, behind the header.
unfoldable pub read_pose : List ℕ → PoseSnapshot
read_pose bytes = record {
  x = u32_at bytes 20;
  y = u32_at bytes 24;
  z = u32_at bytes 28;
  yaw = u32_at bytes 32;
  pitch = u32_at bytes 36;
  head_yaw_delta = u32_at bytes 40;
  speed = u32_at bytes 44;
  state_bits = byte_at bytes 48;
  health_frac = byte_at bytes 49;
  food_frac = byte_at bytes 50;
  sleep_frac = byte_at bytes 51;
}

unfoldable pub validate_pose : PoseSnapshot → Bool
validate_pose p =
    if not (
      is_finite p.x
      && is_finite p.y
      && is_finite p.z
      && is_finite p.yaw
      && is_finite p.pitch
      && is_finite p.head_yaw_delta
      && is_finite p.speed)
    then false
    else if exceeds p.x max_coord || exceeds p.y max_coord || exceeds p.z max_coord
    then false
    else if is_negative p.speed || exceeds p.speed max_speed
    then false
    else if exceeds p.yaw half_turn
    then false
    else if exceeds p.pitch half_turn
    then false
    else if exceeds p.head_yaw_delta half_turn
    then false
    else true

pub record WireKey : Type 0 where
  pub len : ℕ
  pub chars : List ℕ

pub record PropPoseSnapshot : Type 0 where
  pub key : WireKey
  pub x : ℕ
  pub y : ℕ
  pub z : ℕ
  pub pitch : ℕ
  pub yaw : ℕ
  pub roll : ℕ

unfoldable pub read_prop_pose : List ℕ → PropPoseSnapshot
read_prop_pose bytes = record {
  key = record { len = byte_at bytes 20; chars = take 31 (drop 21 bytes) };
  x = u32_at bytes 52;
  y = u32_at bytes 56;
  z = u32_at bytes 60;
  pitch = u32_at bytes 64;
  yaw = u32_at bytes 68;
  roll = u32_at bytes 72;
}

-- The checks that HandleMessage makes on a PropPose.
unfoldable pub validate_prop_pose : PropPoseSnapshot → Bool
validate_prop_pose p =
    if not (
      is_finite p.x
      && is_finite p.y
      && is_finite p.z
      && is_finite p.pitch
      && is_finite p.yaw
      && is_finite p.roll)
    then false
    else if exceeds p.x max_coord || exceeds p.y max_coord || exceeds p.z max_coord
    then false
    else if exceeds p.pitch half_turn || exceeds p.yaw half_turn || exceeds p.roll half_turn
    then false
    else if ltb 31 p.key.len
    then false
    else true
