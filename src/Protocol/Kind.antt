-- ===== src/Protocol/Kind.antt =====
-- ReliableKind and MsgType: the bytes on the wire. Other bytes may arrive, so they stay numbers.
use votv_mp.Base.{ℕ}

abbrev pub join : ℕ
join = 1

abbrev pub prop_release : ℕ
prop_release = 2

abbrev pub prop_spawn : ℕ
prop_spawn = 3

abbrev pub prop_destroy : ℕ
prop_destroy = 4

abbrev pub entity_spawn : ℕ
entity_spawn = 5

abbrev pub entity_destroy : ℕ
entity_destroy = 6

abbrev pub restore_vitals : ℕ
restore_vitals = 7

abbrev pub teleport_client : ℕ
teleport_client = 8

abbrev pub item_activate : ℕ
item_activate = 12

abbrev pub assign_peer_slot : ℕ
assign_peer_slot = 18

abbrev pub weather_state : ℕ
weather_state = 13

abbrev pub lightning_strike : ℕ
lightning_strike = 14

abbrev pub red_sky : ℕ
red_sky = 15

abbrev pub player_joined : ℕ
player_joined = 19

abbrev pub player_damage : ℕ
player_damage = 20

-- MsgType
abbrev pub pose_snapshot_type : ℕ
pose_snapshot_type = 2

abbrev pub reliable_type : ℕ
reliable_type = 4

abbrev pub prop_pose_type : ℕ
prop_pose_type = 8
