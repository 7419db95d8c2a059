-- ===== src/Lanes.antt =====
-- coop/net/session_lanes.h: the priority lane of a reliable kind, and the kinds that the host
-- forwards from one client to the others.
use votv_mp.Base.{ℕ, Bool, ◌||◌, ◌==◌, if◌then◌else◌}
use votv_mp.Protocol.Kind

pub data Lane : Type 0 where
  high normal bulk : Lane

unfoldable pub lane_for_kind : ℕ → Lane
lane_for_kind k =
    if k == Kind.teleport_client
      || k == Kind.restore_vitals
      || k == Kind.item_activate
      || k == Kind.player_damage
    then high
    else if k == Kind.prop_spawn
        || k == Kind.prop_destroy
        || k == Kind.entity_spawn
        || k == Kind.entity_destroy
    then bulk
    else normal

unfoldable pub is_client_relayable_reliable_kind : ℕ → Bool
is_client_relayable_reliable_kind k =
    k == Kind.item_activate
    || k == Kind.prop_spawn
    || k == Kind.prop_destroy
    || k == Kind.prop_release
