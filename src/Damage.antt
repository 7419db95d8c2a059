-- ===== src/Damage.antt =====
-- coop/player_damage.cpp: the host sends the damage that a puppet took to the peer that owns it, which
-- applies it to its own player. Whether the local player's actor is alive is a parameter, and so is
-- whether the session is set.
pub mod Owned
use votv_mp.Base.{
  ℕ, Bool, not, ◌&&◌, ◌||◌, Option, none, some, List, [], ◌++◌, leb, ltb, ◌==◌, if◌then◌else◌,
}
use votv_mp.ElementId.{invalid_id, max_peers}
use votv_mp.Players.{Players, seated_element}
use votv_mp.Protocol.{is_finite, magnitude, u32_bytes}
use votv_mp.Protocol.Kind
use votv_mp.Session.{Gns, Session, send_reliable_to_slot}
use votv_mp.Feed.Payloads.{PlayerDamagePayload}

-- 1000.f
abbrev pub max_damage_per_hit : ℕ
max_damage_per_hit = 0x447a_0000

-- Positive floats are ordered as their bits, and negative ones lie above them.
unfoldable pub valid_damage : ℕ → Bool
valid_damage d = is_finite d && ltb 0 d && leb d max_damage_per_hit

-- OnWireDamage with the function that it posts: the damage that is applied to the own player.
unfoldable pub on_wire_damage : Players → Bool → PlayerDamagePayload → Option ℕ
unfolding valid_damage
on_wire_damage s alive p =
    if not (valid_damage p.damage)
    then none
    else if not (s.published == invalid_id) && not (p.target_element_id == s.published)
    then none
    else if not alive
    then none
    else some p.damage

unfoldable pub damage_payload : ℕ → ℕ → List ℕ
damage_payload eid damage = u32_bytes eid ++ u32_bytes damage

unfoldable pub send_player_damage : Gns → Session → Players → ℕ → ℕ → Session
send_player_damage g t s owner damage =
    if leb owner 0 || leb max_peers owner
    then t
    else if not (valid_damage damage)
    then t
    else elim (seated_element s owner) [
      | none ↦ t
      | some e ↦
          (send_reliable_to_slot g t owner Kind.player_damage (damage_payload e.id damage) 0).0
    ]
