-- ===== src/Damage/Owned.antt =====
-- Damage reaches the player whose element the host named, and no other.
use votv_mp.Base.{ℕ, ◌^◌, ◌<◌, ◌≡◌, ◌≢◌, ◌⊎◌, refl, Bool, true, none, some, arith}
use votv_mp.ElementId.{invalid_id}
use votv_mp.Players.{Players}
use votv_mp.Protocol.{u32_at}
use votv_mp.Feed.Payloads.{read_player_damage}
use votv_mp.Damage.{valid_damage, on_wire_damage, damage_payload}

read_player_damage-damage_payload :
    (eid damage : ℕ)
    → eid < 2 ^ 32
    → damage < 2 ^ 32
    → read_player_damage (damage_payload eid damage)
      ≡ (record { target_element_id = eid; damage = damage })
unfolding read_player_damage damage_payload
read_player_damage-damage_payload eid damage small hit =
    let target : u32_at (damage_payload eid damage) 0 ≡ eid = omega (arith, small) in
    let amount : u32_at (damage_payload eid damage) 4 ≡ damage = omega (arith, hit) in
    rw (target, amount) refl

-- The damage of a payload that the host built for a valid amount: a peer whose own player has that
-- id, or no id yet, applies exactly this amount to its player while the player's actor is alive, and
-- a peer whose player has another id applies nothing.
pub on_wire_damage-addressed :
    (s : Players) (eid damage : ℕ)
    → eid < 2 ^ 32
    → valid_damage damage ≡ true
    → ((s.published ≡ eid) ⊎ (s.published ≡ invalid_id)
        → on_wire_damage s true (read_player_damage (damage_payload eid damage)) ≡ some damage)
      × ((alive : Bool)
          → s.published ≢ eid
          → s.published ≢ invalid_id
          → on_wire_damage s alive (read_player_damage (damage_payload eid damage)) ≡ none)
unfolding on_wire_damage
on_wire_damage-addressed s eid damage small valid =
    let read = read_player_damage-damage_payload eid damage small (valid_small damage valid) in
    rw read
      (λ own. rw valid (ground (arith, own)), λ alive ne set. rw valid (ground (arith, ne, set)))
  where
    valid_small : (d : ℕ) → valid_damage d ≡ true → d < 2 ^ 32
    valid_small d v = ground (arith, v)
