-- ===== src/Feed/Trusted.antt =====
-- What an action that the feed lets through may be, by its kind: who may ask for it, which ids it may
-- name, and how large its numbers are.
use votv_mp.Base.{
  ℕ, ◌≤◌, ◌<◌, ◌≡◌, ◌≢◌, ◌⊎◌, refl, sym, ◌∙◌, Bool, true, false, not, ◌&&◌, ◌||◌, Option, none,
  some, leb, ltb, ◌==◌, if◌then◌else◌, arith, inl, inr, Bool-cases,
}
use votv_mp.ElementId.{max_peers, max_elements, host_range_size, is_allowed_sender_eid}
use votv_mp.Players.{Players}
use votv_mp.Protocol.{magnitude, max_coord}
use votv_mp.Session.{ReliableMessage}
use votv_mp.Feed.Payloads.{Vector, finite_vector, vector_exceeds, ItemActivatePayload}
use votv_mp.Feed.Gates.{
  drop_if◌else◌, Action, release_prop, spawn_prop, destroy_prop, spawn_entity, destroy_entity,
  restore_vitals, damage_player, teleport_client, activate_item, set_red_sky, strike_lightning,
  apply_weather, max_velocity, max_weather, max_cone_angle, is_unset, verify_sender_eid_range,
}

-- The exponent of infinities and NaNs begins here.
abbrev pub Finite : ℕ → Type 0
Finite f = magnitude f < 0x7f80_0000

abbrev pub Within : ℕ → ℕ → Type 0
Within bound f = magnitude f ≤ bound

abbrev pub FiniteVector : Vector → Type 0
FiniteVector v = Finite v.x × (Finite v.y × Finite v.z)

abbrev pub WithinVector : ℕ → Vector → Type 0
WithinVector bound v = Within bound v.x × (Within bound v.y × Within bound v.z)

-- An id that the host allocates, from the host; one that a client allocates, from a client.
abbrev pub Minted : ℕ → ℕ → Type 0
Minted sender eid =
    ((sender ≡ 0) × ((1 ≤ eid) × (eid < host_range_size)))
    ⊎ ((sender ≢ 0) × ((host_range_size ≤ eid) × (eid < max_elements)))

-- The field may also be left out.
abbrev pub Attributed : ℕ → ℕ → Type 0
Attributed sender eid = (is_unset eid ≡ true) ⊎ Minted sender eid

abbrev pub FromHostToClient : Bool → ℕ → Type 0
FromHostToClient on_host sender = (on_host ≡ false) × (sender ≡ 0)

-- An item's sender is not this peer, its state and its flag are bits, its light is bounded.
abbrev pub Plausible : Players → ℕ → ItemActivatePayload → Type 0
Plausible s sender p =
    Attributed sender p.sender_element_id
    × ((is_unset p.sender_element_id ≡ false → p.sender_element_id ≢ s.published)
        × ((p.state ≤ 1)
            × ((p.flags ≤ 1)
                × (Within max_velocity p.intensity
                    × (Within max_cone_angle p.outer_cone_angle
                        × Within max_cone_angle p.inner_cone_angle)))))

abbrev pub Trusted : Bool → Players → ReliableMessage → Action → Type 0
Trusted on_host s m (release_prop slot p) =
    (slot ≡ m.sender_peer_slot)
    × ((slot < max_peers)
        × (WithinVector max_velocity p.lin_vel × WithinVector max_velocity p.ang_vel))
Trusted on_host s m (spawn_prop slot p) =
    (slot ≡ m.sender_peer_slot)
    × (Minted slot p.element_id
        × ((WithinVector max_coord p.loc × (FiniteVector p.rot × FiniteVector p.scale))
            × ((WithinVector max_velocity p.init_lin_vel × WithinVector max_velocity p.init_ang_vel)
                × ((p.class_name.len ≤ 63) × (p.key.len ≤ 31)))))
Trusted on_host s m (destroy_prop p) = Minted m.sender_peer_slot p.element_id × (p.key.len ≤ 31)
Trusted on_host s m (spawn_entity p) = (m.sender_peer_slot ≡ 0) × (p.class_name.len ≤ 63)
Trusted on_host s m (destroy_entity eid) = m.sender_peer_slot ≡ 0
Trusted on_host s m restore_vitals = m.sender_peer_slot ≡ 0
Trusted on_host s m (damage_player p) = m.sender_peer_slot ≡ 0
Trusted on_host s m (teleport_client p) =
    FromHostToClient on_host m.sender_peer_slot
    × (WithinVector max_coord p.loc × FiniteVector p.rot)
Trusted on_host s m (activate_item slot p) = (slot < max_peers) × Plausible s m.sender_peer_slot p
Trusted on_host s m (set_red_sky p) =
    FromHostToClient on_host m.sender_peer_slot
    × (Attributed m.sender_peer_slot p.sender_element_id × (p.state ≤ 1))
Trusted on_host s m (strike_lightning p) =
    FromHostToClient on_host m.sender_peer_slot
    × (Attributed m.sender_peer_slot p.sender_element_id × WithinVector max_coord p.loc)
Trusted on_host s m (apply_weather p) =
    FromHostToClient on_host m.sender_peer_slot
    × (Attributed m.sender_peer_slot p.sender_element_id
        × ((Within max_weather p.rain_strength × Within max_weather p.rain_lightning_chance)
            × (Within max_weather p.rain_deactivate_chance × Within max_weather p.rain_wind_speed)))

abbrev pub Passes : (Action → Type 0) → Option Action → Type 0
Passes P none = Unit
Passes P (some a) = P a

-- One test of a gate.
pub guard :
    (P : Action → Type 0) (bad : Bool) (o : Option Action)
    → (bad ≡ false → Passes P o)
    → Passes P (drop_if bad else o)
unfolding drop_if◌else◌
guard P true o h = tt
guard P false o h = h refl

pub passed : (P : Action → Type 0) (a : Action) → P a → Passes P (some a)
passed P a h = h

pub if_false : (b x y : Bool) → b ≡ false → (if b then x else y) ≡ y
if_false b x y e = rw e refl

pub at_most : (bound n : ℕ) → ltb bound n ≡ false → n ≤ bound
at_most bound n e = ground (arith, e)

pub below : (bound n : ℕ) → leb bound n ≡ false → n < bound
below bound n e = ground (arith, e)

pub split_or : (a b : Bool) → (a || b) ≡ false → (a ≡ false) × (b ≡ false)
split_or a b e = ground (arith, e)

pub finite_vector-Finite : (v : Vector) → finite_vector v ≡ true → FiniteVector v
finite_vector-Finite v e = ground (arith, e)

pub within_vector : (v : Vector) (bound : ℕ) → vector_exceeds v bound ≡ false → WithinVector bound v
within_vector v bound e = ground (arith, e)

pub minted : (sender eid : ℕ) → is_allowed_sender_eid (sender == 0) eid ≡ true → Minted sender eid
unfolding is_allowed_sender_eid
minted sender eid e = ground (arith, e)

pub attributed :
    (sender eid : ℕ) → verify_sender_eid_range sender eid ≡ true → Attributed sender eid
unfolding verify_sender_eid_range
attributed sender eid e = elim (Bool-cases (is_unset eid)) [
  | inl unset ↦ inl unset
  | inr set ↦ inr (
      minted sender eid
        (sym (if_false (is_unset eid) true (is_allowed_sender_eid (sender == 0) eid) set) ∙ e))
]

pub split_and : (a b : Bool) → not (a && b) ≡ false → (a ≡ true) × (b ≡ true)
split_and a b e = ground (arith, e)

pub allowed : (b : Bool) → not b ≡ false → b ≡ true
allowed b e = ground (arith, e)

pub by_host : (m : ReliableMessage) → not (m.sender_peer_slot == 0) ≡ false → m.sender_peer_slot ≡ 0
by_host m e = ground (arith, e)

pub switch_state : (n : ℕ) → (not (n == 0) && not (n == 1)) ≡ false → n ≤ 1
switch_state n e = ground (arith, e)
