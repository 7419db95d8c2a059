-- ===== src/Feed/AnyPeer.antt =====
-- The gates of the kinds that every peer may send.
use votv_mp.Base.{
  ℕ, ◌/◌, ◌≤◌, ◌<◌, ◌≡◌, ◌≢◌, refl, Bool, true, false, not, ◌&&◌, ◌||◌, Option, none, some, leb,
  ltb, ◌==◌, if◌then◌else◌, arith, inl, inr, Bool-cases,
}
use votv_mp.ElementId.{max_peers}
use votv_mp.Players.{Players}
use votv_mp.Protocol.{exceeds, max_coord}
use votv_mp.Session.{ReliableMessage}
use votv_mp.Feed.Payloads.{
  finite_vector, vector_exceeds, read_prop_release, read_prop_spawn, read_prop_destroy,
  read_item_activate, ItemActivatePayload,
}
use votv_mp.Feed.Gates.{
  drop_if◌else◌, release_prop, spawn_prop, destroy_prop, max_velocity, max_cone_angle, is_unset,
  gate_prop_release, gate_prop_spawn, gate_prop_destroy, is_self_echo, resolve_slot, activated,
  gate_item_activate,
}
use votv_mp.Feed.Trusted.{
  Plausible, Trusted, Passes, guard, passed, at_most, below, split_or, finite_vector-Finite,
  within_vector, minted, attributed, allowed, switch_state,
}

pub gate_prop_release-Trusted :
    (on_host : Bool) (s : Players) (m : ReliableMessage)
    → Passes (Trusted on_host s m) (gate_prop_release m)
unfolding gate_prop_release
gate_prop_release-Trusted on_host s m =
    let P = Trusted on_host s m in
    let p = read_prop_release m.payload in
    guard P _ _ (λ size. guard P _ _ (λ slot. guard P _ _ (λ finite. guard P _ _ (λ bound.
      let (lin, ang) =
        split_or (vector_exceeds p.lin_vel max_velocity) (vector_exceeds p.ang_vel max_velocity)
          bound in
      passed P (release_prop m.sender_peer_slot p) (
        refl,
        (
          below max_peers m.sender_peer_slot slot,
          (within_vector p.lin_vel max_velocity lin, within_vector p.ang_vel max_velocity ang),
        ),
      )))))

pub gate_prop_spawn-Trusted :
    (on_host : Bool) (s : Players) (m : ReliableMessage)
    → Passes (Trusted on_host s m) (gate_prop_spawn m)
unfolding gate_prop_spawn
gate_prop_spawn-Trusted on_host s m =
    let P = Trusted on_host s m in
    let p = read_prop_spawn m.payload in
    guard P _ _ (λ size. guard P _ _ (λ finite. guard P _ _ (λ loc. guard P _ _ (λ vel.
      guard P _ _ (λ class_len. guard P _ _ (λ key_len. guard P _ _ (λ minting.
        guard P _ _ (λ mature.
          let parts =
            split_five (finite_vector p.loc) (finite_vector p.rot) (finite_vector p.scale)
              (finite_vector p.init_lin_vel) (finite_vector p.init_ang_vel) finite in
          let (lin, ang) =
            split_or (vector_exceeds p.init_lin_vel max_velocity)
              (vector_exceeds p.init_ang_vel max_velocity) vel in
          passed P (spawn_prop m.sender_peer_slot p) (
            refl,
            (
              minted m.sender_peer_slot p.element_id (allowed _ minting),
              (
                (
                  within_vector p.loc max_coord loc,
                  (finite_vector-Finite p.rot parts.0, finite_vector-Finite p.scale parts.1),
                ),
                (
                  (
                    within_vector p.init_lin_vel max_velocity lin,
                    within_vector p.init_ang_vel max_velocity ang,
                  ),
                  (at_most 63 _ class_len, at_most 31 _ key_len),
                ),
              ),
            ),
          )))))))))
  where
    split_five : (a b c d e : Bool) → not (a && b && c && d && e) ≡ false → (b ≡ true) × (c ≡ true)
    split_five a b c d e h = ground (arith, h)

pub gate_prop_destroy-Trusted :
    (on_host : Bool) (s : Players) (m : ReliableMessage)
    → Passes (Trusted on_host s m) (gate_prop_destroy m)
unfolding gate_prop_destroy
gate_prop_destroy-Trusted on_host s m =
    let P = Trusted on_host s m in
    let p = read_prop_destroy m.payload in
    guard P _ _ (λ size. guard P _ _ (λ key_len. guard P _ _ (λ minting.
      passed P (destroy_prop p)
        (minted m.sender_peer_slot p.element_id (allowed _ minting), at_most 31 _ key_len))))

abbrev SlotIn : Option ℕ → Type 0
SlotIn none = Unit
SlotIn (some slot) = slot < max_peers

resolve_slot-SlotIn : (s : Players) (sender eid : ℕ) → SlotIn (resolve_slot s sender eid)
unfolding resolve_slot
resolve_slot-SlotIn s sender eid = chosen _
  where
    chosen :
        (named : ℕ)
        → SlotIn (
            if leb max_peers named
            then if ltb sender max_peers then some sender else none
            else some named)
    chosen named = elim (Bool-cases (leb max_peers named)) [
      | inr known ↦ rw known (below max_peers named known)
      | inl unknown ↦ elim (Bool-cases (ltb sender max_peers)) [
        | inl near ↦ rw (unknown, near) (ground (arith, near))
        | inr far ↦ rw (unknown, far) tt
      ]
    ]

not_own :
    (s : Players) (sender eid : ℕ)
    → is_self_echo s sender eid ≡ false
    → is_unset eid ≡ false
    → eid ≢ s.published
unfolding is_self_echo
not_own s sender eid e set same = ground (arith, e, set, same)

activated-Trusted :
    (on_host : Bool) (s : Players) (m : ReliableMessage) (p : ItemActivatePayload) (o : Option ℕ)
    → SlotIn o
    → Plausible s m.sender_peer_slot p
    → Passes (Trusted on_host s m) (activated p o)
activated-Trusted on_host s m p none i h = tt
activated-Trusted on_host s m p (some slot) i h = (i, h)

pub gate_item_activate-Trusted :
    (on_host : Bool) (s : Players) (m : ReliableMessage)
    → Passes (Trusted on_host s m) (gate_item_activate s m)
unfolding gate_item_activate
gate_item_activate-Trusted on_host s m =
    let P = Trusted on_host s m in
    let p = read_item_activate m.payload in
    guard P _ _ (λ size. guard P _ _ (λ state. guard P _ _ (λ flags. guard P _ _ (λ finite.
      guard P _ _ (λ bound. guard P _ _ (λ echo. guard P _ _ (λ range.
        let sizes =
          split_or_three (exceeds p.intensity max_velocity)
            (exceeds p.outer_cone_angle max_cone_angle) (exceeds p.inner_cone_angle max_cone_angle)
            bound in
        activated-Trusted on_host s m p (resolve_slot s m.sender_peer_slot p.sender_element_id)
          (resolve_slot-SlotIn s m.sender_peer_slot p.sender_element_id)
          (
            attributed m.sender_peer_slot p.sender_element_id (allowed _ range),
            (
              not_own s m.sender_peer_slot p.sender_element_id echo,
              (
                switch_state p.state state,
                (
                  one_flag p.flags flags,
                  (
                    at_most max_velocity _ sizes.0,
                    (at_most max_cone_angle _ sizes.1.0, at_most max_cone_angle _ sizes.1.1),
                  ),
                ),
              ),
            ),
          ))))))))
  where
    split_or_three :
        (a b c : Bool) → (a || b || c) ≡ false → (a ≡ false) × ((b ≡ false) × (c ≡ false))
    split_or_three a b c h = ground (arith, h)

    one_flag : (n : ℕ) → not (n / 2 == 0) ≡ false → n ≤ 1
    one_flag n e = ground (arith, e)
