-- ===== src/Items.antt =====
-- coop/item_activate.cpp: the flashlight of a player, sent to the others and applied to its puppet.
-- What the engine answers is a parameter: the readings of the local player, the live actor of each
-- slot's puppet and whether an actor has its light. The calls on a light are a list, in order.
-- A valid flag and the payload beside it are one optional payload. The latched intensity, which only
-- the debug toggle reads, is left out.
pub mod Replay
pub mod Deferred
pub mod Resent
use votv_mp.Base.{
  ℕ, ◌-◌, ◌*◌, ◌%◌, ◌^◌, Bool, true, false, not, ◌&&◌, ◌||◌, Option, none, some, List, [], ◌∷◌,
  ◌++◌, leb, ltb, ◌==◌, if◌then◌else◌, update,
}
use Prim.Native.Nat.{bit_xor}
use votv_mp.ElementId.{invalid_id, max_peers}
use votv_mp.Protocol.{u32_bytes}
use votv_mp.Protocol.Kind
use votv_mp.Session.{
  Gns, Session, all_slots, client_slots, is_host, is_connected, send_reliable_to_slot,
  send_reliable_to_all,
}
use votv_mp.Feed.Payloads.{ItemActivatePayload}

pub record FlashlightState : Type 0 where
  pub flashlight : Bool
  pub has_flashlight : Bool
  pub crank_flashlight : Bool
  pub mode : ℕ

pub record FlashlightSnapshot : Type 0 where
  pub intensity : ℕ
  pub outer_cone_angle : ℕ
  pub inner_cone_angle : ℕ

pub record Engine : Type 0 where
  pub live_puppet : ℕ → Option ℕ
  pub has_light : ℕ → Bool

pub data LightCall : Type 0 where
  set_visibility : ℕ → Bool → LightCall
  set_intensity : ℕ → ℕ → LightCall
  set_outer_cone_angle : ℕ → ℕ → LightCall
  set_inner_cone_angle : ℕ → ℕ → LightCall
  click_if_changed : ℕ → ℕ → Bool → LightCall

-- `published` is the id of the own player's element.
pub record Items : Type 0 where
  pub session : Session
  pub published : ℕ
  pub flashlight_class_hash : ℕ
  pub last_sent_sig : ℕ
  pub pending_apply : ℕ → Option ItemActivatePayload
  pub peer_activate : ℕ → Option ItemActivatePayload
  pub calls : List LightCall

abbrev pub no_send_yet : ℕ
no_send_yet = 0xffff_ffff_ffff_ffff

unfoldable pub mix : ℕ → ℕ → ℕ
mix h v = bit_xor h v * 0x100_0000_01b3 % 2 ^ 64

unfoldable pub signature_payload : ItemActivatePayload → ℕ
unfolding mix
signature_payload p =
    mix (mix (mix (mix (mix 0xcbf2_9ce4_8422_2325 p.state) p.mode) p.intensity) p.outer_cone_angle)
      p.inner_cone_angle

-- The signature, kept apart from the sentinel.
unfoldable pub store_sig : ItemActivatePayload → ℕ
store_sig p = let sig = signature_payload p in if sig == no_send_yet then no_send_yet - 1 else sig

abbrev pub on_or_off : Bool → ℕ
on_or_off b = if b then 1 else 0

unfoldable pub build_payload_from_local :
    Items → FlashlightState → Option FlashlightSnapshot → Option ItemActivatePayload
build_payload_from_local w f none = none
build_payload_from_local w f (some snap) = some (record {
  item_class_hash = w.flashlight_class_hash;
  sender_element_id = if w.published == invalid_id then 0 else w.published;
  state = on_or_off f.flashlight;
  flags = 0;
  mode = f.mode;
  actor_key_hash = 0;
  intensity = snap.intensity;
  outer_cone_angle = snap.outer_cone_angle;
  inner_cone_angle = snap.inner_cone_angle;
})

-- The struct as it lies in memory.
unfoldable pub item_activate_bytes : ItemActivatePayload → List ℕ
item_activate_bytes p =
    u32_bytes p.item_class_hash
    ++ (u32_bytes p.sender_element_id
        ++ ((p.state ∷ p.flags ∷ p.mode ∷ 0 ∷ [])
            ++ (u32_bytes p.actor_key_hash
                ++ (u32_bytes p.intensity
                    ++ (u32_bytes p.outer_cone_angle ++ u32_bytes p.inner_cone_angle)))))

-- The end of the observer: a payload is sent to all unless its signature was sent last.
unfoldable pub send_observed : Gns → Items → ItemActivatePayload → Items
send_observed g w p =
    if w.last_sent_sig == store_sig p
    then w
    else let r = send_reliable_to_all g w.session Kind.item_activate (item_activate_bytes p) in
      record w { session = r.0; last_sent_sig = if r.1 then store_sig p else w.last_sent_sig }

abbrev pub send_built : Gns → Items → Option ItemActivatePayload → Items
send_built g w none = w
send_built g w (some p) = send_observed g w p

-- OnUpdateFlashlightPost behind its tests on the actor: it is not a puppet, and nothing is applied.
unfoldable pub on_update_flashlight_post :
    Gns → Items → Option FlashlightState → Option FlashlightSnapshot → Items
on_update_flashlight_post g w none snap = w
on_update_flashlight_post g w (some f) snap =
    if f.crank_flashlight
    then w
    else if not f.has_flashlight
    then w
    else if not (is_connected w.session.state)
    then w
    else send_built g w (build_payload_from_local w f snap)

-- angle > 0.f and angle >= 0.f
abbrev pub is_positive : ℕ → Bool
is_positive f = ltb 0 f && leb f 0x7f80_0000

abbrev pub is_not_negative : ℕ → Bool
is_not_negative f = leb f 0x7f80_0000 || (f == 2 ^ 31)

unfoldable pub light_calls : ℕ → ItemActivatePayload → ℕ → List LightCall
light_calls puppet p slot =
    let new_state = not (p.state == 0) in
    (set_visibility puppet new_state
      ∷ set_intensity puppet (if new_state then p.intensity else 0)
      ∷ [])
    ++ ((if new_state && is_positive p.outer_cone_angle
          then set_outer_cone_angle puppet p.outer_cone_angle ∷ []
          else [])
        ++ ((if new_state && is_not_negative p.inner_cone_angle
              then set_inner_cone_angle puppet p.inner_cone_angle ∷ []
              else [])
            ++ (click_if_changed puppet slot new_state ∷ [])))

-- ApplyToPuppet, for an actor that is live.
unfoldable pub apply_to_puppet : Engine → Items → ℕ → ItemActivatePayload → ℕ → Items
apply_to_puppet e w puppet p slot =
    if not (p.item_class_hash == w.flashlight_class_hash)
    then w
    else if not (e.has_light puppet)
    then w
    else record w { calls = w.calls ++ light_calls puppet p slot }

-- The host's memory of what each client did last.
unfoldable pub remember : Items → ℕ → ItemActivatePayload → Items
remember w slot p =
    if leb 1 slot && is_host w.session.role
    then record w { peer_activate = update w.peer_activate slot (some p) }
    else w

abbrev pub apply_or_stash : Engine → Items → ℕ → Option ℕ → ItemActivatePayload → Items
apply_or_stash e w slot none p = record w { pending_apply = update w.pending_apply slot (some p) }
apply_or_stash e w slot (some puppet) p =
    apply_to_puppet e (record w { pending_apply = update w.pending_apply slot none }) puppet p slot

unfoldable pub apply_to_puppet_or_defer :
    Engine → Items → ℕ → Option ℕ → ItemActivatePayload → Items
apply_to_puppet_or_defer e w slot live p =
    if leb max_peers slot then w else apply_or_stash e (remember w slot p) slot live p

-- One turn of TickConnect: a stashed payload is applied if the slot has its puppet now.
abbrev pub apply_stashed : Engine → Items → ℕ → Option ItemActivatePayload → Option ℕ → Items
apply_stashed e w slot none live = w
apply_stashed e w slot (some p) none = w
apply_stashed e w slot (some p) (some puppet) =
    apply_to_puppet e (record w { pending_apply = update w.pending_apply slot none }) puppet p slot

unfoldable pub drain_pending : Engine → List ℕ → Items → Items
drain_pending e [] w = w
drain_pending e (slot ∷ slots) w =
    drain_pending e slots (apply_stashed e w slot (w.pending_apply slot) (e.live_puppet slot))

unfoldable pub tick_connect : Engine → Items → Items
tick_connect e w = drain_pending e all_slots w

abbrev pub broadcast_built : Gns → Items → ℕ → Option ItemActivatePayload → Items
broadcast_built g w slot none = w
broadcast_built g w slot (some p) = if p.state == 0 then w else record w {
  session = (send_reliable_to_slot g w.session slot Kind.item_activate (item_activate_bytes p) 0).0;
  last_sent_sig = store_sig p;
}

-- The readings are those of the local player; `none` if it is not there yet.
unfoldable pub queue_connect_broadcast_for_slot :
    Gns → Items → ℕ → Option FlashlightState → Option FlashlightSnapshot → Items
queue_connect_broadcast_for_slot g w slot none snap = w
queue_connect_broadcast_for_slot g w slot (some f) snap =
    if leb max_peers slot then w else broadcast_built g w slot (build_payload_from_local w f snap)

abbrev pub replay_one : Gns → Session → ℕ → ℕ → Option ItemActivatePayload → Session
replay_one g s new peer none = s
replay_one g s new peer (some p) =
    if p.state == 0
    then s
    else (send_reliable_to_slot g s new Kind.item_activate (item_activate_bytes p) peer).0

unfoldable pub replay_loop : Gns → (ℕ → Option ItemActivatePayload) → ℕ → List ℕ → Session → Session
replay_loop g cache new [] s = s
replay_loop g cache new (peer ∷ peers) s =
    replay_loop g cache new peers (if peer == new then s else replay_one g s new peer (cache peer))

unfoldable pub replay_peer_states_to_slot : Gns → Items → ℕ → Items
replay_peer_states_to_slot g w new =
    if not (is_host w.session.role)
    then w
    else if ltb new 1 || leb max_peers new
    then w
    else record w { session = replay_loop g w.peer_activate new client_slots w.session }

unfoldable pub on_disconnect : Items → Items
on_disconnect w = record w { pending_apply = λ i. none; peer_activate = λ i. none }

unfoldable pub on_disconnect_for_slot : Items → ℕ → Items
on_disconnect_for_slot w slot = if leb max_peers slot then w else record w {
  peer_activate = update w.peer_activate slot none;
  pending_apply = update w.pending_apply slot none;
}
