-- ===== src/Items/Resent.antt =====
-- The signature of the last message survives the session that it was sent in.
use votv_mp.Base.{
  ℕ, ◌≡◌, refl, ap, ◌∙◌, false, not, Option, none, some, leb, inl, inr, Bool-cases, ==_refl,
  either_branch,
}
use votv_mp.ElementId.{max_peers}
use votv_mp.Feed.Payloads.{ItemActivatePayload}
use votv_mp.Session.{Gns, Session, is_connected}
use votv_mp.Items.{
  FlashlightState, FlashlightSnapshot, Items, store_sig, build_payload_from_local, send_observed,
  send_built, on_update_flashlight_post, queue_connect_broadcast_for_slot, on_disconnect,
}

-- The player switches the light off while the session is down, a new session comes up, and a peer
-- connects.
abbrev pub reconnected :
    Gns → Items → Session → Session → ℕ → FlashlightState → Option FlashlightSnapshot → Items
reconnected g w down up slot off snap =
    let away =
      on_disconnect (on_update_flashlight_post g (record w { session = down }) (some off) snap) in
    queue_connect_broadcast_for_slot g (record away { session = up }) slot (some off) snap

unsent_while_down :
    (g : Gns) (w : Items) (off : FlashlightState) (snap : Option FlashlightSnapshot)
    → is_connected w.session.state ≡ false
    → on_update_flashlight_post g w (some off) snap ≡ w
unfolding on_update_flashlight_post
unsent_while_down g w off snap down = elim (Bool-cases off.crank_flashlight) [
  | inl crank ↦ rw crank refl
  | inr plain ↦ elim (Bool-cases (not off.has_flashlight)) [
    | inl without ↦ rw (plain, without) refl
    | inr equipped ↦ rw (plain, equipped, down) refl
  ]
]

no_broadcast_when_off :
    (g : Gns) (w : Items) (slot : ℕ) (off : FlashlightState) (snap : Option FlashlightSnapshot)
    → off.flashlight ≡ false
    → queue_connect_broadcast_for_slot g w slot (some off) snap ≡ w
unfolding queue_connect_broadcast_for_slot build_payload_from_local
no_broadcast_when_off g w slot off none dark = elim (Bool-cases (leb max_peers slot)) [
  | inl out ↦ rw out refl
  | inr inside ↦ rw inside refl
]
no_broadcast_when_off g w slot off (some snap) dark = elim (Bool-cases (leb max_peers slot)) [
  | inl out ↦ rw out refl
  | inr inside ↦ rw (inside, dark) refl
]

-- The signature does not look at the fields that differ between two sessions.
built_again :
    (w v : Items) (f : FlashlightState) (snap : FlashlightSnapshot) (p : ItemActivatePayload)
    → build_payload_from_local w f (some snap) ≡ some p
    → v.published ≡ w.published
    → v.flashlight_class_hash ≡ w.flashlight_class_hash
    → build_payload_from_local v f (some snap) ≡ some p
unfolding build_payload_from_local
built_again w v f snap p e own hash = rw (own, hash) e

same_signature :
    (g : Gns) (w : Items) (p : ItemActivatePayload)
    → w.last_sent_sig ≡ store_sig p
    → send_observed g w p ≡ w
unfolding send_observed
same_signature g w p last = rw (last, ==_refl) refl

sent_before :
    (g : Gns) (w : Items) (on : FlashlightState) (snap : FlashlightSnapshot)
    (p : ItemActivatePayload)
    → build_payload_from_local w on (some snap) ≡ some p
    → w.last_sent_sig ≡ store_sig p
    → on_update_flashlight_post g w (some on) (some snap) ≡ w
unfolding on_update_flashlight_post
sent_before g w on snap p e last =
    let P : Items → Type 0 = λ v. v ≡ w in
    either_branch on.crank_flashlight P _ _ refl (
      either_branch (not on.has_flashlight) P _ _ refl (
        either_branch (not (is_connected w.session.state)) P _ _ refl
          (ap (λ o. send_built g w o) e ∙ same_signature g w p last)))

-- The light was last sent as on, with some mode, intensity and angles. The session goes down, the
-- player switches the light off, a new session comes up and a peer connects to it. When the player
-- then switches the light on again with the same mode, intensity and angles, nothing is sent: in the
-- new session no message tells the peer that the light is on.
pub on_update_flashlight_post-reconnected :
    (g : Gns) (w : Items) (down up : Session) (slot : ℕ) (on off : FlashlightState)
    (snap : FlashlightSnapshot) (snap_off : Option FlashlightSnapshot) (p : ItemActivatePayload)
    → build_payload_from_local w on (some snap) ≡ some p
    → w.last_sent_sig ≡ store_sig p
    → is_connected down.state ≡ false
    → off.flashlight ≡ false
    → (on_update_flashlight_post g
        (reconnected g w down up slot off snap_off)
        (some on)
        (some snap)).session
      ≡ up
unfolding on_disconnect
on_update_flashlight_post-reconnected g w down up slot on off snap snap_off p e last dark_session
      dark =
    let away = record (on_disconnect (record w { session = down })) { session = up } in
    let same : reconnected g w down up slot off snap_off ≡ away =
      ap
        (λ v.
          queue_connect_broadcast_for_slot g (record (on_disconnect v) { session = up }) slot
            (some off) snap_off)
        (unsent_while_down g (record w { session = down }) off snap_off dark_session)
      ∙ no_broadcast_when_off g away slot off snap_off dark in
    ap (λ v. (on_update_flashlight_post g v (some on) (some snap)).session) same
    ∙ ap (λ v. v.session)
        (sent_before g away on snap p (built_again w away on snap p e refl refl) last)
