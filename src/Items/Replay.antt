-- ===== src/Items/Replay.antt =====
-- What the host replays to a late joiner, and what the joiner's feed makes of it.
use votv_mp.Base.{
  ℕ, ◌/◌, ◌^◌, ◌≤◌, ◌<◌, ◌≡◌, ◌≢◌, refl, ap, subst, ◌∙◌, Bool, true, false, not, ◌&&◌, ◌||◌, Option,
  none, some, List, [], ◌∷◌, All, either_branch, leb, ltb, ◌==◌, if◌then◌else◌, length, arith, inl,
  inr, Bool-cases,
}
use votv_mp.ElementId.{max_peers, is_allowed_sender_eid}
use votv_mp.Registry.{get}
use votv_mp.Players.{Players}
use votv_mp.Protocol.{u32_at, is_finite, exceeds}
use votv_mp.Protocol.Kind
use votv_mp.Session.{Gns, Session, ReliableMessage, client_slots, is_host, send_reliable_to_slot}
use votv_mp.Feed.Payloads.{ItemActivatePayload, read_item_activate, item_activate_size}
use votv_mp.Feed.Gates.{
  Action, drop_if◌else◌, is_unset, verify_sender_eid_range, is_self_echo, resolve_slot, activated,
  activate_item, player_slot, element_at, gate_item_activate, max_velocity, max_cone_angle,
}
use votv_mp.Feed.Trusted.{Trusted, Passes, Plausible, Attributed, Within}
use votv_mp.Feed.AnyPeer.{gate_item_activate-Trusted}
use votv_mp.Items.{Items, item_activate_bytes, replay_one, replay_loop, replay_peer_states_to_slot}

-- The fields are as wide as the struct makes them.
pub record Fits (p : ItemActivatePayload) : Type 0 where
  pub item_class_hash : p.item_class_hash < 2 ^ 32
  pub sender_element_id : p.sender_element_id < 2 ^ 32
  pub actor_key_hash : p.actor_key_hash < 2 ^ 32
  pub intensity : p.intensity < 2 ^ 32
  pub outer_cone_angle : p.outer_cone_angle < 2 ^ 32
  pub inner_cone_angle : p.inner_cone_angle < 2 ^ 32

read_item_activate-item_activate_bytes :
    (p : ItemActivatePayload) → Fits p → read_item_activate (item_activate_bytes p) ≡ p
unfolding read_item_activate item_activate_bytes
read_item_activate-item_activate_bytes p fits =
    let b = item_activate_bytes p in
    let a0 : u32_at b 0 ≡ p.item_class_hash = omega (arith, fits.item_class_hash) in
    let a4 : u32_at b 4 ≡ p.sender_element_id = omega (arith, fits.sender_element_id) in
    let a12 : u32_at b 12 ≡ p.actor_key_hash = omega (arith, fits.actor_key_hash) in
    let a16 : u32_at b 16 ≡ p.intensity = omega (arith, fits.intensity) in
    let a20 : u32_at b 20 ≡ p.outer_cone_angle = omega (arith, fits.outer_cone_angle) in
    let a24 : u32_at b 24 ≡ p.inner_cone_angle = omega (arith, fits.inner_cone_angle) in
    rw (a0, a4, a12, a16, a20, a24) refl

drop_if-false : (bad : Bool) (o r : Option Action) → bad ≡ false → o ≡ r → (drop_if bad else o) ≡ r
unfolding drop_if◌else◌
drop_if-false true o r e same = absurd (ground (arith, e))
drop_if-false false o r e same = same

allowed_range :
    (sender eid : ℕ) → Attributed sender eid → not (verify_sender_eid_range sender eid) ≡ false
unfolding verify_sender_eid_range is_allowed_sender_eid
allowed_range sender eid (inl unset) = rw unset refl
allowed_range sender eid (inr m) = ground (arith, m)

-- What the joiner knows of an origin: its id, if it is set, is not the joiner's own, and the player
-- that the joiner has under it is in the origin's slot.
pub record Known (s : Players) (peer eid : ℕ) : Type 0 where
  pub other : is_unset eid ≡ false → eid ≢ s.published
  pub seated : is_unset eid ≡ false → player_slot (element_at s.proc (get s.proc eid)) ≡ peer

no_echo :
    (s : Players) (peer eid : ℕ)
    → peer < max_peers
    → Known s peer eid
    → peer ≢ s.local_peer_id
    → is_self_echo s peer eid ≡ false
unfolding is_self_echo
no_echo s peer eid lt known away = elim (Bool-cases (is_unset eid)) [
  | inl unset ↦ rw unset (ground (arith, away, lt))
  | inr set ↦ let ne = known.other set in rw set (ground (arith, ne))
]

origin_resolves :
    (s : Players) (peer eid : ℕ)
    → peer < max_peers
    → Known s peer eid
    → resolve_slot s peer eid ≡ some peer
unfolding resolve_slot
origin_resolves s peer eid lt known =
    let below : leb max_peers peer ≡ false = ground (arith, lt) in
    let sender : ltb peer max_peers ≡ true = ground (arith, lt) in
    elim (Bool-cases (is_unset eid)) [
      | inl unset ↦ rw (unset, sender) refl
      | inr set ↦ rw (set, known.seated set, below) refl
    ]

long_enough :
    (p : ItemActivatePayload) → ltb (length (item_activate_bytes p)) item_activate_size ≡ false
unfolding item_activate_bytes
long_enough p = refl

abbrev switch : ℕ → Bool
switch n = not (n == 0) && not (n == 1)

a_switch : (n : ℕ) → n ≤ 1 → switch n ≡ false
a_switch n le = ground (arith, le)

one_flag : (n : ℕ) → n ≤ 1 → not (n / 2 == 0) ≡ false
one_flag n le = ground (arith, le)

abbrev unbounded : ℕ → ℕ → ℕ → Bool
unbounded i o n = exceeds i max_velocity || exceeds o max_cone_angle || exceeds n max_cone_angle

bounded :
    (i o n : ℕ)
    → Within max_velocity i
    → Within max_cone_angle o
    → Within max_cone_angle n
    → (not (is_finite i && is_finite o && is_finite n) ≡ false) × (unbounded i o n ≡ false)
bounded i o n a b c = ground (arith, a, b, c)

abbrev pub replayed : ℕ → ItemActivatePayload → ReliableMessage
replayed peer p = record {
  kind = Kind.item_activate;
  sender_peer_slot = peer;
  payload = item_activate_bytes p;
}

gate_item_activate-replayed :
    (s t : Players) (peer : ℕ) (p : ItemActivatePayload)
    → Fits p
    → Plausible t peer p
    → Known s peer p.sender_element_id
    → peer < max_peers
    → peer ≢ s.local_peer_id
    → gate_item_activate s (replayed peer p) ≡ some (activate_item peer p)
unfolding gate_item_activate
gate_item_activate-replayed s t peer p fits (range, (_, (state, (flags, (i, (o, n)))))) known lt
      away =
    let eid = p.sender_element_id in
    let within = bounded p.intensity p.outer_cone_angle p.inner_cone_angle i o n in
    rw (read_item_activate-item_activate_bytes p fits) (
      drop_if-false _ _ _ (long_enough p) (
        drop_if-false _ _ _ (a_switch p.state state) (
          drop_if-false _ _ _ (one_flag p.flags flags) (
            drop_if-false _ _ _ within.0 (
              drop_if-false _ _ _ within.1 (
                drop_if-false _ _ _ (no_echo s peer eid lt known away) (
                  drop_if-false _ _ _ (allowed_range peer eid range)
                    (ap (activated p) (origin_resolves s peer eid lt known)))))))))

-- The host's gate let the payload through for its origin.
abbrev pub Admitted : Players → ℕ → ItemActivatePayload → Type 0
Admitted t peer p = gate_item_activate t (replayed peer p) ≡ some (activate_item peer p)

Admitted-Plausible :
    (t : Players) (peer : ℕ) (p : ItemActivatePayload) → Admitted t peer p → Plausible t peer p
Admitted-Plausible t peer p e =
    (subst (Passes (Trusted true t (replayed peer p))) e
      (gate_item_activate-Trusted true t (replayed peer p))).1

-- The replays as a list, fixed before the first send: an origin's slot and its payload.
abbrev pub listed :
    ℕ → Option ItemActivatePayload → List (ℕ × ItemActivatePayload) → List (ℕ × ItemActivatePayload)
listed peer none rest = rest
listed peer (some p) rest = if p.state == 0 then rest else (peer, p) ∷ rest

abbrev pub replays : (ℕ → Option ItemActivatePayload) → ℕ → List ℕ → List (ℕ × ItemActivatePayload)
replays cache new [] = []
replays cache new (peer ∷ peers) =
    let rest = replays cache new peers in
    if peer == new then rest else listed peer (cache peer) rest

abbrev pub post_replays : Gns → ℕ → List (ℕ × ItemActivatePayload) → Session → Session
post_replays g new [] s = s
post_replays g new ((peer, p) ∷ rest) s =
    post_replays g new rest
      (send_reliable_to_slot g s new Kind.item_activate (item_activate_bytes p) peer).0

replay_one-post :
    (g : Gns) (new peer : ℕ) (o : Option ItemActivatePayload)
    (rest : List (ℕ × ItemActivatePayload)) (s : Session)
    → post_replays g new rest (replay_one g s new peer o)
      ≡ post_replays g new (listed peer o rest) s
replay_one-post g new peer none rest s = refl
replay_one-post g new peer (some p) rest s = elim (Bool-cases (p.state == 0)) [
  | inl dark ↦ rw dark refl
  | inr lit ↦ rw lit refl
]

replay_loop-post :
    (g : Gns) (cache : ℕ → Option ItemActivatePayload) (new : ℕ) (peers : List ℕ) (s : Session)
    → replay_loop g cache new peers s ≡ post_replays g new (replays cache new peers) s
unfolding replay_loop
replay_loop-post g cache new [] s = refl
replay_loop-post g cache new (peer ∷ peers) s = elim (Bool-cases (peer == new)) [
  | inl own ↦ rw own (replay_loop-post g cache new peers s)
  | inr other ↦ rw other (
      replay_loop-post g cache new peers (replay_one g s new peer (cache peer))
      ∙ replay_one-post g new peer (cache peer) (replays cache new peers) s)
]

-- The gate of the joiner passes a replay on, for its origin's slot and unchanged.
abbrev pub Accepted : Players → ℕ × ItemActivatePayload → Type 0
Accepted s (peer, p) = gate_item_activate s (replayed peer p) ≡ some (activate_item peer p)

listed-Accepted :
    (s : Players) (peer : ℕ) (o : Option ItemActivatePayload)
    (rest : List (ℕ × ItemActivatePayload))
    → ((p : ItemActivatePayload) → o ≡ some p → Accepted s (peer, p))
    → All (Accepted s) rest
    → All (Accepted s) (listed peer o rest)
listed-Accepted s peer none rest h r = r
listed-Accepted s peer (some p) rest h r =
    either_branch (p.state == 0) (All (Accepted s)) rest ((peer, p) ∷ rest) r (h p refl, r)

replays-Accepted :
    (s : Players) (cache : ℕ → Option ItemActivatePayload) (new : ℕ) (peers : List ℕ)
    → ((peer : ℕ) (p : ItemActivatePayload)
        → peer < max_peers
        → peer ≢ new
        → cache peer ≡ some p
        → Accepted s (peer, p))
    → All (λ peer. peer < max_peers) peers
    → All (Accepted s) (replays cache new peers)
replays-Accepted s cache new [] h lt = tt
replays-Accepted s cache new (peer ∷ peers) h lt =
    let rest = replays-Accepted s cache new peers h lt.1 in
    elim (Bool-cases (peer == new)) [
      | inl own ↦ rw own rest
      | inr other ↦ rw other (
          listed-Accepted s peer (cache peer) (replays cache new peers)
            (λ p e. h peer p lt.0 (ground (arith, other)) e) rest)
    ]

-- When a client joins in a client slot, the host sends it exactly one message for each other client
-- whose last activation is cached and on, in slot order and under the origin's slot, and the
-- joiner's feed asks for exactly this activation in the origin's slot. Each cached payload passed
-- the host's gate; the joiner knows its own slot, and knows each origin that gives an id under this
-- id, which is not its own.
pub replay_peer_states_to_slot-Accepted :
    (g : Gns) (w : Items) (t s : Players) (new : ℕ)
    → is_host w.session.role ≡ true
    → (ltb new 1 || leb max_peers new) ≡ false
    → s.local_peer_id ≡ new
    → ((peer : ℕ) (p : ItemActivatePayload)
        → w.peer_activate peer ≡ some p
        → Fits p × Admitted t peer p × Known s peer p.sender_element_id)
    → ((replay_peer_states_to_slot g w new).session
        ≡ post_replays g new (replays w.peer_activate new client_slots) w.session)
      × All (Accepted s) (replays w.peer_activate new client_slots)
unfolding replay_peer_states_to_slot
replay_peer_states_to_slot-Accepted g w t s new host range own cached = (
  rw (host, range) (replay_loop-post g w.peer_activate new client_slots w.session),
  replays-Accepted s w.peer_activate new client_slots
      (λ peer p lt ne e.
        let (fits, admitted, known) = cached peer p e in
        gate_item_activate-replayed s t peer p fits (Admitted-Plausible t peer p admitted) known lt
          (λ same. ne (same ∙ own)))
      (omega arith, (omega arith, (omega arith, tt))),
)
