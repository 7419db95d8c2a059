-- ===== src/Players/Mirrored.antt =====
-- EstablishMirrorForSlot, and the histories of the player elements.
use votv_mp.Base.{
  ℕ, ◌<◌, ◌≡◌, ◌≢◌, refl, sym, subst, ◌∙◌, true, ◌||◌, Option, none, some, leb, ◌==◌, update, arith,
  inl, inr, Bool-cases, Option-cases,
}
use votv_mp.ElementId.{invalid_id, max_elements, max_peers, peer_id_unknown}
use votv_mp.Registry.{
  Process, Element, set_id, as_player, player, new_element, construct, register_mirror, destroy,
  set_mirror,
}
use votv_mp.Players.{
  is_mirror_of, seated_element, puppet_in, Players, release_player, drop_player_element,
  set_local_peer_id, register_puppet, unregister_puppet, replace_by_mirror,
  establish_mirror_for_slot,
}
use votv_mp.Players.Objects.{ElseSame, heap-destroy, modify_other, modify_here}
use votv_mp.Players.Published.{Published, keep-Published, seat-Published}
use votv_mp.Players.Lifetime.{
  drop_player_element-Published, still_empty, silent_local, set_local_peer_id-Published,
  register_puppet-Published, unregister_puppet-Published,
}

mirrored :
    (s : Process) (eid p : ℕ) (e : Element)
    → s.heap p ≡ some e
    → ElseSame s p (register_mirror s eid (some p)).0
      × ((register_mirror s eid (some p)).1 ≡ true
          → (register_mirror s eid (some p)).0.heap p ≡ some (set_mirror true (set_id eid e)))
unfolding register_mirror
mirrored s eid p e at = elim (Bool-cases (eid == invalid_id || leb max_elements eid)) [
  | inl out ↦ rw (out, register_mirror) (λ q ne. refl, λ y. ground arith)
  | inr inside ↦ elim (Option-cases (s.by_id eid)) [
    | inr (q, taken) ↦ rw (inside, taken, register_mirror) (λ q ne. refl, λ y. ground arith)
    | inl empty ↦
        rw (inside, empty, register_mirror)
          (
            λ q ne. modify_other s.heap p q (λ f. set_mirror true (set_id eid f)) ne,
            λ y. modify_here s.heap p (λ f. set_mirror true (set_id eid f)) e at,
          )
  ]
]

vacated :
    (s : Players) (slot : ℕ) (t : Process)
    → (slot ≡ s.local_peer_id → s.published ≡ invalid_id)
    → Published (record s { proc = t })
    → Published (record s { proc = t; player_by_slot = update s.player_by_slot slot none })
vacated s slot t silent v = record {
  seated = λ i q h. v.seated i q (ground arith);
  alive = λ n.
      let (q, e, lt, sits, at, id) = v.alive n in (q, e, lt, ground (arith, sits, silent), at, id);
}

replace_by_mirror-Published :
    (s : Players) (slot eid : ℕ) (puppet : Option ℕ) (p : ℕ)
    → slot < max_peers
    → eid ≢ invalid_id
    → (slot ≡ s.local_peer_id → s.published ≡ invalid_id)
    → s.proc.heap p ≡ none
    → Published s
    → Published (replace_by_mirror s slot eid puppet p).0
unfolding replace_by_mirror construct
replace_by_mirror-Published s slot eid puppet p lt ne silent empty v =
    let e = new_element player (as_player slot puppet) in
    let made = construct s.proc p e in
    let facts = mirrored made eid p e (ground arith) in
    let r = register_mirror made eid (some p) in
    let before : ElseSame s.proc p r.0 = λ q d. facts.0 q d ∙ ground arith in
    elim (Bool-cases r.1) [
      | inl ok ↦ rw ok (
          seat-Published s slot p eid r.0 (set_mirror true (set_id eid e)) lt empty before
            (facts.1 ok) refl ne refl v)
      | inr refused ↦ rw refused (
          vacated s slot (destroy r.0 p) silent (
            keep-Published s p (destroy r.0 p) empty (λ q d. heap-destroy r.0 p q d ∙ before q d)
              v))
    ]

pub local_peer_id-drop :
    (s : Players) (slot : ℕ) → (drop_player_element s slot).local_peer_id ≡ s.local_peer_id
unfolding drop_player_element release_player
local_peer_id-drop s slot = elim (Option-cases (s.player_by_slot slot)) [
  | inl vacant ↦ rw (vacant, drop_player_element) (ground arith)
  | inr (q, at) ↦ rw (at, drop_player_element) (ground arith)
]

pub establish_mirror_for_slot-Published :
    (s : Players) (slot eid p : ℕ)
    → s.proc.heap p ≡ none
    → Published s
    → Published (establish_mirror_for_slot s slot eid p).0
unfolding establish_mirror_for_slot
establish_mirror_for_slot-Published s slot eid p empty v = elim (Bool-cases (leb max_peers slot)) [
  | inl out ↦ rw out v
  | inr inside ↦ rw inside (elim (Bool-cases (eid == invalid_id || eid == 0)) [
    | inl sentinel ↦ rw sentinel v
    | inr real ↦ rw real (elim (Bool-cases (is_mirror_of eid (seated_element s slot))) [
      | inl again ↦ rw again v
      | inr new ↦ rw new (
          replace_by_mirror-Published (drop_player_element s slot) slot eid
            (puppet_in (seated_element s slot)) p (ground arith) (ground arith)
            (λ own. silent own (ground arith)) (still_empty s slot p empty)
            (drop_player_element-Published s slot v))
    ])
  ])
]
  where
    silent :
        slot ≡ (drop_player_element s slot).local_peer_id
        → slot < max_peers
        → (drop_player_element s slot).published ≡ invalid_id
    silent own lt =
        let here : slot ≡ s.local_peer_id = own ∙ local_peer_id-drop s slot in
        subst (λ i. (drop_player_element s i).published ≡ invalid_id) (sym here)
          (silent_local s (omega (arith, here)) v)

-- The player registry at start, over any process: no slot is held, nothing is published.
abbrev pub vacant_players : Process → Players
vacant_players proc = record {
  proc = proc;
  local_peer_id = peer_id_unknown;
  puppet_by_peer = λ i. none;
  player_by_slot = λ i. none;
  published = invalid_id;
}

-- The operations, in any order. A new element lies at an address that was free.
pub data Reach (proc : Process) : Players → Type 0 where
  starts : Reach proc (vacant_players proc)
  sets_local :
      {s : Players} (id p : ℕ)
      → Reach proc s
      → s.proc.heap p ≡ none
      → Reach proc (set_local_peer_id s id p)
  registers :
      {s : Players} (slot : ℕ) (puppet : Option ℕ) (p : ℕ)
      → Reach proc s
      → s.proc.heap p ≡ none
      → Reach proc (register_puppet s slot puppet p)
  unregisters : {s : Players} (slot : ℕ) → Reach proc s → Reach proc (unregister_puppet s slot)
  establishes :
      {s : Players} (slot eid p : ℕ)
      → Reach proc s
      → s.proc.heap p ≡ none
      → Reach proc (establish_mirror_for_slot s slot eid p).0

-- In every sequence of SetLocalPeerId, RegisterPuppet, UnregisterPuppet and EstablishMirrorForSlot:
-- the element of each slot is alive, has an id and knows its slot, and an id that is published to the
-- net thread is that of the live element in the local peer's slot, never of one that is gone.
pub Reach-Published : {proc : Process} {s : Players} → Reach proc s → Published s
Reach-Published starts = record { seated = λ i q h. ground arith; alive = λ n. absurd (n refl) }
Reach-Published (sets_local id p r e) = set_local_peer_id-Published _ id p e (Reach-Published r)
Reach-Published (registers slot puppet p r e) =
    register_puppet-Published _ slot puppet p e (Reach-Published r)
Reach-Published (unregisters slot r) = unregister_puppet-Published _ slot (Reach-Published r)
Reach-Published (establishes slot eid p r e) =
    establish_mirror_for_slot-Published _ slot eid p e (Reach-Published r)
