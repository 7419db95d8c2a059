-- ===== src/Players/Established.antt =====
-- What EstablishMirrorForSlot leaves: the mirror in the slot, or an empty slot and the id taken.
use votv_mp.Base.{
  ℕ, ◌<◌, ◌≡◌, ◌≢◌, ◌⊎◌, refl, ap, sym, ◌∙◌, true, false, ◌||◌, Option, none, some, leb, ◌==◌, ◌&&◌,
  ltb, not, either_branch, update_self, update_ne, arith, inl, inr, Bool-cases, Option-cases,
  if◌then◌else◌,
}
use votv_mp.ElementId.{invalid_id, max_elements, max_peers, peer_id_host}
use votv_mp.Registry.{
  Process, Element, as_player, player, new_element, construct, register_mirror, set_mirror, set_id,
}
use votv_mp.Players.{
  Players, is_mirror_of, seated_element, puppet_in, release_player, drop_player_element,
  replace_by_mirror, establish_mirror_for_slot, create_player, ensure_player_element, take_local_id,
  set_local_peer_id, same_player, is_seated,
}
use votv_mp.Players.Objects.{modify_here}
use votv_mp.Players.Mirrored.{local_peer_id-drop}

-- The slot holds a live mirror of the id.
abbrev pub Mirrors : Players → ℕ → ℕ → Type 0
Mirrors s slot eid =
    (q : ℕ) × (e : Element) × (s.player_by_slot slot ≡ some q)
    × (s.proc.heap q ≡ some e)
    × (e.id ≡ eid)
    × (e.mirror ≡ true)

-- The slot was emptied, and the id is that of another element.
abbrev pub Vacates : Players → Players → ℕ → ℕ → Type 0
Vacates s t slot eid =
    (t.player_by_slot slot ≡ none)
    × ((q : ℕ) × ((drop_player_element s slot).proc.by_id eid ≡ some q))

-- The mirror is there, or it was refused; the other slots hold what they held.
pub record Outcome (s t : Players) (slot eid : ℕ) : Type 0 where
  pub here : Mirrors t slot eid ⊎ Vacates s t slot eid
  pub others : (i : ℕ) → i ≢ slot → t.player_by_slot i ≡ s.player_by_slot i
  pub local_peer_id : t.local_peer_id ≡ s.local_peer_id

registered :
    (s : Process) (eid p : ℕ) (e : Element)
    → (eid == invalid_id || leb max_elements eid) ≡ false
    → s.heap p ≡ some e
    → let r = register_mirror s eid (some p) in
      ((r.1 ≡ true) × (r.0.heap p ≡ some (set_mirror true (set_id eid e))))
      ⊎ ((r.1 ≡ false) × ((q : ℕ) × (s.by_id eid ≡ some q)))
unfolding register_mirror
registered s eid p e inside at = elim (Option-cases (s.by_id eid)) [
  | inr (q, taken) ↦ rw (inside, taken, register_mirror) (inr (refl, (q, refl)))
  | inl empty ↦
      rw (inside, empty, register_mirror)
        (inl (refl, modify_here s.heap p (λ f. set_mirror true (set_id eid f)) e at))
]

drop_others :
    (s : Players) (slot i : ℕ)
    → i ≢ slot
    → (drop_player_element s slot).player_by_slot i ≡ s.player_by_slot i
unfolding drop_player_element release_player
drop_others s slot i ne = elim (Option-cases (s.player_by_slot slot)) [
  | inl vacant ↦ rw (vacant, drop_player_element) (ground arith)
  | inr (q, at) ↦ rw (at, drop_player_element) (ground arith)
]

replaced :
    (s u : Players) (slot eid : ℕ) (puppet : Option ℕ) (p : ℕ)
    → u ≡ drop_player_element s slot
    → (eid == invalid_id || leb max_elements eid) ≡ false
    → Outcome s (replace_by_mirror u slot eid puppet p).0 slot eid
unfolding replace_by_mirror construct
replaced s u slot eid puppet p dropped inside =
    let e = new_element player (as_player slot puppet) in
    let made = construct u.proc p e in
    let others : (i : ℕ) → i ≢ slot → u.player_by_slot i ≡ s.player_by_slot i =
      λ i ne. ap (λ x. x.player_by_slot i) dropped ∙ drop_others s slot i ne in
    let role = ap (λ (x : Players). x.local_peer_id) dropped ∙ local_peer_id-drop s slot in
    elim (registered made eid p e inside (update_self u.proc.heap p (some e))) [
      | inl (ok, at) ↦ rw ok (record {
        here = inl (
          p,
          set_mirror true (set_id eid e),
          update_self u.player_by_slot slot (some p),
          at,
          refl,
          refl,
        );
        others = λ i ne. update_ne u.player_by_slot slot (some p) i ne ∙ others i ne;
        local_peer_id = role;
      })
      | inr (refused, (q, taken)) ↦ rw refused (record {
        here = inr (
          update_self u.player_by_slot slot none,
          (q, sym (ap (λ (x : Players). x.proc.by_id eid) dropped) ∙ taken),
        );
        others = λ i ne. update_ne u.player_by_slot slot none i ne ∙ others i ne;
        local_peer_id = role;
      })
    ]

held_mirror :
    (s : Players) (slot eid : ℕ)
    → is_mirror_of eid (seated_element s slot) ≡ true
    → Mirrors s slot eid
held_mirror s slot eid same = elim (Option-cases (s.player_by_slot slot)) [
  | inl vacant ↦ absurd (ground (arith, vacant, same))
  | inr (q, at) ↦ elim (Option-cases (s.proc.heap q)) [
    | inl gone ↦ absurd (ground (arith, at, gone, same))
    | inr (e, alive) ↦
        let both : ((e.id == eid) && e.mirror) ≡ true = ground (arith, at, alive, same) in
        (q, e, at, alive, ground (arith, both), ground (arith, both))
  ]
]

-- EstablishMirrorForSlot with a slot and an id in range leaves a live mirror with exactly this id in
-- the slot, or, if the id is another element's, no element in the slot; the other slots hold what
-- they held, and the local peer id is as it was.
pub establish_mirror_for_slot-Outcome :
    (s : Players) (slot eid p : ℕ)
    → slot < max_peers
    → eid ≢ 0
    → eid < max_elements
    → Outcome s (establish_mirror_for_slot s slot eid p).0 slot eid
unfolding establish_mirror_for_slot
establish_mirror_for_slot-Outcome s slot eid p lt ne small =
    let inside : leb max_peers slot ≡ false = ground (arith, lt) in
    let real : (eid == invalid_id || eid == 0) ≡ false = ground (arith, ne, small) in
    let kept : (eid == invalid_id || leb max_elements eid) ≡ false = ground (arith, small) in
    elim (Bool-cases (is_mirror_of eid (seated_element s slot))) [
      | inl again ↦
          rw (inside, real, again)
            (record {
              here = inl (held_mirror s slot eid again);
              others = λ i ne. refl;
              local_peer_id = refl;
            })
      | inr new ↦
          rw (inside, real, new)
            (replaced s (drop_player_element s slot) slot eid (puppet_in (seated_element s slot)) p
              refl kept)
    ]

local_peer_id-create :
    (s : Players) (slot : ℕ) (puppet : Option ℕ) (p : ℕ)
    → (create_player s slot puppet p).local_peer_id ≡ s.local_peer_id
unfolding create_player
local_peer_id-create s slot puppet p =
    either_branch _ (λ (t : Players). t.local_peer_id ≡ s.local_peer_id) _ _ refl refl

local_peer_id-ensure :
    (s : Players) (slot : ℕ) (puppet : Option ℕ) (p : ℕ)
    → (ensure_player_element s slot puppet p).local_peer_id ≡ s.local_peer_id
unfolding ensure_player_element
local_peer_id-ensure s slot puppet p =
    let P : Players → Type 0 = λ t. t.local_peer_id ≡ s.local_peer_id in
    either_branch (leb max_peers slot) P _ _ refl (elim (Option-cases (s.player_by_slot slot)) [
      | inl vacant ↦ rw vacant (local_peer_id-create s slot puppet p)
      | inr (q, at) ↦ elim (Option-cases (s.proc.heap q)) [
        | inl gone ↦ rw (at, gone) refl
        | inr (e, alive) ↦
            rw (at, alive)
              (either_branch (same_player slot puppet e.derived) P _ _ refl (
                either_branch e.mirror P _ _ refl (
                  local_peer_id-create (drop_player_element s slot) slot puppet p
                  ∙ local_peer_id-drop s slot)))
      ]
    ])

local_peer_id-take : (s : Players) (id p : ℕ) → (take_local_id s id p).local_peer_id ≡ id
unfolding take_local_id
local_peer_id-take s id p =
    let P : Players → Type 0 = λ t. t.local_peer_id ≡ id in
    either_branch (not (id == peer_id_host) && ltb id max_peers)
      (λ (u : Players). P (if ltb id max_peers then ensure_player_element u id none p else u)) _ _
      (either_branch (ltb id max_peers) P _ _ (local_peer_id-ensure _ id none p) refl)
      (either_branch (ltb id max_peers) P _ _ (local_peer_id-ensure _ id none p) refl)

-- SetLocalPeerId makes the id the local one.
pub local_peer_id-set_local :
    (s : Players) (id p : ℕ) → (set_local_peer_id s id p).local_peer_id ≡ id
unfolding set_local_peer_id
local_peer_id-set_local s id p =
    let P : Players → Type 0 = λ t. t.local_peer_id ≡ id in
    elim (Bool-cases
      ((s.local_peer_id == id) && ltb id max_peers && is_seated (s.player_by_slot id))) [
        | inl same ↦ rw same (ground (arith, same))
        | inr new ↦ rw new (
            either_branch (not (s.local_peer_id == id) && ltb s.local_peer_id max_peers) P _ _
              (local_peer_id-take (drop_player_element s s.local_peer_id) id p)
              (local_peer_id-take s id p))
      ]
