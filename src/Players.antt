-- ===== src/Players.antt =====
-- coop/players_registry.cpp and coop/element/player.h: the player elements by peer slot, and the
-- published id of the local player's element. `make_unique` gives the address that the caller names.
pub mod Objects
pub mod Published
pub mod Lifetime
pub mod Mirrored
pub mod Established
use votv_mp.Base.{
  ℕ, Bool, true, false, not, ◌&&◌, ◌||◌, Option, none, some, leb, ltb, ◌==◌, if◌then◌else◌, update,
}
use votv_mp.ElementId.{invalid_id, max_peers, peer_id_host}
use votv_mp.Registry.{
  Process, Element, Derived, plain, as_player, player, new_element, modify, construct,
  alloc_host_id, alloc_local_id, register_mirror, set_local_peer_band, destroy,
}

pub record Players : Type 0 where
  pub proc : Process
  pub local_peer_id : ℕ
  pub puppet_by_peer : ℕ → Option ℕ
  pub player_by_slot : ℕ → Option ℕ
  pub published : ℕ

abbrev pub same_puppet : Option ℕ → Option ℕ → Bool
same_puppet none none = true
same_puppet (some a) (some b) = a == b
same_puppet _ _ = false

abbrev pub same_player : ℕ → Option ℕ → Derived → Bool
same_player slot puppet plain = false
same_player slot puppet (as_player i p) = (i == slot) && same_puppet p puppet

abbrev pub puppet_of : Derived → Option ℕ
puppet_of plain = none
puppet_of (as_player i p) = p

abbrev pub bind_puppet : Option ℕ → Derived → Derived
bind_puppet puppet plain = plain
bind_puppet puppet (as_player i p) = as_player i puppet

abbrev pub set_puppet : Option ℕ → Element → Element
set_puppet puppet e = record e { derived = bind_puppet puppet e.derived }

-- The published id is withdrawn before the element goes.
unfoldable pub release_player : Players → ℕ → ℕ → Players
release_player s slot p = record s {
  published = if slot == s.local_peer_id then invalid_id else s.published;
  player_by_slot = update s.player_by_slot slot none;
  proc = destroy s.proc p;
}

unfoldable pub drop_player_element : Players → ℕ → Players
unfolding release_player
drop_player_element s slot =
    if leb max_peers slot
    then s
    else elim (s.player_by_slot slot) [ none ↦ s | some p ↦ release_player s slot p ]

-- The slot gets the element, whose id is published if the slot is the local one.
abbrev pub seat : Players → ℕ → ℕ → ℕ → Players
seat s slot p id = record s {
  player_by_slot = update s.player_by_slot slot (some p);
  published = if slot == s.local_peer_id then id else s.published;
}

-- The end of EnsurePlayerElement_: a new element, by the role of the process.
unfoldable pub create_player : Players → ℕ → Option ℕ → ℕ → Players
create_player s slot puppet p =
    let made = construct s.proc p (new_element player (as_player slot puppet)) in
    let r =
      if s.local_peer_id == peer_id_host
      then alloc_host_id made (some p)
      else alloc_local_id made (some p) in
    if r.1 == invalid_id
    then record s { proc = destroy r.0 p }
    else seat (record s { proc = r.0 }) slot p r.1

unfoldable pub ensure_player_element : Players → ℕ → Option ℕ → ℕ → Players
ensure_player_element s slot puppet p =
    if leb max_peers slot then s else elim (s.player_by_slot slot) [
      | none ↦ create_player s slot puppet p
      | some q ↦ elim (s.proc.heap q) [
        | none ↦ s
        | some e ↦
            if same_player slot puppet e.derived
            then s
            else if e.mirror
            then record s {
              proc = record s.proc { heap = modify s.proc.heap q (set_puppet puppet) };
            }
            else create_player (drop_player_element s slot) slot puppet p
      ]
    ]

-- The second half of SetLocalPeerId: the id, its band, and the local element.
unfoldable pub take_local_id : Players → ℕ → ℕ → Players
take_local_id s id p =
    let t = record s { local_peer_id = id } in
    let u =
      if not (id == peer_id_host) && ltb id max_peers
      then record t { proc = set_local_peer_band t.proc id }
      else t in
    if ltb id max_peers then ensure_player_element u id none p else u

abbrev pub is_seated : Option ℕ → Bool
is_seated none = false
is_seated (some p) = true

unfoldable pub set_local_peer_id : Players → ℕ → ℕ → Players
set_local_peer_id s id p =
    if (s.local_peer_id == id) && ltb id max_peers && is_seated (s.player_by_slot id)
    then s
    else if not (s.local_peer_id == id) && ltb s.local_peer_id max_peers
    then take_local_id (drop_player_element s s.local_peer_id) id p
    else take_local_id s id p

unfoldable pub register_puppet : Players → ℕ → Option ℕ → ℕ → Players
register_puppet s slot puppet p =
    if leb max_peers slot
    then s
    else ensure_player_element (record s { puppet_by_peer = update s.puppet_by_peer slot puppet })
        slot puppet p

unfoldable pub unregister_puppet : Players → ℕ → Players
unregister_puppet s slot =
    if leb max_peers slot
    then s
    else drop_player_element (record s { puppet_by_peer = update s.puppet_by_peer slot none }) slot

-- The element that a slot holds.
abbrev pub seated_element : Players → ℕ → Option Element
seated_element s slot = elim (s.player_by_slot slot) [ none ↦ none | some q ↦ s.proc.heap q ]

abbrev pub is_mirror_of : ℕ → Option Element → Bool
is_mirror_of eid none = false
is_mirror_of eid (some e) = (e.id == eid) && e.mirror

abbrev pub puppet_in : Option Element → Option ℕ
puppet_in none = none
puppet_in (some e) = puppet_of e.derived

-- The new mirror, with the puppet of the element that it replaces.
unfoldable pub replace_by_mirror : Players → ℕ → ℕ → Option ℕ → ℕ → Players × Bool
replace_by_mirror s slot eid puppet p =
    let made = construct s.proc p (new_element player (as_player slot puppet)) in
    let r = register_mirror made eid (some p) in
    if r.1 then (seat (record s { proc = r.0 }) slot p eid, true) else (
      record s { proc = destroy r.0 p; player_by_slot = update s.player_by_slot slot none },
      false,
    )

unfoldable pub establish_mirror_for_slot : Players → ℕ → ℕ → ℕ → Players × Bool
establish_mirror_for_slot s slot eid p =
    if leb max_peers slot
    then (s, false)
    else if eid == invalid_id || eid == 0
    then (s, false)
    else if is_mirror_of eid (seated_element s slot)
    then (s, true)
    else replace_by_mirror (drop_player_element s slot) slot eid (puppet_in (seated_element s slot))
        p
