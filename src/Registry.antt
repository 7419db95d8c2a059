-- ===== src/Registry.antt =====
-- coop/element/element.{h,cpp} and coop/element/registry.{h,cpp}: the element objects, and the
-- allocator that hands out their ids. The mutex makes each operation one step, so an operation is a
-- function of the process's state. Objects live at addresses; a destroyed object's address is empty.
pub mod Fill
pub mod Links
pub mod Invariant
pub mod Allocation
pub mod Destruction
pub mod Reach
pub mod Outcome
pub mod Accounting
pub mod Conservation
pub mod Minting
pub mod BootWindow
pub mod Snapshot
use votv_mp.Base.{
  ℕ, zero, suc, ◌+◌, ◌-◌, ◌%◌, ◌^◌, Bool, true, false, ◌||◌, Option, none, some, List, [], ◌∷◌, leb,
  ◌==◌, if◌then◌else◌, length, update,
}
use votv_mp.Base.Int.{ℤ, negsuc}
use votv_mp.ElementId.{
  invalid_id, max_elements, host_range_size, max_peers, band_base, band_end, is_host_id,
}

pub data ElementType : Type 0 where
  unknown player prop npc : ElementType

unfoldable pub eqb_type : ElementType → ElementType → Bool
eqb_type unknown unknown = true
eqb_type player player = true
eqb_type prop prop = true
eqb_type npc npc = true
eqb_type _ _ = false

-- What a subclass adds: `Player` has its peer slot and its puppet.
pub data Derived : Type 0 where
  plain : Derived
  as_player : ℕ → Option ℕ → Derived

pub record Element : Type 0 where
  pub id : ℕ
  pub type : ElementType
  pub derived : Derived
  pub actor : Option ℕ
  pub internal_idx : ℤ
  pub being_deleted : Bool
  pub mirror : Bool
  pub owner_slot : ℤ

-- Element::Element, with the fields' initialisers.
abbrev pub new_element : ElementType → Derived → Element
new_element t d = record {
  id = invalid_id;
  type = t;
  derived = d;
  actor = none;
  internal_idx = negsuc 0;
  being_deleted = false;
  mirror = false;
  owner_slot = negsuc 0;
}

-- The registry and the objects that it points at. The head of a free stack is its top.
pub record Process : Type 0 where
  pub heap : ℕ → Option Element
  pub by_id : ℕ → Option ℕ
  pub host_free : List ℕ
  pub local_free : List ℕ
  pub active_band : ℕ
  pub shutting_down : Bool

-- Writing a field of the object at an address.
abbrev pub modify : (ℕ → Option Element) → ℕ → (Element → Element) → ℕ → Option Element
modify heap p f = elim (heap p) [ none ↦ heap | some e ↦ update heap p (some (f e)) ]

abbrev pub set_id : ℕ → Element → Element
set_id id e = record e { id = id }

abbrev pub set_mirror : Bool → Element → Element
set_mirror m e = record e { mirror = m }

-- `for (id = base + n; id-- > base;) stack.push_back(id)`
unfoldable pub push_down : ℕ → ℕ → List ℕ → List ℕ
push_down base zero stack = stack
push_down base (suc n) stack = push_down base n ((base + n) ∷ stack)

unfoldable pub refill_free_stacks : Process → Process
refill_free_stacks s = record s {
  host_free = push_down 1 (host_range_size - 1) [];
  active_band = 0;
  local_free = push_down (band_base 0) (band_end 0 - band_base 0) [];
}

abbrev pub empty_process : Process
empty_process = record {
  heap = λ p. none;
  by_id = λ id. none;
  host_free = [];
  local_free = [];
  active_band = 0;
  shutting_down = false;
}

-- Registry::Registry
unfoldable pub init : Process
unfolding refill_free_stacks
init = refill_free_stacks empty_process

unfoldable pub set_local_peer_band : Process → ℕ → Process
set_local_peer_band s slot =
    if slot == 0 || leb max_peers slot then s else if s.active_band == slot then s else record s {
      active_band = slot;
      local_free = push_down (band_base slot) (band_end slot - band_base slot) [];
    }

-- The end of both allocation functions: `id` has been popped.
unfoldable pub claim : Process → ℕ → ℕ → Process × ℕ
claim s id p = elim (s.by_id id) [
  | some q ↦ (s, invalid_id)
  | none ↦ (record s { by_id = update s.by_id id (some p); heap = modify s.heap p (set_id id) }, id)
]

unfoldable pub pop_host : Process → List ℕ → ℕ → Process × ℕ
unfolding claim
pop_host s [] p = (s, invalid_id)
pop_host s (id ∷ rest) p = claim (record s { host_free = rest }) id p

unfoldable pub alloc_host_id : Process → Option ℕ → Process × ℕ
unfolding pop_host
alloc_host_id s none = (s, invalid_id)
alloc_host_id s (some p) = pop_host s s.host_free p

unfoldable pub pop_local : Process → List ℕ → ℕ → Process × ℕ
unfolding claim
pop_local s [] p = (s, invalid_id)
pop_local s (id ∷ rest) p = claim (record s { local_free = rest }) id p

unfoldable pub alloc_local_id : Process → Option ℕ → Process × ℕ
unfolding pop_local
alloc_local_id s none = (s, invalid_id)
alloc_local_id s (some p) = pop_local s s.local_free p

-- The slot is cleared and the id goes back to the stack of its range.
unfoldable pub release_id : Process → ℕ → Process
unfolding is_host_id
release_id s id =
    if is_host_id id
    then record s { by_id = update s.by_id id none; host_free = id ∷ s.host_free }
    else record s { by_id = update s.by_id id none; local_free = id ∷ s.local_free }

unfoldable pub free_id : Process → ℕ → Process
unfolding release_id
free_id s id =
    if id == invalid_id || leb max_elements id
    then s
    else elim (s.by_id id) [ none ↦ s | some p ↦ release_id s id ]

unfoldable pub register_mirror : Process → ℕ → Option ℕ → Process × Bool
register_mirror s id none = (s, false)
register_mirror s id (some p) =
    if id == invalid_id || leb max_elements id then (s, false) else elim (s.by_id id) [
      | some q ↦ (s, false)
      | none ↦ (
        record s {
          by_id = update s.by_id id (some p);
          heap = modify s.heap p (λ e. set_mirror true (set_id id e));
        },
        true,
      )
    ]

unfoldable pub unregister_mirror : Process → ℕ → Process
unregister_mirror s id =
    if id == invalid_id || leb max_elements id
    then s
    else elim (s.by_id id) [ none ↦ s | some p ↦ record s { by_id = update s.by_id id none } ]

unfoldable pub get : Process → ℕ → Option ℕ
get s id = if id == invalid_id || leb max_elements id then none else s.by_id id

-- A `size_t` difference.
unfoldable pub host_count : Process → ℕ
host_count s = (host_range_size - 1 + 2 ^ 64 - length s.host_free) % 2 ^ 64

unfoldable pub local_count : Process → ℕ
local_count s =
    let capacity = band_end s.active_band - band_base s.active_band in
    if leb capacity (length s.local_free) then 0 else capacity - length s.local_free

-- Element::~Element: what it does to the registry, before the memory is given back.
unfoldable pub unregister : Process → Element → Process
unfolding free_id unregister_mirror
unregister s e =
    if e.id == invalid_id
    then s
    else if s.shutting_down
    then s
    else if e.mirror
    then unregister_mirror s e.id
    else free_id s e.id

-- `delete` of the element at an address.
unfoldable pub destroy : Process → ℕ → Process
unfolding unregister
destroy s p = elim (s.heap p) [
  | none ↦ s
  | some e ↦ let t = unregister s e in record t { heap = update t.heap p none }
]

-- `make_unique` of an element, at an address that the allocator chose.
unfoldable pub construct : Process → ℕ → Element → Process
construct s p e = record s { heap = update s.heap p (some e) }

-- The destructor of the registry: NotifyRegistryShuttingDown.
unfoldable pub shut_down : Process → Process
shut_down s = record s { shutting_down = true }

pub record ActorIdPair : Type 0 where
  pub actor : Option ℕ
  pub id : ℕ
  pub internal_idx : ℤ
  pub mirror : Bool

unfoldable pub snapshot_entry : Process → ElementType → ℕ → List ActorIdPair → List ActorIdPair
snapshot_entry s t id out = elim (s.by_id id) [
  | none ↦ out
  | some p ↦ elim (s.heap p) [
    | none ↦ out
    | some e ↦
        if eqb_type e.type t
        then record { actor = e.actor; id = id; internal_idx = e.internal_idx; mirror = e.mirror }
          ∷ out
        else out
  ]
]

-- `for (id = first; id < first + n; ++id)`
unfoldable pub snapshot_from : Process → ElementType → ℕ → ℕ → List ActorIdPair
snapshot_from s t first zero = []
snapshot_from s t first (suc n) = snapshot_entry s t first (snapshot_from s t (first + 1) n)

unfoldable pub snapshot_actors_by_type : Process → ElementType → List ActorIdPair × ℕ
snapshot_actors_by_type s t = let out = snapshot_from s t 0 max_elements in (out, length out)
