-- ===== src/Registry/Allocation.antt =====
-- The registry's constructor, allocations, mirrors and bands keep the invariant.
use votv_mp.Base.{
  ℕ, ◌-◌, ◌≤◌, ◌<◌, ◌≡◌, refl, inl, inr, true, false, ◌||◌, none, some, List, [], ◌∷◌, arith, ◌==◌,
  leb, Option-cases, Bool-cases, NotIn,
}
use votv_mp.ElementId.{invalid_id, max_elements, max_peers, band_base, band_end}
use votv_mp.ElementId.Bands.{band_bounds}
use votv_mp.Registry.{
  Process, Element, ElementType, Derived, new_element, push_down, refill_free_stacks, init,
  set_local_peer_band, claim, pop_host, alloc_host_id, pop_local, alloc_local_id, register_mirror,
  construct, set_id, set_mirror, modify,
}
use votv_mp.Registry.Fill.{All-push_down, push_down-Distinct}
use votv_mp.Registry.Links.{relink, own_at-bind, relink_bind-Links}
use votv_mp.Registry.Invariant.{Inv, local-NotIn-host, relink_same-Inv, relink_but-Inv, rewrite-Inv}

pub init-Inv : Inv init
unfolding init refill_free_stacks
init-Inv = record {
  links = record { registered = λ p e h. cc; pointed = λ id p h. cc };
  host_ids = All-push_down _ 1 _ [] (λ k lo hi. (lo, omega arith, refl)) tt;
  host_distinct = push_down-Distinct 1 _ [] tt tt;
  local_ids =
      All-push_down _ _ _ [] (unfold band_base band_end in λ k lo hi. (omega arith, omega arith))
        tt;
  alive = refl;
}

-- A new object's address is not in use.
pub construct-Inv :
    (s : Process) (p : ℕ) (t : ElementType) (d : Derived)
    → s.heap p ≡ none
    → Inv s
    → Inv (construct s p (new_element t d))
unfolding construct
construct-Inv s p t d empty v =
    rewrite-Inv s p (some (new_element t d)) (λ e h. cc (empty, h)) (λ e h. ground arith) v

-- An object without an id is given one that no own element has and no stack holds.
claim-Inv :
    (s : Process) (id p : ℕ) (e : Element)
    → s.heap p ≡ some e
    → e.id ≡ invalid_id
    → 1 ≤ id
    → id < max_elements
    → NotIn id s.host_free
    → Inv s
    → Inv (claim s id p).0
unfolding claim
claim-Inv s id p e at no_id lo hi nh v = elim (Option-cases (s.by_id id)) [
  | inr (q, taken) ↦ rw (taken, claim) v
  | inl empty ↦
      rw (empty, claim, at, modify)
        (relink_but-Inv s id p (some p) (some (set_id id e)) v
          (relink_bind-Links s id p e (set_id id e) at no_id refl hi (λ _. lo) empty v.links)
          (λ j. own_at-bind s id p e (set_id id e) at no_id refl hi (λ _. lo) j v.links) nh)
]

-- The object at `p` is alive and as it was constructed: it has no id, and is no mirror.
abbrev pub Unnamed : Process → ℕ → Type 0
Unnamed s p = (e : Element) × (s.heap p ≡ some e) × (e.id ≡ invalid_id) × (e.mirror ≡ false)

pop_host-Inv :
    (s : Process) (p : ℕ) (ids : List ℕ)
    → Unnamed s p
    → Inv (record s { host_free = ids })
    → Inv (pop_host (record s { host_free = ids }) ids p).0
unfolding pop_host
pop_host-Inv s p [] u v = v
pop_host-Inv s p (id ∷ rest) u v =
    claim-Inv (record s { host_free = rest }) id p u.0 u.1 u.2 v.host_ids.0.0
      (omega (arith, v.host_ids.0.1)) v.host_distinct.0
      (record {
        links = record { registered = v.links.registered; pointed = v.links.pointed };
        host_ids = v.host_ids.1;
        host_distinct = v.host_distinct.1;
        local_ids = v.local_ids;
        alive = v.alive;
      })

pub alloc_host_id-Inv :
    (s : Process) (p : ℕ) → Unnamed s p → Inv s → Inv (alloc_host_id s (some p)).0
unfolding alloc_host_id
alloc_host_id-Inv s p u v = pop_host-Inv s p s.host_free u v

pop_local-Inv :
    (s : Process) (p : ℕ) (ids : List ℕ)
    → Unnamed s p
    → Inv (record s { local_free = ids })
    → Inv (pop_local (record s { local_free = ids }) ids p).0
unfolding pop_local
pop_local-Inv s p [] u v = v
pop_local-Inv s p (id ∷ rest) u v =
    claim-Inv (record s { local_free = rest }) id p u.0 u.1 u.2 (omega (arith, v.local_ids.0.0))
      v.local_ids.0.1 (local-NotIn-host s id s.host_free v.local_ids.0.0 v.host_ids)
      (record {
        links = record { registered = v.links.registered; pointed = v.links.pointed };
        host_ids = v.host_ids;
        host_distinct = v.host_distinct;
        local_ids = v.local_ids.1;
        alive = v.alive;
      })

pub alloc_local_id-Inv :
    (s : Process) (p : ℕ) → Unnamed s p → Inv s → Inv (alloc_local_id s (some p)).0
unfolding alloc_local_id
alloc_local_id-Inv s p u v = pop_local-Inv s p s.local_free u v

-- A mirror may take an id of either range; it is never the process's own.
pub register_mirror-Inv :
    (s : Process) (id p : ℕ) → Unnamed s p → Inv s → Inv (register_mirror s id (some p)).0
unfolding register_mirror
register_mirror-Inv s id p (e, at, no_id, fresh) v =
    elim (Bool-cases (id == invalid_id || leb max_elements id)) [
      | inl out ↦ rw (out, register_mirror) v
      | inr inside ↦ elim (Option-cases (s.by_id id)) [
        | inr (q, taken) ↦ rw (inside, taken, register_mirror) v
        | inl empty ↦ rw (inside, empty, register_mirror, at, modify) (bind inside empty)
      ]
    ]
  where
    e' : Element
    e' = set_mirror true (set_id id e)

    bind :
        (id == invalid_id || leb max_elements id) ≡ false
        → s.by_id id ≡ none
        → Inv (relink s id (some p) p (some e'))
    bind inside empty =
        let hi : id < max_elements = ground arith in
        relink_same-Inv s id p (some p) (some e') v
          (relink_bind-Links s id p e e' at no_id refl hi (λ m. cc) empty v.links)
          λ j. elim (Bool-cases (j == id)) [
            | inl y ↦ ground arith
            | inr n ↦ own_at-bind s id p e e' at no_id refl hi (λ m. cc) j v.links (ground arith)
          ]

-- A band may be activated while some of its ids are in use.
pub set_local_peer_band-Inv : (s : Process) (slot : ℕ) → Inv s → Inv (set_local_peer_band s slot)
unfolding set_local_peer_band
set_local_peer_band-Inv s slot v = elim (Bool-cases (slot == 0 || leb max_peers slot)) [
  | inl out ↦ rw (out, set_local_peer_band) v
  | inr inside ↦ elim (Bool-cases (s.active_band == slot)) [
    | inl same ↦ rw (inside, same, set_local_peer_band) v
    | inr other ↦ rw (inside, other, set_local_peer_band) (switched inside)
  ]
]
  where
    switched :
        (slot == 0 || leb max_peers slot) ≡ false
        → Inv (record s {
          active_band = slot;
          local_free = push_down (band_base slot) (band_end slot - band_base slot) [];
        })
    switched inside = record {
      links = record { registered = v.links.registered; pointed = v.links.pointed };
      host_ids = v.host_ids;
      host_distinct = v.host_distinct;
      local_ids =
          All-push_down _ _ _ []
            (λ k lo hi.
              let b = band_bounds slot (ground arith) in (omega (arith, b), omega (arith, b)))
            tt;
      alive = v.alive;
    }
