-- ===== src/Registry/Outcome.antt =====
-- What an allocation and a destruction do, on every branch.
use votv_mp.Base.{
  ℕ, ◌≤◌, ◌<◌, ◌≡◌, refl, ◌≢◌, ◌⊎◌, inl, inr, true, false, none, some, List, [], ◌∷◌, arith,
  Option-cases, All,
}
use votv_mp.ElementId.{invalid_id, max_elements, host_range_size}
use votv_mp.Registry.{
  Process, Element, claim, pop_host, alloc_host_id, pop_local, alloc_local_id, set_id, modify,
}
use votv_mp.Registry.Links.{own_at}
use votv_mp.Registry.Invariant.{Inv, HostFree, LocalFree}
use votv_mp.Registry.Allocation.{Unnamed}

-- The object at `p` got the id of an empty slot, and no other slot or object changed.
pub record Bound (s : Process) (p : ℕ) (t : Process) (id : ℕ) : Type 0 where
  pub was_empty : s.by_id id ≡ none
  pub holds : t.by_id id ≡ some p
  pub knows : (e : Element) → s.heap p ≡ some e → t.heap p ≡ some (set_id id e)
  pub others : (j : ℕ) → j ≢ id → t.by_id j ≡ s.by_id j
  pub objects : (q : ℕ) → q ≢ p → t.heap q ≡ s.heap q

-- Nothing was bound: no slot and no object changed.
pub record Refused (s t : Process) (id : ℕ) : Type 0 where
  pub no_id : id ≡ invalid_id
  pub slots : (j : ℕ) → t.by_id j ≡ s.by_id j
  pub objects : (q : ℕ) → t.heap q ≡ s.heap q

-- The slot of the id is held by another process's element.
abbrev pub Mirrored : Process → ℕ → Type 0
Mirrored s id =
    (p : ℕ) × (e : Element) × (s.by_id id ≡ some p) × (s.heap p ≡ some e) × (e.mirror ≡ true)

-- The slot of the id is held by an element, a mirror or an own one.
abbrev pub Occupied : Process → ℕ → Type 0
Occupied s id = (p : ℕ) × (e : Element) × (s.by_id id ≡ some p) × (s.heap p ≡ some e) × (e.id ≡ id)

-- The stack is exhausted, or its top names a slot that is held.
abbrev pub Exhausted : Process → List ℕ → Type 0
Exhausted s ids = (ids ≡ []) ⊎ ((id : ℕ) × (rest : List ℕ) × (ids ≡ id ∷ rest) × Occupied s id)

-- The stack is exhausted, or its top names a slot that a mirror holds.
abbrev pub Unavailable : Process → List ℕ → Type 0
Unavailable s ids = (ids ≡ []) ⊎ ((id : ℕ) × (rest : List ℕ) × (ids ≡ id ∷ rest) × Mirrored s id)

-- The process after a pop.
abbrev popped : Process → List ℕ → List ℕ → Process
popped s hosts locals = record s { host_free = hosts; local_free = locals }

claim-Bound :
    (s : Process) (hosts locals : List ℕ) (id p : ℕ) (e : Element)
    → s.heap p ≡ some e
    → s.by_id id ≡ none
    → let r = claim (popped s hosts locals) id p in Bound s p r.0 id × (r.1 ≡ id)
unfolding claim
claim-Bound s hosts locals id p e at empty =
    rw (empty, claim, at, modify)
      (
        record {
          was_empty = empty;
          holds = ground arith;
          knows = λ f h. ground arith;
          others = λ j h. ground arith;
          objects = λ q h. ground arith;
        },
        refl,
      )

-- A popped id is bound, or its slot is held.
claim_outcome :
    (s : Process) (hosts locals : List ℕ) (id p : ℕ)
    → Unnamed s p
    → Inv s
    → let r = claim (popped s hosts locals) id p in
      (Occupied s id × Refused s r.0 r.1) ⊎ (Bound s p r.0 id × (r.1 ≡ id))
unfolding claim
claim_outcome s hosts locals id p u v = elim (Option-cases (s.by_id id)) [
  | inl empty ↦ inr (claim-Bound s hosts locals id p u.0 u.1 empty)
  | inr (q, taken) ↦
      let k = v.links.pointed id q taken in
      inl (
        (q, k.1, taken, k.2, k.3),
        rw (taken, claim) (record { no_id = refl; slots = λ j. refl; objects = λ q. refl }),
      )
]

-- A held slot that no own element has is a mirror's.
unowned : (s : Process) (id : ℕ) → own_at s id ≡ false → Occupied s id → Mirrored s id
unowned s id free (q, e, taken, at, same) = (q, e, taken, at, ground (arith, taken, at, same))

unchanged : (s : Process) → Refused s s invalid_id
unchanged s = record { no_id = refl; slots = λ j. refl; objects = λ q. refl }

pop_host_outcome :
    (s : Process) (p : ℕ) (ids : List ℕ)
    → Unnamed s p
    → All (HostFree s) ids
    → Inv s
    → let r = pop_host s ids p in
      (Unavailable s ids × Refused s r.0 r.1)
      ⊎ ((1 ≤ r.1) × (r.1 < host_range_size) × Bound s p r.0 r.1)
unfolding pop_host
pop_host_outcome s p [] u free v = inl (inl refl, unchanged s)
pop_host_outcome s p (id ∷ rest) u free v = elim (claim_outcome s rest s.local_free id p u v) [
  | inl (m, r) ↦ inl (inr (id, rest, refl, unowned s id free.0.2 m), r)
  | inr (b, e) ↦ inr (rw e (free.0.0, free.0.1, b))
]

-- AllocHostId, for a new element, in a registry that satisfies its invariant: either the stack is exhausted or its top id is a mirror's, and
-- the result is kInvalidId with no slot and no object changed; or the result is an id of the host
-- range other than 0 whose slot was empty and now holds the element, which knows the id, and no
-- other slot or object changed.
pub alloc_host_id_outcome :
    (s : Process) (p : ℕ)
    → Unnamed s p
    → Inv s
    → let r = alloc_host_id s (some p) in
      (Unavailable s s.host_free × Refused s r.0 r.1)
      ⊎ ((1 ≤ r.1) × (r.1 < host_range_size) × Bound s p r.0 r.1)
unfolding alloc_host_id
alloc_host_id_outcome s p u v = pop_host_outcome s p s.host_free u v.host_ids v

pop_local_outcome :
    (s : Process) (p : ℕ) (ids : List ℕ)
    → Unnamed s p
    → All LocalFree ids
    → Inv s
    → let r = pop_local s ids p in
      (Exhausted s ids × Refused s r.0 r.1)
      ⊎ ((host_range_size ≤ r.1) × (r.1 < max_elements) × Bound s p r.0 r.1)
unfolding pop_local
pop_local_outcome s p [] u free v = inl (inl refl, unchanged s)
pop_local_outcome s p (id ∷ rest) u free v = elim (claim_outcome s s.host_free rest id p u v) [
  | inl (m, r) ↦ inl (inr (id, rest, refl, m), r)
  | inr (b, e) ↦ inr (rw e (free.0.0, free.0.1, b))
]

-- AllocLocalId, for a new element, in a registry that satisfies its invariant: either the stack is
-- exhausted or the slot of its top id is held, by a mirror or by an own element, and the result is
-- kInvalidId with no slot and no object changed; or the result is an id of the peer range whose slot
-- was empty and now holds the element, which knows the id, and no other slot or object changed.
pub alloc_local_id_outcome :
    (s : Process) (p : ℕ)
    → Unnamed s p
    → Inv s
    → let r = alloc_local_id s (some p) in
      (Exhausted s s.local_free × Refused s r.0 r.1)
      ⊎ ((host_range_size ≤ r.1) × (r.1 < max_elements) × Bound s p r.0 r.1)
unfolding alloc_local_id
alloc_local_id_outcome s p u v = pop_local_outcome s p s.local_free u v.local_ids v
