-- ===== src/Mirror/Ownership.antt =====
-- What holds between the owner map and the registry, and how the registry's steps look from there.
use votv_mp.Base.{
  ℕ, ◌<◌, ◌≡◌, ◌≢◌, ◌⊎◌, inl, inr, true, false, ◌||◌, Option, none, some, arith, leb, ◌==◌, update,
  Option-cases, Bool-cases,
}
use votv_mp.Base.Int.{ℤ, int8}
use votv_mp.Base.Assoc.{lookup, Keyed}
use votv_mp.ElementId.{invalid_id, max_elements}
use votv_mp.Registry.{Process, Element, modify, register_mirror, destroy, set_id, set_mirror}
use votv_mp.Registry.Links.{relink}
use votv_mp.Registry.Invariant.{Inv, rewrite-Inv}
use votv_mp.Registry.Allocation.{Unnamed}
use votv_mp.Registry.Destruction.{unregister_unnamed, unregister_theirs}
use votv_mp.Mirror.{Manager, discard, set_owner_slot, tag}

-- The object at `p` is alive and has the id, which is none of the two sentinels.
abbrev pub Holds : Process → ℕ → ℕ → Type 0
Holds s eid p = (e : Element) × (s.heap p ≡ some e) × (e.id ≡ eid) × (eid ≢ invalid_id) × (eid ≢ 0)

pub record Sound (m : Manager) : Type 0 where
  pub inv : Inv m.proc
  pub owned : (eid p : ℕ) → lookup eid m.owners ≡ some p → Holds m.proc eid p
  pub keyed : Keyed m.owners

-- A change of an object without an id is not seen by the owners.
pub rewrite-Holds :
    (s : Process) (p : ℕ) (o : Option Element) (eid q : ℕ)
    → Unnamed s p
    → Holds s eid q
    → Holds (record s { heap = update s.heap p o }) eid q
rewrite-Holds s p o eid q u (e, at, id, ne, nz) = (e, ground (arith, u.1, u.2), id, ne, nz)

pub destroy-Unnamed :
    (s : Process) (p : ℕ) → Unnamed s p → destroy s p ≡ record s { heap = update s.heap p none }
unfolding destroy
destroy-Unnamed s p (e, at, no_id, fresh) = rw (at, destroy, unregister_unnamed s e no_id)

pub destroy_mirror :
    (s : Process) (p : ℕ) (e : Element)
    → Inv s
    → s.heap p ≡ some e
    → e.id ≢ invalid_id
    → e.mirror ≡ true
    → destroy s p ≡ relink s e.id none p none
unfolding destroy
destroy_mirror s p e v at ne theirs =
    let held = v.links.registered p e at ne in
    rw (at, destroy, unregister_theirs s p e v.alive ne (v.links.pointed e.id p held).0 held theirs)

-- RegisterMirror does nothing, or binds the object to the empty slot.
pub register_mirror_cases :
    (s : Process) (id p : ℕ) (e : Element)
    → s.heap p ≡ some e
    → ((register_mirror s id (some p) ≡ (s, false)) × ¬ ((id < max_elements) × (s.by_id id ≡ none)))
      ⊎ ((s.by_id id ≡ none)
          × (id < max_elements)
          × (register_mirror s id (some p)
              ≡ (relink s id (some p) p (some (set_mirror true (set_id id e))), true)))
unfolding register_mirror
register_mirror_cases s id p e at = elim (Bool-cases (id == invalid_id || leb max_elements id)) [
  | inl out ↦ inl (rw (out, register_mirror), λ k. ground (arith, k.0))
  | inr inside ↦ elim (Option-cases (s.by_id id)) [
    | inr (q, taken) ↦ inl (rw (inside, taken, register_mirror), λ k. cc (taken, k.1))
    | inl empty ↦ inr (empty, ground arith, rw (inside, empty, register_mirror, at, modify))
  ]
]

-- The manager after a write to an object without an id.
abbrev pub written : Manager → ℕ → Element → Manager
written m p e = record m { proc = record m.proc { heap = update m.proc.heap p (some e) } }

pub tag_lem :
    (m : Manager) (p : ℕ) (slot : ℤ) (e : Element)
    → m.proc.heap p ≡ some e
    → tag m p slot ≡ written m p (set_owner_slot (int8 slot) e)
unfolding tag
tag_lem m p slot e at = rw (at, modify)

pub written-Sound :
    (m : Manager) (p : ℕ) (e : Element)
    → Unnamed m.proc p
    → e.id ≡ invalid_id
    → Sound m
    → Sound (written m p e)
written-Sound m p e u no_id v = record {
  inv =
      rewrite-Inv m.proc p (some e) (λ f h. ground (arith, u.1, u.2)) (λ f h. ground (arith, no_id))
        v.inv;
  owned = λ eid q h. rewrite-Holds m.proc p (some e) eid q u (v.owned eid q h);
  keyed = v.keyed;
}

-- A new element that the manager refuses.
pub discard-Sound : (m : Manager) (p : ℕ) → Unnamed m.proc p → Sound m → Sound (discard m p)
discard-Sound m p u v = rw (destroy-Unnamed m.proc p u) (record {
  inv = rewrite-Inv m.proc p none (λ f h. ground (arith, u.1, u.2)) (λ f h. cc) v.inv;
  owned = λ eid q h. rewrite-Holds m.proc p none eid q u (v.owned eid q h);
  keyed = v.keyed;
})
