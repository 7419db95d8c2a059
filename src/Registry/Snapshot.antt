-- ===== src/Registry/Snapshot.antt =====
-- SnapshotActorsByType lists exactly the registered elements of a type.
use votv_mp.Base.{
  ℕ, zero, suc, ◌+◌, ◌≤◌, ◌<◌, ◌≡◌, refl, inl, inr, Option, none, some, List, [], ◌∷◌, arith, ◌==◌,
  if◌then◌else◌, Bool-cases, ◌≢◌, ◌∙◌,
}
use votv_mp.ElementId.{max_elements}
use votv_mp.Registry.{
  Process, Element, ElementType, eqb_type, ActorIdPair, snapshot_entry, snapshot_from,
  snapshot_actors_by_type,
}
use votv_mp.Registry.Links.{holder}

-- The tuple that an element contributes.
abbrev pub pair_of : ElementType → ℕ → Option Element → Option ActorIdPair
pair_of t id none = none
pair_of t id (some e) =
    if eqb_type e.type t
    then some
        (record { actor = e.actor; id = id; internal_idx = e.internal_idx; mirror = e.mirror })
    else none

-- The first tuple with an id.
pub find_pair : ℕ → List ActorIdPair → Option ActorIdPair
find_pair id [] = none
find_pair id (x ∷ xs) = if x.id == id then some x else find_pair id xs

find_pair-here :
    (s : Process) (t : ElementType) (id : ℕ) (out : List ActorIdPair)
    → find_pair id out ≡ none
    → find_pair id (snapshot_entry s t id out) ≡ pair_of t id (holder s id)
unfolding snapshot_entry find_pair
find_pair-here s t id out h = ground arith

find_pair-other :
    (s : Process) (t : ElementType) (first id : ℕ) (out : List ActorIdPair)
    → first ≢ id
    → find_pair id (snapshot_entry s t first out) ≡ find_pair id out
unfolding snapshot_entry find_pair
find_pair-other s t first id out ne = ground arith

find_pair-below :
    (s : Process) (t : ElementType) (first n id : ℕ)
    → id < first
    → find_pair id (snapshot_from s t first n) ≡ none
unfolding snapshot_from
find_pair-below s t first zero id lt = unfold find_pair in refl
find_pair-below s t first (suc n) id lt =
    find_pair-other s t first id (snapshot_from s t (first + 1) n) (omega arith)
    ∙ find_pair-below s t (first + 1) n id (omega arith)

find_pair-within :
    (s : Process) (t : ElementType) (first n id : ℕ)
    → first ≤ id
    → id < first + n
    → find_pair id (snapshot_from s t first n) ≡ pair_of t id (holder s id)
unfolding snapshot_from
find_pair-within s t first zero id lo hi = absurd (omega arith)
find_pair-within s t first (suc n) id lo hi = elim (Bool-cases (first == id)) [
  | inl y ↦
      let e : first ≡ id = ground arith in
      rw e (
        find_pair-here s t id (snapshot_from s t (id + 1) n)
          (find_pair-below s t (id + 1) n id (omega arith)))
  | inr ne ↦
      find_pair-other s t first id (snapshot_from s t (first + 1) n) (ground arith)
      ∙ find_pair-within s t (first + 1) n id (ground arith) (omega arith)
]

-- For every id of the table, SnapshotActorsByType has a tuple for the id exactly when the table holds
-- an element of the type there, and the first such tuple is that element's actor, id, object index
-- and mirror flag.
pub snapshot_exact :
    (s : Process) (t : ElementType) (id : ℕ)
    → id < max_elements
    → find_pair id (snapshot_actors_by_type s t).0 ≡ pair_of t id (holder s id)
unfolding snapshot_actors_by_type
snapshot_exact s t id h = find_pair-within s t 0 max_elements id (omega arith) h
