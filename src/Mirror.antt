-- ===== src/Mirror.antt =====
-- coop/element/mirror_manager.h and coop/element/element_deleter.cpp: the owner map of one element
-- type, over the registry. A `unique_ptr` is the address of the object that its holder destroys.
-- The type mutex and the registry's are never held together; each operation is one step here.
pub mod Ownership
pub mod Install
pub mod Drain
use votv_mp.Base.{
  ℕ, Bool, true, false, not, ◌&&◌, ◌||◌, Option, none, some, List, [], ◌∷◌, ◌++◌, ◌==◌,
  if◌then◌else◌, length, update, keep_if, map,
}
use votv_mp.Base.Int.{ℤ, int8, eqb_ℤ}
use votv_mp.Base.Assoc.{lookup, erase}
use votv_mp.ElementId.{invalid_id}
use votv_mp.Registry.{
  Process, Element, modify, register_mirror, alloc_host_id, alloc_local_id, destroy,
}

-- The process and the manager's `m_byId`.
pub record Manager : Type 0 where
  pub proc : Process
  pub owners : List (ℕ × ℕ)

-- The end of a `unique_ptr`'s scope.
abbrev pub discard : Manager → ℕ → Manager
discard m p = record m { proc = destroy m.proc p }

abbrev pub set_owner_slot : ℤ → Element → Element
set_owner_slot slot e = record e { owner_slot = slot }

abbrev pub set_being_deleted : Element → Element
set_being_deleted e = record e { being_deleted = true }

unfoldable pub tag : Manager → ℕ → ℤ → Manager
tag m p slot = record m {
  proc = record m.proc { heap = modify m.proc.heap p (set_owner_slot (int8 slot)) };
}

-- RegisterMirror, and the rollback of the owner map where it fails.
unfoldable pub bind_mirror : Manager → ℕ → ℕ → Manager × Bool
bind_mirror m eid p =
    let r = register_mirror m.proc eid (some p) in
    if r.1
    then (record m { proc = r.0; owners = (eid, p) ∷ m.owners }, true)
    else (discard (record m { proc = r.0; owners = erase eid ((eid, p) ∷ m.owners) }) p, false)

-- The emplacement under the type mutex, and what follows it.
unfoldable pub place : Manager → ℕ → ℕ → Manager × Bool
place m eid p = elim (lookup eid m.owners) [
  | some q ↦ (discard m p, false)
  | none ↦ bind_mirror m eid p
]

unfoldable pub install : Manager → ℕ → Option ℕ → ℤ → Manager × Bool
install m eid none owner_slot = (m, false)
install m eid (some p) owner_slot =
    if eid == 0
    then (discard m p, false)
    else if eid == invalid_id
    then (discard m p, false)
    else place (tag m p owner_slot) eid p

-- The emplacement of a freshly allocated id.
unfoldable pub adopt : Manager → ℕ → ℕ → Manager × ℕ
adopt m eid p =
    if eid == invalid_id then (discard m p, invalid_id) else elim (lookup eid m.owners) [
      | none ↦ (record m { owners = (eid, p) ∷ m.owners }, eid)
      | some q ↦ (discard m p, invalid_id)
    ]

unfoldable pub alloc_and_install : Manager → Option ℕ → Bool → Manager × ℕ
unfolding adopt
alloc_and_install m none is_host = (m, invalid_id)
alloc_and_install m (some p) is_host =
    let r = if is_host then alloc_host_id m.proc (some p) else alloc_local_id m.proc (some p) in
    adopt (record m { proc = r.0 }) r.1 p

-- The caller becomes the owner of the element that is returned.
unfoldable pub take : Manager → ℕ → Manager × Option ℕ
take m eid = if eid == 0 || eid == invalid_id then (m, none) else elim (lookup eid m.owners) [
  | none ↦ (m, none)
  | some p ↦ (record m { owners = erase eid m.owners }, some p)
]

unfoldable pub drop : Manager → ℕ → Manager
unfolding take
drop m eid = let r = take m eid in elim r.1 [ none ↦ r.0 | some p ↦ discard r.0 p ]

unfoldable pub get : Manager → ℕ → Option ℕ
get m eid = lookup eid m.owners

unfoldable pub snapshot : Manager → List ℕ
snapshot m = map (λ x. x.1) m.owners

-- The destructors of the drained pointers, one after the other.
unfoldable pub destroy_all : Process → List (ℕ × ℕ) → Process
destroy_all s [] = s
destroy_all s ((eid, p) ∷ drained) = destroy_all (destroy s p) drained

-- The pointers that pass the test leave the map, and are destroyed after that.
unfoldable pub drain_if : (ℕ → Bool) → Manager → Manager × ℕ
drain_if test m =
    let drained = keep_if (λ x. test x.1) m.owners in
    (
      record m {
        proc = destroy_all m.proc drained;
        owners = keep_if (λ x. not (test x.1)) m.owners;
      },
      length drained,
    )

unfoldable pub drain_all : Manager → Manager × ℕ
drain_all m = (record m { proc = destroy_all m.proc m.owners; owners = [] }, length m.owners)

abbrev pub mirror_at : Process → ℕ → Bool
mirror_at s p = elim (s.heap p) [ none ↦ false | some e ↦ e.mirror ]

abbrev pub mirror_of_slot_at : Process → ℤ → ℕ → Bool
mirror_of_slot_at s want p = elim (s.heap p) [
  | none ↦ false
  | some e ↦ e.mirror && eqb_ℤ e.owner_slot want
]

unfoldable pub drain_mirrors_only : Manager → Manager × ℕ
drain_mirrors_only m = drain_if (mirror_at m.proc) m

unfoldable pub drain_mirrors_for_slot : Manager → ℤ → Manager × ℕ
drain_mirrors_for_slot m owner_slot = drain_if (mirror_of_slot_at m.proc (int8 owner_slot)) m

unfoldable pub size : Manager → ℕ
size m = length m.owners

-- The deferred destruction queue, `m_pending`, in order of arrival.
pub record Deleter : Type 0 where
  pub proc : Process
  pub pending : List ℕ

unfoldable pub enqueue : Deleter → Option ℕ → Deleter
enqueue d none = d
enqueue d (some p) = record d {
  proc = record d.proc { heap = modify d.proc.heap p set_being_deleted };
  pending = d.pending ++ p ∷ [];
}

unfoldable pub destroy_each : Process → List ℕ → Process
destroy_each s [] = s
destroy_each s (p ∷ ps) = destroy_each (destroy s p) ps

unfoldable pub flush : Deleter → Deleter × ℕ
flush d = (record d { proc = destroy_each d.proc d.pending; pending = [] }, length d.pending)

unfoldable pub pending_count : Deleter → ℕ
pending_count d = length d.pending
