-- ===== src/Registry/Reach.antt =====
-- The histories of one process: objects come and go, ids are allocated and mirrored as the callers
-- do it, in either role.
use votv_mp.Base.{ℕ, ◌≡◌, Bool, true, false, none, some}
use votv_mp.ElementId.{is_allowed_sender_eid}
use votv_mp.Registry.{
  Process, ElementType, Derived, new_element, init, set_local_peer_band, alloc_host_id,
  alloc_local_id, register_mirror, destroy, construct,
}
use votv_mp.Registry.Invariant.{Inv}
use votv_mp.Registry.Allocation.{
  Unnamed, init-Inv, construct-Inv, alloc_host_id-Inv, alloc_local_id-Inv, register_mirror-Inv,
  set_local_peer_band-Inv,
}
use votv_mp.Registry.Destruction.{destroy-Inv}

-- One operation. `host` is the role: only the host allocates host ids, only a client activates a
-- band, and the host mirrors what clients send. An id from the wire has passed the range check.
pub data Step (host : Bool) : Process → Process → Type 0 where
  creates :
      (s : Process) (p : ℕ) (t : ElementType) (d : Derived)
      → s.heap p ≡ none
      → Step host s (construct s p (new_element t d))
  allocs_host :
      (s : Process) (p : ℕ) → host ≡ true → Unnamed s p → Step host s (alloc_host_id s (some p)).0
  allocs_local : (s : Process) (p : ℕ) → Unnamed s p → Step host s (alloc_local_id s (some p)).0
  mirrors :
      (s : Process) (id p : ℕ) (sender_is_host : Bool)
      → (host ≡ true → sender_is_host ≡ false)
      → is_allowed_sender_eid sender_is_host id ≡ true
      → Unnamed s p
      → Step host s (register_mirror s id (some p)).0
  activates : (s : Process) (slot : ℕ) → host ≡ false → Step host s (set_local_peer_band s slot)
  deletes : (s : Process) (p : ℕ) → Step host s (destroy s p)

pub data Reach (host : Bool) : Process → Type 0 where
  starts : Reach host init
  next : {s t : Process} → Reach host s → Step host s t → Reach host t

Step-Inv : {host : Bool} {s t : Process} → Step host s t → Inv s → Inv t
Step-Inv (creates s p t d h) v = construct-Inv s p t d h v
Step-Inv (allocs_host s p h u) v = alloc_host_id-Inv s p u v
Step-Inv (allocs_local s p u) v = alloc_local_id-Inv s p u v
Step-Inv (mirrors s id p b h k u) v = register_mirror-Inv s id p u v
Step-Inv (activates s slot h) v = set_local_peer_band-Inv s slot v
Step-Inv (deletes s p) v = destroy-Inv s p v

-- In every history of either role, in which a client may activate any bands in any order, ids in use
-- or not: an object with an id is the one that the table holds at that id, what the table points at
-- is alive and has that id, the host stack holds distinct host ids, none of which an own element
-- has, the local stack holds ids of the peers' range, and the registry is not shut down.
pub Reach-Inv : {host : Bool} {s : Process} → Reach host s → Inv s
Reach-Inv starts = init-Inv
Reach-Inv (next r st) = Step-Inv st (Reach-Inv r)
