-- ===== src/Registry/BootWindow.antt =====
-- Ids that a client minted before its band was active, in coop/element/registry.cpp.
use votv_mp.Base.{ℕ, ◌≤◌, ◌≡◌, ◌∙◌, ◌≢◌, false, some, arith, sym}
use votv_mp.ElementId.{invalid_id, host_range_size, is_host_id}
use votv_mp.Registry.{Process, Element, claim, pop_local, alloc_local_id, destroy, release_id}
use votv_mp.Registry.Invariant.{Inv}
use votv_mp.Registry.Destruction.{unregister_own}

reminted :
    (s : Process) (p q : ℕ) (e : Element)
    → Inv s
    → s.heap p ≡ some e
    → e.mirror ≡ false
    → host_range_size ≤ e.id
    → e.id ≢ invalid_id
    → (alloc_local_id (destroy s p) (some q)).1 ≡ e.id
unfolding destroy
reminted s p q e v at own lo ne =
    let held = v.links.registered p e at ne in
    let inside = (v.links.pointed e.id p held).0 in
    let peer : is_host_id e.id ≡ false = unfold is_host_id in ground arith in
    rw (at, destroy, unregister_own s p e v.alive ne inside held own)
      (unfold release_id alloc_local_id pop_local claim in rw (peer, release_id) (ground arith))

-- An id of the boot window comes back: when an own element with an id of the peer range is
-- destroyed, the next AllocLocalId for an element returns that id, whatever band is active and
-- wherever the id lies. So two clients whose elements had the same id both mint that id again.
pub boot_id_reminted :
    (s s' : Process) (p p' q q' : ℕ) (e e' : Element)
    → Inv s
    → Inv s'
    → s.heap p ≡ some e
    → s'.heap p' ≡ some e'
    → e.mirror ≡ false
    → e'.mirror ≡ false
    → e.id ≡ e'.id
    → host_range_size ≤ e.id
    → e.id ≢ invalid_id
    → ((alloc_local_id (destroy s p) (some q)).1 ≡ e.id)
      × ((alloc_local_id (destroy s' p') (some q')).1 ≡ e.id)
boot_id_reminted s s' p p' q q' e e' v v' at at' own own' same lo ne = (
  reminted s p q e v at own lo ne,
  reminted s' p' q' e' v' at' own' (omega arith) (omega arith) ∙ sym same,
)
