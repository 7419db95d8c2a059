-- ===== src/Registry/Destruction.antt =====
-- ~Element keeps the invariant: FreeId for an own element, UnregisterMirror for a mirror.
use votv_mp.Base.{
  ℕ, ◌≤◌, ◌<◌, ◌≡◌, refl, ◌≢◌, inl, inr, true, false, none, some, arith, ◌==◌, update, Option-cases,
  Bool-cases,
}
use votv_mp.ElementId.{invalid_id, max_elements, is_host_id}
use votv_mp.Registry.{Process, Element, release_id, unregister, destroy}
use votv_mp.Registry.Links.{own_at, relink, own_at-unbind, relink_unbind-Links}
use votv_mp.Registry.Invariant.{Inv, own-NotIn-host, relink_same-Inv, relink_but-Inv, rewrite-Inv}

-- The object goes, its slot is cleared, and an own id goes back to the stack of its range.
destroy_own-Inv :
    (s : Process) (p : ℕ) (e : Element)
    → s.heap p ≡ some e
    → e.id ≢ invalid_id
    → e.mirror ≡ false
    → Inv s
    → let t = release_id s e.id in Inv (record t { heap = update t.heap p none })
unfolding release_id
destroy_own-Inv s p e at named own v = elim (Bool-cases (is_host_id e.id)) [
  | inl host ↦
      rw (host, release_id)
        (record {
          links = record { registered = w.links.registered; pointed = w.links.pointed };
          host_ids = ((low, unfold is_host_id in ground arith, clear), w.host_ids);
          host_distinct = (own-NotIn-host s e.id s.host_free mine v.host_ids, w.host_distinct);
          local_ids = w.local_ids;
          alive = w.alive;
        })
  | inr peer ↦
      rw (peer, release_id)
        (record {
          links = record { registered = w.links.registered; pointed = w.links.pointed };
          host_ids = w.host_ids;
          host_distinct = w.host_distinct;
          local_ids = ((unfold is_host_id in ground arith, inside), w.local_ids);
          alive = w.alive;
        })
]
  where
    held : s.by_id e.id ≡ some p
    held = v.links.registered p e at named

    mine : own_at s e.id ≡ true
    mine = ground (arith, held)

    low : 1 ≤ e.id
    low = let k = v.links.pointed e.id p held in ground (arith, k.2, k.4)

    inside : e.id < max_elements
    inside = (v.links.pointed e.id p held).0

    clear : own_at (relink s e.id none p none) e.id ≡ false
    clear = ground arith

    w : Inv (relink s e.id none p none)
    w =
        relink_but-Inv s e.id p none none v (relink_unbind-Links s e.id p e at refl named v.links)
          (λ j. own_at-unbind s e.id p e at refl named j v.links)
          (own-NotIn-host s e.id s.host_free mine v.host_ids)

destroy_mirror-Inv :
    (s : Process) (p : ℕ) (e : Element)
    → s.heap p ≡ some e
    → e.id ≢ invalid_id
    → e.mirror ≡ true
    → Inv s
    → Inv (relink s e.id none p none)
destroy_mirror-Inv s p e at named theirs v =
    let held = v.links.registered p e at named in
    relink_same-Inv s e.id p none none v (relink_unbind-Links s e.id p e at refl named v.links) λ j.
      elim (Bool-cases (j == e.id)) [
        | inl y ↦ ground (arith, held)
        | inr n ↦ own_at-unbind s e.id p e at refl named j v.links (ground arith)
      ]

-- What a destructor does while the registry is alive, by the kind of the object.
module _ (s : Process) (p : ℕ) (e : Element) (alive : s.shutting_down ≡ false)
    (named : e.id ≢ invalid_id) (inside : e.id < max_elements) (held : s.by_id e.id ≡ some p) where
  pub unregister_own : e.mirror ≡ false → unregister s e ≡ release_id s e.id
  unfolding unregister
  unregister_own own = ground arith

  pub unregister_theirs :
      e.mirror ≡ true → unregister s e ≡ record s { by_id = update s.by_id e.id none }
  unfolding unregister
  unregister_theirs theirs = ground arith

pub unregister_unnamed : (s : Process) (e : Element) → e.id ≡ invalid_id → unregister s e ≡ s
unfolding unregister
unregister_unnamed s e h = ground arith

-- Whatever an object is, destroying it keeps the invariant.
pub destroy-Inv : (s : Process) (p : ℕ) → Inv s → Inv (destroy s p)
unfolding destroy
destroy-Inv s p v = elim (Option-cases (s.heap p)) [
  | inl gone ↦ rw (gone, destroy) v
  | inr (e, at) ↦
      rw (at, destroy)
        (elim (Bool-cases (e.id == invalid_id)) [
          | inl unnamed ↦
              rw (unregister_unnamed s e (ground arith))
                (rewrite-Inv s p none (λ f h. ground arith) (λ f h. cc) v)
          | inr named ↦ live e at (ground arith)
        ])
]
  where
    live :
        (e : Element)
        → s.heap p ≡ some e
        → e.id ≢ invalid_id
        → let t = unregister s e in Inv (record t { heap = update t.heap p none })
    live e at ne =
        let held = v.links.registered p e at ne in
        let inside = (v.links.pointed e.id p held).0 in
        elim (Bool-cases e.mirror) [
          | inl theirs ↦
              rw (unregister_theirs s p e v.alive ne inside held theirs)
                (destroy_mirror-Inv s p e at ne theirs v)
          | inr own ↦
              rw (unregister_own s p e v.alive ne inside held own)
                (destroy_own-Inv s p e at ne own v)
        ]
