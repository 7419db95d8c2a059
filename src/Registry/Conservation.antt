-- ===== src/Registry/Conservation.antt =====
-- Every operation of the host keeps the account of its ids.
use votv_mp.Base.{
  ℕ, ◌-◌, ◌≤◌, ◌≡◌, refl, ◌≢◌, inl, inr, true, false, ◌||◌, none, some, List, [], ◌∷◌, arith, ◌==◌,
  leb, length, update, Option-cases, Bool-cases, All, ap, subst,
}
use votv_mp.ElementId.{invalid_id, max_elements, host_range_size, is_host_id, is_allowed_sender_eid}
use votv_mp.Registry.{
  Process, Element, ElementType, Derived, new_element, refill_free_stacks, init, claim, pop_host,
  alloc_host_id, pop_local, alloc_local_id, set_id, set_mirror, modify, register_mirror, host_count,
  destroy, construct, unregister, release_id,
}
use votv_mp.Registry.Fill.{length-push_down}
use votv_mp.Registry.Links.{own_at, relink, own_at-bind, own_at-unbind, own_at-rewrite}
use votv_mp.Registry.Invariant.{Inv, HostFree, LocalFree}
use votv_mp.Registry.Allocation.{Unnamed}
use votv_mp.Registry.Destruction.{unregister_own, unregister_theirs, unregister_unnamed}
use votv_mp.Registry.Reach.{
  Step, Reach, Reach-Inv, creates, allocs_host, allocs_local, mirrors, activates, deletes, starts,
  next,
}
use votv_mp.Registry.Outcome.{Unavailable, alloc_host_id_outcome}
use votv_mp.Registry.Accounting.{Accounted, own_count, count_below-none, keep, take_one, give_back}

init-Accounted : Accounted init
unfolding init refill_free_stacks
init-Accounted = record {
  vacant = λ id lt h. refl;
  total = omega (
    arith,
    length-push_down 1 (host_range_size - 1) [],
    count_below-none (own_at init) host_range_size (λ j. refl),
  );
}

construct-Accounted :
    (s : Process) (p : ℕ) (t : ElementType) (d : Derived)
    → s.heap p ≡ none
    → Inv s
    → Accounted s
    → Accounted (construct s p (new_element t d))
unfolding construct
construct-Accounted s p t d empty v a =
    keep s _ refl
      (λ j lt.
        own_at-rewrite s p (some (new_element t d)) (λ e h. cc (empty, h)) (λ e h. ground arith) j
          v.links)
      (λ j lt. refl) a

-- The top of the host stack names an empty slot, so an allocation takes it.
pop_host-Accounted :
    (s : Process) (p : ℕ) (ids : List ℕ)
    → Unnamed s p
    → Inv s
    → Accounted s
    → s.host_free ≡ ids
    → All (HostFree s) ids
    → Accounted (pop_host s ids p).0
unfolding pop_host claim
pop_host-Accounted s p [] u v a eq h = a
pop_host-Accounted s p (id ∷ rest) (e, at, no_id, fresh) v a eq h =
    let empty = a.vacant id h.0.1 h.0.2 in
    let e' : Element = set_id id e in
    rw (empty, claim, at, modify)
      (take_one s _ id (rw eq) h.0.1 h.0.2 (ground arith)
        (λ j n.
          own_at-bind s id p e e' at no_id refl (omega (arith, h.0.1)) (λ _. h.0.0) j v.links n)
        (λ j n. ground arith) a)

alloc_host_id-Accounted :
    (s : Process) (p : ℕ)
    → Unnamed s p
    → Inv s
    → Accounted s
    → Accounted (alloc_host_id s (some p)).0
unfolding alloc_host_id
alloc_host_id-Accounted s p u v a = pop_host-Accounted s p s.host_free u v a refl v.host_ids

-- What happens at an id of the peer range leaves the host's account alone.
relink_peer-Accounted :
    (s t : Process) (id : ℕ)
    → host_range_size ≤ id
    → length t.host_free ≡ length s.host_free
    → ((j : ℕ) → j ≢ id → own_at t j ≡ own_at s j)
    → ((j : ℕ) → j ≢ id → t.by_id j ≡ s.by_id j)
    → Accounted s
    → Accounted t
relink_peer-Accounted s t id lo len own by a =
    keep s t len (λ j lt. own j (omega arith)) (λ j lt. by j (omega arith)) a

pop_local-Accounted :
    (s : Process) (p : ℕ) (ids : List ℕ)
    → Unnamed s p
    → Inv s
    → Accounted s
    → All LocalFree ids
    → Accounted (pop_local s ids p).0
unfolding pop_local claim
pop_local-Accounted s p [] u v a h = a
pop_local-Accounted s p (id ∷ rest) (e, at, no_id, fresh) v a h = elim (Option-cases (s.by_id id)) [
  | inr (q, taken) ↦ rw (taken, claim) (keep s _ refl (λ j lt. refl) (λ j lt. refl) a)
  | inl empty ↦
      let e' : Element = set_id id e in
      rw (empty, claim, at, modify)
        (relink_peer-Accounted s _ id h.0.0 refl
          (λ j n.
            own_at-bind s id p e e' at no_id refl h.0.1 (λ _. omega (arith, h.0.0)) j v.links n)
          (λ j n. ground arith) a)
]

alloc_local_id-Accounted :
    (s : Process) (p : ℕ)
    → Unnamed s p
    → Inv s
    → Accounted s
    → Accounted (alloc_local_id s (some p)).0
unfolding alloc_local_id
alloc_local_id-Accounted s p u v a = pop_local-Accounted s p s.local_free u v a v.local_ids

register_mirror-Accounted :
    (s : Process) (id p : ℕ)
    → host_range_size ≤ id
    → Unnamed s p
    → Inv s
    → Accounted s
    → Accounted (register_mirror s id (some p)).0
unfolding register_mirror
register_mirror-Accounted s id p lo (e, at, no_id, fresh) v a =
    elim (Bool-cases (id == invalid_id || leb max_elements id)) [
      | inl out ↦ rw (out, register_mirror) a
      | inr inside ↦ elim (Option-cases (s.by_id id)) [
        | inr (q, taken) ↦ rw (inside, taken, register_mirror) a
        | inl empty ↦
            let e' : Element = set_mirror true (set_id id e) in
            rw (inside, empty, register_mirror, at, modify)
              (relink_peer-Accounted s _ id lo refl
                (λ j n. own_at-bind s id p e e' at no_id refl (ground arith) (λ m. cc) j v.links n)
                (λ j n. ground arith) a)
      ]
    ]

destroy_named-Accounted :
    (s : Process) (p : ℕ) (e : Element)
    → s.heap p ≡ some e
    → e.id ≢ invalid_id
    → Inv s
    → Accounted s
    → let t = unregister s e in Accounted (record t { heap = update t.heap p none })
unfolding release_id
destroy_named-Accounted s p e at ne v a =
    let held = v.links.registered p e at ne in
    let inside = (v.links.pointed e.id p held).0 in
    let own : (j : ℕ) → j ≢ e.id → own_at (relink s e.id none p none) j ≡ own_at s j =
      λ j. own_at-unbind s e.id p e at refl ne j v.links in
    elim (Bool-cases e.mirror) [
      | inl theirs ↦ rw (unregister_theirs s p e v.alive ne inside held theirs) (
          relink_peer-Accounted s _ e.id (ground (arith, held, a.vacant e.id)) refl own
            (λ j n. ground arith) a)
      | inr mine ↦
          rw (unregister_own s p e v.alive ne inside held mine)
            (elim (Bool-cases (is_host_id e.id)) [
              | inl host ↦
                  rw (host, release_id)
                    (give_back s _ e.id refl (unfold is_host_id in ground arith)
                      (ground (arith, held)) (ground arith) (ground arith) own (λ j n. ground arith)
                      a)
              | inr peer ↦
                  rw (peer, release_id)
                    (relink_peer-Accounted s _ e.id (unfold is_host_id in ground arith) refl own
                      (λ j n. ground arith) a)
            ])
    ]

destroy-Accounted : (s : Process) (p : ℕ) → Inv s → Accounted s → Accounted (destroy s p)
unfolding destroy
destroy-Accounted s p v a = elim (Option-cases (s.heap p)) [
  | inl gone ↦ rw (gone, destroy) a
  | inr (e, at) ↦
      rw (at, destroy)
        (elim (Bool-cases (e.id == invalid_id)) [
          | inl unnamed ↦ rw (unregister_unnamed s e (ground arith)) (
              keep s _ refl
                (λ j lt. own_at-rewrite s p none (λ f h. ground arith) (λ f h. cc) j v.links)
                (λ j lt. refl) a)
          | inr named ↦ destroy_named-Accounted s p e at (ground arith) v a
        ])
]

-- The host mirrors only ids of the peer range: that is what the range check lets through.
allowed_from_client : (id : ℕ) → is_allowed_sender_eid false id ≡ true → host_range_size ≤ id
unfolding is_allowed_sender_eid
allowed_from_client id h = ground arith

Step-Accounted : {s t : Process} → Step true s t → Inv s → Accounted s → Accounted t
Step-Accounted (creates s p t d h) v a = construct-Accounted s p t d h v a
Step-Accounted (allocs_host s p h u) v a = alloc_host_id-Accounted s p u v a
Step-Accounted (allocs_local s p u) v a = alloc_local_id-Accounted s p u v a
Step-Accounted (mirrors s id p b h k u) v a =
    register_mirror-Accounted s id p (allowed_from_client id (rw (h refl) at k)) u v a
Step-Accounted (activates s slot h) v a = cc
Step-Accounted (deletes s p) v a = destroy-Accounted s p v a

Reach-Accounted : {s : Process} → Reach true s → Accounted s
Reach-Accounted starts = init-Accounted
Reach-Accounted (next r st) = Step-Accounted st (Reach-Inv r) (Reach-Accounted r)

-- A host whose stack offers nothing uses every id.
Unavailable-own_count :
    (s : Process)
    → Inv s
    → Accounted s
    → Unavailable s s.host_free
    → own_count s ≡ host_range_size - 1
Unavailable-own_count s v a (inl e) = omega (arith, a.total, ap length e)
Unavailable-own_count s v a (inr (id, rest, e, (p, f, held, at, mirror))) =
    let free : All (HostFree s) (id ∷ rest) = subst (All (HostFree s)) e v.host_ids in
    cc (held, a.vacant id free.0.1 free.0.2)

-- In every history of the host, HostCount is the number of its own elements with an id of the host
-- range, and AllocHostId for a new element fails only when all 32767 ids are in use.
pub host_count_exact :
    (s : Process) (p : ℕ)
    → Reach true s
    → Unnamed s p
    → (host_count s ≡ own_count s)
      × ((alloc_host_id s (some p)).1 ≡ invalid_id → own_count s ≡ host_range_size - 1)
unfolding host_count
host_count_exact s p r u =
    let a = Reach-Accounted r in
    (
      omega (arith, a.total),
      λ h. elim (alloc_host_id_outcome s p u (Reach-Inv r)) [
        | inl (none_left, refused) ↦ Unavailable-own_count s (Reach-Inv r) a none_left
        | inr (lo, hi, bound) ↦ absurd (omega arith)
      ],
    )
