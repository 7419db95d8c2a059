-- ===== src/Mirror/Drain.antt =====
-- The drains: which elements go, that the registry forgets them, and that no id is given back.
use votv_mp.Base.{
  ℕ, ◌≡◌, ◌≢◌, refl, sym, ==_refl, ◌∙◌, inl, inr, Bool, true, false, not, none, some, arith, ◌==◌,
  Bool-cases, ◌∷◌, [], List, subst, keep_if, ap,
}
use votv_mp.Base.Int.{ℤ, int8}
use votv_mp.Base.Assoc.{lookup, Keyed, lookup-cons_tail, passing, lookup-keep_if, keep_if-Keyed}
use votv_mp.ElementId.{invalid_id}
use votv_mp.Registry.{Process, Element, destroy}
use votv_mp.Registry.Links.{relink}
use votv_mp.Registry.Invariant.{Inv}
use votv_mp.Registry.Destruction.{destroy-Inv}
use votv_mp.Mirror.{
  Manager, destroy_all, drain_if, mirror_at, mirror_of_slot_at, drain_mirrors_only,
  drain_mirrors_for_slot,
}
use votv_mp.Mirror.Ownership.{Sound, destroy_mirror}

-- The object at `p` is a wire mirror with the id.
abbrev pub HoldsMirror : Process → ℕ → ℕ → Type 0
HoldsMirror s eid p =
    (e : Element) × (s.heap p ≡ some e) × (e.id ≡ eid) × (eid ≢ invalid_id) × (e.mirror ≡ true)

-- What the destruction of listed mirrors does: their slots and objects are gone, the free stacks and
-- all other slots and objects are untouched.
pub record Evicted (s : Process) (xs : List (ℕ × ℕ)) (t : Process) : Type 0 where
  pub inv : Inv t
  pub hosts : t.host_free ≡ s.host_free
  pub locals : t.local_free ≡ s.local_free
  pub gone : (eid p : ℕ) → lookup eid xs ≡ some p → (t.by_id eid ≡ none) × (t.heap p ≡ none)
  pub slots : (j : ℕ) → lookup j xs ≡ none → t.by_id j ≡ s.by_id j
  pub objects :
      (q : ℕ) (f : Element) → s.heap q ≡ some f → lookup f.id xs ≡ none → t.heap q ≡ some f
  pub empty : (q : ℕ) → s.heap q ≡ none → t.heap q ≡ none

evict_one :
    (s : Process) (eid p : ℕ) → Inv s → HoldsMirror s eid p → destroy s p ≡ relink s eid none p none
evict_one s eid p v (e, at, id, ne, theirs) =
    subst (λ j. destroy s p ≡ relink s j none p none) id
      (destroy_mirror s p e v at (λ h. ne (sym id ∙ h)) theirs)

-- The rest of the list still holds mirrors, and its eviction completes that of the whole list.
module _ (s : Process) (eid p : ℕ) (xs : List (ℕ × ℕ)) (at_head : HoldsMirror s eid p)
    (alone : lookup eid xs ≡ none) where
  still_held :
      (j q : ℕ)
      → HoldsMirror s j q
      → lookup j xs ≡ some q
      → HoldsMirror (relink s eid none p none) j q
  still_held j q (f, at, id, ne, theirs) l = (
    f,
    ground (arith, at_head.1, at_head.2, ap (λ (k : ℕ). lookup k xs) id, alone),
    id,
    ne,
    theirs,
  )

  Evicted-cons :
      {t : Process} → Evicted (relink s eid none p none) xs t → Evicted s ((eid, p) ∷ xs) t
  unfolding lookup
  Evicted-cons r = record {
    inv = r.inv;
    hosts = r.hosts;
    locals = r.locals;
    gone = λ j q l. elim (Bool-cases (eid == j)) [
      | inl y ↦ (ground (arith, r.slots eid alone), ground (arith, r.empty p))
      | inr n ↦ r.gone j q (ground arith)
    ];
    slots = λ j l. ground (arith, r.slots j);
    objects = λ q f at l. r.objects q f (ground (arith, at_head.1, at_head.2)) (ground arith);
    empty = λ q e. r.empty q (ground arith);
  }

destroy_all-Evicted :
    (s : Process) (xs : List (ℕ × ℕ))
    → Inv s
    → Keyed xs
    → ((eid p : ℕ) → lookup eid xs ≡ some p → HoldsMirror s eid p)
    → Evicted s xs (destroy_all s xs)
unfolding destroy_all
destroy_all-Evicted s [] v k h = record {
  inv = v;
  hosts = refl;
  locals = refl;
  gone = λ eid p e. unfold lookup in cc e;
  slots = λ j e. refl;
  objects = λ q f at e. at;
  empty = λ q e. e;
}
destroy_all-Evicted s ((eid, p) ∷ xs) v k h =
    let at_head : HoldsMirror s eid p = h eid p (unfold lookup in rw ==_refl) in
    rw (evict_one s eid p v at_head) (
      Evicted-cons s eid p xs at_head k.0 (
        destroy_all-Evicted (relink s eid none p none) xs
          (subst Inv (evict_one s eid p v at_head) (destroy-Inv s p v)) k.1
          λ j q l.
            still_held s eid p xs at_head k.0 j q (h j q (lookup-cons_tail eid j p q xs k.0 l)) l))

-- A drain by a test that only mirrors pass, entry by entry.
pub record Drained (test : ℕ → Bool) (m n : Manager) : Type 0 where
  pub sound : Sound n
  pub goes :
      (eid p : ℕ)
      → lookup eid m.owners ≡ some p
      → test p ≡ true
      → (lookup eid n.owners ≡ none) × (n.proc.by_id eid ≡ none) × (n.proc.heap p ≡ none)
  pub stays :
      (eid p : ℕ)
      → lookup eid m.owners ≡ some p
      → test p ≡ false
      → (lookup eid n.owners ≡ some p)
        × (n.proc.by_id eid ≡ m.proc.by_id eid)
        × (n.proc.heap p ≡ m.proc.heap p)
  pub others : (j : ℕ) → lookup j m.owners ≡ none → n.proc.by_id j ≡ m.proc.by_id j
  pub hosts : n.proc.host_free ≡ m.proc.host_free
  pub locals : n.proc.local_free ≡ m.proc.local_free

module _ (test : ℕ → Bool) (m : Manager) (v : Sound m)
    (only_mirrors : (p : ℕ) → test p ≡ true → mirror_at m.proc p ≡ true) where
  abbrev drained : List (ℕ × ℕ)
  drained = keep_if (λ x. test x.1) m.owners

  lookup-drained : (eid : ℕ) → lookup eid drained ≡ passing test (lookup eid m.owners)
  lookup-drained eid = lookup-keep_if test eid m.owners v.keyed

  lookup-left :
      (eid : ℕ)
      → lookup eid (keep_if (λ x. not (test x.1)) m.owners)
        ≡ passing (λ p. not (test p)) (lookup eid m.owners)
  lookup-left eid = lookup-keep_if (λ p. not (test p)) eid m.owners v.keyed

  drained_mirrors : (eid p : ℕ) → lookup eid drained ≡ some p → HoldsMirror m.proc eid p
  drained_mirrors eid p l =
      let owned : lookup eid m.owners ≡ some p = ground (arith, lookup-drained eid) in
      let passes : test p ≡ true = ground (arith, lookup-drained eid) in
      let k = v.owned eid p owned in
      (k.0, k.1, k.2, k.3, ground (arith, only_mirrors p passes, k.1))

  evicted : Evicted m.proc drained (destroy_all m.proc drained)
  evicted =
      destroy_all-Evicted m.proc drained v.inv (keep_if-Keyed test m.owners v.keyed) drained_mirrors

  left_alone :
      (eid p : ℕ)
      → lookup eid m.owners ≡ some p
      → test p ≡ false
      → (destroy_all m.proc drained).heap p ≡ m.proc.heap p
  left_alone eid p l t =
      let k = v.owned eid p l in
      evicted.objects p k.0 k.1 (rw k.2 (ground (arith, lookup-drained eid))) ∙ sym k.1

  pub drain_if-Drained : Drained test m (drain_if test m).0
  unfolding drain_if
  drain_if-Drained = record {
    sound = record {
      inv = evicted.inv;
      owned = λ eid p l.
          let owned : lookup eid m.owners ≡ some p = ground (arith, lookup-left eid) in
          let fails : test p ≡ false = ground (arith, lookup-left eid) in
          let k = v.owned eid p owned in (k.0, left_alone eid p owned fails ∙ k.1, k.2, k.3, k.4);
      keyed = keep_if-Keyed (λ p. not (test p)) m.owners v.keyed;
    };
    goes = λ eid p l t.
        let g = evicted.gone eid p (ground (arith, lookup-drained eid)) in
        (ground (arith, lookup-left eid), g.0, g.1);
    stays = λ eid p l t. (
      ground (arith, lookup-left eid),
      evicted.slots eid (ground (arith, lookup-drained eid)),
      left_alone eid p l t,
    );
    others = λ j l. evicted.slots j (ground (arith, lookup-drained j));
    hosts = evicted.hosts;
    locals = evicted.locals;
  }

-- DrainMirrorsOnly removes exactly the wire mirrors: each leaves the owner map, its registry slot is
-- empty and the object is destroyed. Every own element stays with its slot and object as they were,
-- no slot outside the map changes, and no id goes to a free stack.
pub drain_mirrors_only-Drained :
    (m : Manager) → Sound m → Drained (mirror_at m.proc) m (drain_mirrors_only m).0
unfolding drain_mirrors_only
drain_mirrors_only-Drained m v = drain_if-Drained (mirror_at m.proc) m v (λ p t. t)

-- DrainMirrorsForSlot removes exactly the wire mirrors that are tagged with the slot, narrowed to a
-- byte: each leaves the owner map, its registry slot is empty and the object is destroyed. Own
-- elements and other peers' mirrors stay with their slots and objects as they were, no slot outside
-- the map changes, and no id goes to a free stack.
pub drain_mirrors_for_slot-Drained :
    (m : Manager) (slot : ℤ)
    → Sound m
    → Drained (mirror_of_slot_at m.proc (int8 slot)) m (drain_mirrors_for_slot m slot).0
unfolding drain_mirrors_for_slot
drain_mirrors_for_slot-Drained m slot v =
    drain_if-Drained (mirror_of_slot_at m.proc (int8 slot)) m v (λ p t. ground arith)
