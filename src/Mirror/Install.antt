-- ===== src/Mirror/Install.antt =====
-- Install: a mirror is bound in the owner map and the registry, or in neither.
use votv_mp.Base.{
  ℕ, ◌<◌, ◌≡◌, ◌≢◌, refl, ◌⊎◌, inl, inr, Bool, true, false, none, some, arith, ◌==◌, Option-cases,
  Bool-cases, ==_refl, ◌∷◌, subst,
}
use votv_mp.Base.Int.{ℤ, int8}
use votv_mp.Base.Assoc.{lookup, erase}
use votv_mp.ElementId.{invalid_id, max_elements}
use votv_mp.Registry.{Element, set_id, set_mirror}
use votv_mp.Registry.Links.{relink}
use votv_mp.Registry.Invariant.{Inv}
use votv_mp.Registry.Allocation.{Unnamed, register_mirror-Inv}
use votv_mp.Mirror.{Manager, set_owner_slot, discard, bind_mirror, place, install}
use votv_mp.Mirror.Ownership.{
  Sound, destroy-Unnamed, register_mirror_cases, written, tag_lem, written-Sound, discard-Sound,
}

-- What Install asks of the id: no sentinel, in range, and free in the owner map and the registry.
abbrev pub IsInstallable : Manager → ℕ → Type 0
IsInstallable m eid =
    (eid ≢ 0) × (eid < max_elements) × (lookup eid m.owners ≡ none) × (m.proc.by_id eid ≡ none)

-- The mirror is in both tables under its id, tagged with the slot of its origin.
pub record Installed (m : Manager) (eid p : ℕ) (slot : ℤ) (n : Manager) : Type 0 where
  pub owner : lookup eid n.owners ≡ some p
  pub table : n.proc.by_id eid ≡ some p
  pub mirror :
      (e : Element)
      → m.proc.heap p ≡ some e
      → n.proc.heap p ≡ some (record e { id = eid; mirror = true; owner_slot = int8 slot })
  pub other_slots : (j : ℕ) → j ≢ eid → n.proc.by_id j ≡ m.proc.by_id j
  pub other_owners : (j : ℕ) → j ≢ eid → lookup j n.owners ≡ lookup j m.owners

-- Both tables are as before, and the element is destroyed.
pub record Rejected (m : Manager) (p : ℕ) (n : Manager) : Type 0 where
  pub owners : n.owners ≡ m.owners
  pub table : (j : ℕ) → n.proc.by_id j ≡ m.proc.by_id j
  pub destroyed : n.proc.heap p ≡ none

abbrev Outcome : Manager → ℕ → ℕ → ℤ → Manager × Bool → Type 0
Outcome m eid p slot r =
    Sound r.0
    × ((IsInstallable m eid × (r.1 ≡ true) × Installed m eid p slot r.0)
        ⊎ ((¬ IsInstallable m eid) × (r.1 ≡ false) × Rejected m p r.0))

discard-Rejected : (m : Manager) (p : ℕ) → Unnamed m.proc p → Rejected m p (discard m p)
discard-Rejected m p u =
    rw (destroy-Unnamed m.proc p u)
      (record { owners = refl; table = λ j. refl; destroyed = ground arith })

refused :
    (m : Manager) (eid p : ℕ) (slot : ℤ)
    → Unnamed m.proc p
    → Sound m
    → ¬ IsInstallable m eid
    → Outcome m eid p slot (discard m p, false)
refused m eid p slot u v no_way =
    (discard-Sound m p u v, inr (no_way, refl, discard-Rejected m p u))

module _ (m : Manager) (eid p : ℕ) (slot : ℤ) (u : Unnamed m.proc p) (v : Sound m) where
  -- The element with its tag, and the manager that holds it.
  abbrev tagged : Element
  tagged = set_owner_slot (int8 slot) u.0

  abbrev after_tag : Manager
  after_tag = written m p tagged

  after_tag-Unnamed : Unnamed after_tag.proc p
  after_tag-Unnamed = (tagged, ground arith, u.2, u.3)

  -- Rejecting the tagged element undoes the tag with it.
  refused_tagged : ¬ IsInstallable m eid → Outcome m eid p slot (discard after_tag p, false)
  refused_tagged no_way = (
    discard-Sound after_tag p after_tag-Unnamed (written-Sound m p tagged u u.2 v),
    inr (
      no_way,
      refl,
      rw (destroy-Unnamed after_tag.proc p after_tag-Unnamed)
          (record { owners = refl; table = λ j. refl; destroyed = ground arith }),
    ),
  )

  bound : Manager
  bound = record m {
    proc = relink after_tag.proc eid (some p) p (some (set_mirror true (set_id eid tagged)));
    owners = (eid, p) ∷ m.owners;
  }

  bound-Installed : lookup eid m.owners ≡ none → Installed m eid p slot bound
  unfolding bound lookup
  bound-Installed vacant = record {
    owner = ground arith;
    table = ground arith;
    mirror = λ f h. ground (arith, u.1);
    other_slots = λ j h. ground arith;
    other_owners = λ j h. ground arith;
  }

  bound-Sound :
      eid ≢ 0 → eid < max_elements → lookup eid m.owners ≡ none → Inv bound.proc → Sound bound
  unfolding bound lookup
  bound-Sound nz lt vacant inv = record {
    inv = inv;
    owned = λ j q h. elim (Bool-cases (eid == j)) [
      | inl y ↦ (
        set_mirror true (set_id eid tagged),
        ground arith,
        ground arith,
        ground arith,
        ground arith,
      )
      | inr n ↦
          let k = v.owned j q (ground arith) in
          (k.0, ground (arith, k.1, k.2, k.3, u.1, u.2), k.2, k.3, k.4)
    ];
    keyed = (vacant, v.keyed);
  }

  tagged-Inv : Inv after_tag.proc
  tagged-Inv = (written-Sound m p tagged u u.2 v).inv

  bind_mirror-Outcome :
      eid ≢ 0
      → eid ≢ invalid_id
      → lookup eid m.owners ≡ none
      → Outcome m eid p slot (bind_mirror after_tag eid p)
  unfolding bind_mirror erase
  bind_mirror-Outcome nz ne vacant =
      elim (register_mirror_cases after_tag.proc eid p tagged (ground arith)) [
        | inl (e, no_way) ↦ rw (e, bind_mirror, ==_refl) (refused_tagged (λ k. no_way (k.1, k.3)))
        | inr (empty, lt, e) ↦
            rw (e, bind_mirror)
              (unfold bound in
                (
                  bound-Sound nz lt vacant (
                      subst (λ r. Inv r.0) e
                        (register_mirror-Inv after_tag.proc eid p after_tag-Unnamed tagged-Inv)),
                  inl ((nz, lt, vacant, empty), refl, bound-Installed vacant),
                ))
      ]

place_taken :
    (n : Manager) (eid p q : ℕ)
    → lookup eid n.owners ≡ some q
    → (discard n p, false) ≡ place n eid p
unfolding place
place_taken n eid p q h = rw (h, place)

place_vacant :
    (n : Manager) (eid p : ℕ) → lookup eid n.owners ≡ none → bind_mirror n eid p ≡ place n eid p
unfolding place
place_vacant n eid p h = rw (h, place)

place-Outcome :
    (m : Manager) (eid p : ℕ) (slot : ℤ) (u : Unnamed m.proc p)
    → Sound m
    → eid ≢ 0
    → eid ≢ invalid_id
    → Outcome m eid p slot (place (written m p (set_owner_slot (int8 slot) u.0)) eid p)
place-Outcome m eid p slot u v nz ne = elim (Option-cases (lookup eid m.owners)) [
  | inr (q, taken) ↦
      subst (Outcome m eid p slot) (place_taken _ eid p q taken)
        (refused_tagged m eid p slot u v (λ k. cc (taken, k.2)))
  | inl vacant ↦
      subst (Outcome m eid p slot) (place_vacant _ eid p vacant)
        (bind_mirror-Outcome m eid p slot u v nz ne vacant)
]

-- Install, for a new mirror: it returns true exactly when the id is no sentinel, lies in the table's
-- range and is free in the owner map and in the registry. Then both hold the mirror under the id,
-- marked as a mirror and tagged with the narrowed origin slot, and every other entry is as before;
-- otherwise both are as before and the mirror is destroyed. Owner map and registry agree afterwards.
pub install_outcome :
    (m : Manager) (eid p : ℕ) (slot : ℤ)
    → Unnamed m.proc p
    → Sound m
    → let r = install m eid (some p) slot in
      Sound r.0
      × ((IsInstallable m eid × (r.1 ≡ true) × Installed m eid p slot r.0)
          ⊎ ((¬ IsInstallable m eid) × (r.1 ≡ false) × Rejected m p r.0))
unfolding install
install_outcome m eid p slot u v = elim (Bool-cases (eid == 0)) [
  | inl z ↦ rw z (refused m eid p slot u v (λ k. k.0 (ground arith)))
  | inr nz ↦ rw nz (elim (Bool-cases (eid == invalid_id)) [
    | inl i ↦ rw i (refused m eid p slot u v (λ k. ground (arith, k.1)))
    | inr ni ↦
        rw (ni, tag_lem m p slot u.0 u.1)
          (place-Outcome m eid p slot u v (ground arith) (ground arith))
  ])
]
