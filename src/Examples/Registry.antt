-- ===== src/Examples/Registry.antt =====
-- A registry with one prop at address 0, not yet named, and registries with one named element.
use votv_mp.Base.{
  ℕ, ◌≤◌, ◌<◌, ◌≡◌, ◌⊎◌, refl, true, false, none, some, [], ◌∷◌, All, arith, update, either_branch,
  leb, ◌==◌, ◌||◌, ◌-◌,
}
use votv_mp.ElementId.{invalid_id, max_elements, host_range_size, max_peers}
use votv_mp.ElementId.Bands.{InBand, band_bounds, bands_partition}
use votv_mp.Registry.{
  Process, Element, prop, plain, new_element, init, refill_free_stacks, construct, alloc_host_id,
  alloc_local_id, set_local_peer_band, destroy, host_count, snapshot_actors_by_type,
}
use votv_mp.Registry.Invariant.{Inv}
use votv_mp.Registry.Links.{holder}
use votv_mp.Registry.Allocation.{Unnamed}
use votv_mp.Registry.Reach.{Reach, Reach-Inv, starts, next, creates, allocs_local, activates}
use votv_mp.Registry.Outcome.{
  Unavailable, Exhausted, Refused, Bound, alloc_host_id_outcome, alloc_local_id_outcome,
}
use votv_mp.Registry.Accounting.{own_count}
use votv_mp.Registry.Conservation.{host_count_exact}
use votv_mp.Registry.Minting.{Banded, Mints, enters, mints, minted_apart}
use votv_mp.Registry.BootWindow.{boot_id_reminted}
use votv_mp.Registry.Snapshot.{find_pair, pair_of, snapshot_exact}

abbrev some_prop : Element
some_prop = new_element prop plain

abbrev one_prop : Process
one_prop = construct init 0 some_prop

init-vacant : init.heap 0 ≡ none
unfolding init refill_free_stacks
init-vacant = refl

one_prop-Unnamed : Unnamed one_prop 0
unfolding construct
one_prop-Unnamed = (some_prop, refl, refl, refl)

one_prop-Reach : Reach true one_prop
one_prop-Reach = next starts (creates init 0 prop plain init-vacant)

-- A client takes slot 1, names its prop, moves to slot 2 and comes back: the stack holds the prop's
-- id again.
abbrev in_band : ℕ → Process
in_band slot = set_local_peer_band one_prop slot

in_band-Unnamed : (slot : ℕ) → Unnamed (in_band slot) 0
unfolding set_local_peer_band construct
in_band-Unnamed slot =
    let P : Process → Type 0 = λ s. Unnamed s 0 in
    let same : P one_prop = one_prop-Unnamed in
    either_branch (slot == 0 || leb max_peers slot) P _ _ same
      (either_branch (one_prop.active_band == slot) P _ _ same (some_prop, refl, refl, refl))

in_band-Reach : (slot : ℕ) → Reach false (in_band slot)
in_band-Reach slot =
    next (next starts (creates init 0 prop plain init-vacant)) (activates one_prop slot refl)

abbrev with_own : Process
with_own = (alloc_local_id (in_band 1) (some 0)).0

Reach-Inv_example : Inv (set_local_peer_band (set_local_peer_band with_own 2) 1)
Reach-Inv_example = Reach-Inv (
    next
      (next (next (in_band-Reach 1) (allocs_local (in_band 1) 0 (in_band-Unnamed 1)))
        (activates with_own 2 refl))
      (activates (set_local_peer_band with_own 2) 1 refl))

host_count_exact_example :
    (host_count one_prop ≡ own_count one_prop)
    × ((alloc_host_id one_prop (some 0)).1 ≡ invalid_id → own_count one_prop ≡ host_range_size - 1)
host_count_exact_example = host_count_exact one_prop 0 one_prop-Reach one_prop-Unnamed

-- A process with one prop without an id and one free id of each range.
abbrev small : ℕ → ℕ → Process
small band id = record {
  heap = update (λ p. none) 0 (some some_prop);
  by_id = λ i. none;
  host_free = 1 ∷ [];
  local_free = id ∷ [];
  active_band = band;
  shutting_down = false;
}

small-Unnamed : (band id : ℕ) → Unnamed (small band id) 0
small-Unnamed band id = (some_prop, refl, refl, refl)

small-Inv : (band id : ℕ) → host_range_size ≤ id → id < max_elements → Inv (small band id)
small-Inv band id lo hi = record {
  links = record { registered = λ p e at ne. ground arith; pointed = λ i p h. ground arith };
  host_ids = ((omega arith, omega arith, refl), tt);
  host_distinct = (tt, tt);
  local_ids = ((lo, hi), tt);
  alive = refl;
}

alloc_host_id_outcome_example :
    let s = small 0 32768 in
    let r = alloc_host_id s (some 0) in
    (Unavailable s s.host_free × Refused s r.0 r.1)
    ⊎ ((1 ≤ r.1) × (r.1 < host_range_size) × Bound s 0 r.0 r.1)
alloc_host_id_outcome_example =
    alloc_host_id_outcome (small 0 32768) 0 (small-Unnamed 0 32768)
      (small-Inv 0 32768 (omega arith) (omega arith))

alloc_local_id_outcome_example :
    let s = small 0 32768 in
    let r = alloc_local_id s (some 0) in
    (Exhausted s s.local_free × Refused s r.0 r.1)
    ⊎ ((host_range_size ≤ r.1) × (r.1 < max_elements) × Bound s 0 r.0 r.1)
alloc_local_id_outcome_example =
    alloc_local_id_outcome (small 0 32768) 0 (small-Unnamed 0 32768)
      (small-Inv 0 32768 (omega arith) (omega arith))

first_free : (band id : ℕ) → InBand band id → Banded (small band id) band
first_free band id inside = record { active = refl; free = (inside, tt) }

minted_by :
    (band id : ℕ)
    → Mints band
        (small band id)
        ((alloc_local_id (small band id) (some 0)).1 ∷ [])
        (alloc_local_id (small band id) (some 0)).0
minted_by band id = mints 0 enters (small-Unnamed band id)

minted_apart_example :
    All
      (λ x. All (λ y. x ≡ y → x ≡ invalid_id) ((alloc_local_id (small 2 49152) (some 0)).1 ∷ []))
      ((alloc_local_id (small 1 40960) (some 0)).1 ∷ [])
minted_apart_example =
    minted_apart (omega arith) (omega arith) (omega arith)
      (small-Inv 1 40960 (omega arith) (omega arith))
      (small-Inv 2 49152 (omega arith) (omega arith))
      (first_free 1 40960 (omega (arith, band_bounds 1)))
      (first_free 2 49152 (omega (arith, band_bounds 2))) (minted_by 1 40960) (minted_by 2 49152)

-- A process whose prop at address 0 has an id of the first band.
abbrev early : Element
early = record some_prop { id = 33000 }

abbrev named : ℕ → Process
named band = record {
  heap = update (λ p. none) 0 (some early);
  by_id = update (λ i. none) 33000 (some 0);
  host_free = [];
  local_free = [];
  active_band = band;
  shutting_down = false;
}

named-Inv : (band : ℕ) → Inv (named band)
named-Inv band = record {
  links = record {
    registered = λ p e at ne. ground arith;
    pointed = λ i p h. (ground arith, early, ground arith, ground arith, λ m. ground arith);
  };
  host_ids = tt;
  host_distinct = tt;
  local_ids = tt;
  alive = refl;
}

boot_id_reminted_example :
    ((alloc_local_id (destroy (named 1) 0) (some 5)).1 ≡ 33000)
    × ((alloc_local_id (destroy (named 2) 0) (some 5)).1 ≡ 33000)
boot_id_reminted_example =
    boot_id_reminted (named 1) (named 2) 0 0 5 5 early early (named-Inv 1) (named-Inv 2) refl refl
      refl refl refl (omega arith) (omega arith)

snapshot_exact_example :
    find_pair 33000 (snapshot_actors_by_type (named 1) prop).0
    ≡ pair_of prop 33000 (holder (named 1) 33000)
snapshot_exact_example = snapshot_exact (named 1) prop 33000 (omega arith)

bands_partition_example :
    (band : ℕ) × (band < max_peers)
    × InBand band 40959
    × ((other : ℕ) → other < max_peers → InBand other 40959 → other ≡ band)
bands_partition_example = bands_partition 40959 (omega arith) (omega arith)
