-- ===== src/Examples/Mirror.antt =====
-- A manager without an element, and one with a mirror.
use votv_mp.Base.{◌≡◌, ◌⊎◌, refl, true, false, none, some, [], ◌∷◌, arith, update}
use votv_mp.Base.Int.{pos, int8}
use votv_mp.Base.Assoc.{lookup}
use votv_mp.Registry.{Element, prop, plain, new_element}
use votv_mp.Registry.Invariant.{Inv}
use votv_mp.Mirror.{
  Manager, install, mirror_at, mirror_of_slot_at, drain_mirrors_only, drain_mirrors_for_slot,
}
use votv_mp.Mirror.Ownership.{Sound}
use votv_mp.Mirror.Install.{IsInstallable, Installed, Rejected, install_outcome}
use votv_mp.Mirror.Drain.{Drained, drain_mirrors_only-Drained, drain_mirrors_for_slot-Drained}

abbrev blank : Element
blank = new_element prop plain

abbrev empty_manager : Manager
empty_manager = record {
  proc = record {
    heap = update (λ p. none) 3 (some blank);
    by_id = λ i. none;
    host_free = [];
    local_free = [];
    active_band = 0;
    shutting_down = false;
  };
  owners = [];
}

empty_manager-Sound : Sound empty_manager
unfolding lookup
empty_manager-Sound = record {
  inv = record {
    links = record { registered = λ p e at ne. ground arith; pointed = λ i p h. ground arith };
    host_ids = tt;
    host_distinct = tt;
    local_ids = tt;
    alive = refl;
  };
  owned = λ eid p h. ground arith;
  keyed = tt;
}

install_outcome_example :
    let m = empty_manager in
    let r = install m 40000 (some 3) (pos 2) in
    Sound r.0
    × ((IsInstallable m 40000 × (r.1 ≡ true) × Installed m 40000 3 (pos 2) r.0)
        ⊎ ((¬ IsInstallable m 40000) × (r.1 ≡ false) × Rejected m 3 r.0))
install_outcome_example =
    install_outcome empty_manager 40000 3 (pos 2) (blank, refl, refl, refl) empty_manager-Sound

abbrev theirs : Element
theirs = record blank { id = 40000; mirror = true; owner_slot = pos 2 }

abbrev one_mirror : Manager
one_mirror = record {
  proc = record {
    heap = update (λ p. none) 3 (some theirs);
    by_id = update (λ i. none) 40000 (some 3);
    host_free = [];
    local_free = [];
    active_band = 0;
    shutting_down = false;
  };
  owners = (40000, 3) ∷ [];
}

one_mirror-Inv : Inv one_mirror.proc
one_mirror-Inv = record {
  links = record {
    registered = λ p e at ne. ground arith;
    pointed = λ i p h. (ground arith, theirs, ground arith, ground arith, λ m. ground arith);
  };
  host_ids = tt;
  host_distinct = tt;
  local_ids = tt;
  alive = refl;
}

one_mirror-Sound : Sound one_mirror
unfolding lookup
one_mirror-Sound = record {
  inv = one_mirror-Inv;
  owned = λ eid p h. (theirs, ground arith, ground arith, ground arith, ground arith);
  keyed = (refl, tt);
}

drain_mirrors_only-Drained_example :
    Drained (mirror_at one_mirror.proc) one_mirror (drain_mirrors_only one_mirror).0
drain_mirrors_only-Drained_example = drain_mirrors_only-Drained one_mirror one_mirror-Sound

drain_mirrors_for_slot-Drained_example :
    Drained
      (mirror_of_slot_at one_mirror.proc (int8 (pos 2)))
      one_mirror
      (drain_mirrors_for_slot one_mirror (pos 2)).0
drain_mirrors_for_slot-Drained_example =
    drain_mirrors_for_slot-Drained one_mirror (pos 2) one_mirror-Sound
