-- ===== src/Examples/Players.antt =====
-- A client that learns its slot and then meets the host.
use votv_mp.Base.{◌≡◌, refl, false, none, [], ◌∷◌}
use votv_mp.Registry.{Process, set_local_peer_band, construct, alloc_local_id, pop_local, claim}
use votv_mp.Players.{set_local_peer_id, take_local_id, ensure_player_element, create_player}
use votv_mp.Players.Published.{Published}
use votv_mp.Players.Mirrored.{vacant_players, starts, sets_local, Reach-Published}

abbrev pub bare : Process
bare = record {
  heap = λ p. none;
  by_id = λ i. none;
  host_free = [];
  local_free = 40960 ∷ [];
  active_band = 1;
  shutting_down = false;
}

Reach-Published_example : Published (set_local_peer_id (vacant_players bare) 1 8)
Reach-Published_example = Reach-Published (sets_local 1 8 starts refl)

-- The client's own element gets the id of its band, and the id is published.
own_id : (set_local_peer_id (vacant_players bare) 1 8).published ≡ 40960
unfolding set_local_peer_id take_local_id set_local_peer_band ensure_player_element create_player
    construct alloc_local_id pop_local claim
own_id = refl
