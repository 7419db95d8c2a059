-- ===== src/Examples/Feed.antt =====
-- A host's feed with messages in the inbox, and a run of a client.
use votv_mp.Base.{◌≡◌, ◌≢◌, ◌⊎◌, refl, Bool, true, false, none, some, [], ◌∷◌, arith}
use votv_mp.Protocol.{zeros}
use votv_mp.Handshake.{set_local_nickname}
use votv_mp.Feed.Payloads.{read_player_damage}
use votv_mp.ElementId.{invalid_id}
use votv_mp.Feed.{Feed, Fresh, update_feed, dispatch}
use votv_mp.Feed.Dispatched.{Reaction, dispatch-Reaction}
use votv_mp.Feed.{tend_slots, with_session}
use votv_mp.Feed.Emptied.{Ends, update_feed-Ends}
use votv_mp.Feed.Served.{arrive, serve, update_feed-serve}
use votv_mp.Feed.Reach.{begins, nets, names, takes_slot, launched, Run-Sound}
use votv_mp.Feed.Sound.{Sound, with_players}
use votv_mp.Players.{set_local_peer_id}
use votv_mp.Session.{Session, all_slots}
use votv_mp.Session.Reach.{status_changed, step}
use votv_mp.Session.Receive.{receive}
use votv_mp.Session.Receive.Growth.{receive-Grown}
use votv_mp.Examples.Status.{constructed, constructed-Fresh, dial, host_answers}
use votv_mp.Damage.{valid_damage, on_wire_damage, damage_payload}
use votv_mp.Damage.Owned.{on_wire_damage-addressed}
use votv_mp.Examples.Session.State.{gns, sample, from_one}
use votv_mp.Examples.Handshake.World.{ascii, host_game, ann, message}
use votv_mp.Examples.Players.{bare}

abbrev start_feed : Feed
start_feed = record { game = host_game; last_connected_by_slot = λ i. false; actions = [] }

abbrev eight_nine : Fresh
eight_nine = record { first = 8; second = 9 }

-- An item that is off, from slot 2, without an id.
dispatch-Reaction_example :
    Reaction ascii gns eight_nine start_feed
      (message 12 2 (zeros 28))
      (dispatch ascii gns eight_nine start_feed (message 12 2 (zeros 28)))
dispatch-Reaction_example =
    dispatch-Reaction ascii gns eight_nine start_feed (message 12 2 (zeros 28))

abbrev busy_feed : Feed
busy_feed = record start_feed {
  game = record host_game {
    session = record sample { inbox = message 12 2 (zeros 28) ∷ message 7 1 [] ∷ [] };
  };
}

-- Before the first read the net thread receives one more packet.
abbrev one_packet : Session → Session
one_packet s = receive gns s 1 (from_one 5)

update_feed-Ends_example :
    Ends (update_feed ascii gns (λ n. eight_nine) (one_packet ∷ []) 4 busy_feed)
update_feed-Ends_example =
    update_feed-Ends ascii gns (λ n. eight_nine) 1 (one_packet ∷ []) 4 busy_feed
      (λ s. receive-Grown gns s 1 (from_one 5), tt) (omega arith)

update_feed-serve_example :
    update_feed ascii gns (λ n. eight_nine) (arrive (message 7 2 [] ∷ []) ∷ []) 4 busy_feed
    ≡ some (
        serve ascii gns
          (λ n. eight_nine)
          ((message 7 2 [] ∷ []) ∷ [])
          (message 12 2 (zeros 28) ∷ message 7 1 [] ∷ [])
          (tend_slots ascii gns all_slots (busy_feed, none)).0)
update_feed-serve_example =
    update_feed-serve ascii gns (λ n. eight_nine) ((message 7 2 [] ∷ []) ∷ []) 4 busy_feed
      (omega arith)

-- A client that dials, is answered, gets its slot and names itself.
abbrev dialled_feed : Feed
dialled_feed = launched dial constructed bare

abbrev answered : Feed
answered =
    with_session dialled_feed
      (step gns invalid_id dialled_feed.game.session (status_changed host_answers))

abbrev slotted : Feed
slotted = with_players answered (set_local_peer_id answered.game.players 1 8)

abbrev named_feed : Feed
named_feed = record slotted { game = set_local_nickname slotted.game ann }

Run-Sound_example : Sound named_feed
Run-Sound_example = Run-Sound ascii gns dial constructed bare named_feed constructed-Fresh (
    names ann (
      takes_slot 1 8
        (nets (status_changed host_answers) begins
          (record { valid = λ e. ground arith; fresh = λ e. ground arith }))
        refl))

-- 20.f
twenty : valid_damage 0x41a0_0000 ≡ true
unfolding valid_damage
twenty = refl

on_wire_damage-addressed_example :
    ((host_game.players.published ≡ 40960) ⊎ (host_game.players.published ≡ invalid_id)
      → on_wire_damage host_game.players true
          (read_player_damage (damage_payload 40960 0x41a0_0000))
        ≡ some 0x41a0_0000)
    × ((alive : Bool)
        → host_game.players.published ≢ 40960
        → host_game.players.published ≢ invalid_id
        → on_wire_damage host_game.players alive
            (read_player_damage (damage_payload 40960 0x41a0_0000))
          ≡ none)
on_wire_damage-addressed_example =
    on_wire_damage-addressed host_game.players 40960 0x41a0_0000 (omega arith) twenty
