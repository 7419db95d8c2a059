-- ===== src/Feed.antt =====
-- coop/event_feed.cpp: the connect and disconnect edges of the slots, and the reading of the reliable
-- messages, each handed to the handshake or past a gate to the engine side. The pings that Update
-- writes on the nameplates are left out.
pub mod Payloads
pub mod Gates
pub mod Trusted
pub mod HostOnly
pub mod AnyPeer
pub mod Dispatched
pub mod Emptied
pub mod Served
pub mod Peers
pub mod Tended
pub mod Sound
pub mod Reach
use votv_mp.Base.{
  ℕ, zero, suc, Bool, true, false, not, ◌&&◌, Option, none, some, List, [], ◌∷◌, ◌==◌,
  if◌then◌else◌, length, update,
}
use votv_mp.Session.{
  Gns, Session, ReliableMessage, all_slots, is_host, is_slot_connected, is_slot_ready,
}
use votv_mp.Session.Receive.{try_get_reliable}
use votv_mp.Protocol.Kind
use votv_mp.Handshake.{
  Codec, Game, left_game, toast, reset, maybe_send_join_to_slot, on_slot_disconnected,
  nickname_for_slot, handle_join_message, handle_player_joined, handle_assign_peer_slot,
}
use votv_mp.Feed.Gates.{
  Action, gate_prop_release, gate_prop_spawn, gate_prop_destroy, gate_entity_spawn,
  gate_entity_destroy, gate_restore_vitals, gate_player_damage, gate_teleport_client,
  gate_item_activate, gate_red_sky, gate_lightning_strike, gate_weather_state,
}

-- The actions are those that the feed has let through, the latest first.
pub record Feed : Type 0 where
  pub game : Game
  pub last_connected_by_slot : ℕ → Bool
  pub actions : List Action

-- Two addresses for the elements that a message makes the process allocate.
pub record Fresh : Type 0 where
  pub first : ℕ
  pub second : ℕ

unfoldable pub on_session_start : Feed → Feed
on_session_start f = record f { last_connected_by_slot = λ i. false; game = reset f.game }

-- The disconnect edge of a slot: the toast and the cleanup.
unfoldable pub say_left : Feed → ℕ → Game
say_left f slot =
    if f.last_connected_by_slot slot && not (is_slot_connected f.game.session slot)
    then on_slot_disconnected (toast (left_game (nickname_for_slot f.game slot)) f.game) slot
    else f.game

-- One turn of the loop over the slots, with the Join payload built so far.
unfoldable pub tend_slot : Codec → Gns → ℕ → Feed × Option (List ℕ) → Feed × Option (List ℕ)
tend_slot c g slot (f, built) =
    let w = say_left f slot in
    let sent =
      if is_slot_ready f.game.session slot
      then maybe_send_join_to_slot c g w slot built
      else (w, built) in
    (
      record f {
        game = sent.0;
        last_connected_by_slot =
            update f.last_connected_by_slot slot (is_slot_connected f.game.session slot);
      },
      sent.1,
    )

unfoldable pub tend_slots : Codec → Gns → List ℕ → Feed × Option (List ℕ) → Feed × Option (List ℕ)
tend_slots c g [] r = r
tend_slots c g (slot ∷ slots) r = tend_slots c g slots (tend_slot c g slot r)

abbrev pub perform : Option Action → Feed → Feed
perform none f = f
perform (some a) f = record f { actions = a ∷ f.actions }

-- The switch.
unfoldable pub dispatch : Codec → Gns → Fresh → Feed → ReliableMessage → Feed
dispatch c g new f m =
    let on_host = is_host f.game.session.role in
    if m.kind == Kind.join
    then record f { game = handle_join_message c g f.game m new.first }
    else if m.kind == Kind.prop_release
    then perform (gate_prop_release m) f
    else if m.kind == Kind.prop_spawn
    then perform (gate_prop_spawn m) f
    else if m.kind == Kind.prop_destroy
    then perform (gate_prop_destroy m) f
    else if m.kind == Kind.entity_spawn
    then perform (gate_entity_spawn m) f
    else if m.kind == Kind.entity_destroy
    then perform (gate_entity_destroy m) f
    else if m.kind == Kind.restore_vitals
    then perform (gate_restore_vitals m) f
    else if m.kind == Kind.player_damage
    then perform (gate_player_damage m) f
    else if m.kind == Kind.teleport_client
    then perform (gate_teleport_client on_host m) f
    else if m.kind == Kind.item_activate
    then perform (gate_item_activate f.game.players m) f
    else if m.kind == Kind.red_sky
    then perform (gate_red_sky on_host m) f
    else if m.kind == Kind.lightning_strike
    then perform (gate_lightning_strike on_host m) f
    else if m.kind == Kind.weather_state
    then perform (gate_weather_state on_host m) f
    else if m.kind == Kind.assign_peer_slot
    then record f { game = handle_assign_peer_slot f.game m new.first new.second }
    else if m.kind == Kind.player_joined
    then record f { game = handle_player_joined c f.game m new.first }
    else f

-- The session inside the feed.
abbrev pub with_session : Feed → Session → Feed
with_session f s = record f { game = record f.game { session = s } }

-- What the net thread does to the session before the next read, by turn; nothing after the last.
abbrev pub Net : Type 0
Net = List (Session → Session)

abbrev pub net_turn : Net → Session → Session
net_turn [] s = s
net_turn (n ∷ net) s = n s

abbrev pub later : Net → Net
later [] = []
later (n ∷ net) = net

-- `while (session.TryGetReliable(msg))`, on fuel: `none` if the loop has not ended. The addresses are
-- by the turn.
unfoldable pub drain : Codec → Gns → (ℕ → Fresh) → Net → ℕ → Feed → Option Feed
drain c g new net zero f = none
drain c g new net (suc fuel) f =
    let r = try_get_reliable (net_turn net f.game.session) in
    elim r.1 [
      | none ↦ some (with_session f r.0)
      | some m ↦
          drain c g (λ n. new (suc n)) (later net) fuel
            (dispatch c g (new zero) (with_session f r.0) m)
    ]

unfoldable pub update_feed : Codec → Gns → (ℕ → Fresh) → Net → ℕ → Feed → Option Feed
update_feed c g new net fuel f = drain c g new net fuel (tend_slots c g all_slots (f, none)).0
