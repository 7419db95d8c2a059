-- ===== src/Feed/Dispatched.antt =====
-- What one message makes the feed do.
use votv_mp.Base.{◌≡◌, refl, Option, none, some, ◌∷◌, ◌==◌, either_branch}
use votv_mp.Session.{Gns, ReliableMessage, is_host}
use votv_mp.Protocol.Kind
use votv_mp.Handshake.{Codec, handle_join_message, handle_player_joined, handle_assign_peer_slot}
use votv_mp.Feed.Gates.{Action}
use votv_mp.Feed.Trusted.{Trusted, Passes}
use votv_mp.Feed.HostOnly.{
  gate_entity_spawn-Trusted, gate_entity_destroy-Trusted, gate_restore_vitals-Trusted,
  gate_player_damage-Trusted, gate_teleport_client-Trusted, gate_red_sky-Trusted,
  gate_lightning_strike-Trusted, gate_weather_state-Trusted,
}
use votv_mp.Feed.AnyPeer.{
  gate_prop_release-Trusted, gate_prop_spawn-Trusted, gate_prop_destroy-Trusted,
  gate_item_activate-Trusted,
}
use votv_mp.Feed.{Feed, Fresh, perform, dispatch}

-- The feed after a message: one of the three handlers of the handshake ran, or the game is as it was
-- and at most one action was added, which is trusted.
pub data Reaction (c : Codec) (g : Gns) (new : Fresh) (f : Feed) (m : ReliableMessage) (t : Feed)
    : Type 0 where
  greets :
      t ≡ (record f { game = handle_join_message c g f.game m new.first }) → Reaction c g new f m t
  assigns :
      t ≡ (record f { game = handle_assign_peer_slot f.game m new.first new.second })
      → Reaction c g new f m t
  introduces :
      t ≡ (record f { game = handle_player_joined c f.game m new.first }) → Reaction c g new f m t
  ignores : t ≡ f → Reaction c g new f m t
  acts :
      (a : Action)
      → Trusted (is_host f.game.session.role) f.game.players m a
      → t ≡ (record f { actions = a ∷ f.actions })
      → Reaction c g new f m t

performed :
    (c : Codec) (g : Gns) (new : Fresh) (f : Feed) (m : ReliableMessage) (o : Option Action)
    → Passes (Trusted (is_host f.game.session.role) f.game.players m) o
    → Reaction c g new f m (perform o f)
performed c g new f m none h = ignores refl
performed c g new f m (some a) h = acts a h refl

-- Whatever message the feed reads: it runs a handler of the handshake and asks nothing of the engine
-- side, or it leaves the players, the nicknames and the session as they are and asks for at most one
-- action, which is as follows, by its kind. A prop's release, and a prop's spawn: it carries the
-- sender's slot, which is below 4 for a release; velocities are finite and limited; a spawn's id is
-- one that the sender may allocate, its place is finite and limited, its rotation and scale are
-- finite, and its class name and key fit their fields. A prop's destruction: its id is one that the
-- sender may allocate and its key fits. Spawn and destruction of an entity, vitals and damage: the
-- sender is the host, and the class name of an entity fits. A teleport: a client has it from the
-- host, to a finite and limited place with a finite rotation. An item: its sender id is unset or one
-- that the sender may allocate, and not this peer's own; its slot is below 4, its state and flags at
-- most 1, and its light is finite and limited. Sky, lightning and weather: a client has it from the
-- host, a sender id is unset or a host id, a sky's state is at most 1, and a strike's place and the
-- strengths and chances of the weather are finite and limited.
pub dispatch-Reaction :
    (c : Codec) (g : Gns) (new : Fresh) (f : Feed) (m : ReliableMessage)
    → Reaction c g new f m (dispatch c g new f m)
unfolding dispatch
dispatch-Reaction c g new f m =
    let P : Feed → Type 0 = λ t. Reaction c g new f m t in
    let h = is_host f.game.session.role in
    let s = f.game.players in
    either_branch (m.kind == Kind.join) P _ _ (greets refl) (
      either_branch (m.kind == Kind.prop_release) P _ _
        (performed c g new f m _ (gate_prop_release-Trusted h s m))
        (either_branch (m.kind == Kind.prop_spawn) P _ _
          (performed c g new f m _ (gate_prop_spawn-Trusted h s m))
          (either_branch (m.kind == Kind.prop_destroy) P _ _
            (performed c g new f m _ (gate_prop_destroy-Trusted h s m))
            (either_branch (m.kind == Kind.entity_spawn) P _ _
              (performed c g new f m _ (gate_entity_spawn-Trusted h s m))
              (either_branch (m.kind == Kind.entity_destroy) P _ _
                (performed c g new f m _ (gate_entity_destroy-Trusted h s m))
                (either_branch (m.kind == Kind.restore_vitals) P _ _
                  (performed c g new f m _ (gate_restore_vitals-Trusted h s m))
                  (either_branch (m.kind == Kind.player_damage) P _ _
                    (performed c g new f m _ (gate_player_damage-Trusted h s m))
                    (either_branch (m.kind == Kind.teleport_client) P _ _
                      (performed c g new f m _ (gate_teleport_client-Trusted h s m))
                      (either_branch (m.kind == Kind.item_activate) P _ _
                        (performed c g new f m _ (gate_item_activate-Trusted h s m))
                        (either_branch (m.kind == Kind.red_sky) P _ _
                          (performed c g new f m _ (gate_red_sky-Trusted h s m))
                          (either_branch (m.kind == Kind.lightning_strike) P _ _
                            (performed c g new f m _ (gate_lightning_strike-Trusted h s m))
                            (either_branch (m.kind == Kind.weather_state) P _ _
                              (performed c g new f m _ (gate_weather_state-Trusted h s m))
                              (either_branch (m.kind == Kind.assign_peer_slot) P _ _ (assigns refl)
                                (either_branch (m.kind == Kind.player_joined) P _ _
                                  (introduces refl) (ignores refl)))))))))))))))
