-- ===== src/Examples/Handshake.antt =====
-- A host that meets a joiner, and a client that is told about others.
pub mod World
use votv_mp.Base.{◌≡◌, ◌≢◌, ◌⊎◌, refl, true, false, some, List, [], ◌∷◌, arith, inl, inr}
use votv_mp.Registry.{alloc_local_id}
use votv_mp.Session.{ReliableMessage}
use votv_mp.Handshake.{
  Game, join_payload, broadcast_player_joined_from_host, handle_assign_peer_slot, install_sender,
}
use votv_mp.Handshake.Nickname.{sanitize_nickname}
use votv_mp.Handshake.Text.{Displayable}
use votv_mp.Handshake.Displayable.{sanitize_nickname-Displayable}
use votv_mp.Handshake.Unchanged.{sanitize_nickname_same}
use votv_mp.Handshake.Audience.{letters, post_all, broadcast_player_joined-letters}
use votv_mp.Handshake.Assigned.{Assigns, Assigned, handle_assign_peer_slot-credited}
use votv_mp.Players.{set_local_peer_id}
use votv_mp.Protocol.{byte_at, u32_at}
use votv_mp.Examples.Session.State.{gns, sample}
use votv_mp.Examples.Handshake.World.{ascii, host_game, client_game, ann, ann-Displayable, message}

-- A tab, a hyphen, a space and a letter.
sanitize_nickname-Displayable_example : Displayable (sanitize_nickname (9 ∷ 45 ∷ 32 ∷ 97 ∷ []))
sanitize_nickname-Displayable_example = sanitize_nickname-Displayable (9 ∷ 45 ∷ 32 ∷ 97 ∷ [])

sanitize_nickname_same_example : sanitize_nickname ann ≡ ann
sanitize_nickname_same_example = sanitize_nickname_same ann ann-Displayable (ground arith)

-- A hyphen before a space: the trimmed nickname begins with the space.
hyphen_then_space : sanitize_nickname (45 ∷ 32 ∷ 97 ∷ []) ≡ 32 ∷ 97 ∷ []
unfolding sanitize_nickname
hyphen_then_space = refl

abbrev anns_join : ReliableMessage
anns_join = message 1 1 (join_payload ascii 40960 ann)

broadcast_player_joined-letters_example :
    broadcast_player_joined_from_host ascii gns host_game 1 40960 ann
    ≡ (record host_game { session = post_all gns (letters ascii host_game 1 40960 ann) sample })
broadcast_player_joined-letters_example =
    broadcast_player_joined-letters ascii gns host_game 1 40960 ann refl refl

-- The host describes slot 2, whose id is 49152.
abbrev about_two : ReliableMessage
about_two = message 19 0 (2 ∷ 0 ∷ 192 ∷ 0 ∷ 0 ∷ 3 ∷ ann)

-- The host gives slot 3, and has the id 5.
abbrev our_slot : ReliableMessage
our_slot = message 18 0 (3 ∷ 0 ∷ 0 ∷ 0 ∷ 5 ∷ 0 ∷ 0 ∷ 0 ∷ [])

handle_assign_peer_slot-credited_example :
    ((handle_assign_peer_slot client_game our_slot 8 9 ≡ client_game)
      × ¬ Assigns client_game our_slot)
    ⊎ (Assigned client_game our_slot
          (set_local_peer_id client_game.players 3 8)
          (handle_assign_peer_slot client_game our_slot 8 9)
        × Assigns client_game our_slot)
handle_assign_peer_slot-credited_example = handle_assign_peer_slot-credited client_game our_slot 8 9
