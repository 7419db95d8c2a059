-- ===== src/Examples/Handshake/World.antt =====
-- The games of the examples.
use votv_mp.Base.{ℕ, refl, false, List, [], ◌∷◌, arith}
use votv_mp.Players.Mirrored.{vacant_players}
use votv_mp.Session.{ReliableMessage, client}
use votv_mp.Handshake.{Codec, Game, placeholder}
use votv_mp.Handshake.Nickname.{default_nick}
use votv_mp.Handshake.Text.{Displayable}
use votv_mp.Examples.Players.{bare}
use votv_mp.Examples.Session.State.{sample}

-- A conversion that knows ASCII only.
abbrev pub ascii : Codec
ascii = record { wide_to_multi = λ s. s; multi_to_wide = λ s. s }

abbrev pub host_game : Game
host_game = record {
  session = sample;
  players = vacant_players bare;
  local_nick = default_nick;
  remote_nick_by_slot = λ i. placeholder;
  join_sent_by_slot = λ i. false;
  shown = [];
}

abbrev pub client_game : Game
client_game = record host_game { session = record sample { role = client } }

abbrev pub ann : List ℕ
ann = 65 ∷ 110 ∷ 110 ∷ []

pub ann-Displayable : Displayable ann
ann-Displayable = record {
  printable = (refl, (refl, (refl, tt)));
  spaced = ground arith;
  begun = ground arith;
  ended = refl;
  short = omega arith;
  shown = omega arith;
}

abbrev pub message : ℕ → ℕ → List ℕ → ReliableMessage
message kind slot payload = record { kind = kind; sender_peer_slot = slot; payload = payload }
