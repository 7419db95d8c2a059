-- ===== src/Handshake.antt =====
-- coop/player_handshake.cpp: the nicknames of the peers, the Join of each connection, and the three
-- handlers that install a peer's identity. The two Win32 conversions are a parameter.
-- A wide string is a list of code units; what the HUD and the nameplates show is a list, the latest
-- first.
pub mod Nickname
pub mod Text
pub mod Collapsed
pub mod Displayable
pub mod Unchanged
pub mod Audience
pub mod Delivered
pub mod Trust
pub mod Credited
pub mod Assigned
pub mod Received
use votv_mp.Base.{
  ℕ, ◌+◌, ◌%◌, Bool, true, false, not, ◌&&◌, ◌||◌, Option, none, some, List, [], ◌∷◌, ◌++◌, leb,
  ltb, ◌==◌, if◌then◌else◌, length, take, drop, update,
}
use votv_mp.ElementId.{
  invalid_id, max_peers, peer_id_host, is_allowed_host_allocated_eid, is_allowed_peer_allocated_eid,
  is_allowed_sender_eid,
}
use votv_mp.Registry.{Element}
use votv_mp.Players.{Players, set_local_peer_id, establish_mirror_for_slot, seated_element}
use votv_mp.Protocol.{byte_at, u32_at, u32_bytes}
use votv_mp.Protocol.Kind
use votv_mp.Session.{
  Gns, Session, ReliableMessage, client_slots, is_host, is_slot_ready, send_reliable_to_slot,
}
use votv_mp.Handshake.Nickname.{sanitize_nickname, default_nick}

-- WideCharToMultiByte and MultiByteToWideChar, for a string that is not empty.
pub record Codec : Type 0 where
  pub wide_to_multi : List ℕ → List ℕ
  pub multi_to_wide : List ℕ → List ℕ

abbrev pub to_utf8 : Codec → List ℕ → List ℕ
to_utf8 c [] = []
to_utf8 c (x ∷ w) = c.wide_to_multi (x ∷ w)

abbrev pub from_utf8 : Codec → List ℕ → List ℕ
from_utf8 c [] = []
from_utf8 c (b ∷ bytes) = c.multi_to_wide (b ∷ bytes)

-- The three toasts, and a nameplate's text on a puppet.
pub data Shown : Type 0 where
  joined : List ℕ → Shown
  joined_game_of : List ℕ → Shown
  left_game : List ℕ → Shown
  nameplate : ℕ → List ℕ → Shown

pub record Game : Type 0 where
  pub session : Session
  pub players : Players
  pub local_nick : List ℕ
  pub remote_nick_by_slot : ℕ → List ℕ
  pub join_sent_by_slot : ℕ → Bool
  pub shown : List Shown

-- L"Remote player"
abbrev pub placeholder : List ℕ
placeholder = 82 ∷ 101 ∷ 109 ∷ 111 ∷ 116 ∷ 101 ∷ 32 ∷ 112 ∷ 108 ∷ 97 ∷ 121 ∷ 101 ∷ 114 ∷ []

abbrev pub set_local_nickname : Game → List ℕ → Game
set_local_nickname w [] = w
set_local_nickname w (c ∷ nick) = record w { local_nick = sanitize_nickname (c ∷ nick) }

unfoldable pub reset : Game → Game
reset w = record w { remote_nick_by_slot = λ i. placeholder; join_sent_by_slot = λ i. false }

-- [uint8 nicklen][nick UTF-8], at most 200 bytes of it
unfoldable pub nick_bytes : Codec → List ℕ → List ℕ
nick_bytes c nick = let bytes = take 200 (to_utf8 c nick) in (length bytes % 256) ∷ bytes

unfoldable pub join_payload : Codec → ℕ → List ℕ → List ℕ
join_payload c eid nick = u32_bytes eid ++ nick_bytes c nick

abbrev pub or_build : Option (List ℕ) → List ℕ → List ℕ
or_build none payload = payload
or_build (some built) payload = built

-- The payload is built by the first slot that needs it, and passed on to the next.
unfoldable pub maybe_send_join_to_slot :
    Codec → Gns → Game → ℕ → Option (List ℕ) → Game × Option (List ℕ)
maybe_send_join_to_slot c g w slot built =
    if leb max_peers slot
    then (w, built)
    else if w.join_sent_by_slot slot
    then (w, built)
    else if w.players.published == invalid_id
    then (w, built)
    else let payload = or_build built (join_payload c w.players.published w.local_nick) in
      let r = send_reliable_to_slot g w.session slot Kind.join payload 0 in
      (
        record w {
          session = r.0;
          join_sent_by_slot =
              if r.1 then update w.join_sent_by_slot slot true else w.join_sent_by_slot;
        },
        some payload,
      )

unfoldable pub on_slot_disconnected : Game → ℕ → Game
on_slot_disconnected w slot = if leb max_peers slot then w else record w {
  join_sent_by_slot = update w.join_sent_by_slot slot false;
  remote_nick_by_slot = update w.remote_nick_by_slot slot [];
}

unfoldable pub nickname_for_slot : Game → ℕ → List ℕ
nickname_for_slot w slot = if leb max_peers slot then placeholder else w.remote_nick_by_slot slot

-- The nickname behind a prefix, or the one stored before.
abbrev pub read_nick : Codec → List ℕ → List ℕ → List ℕ
read_nick c stored [] = stored
read_nick c stored (len ∷ bytes) =
    if leb (1 + len) (1 + length bytes) && leb 1 len then from_utf8 c (take len bytes) else stored

abbrev pub nameplate_on : Option ℕ → List ℕ → List Shown → List Shown
nameplate_on none nick shown = shown
nameplate_on (some puppet) nick shown = nameplate puppet nick ∷ shown

-- The nickname is stored, and labels the puppet of the slot if there is one.
unfoldable pub store_nick : Game → ℕ → List ℕ → Game
store_nick w slot nick = record w {
  remote_nick_by_slot = update w.remote_nick_by_slot slot nick;
  shown = nameplate_on (w.players.puppet_by_peer slot) nick w.shown;
}

unfoldable pub toast : Shown → Game → Game
toast message w = record w { shown = message ∷ w.shown }

unfoldable pub establish : Game → ℕ → ℕ → ℕ → Game
establish w slot eid p = record w { players = (establish_mirror_for_slot w.players slot eid p).0 }

abbrev pub is_set : ℕ → Bool
is_set eid = not (eid == 0) && not (eid == invalid_id)

unfoldable pub player_joined_payload : Codec → ℕ → ℕ → List ℕ → List ℕ
player_joined_payload c slot eid nick = (slot % 256) ∷ (u32_bytes eid ++ nick_bytes c nick)

-- The first loop: the joiner, to every other client that is ready.
unfoldable pub announce_joiner : Gns → ℕ → List ℕ → List ℕ → Session → Session
announce_joiner g joiner payload [] s = s
announce_joiner g joiner payload (x ∷ slots) s = announce_joiner g joiner payload slots (
    if x == joiner
    then s
    else if not (is_slot_ready s x)
    then s
    else (send_reliable_to_slot g s x Kind.player_joined payload 0).0)

abbrev pub known_id : Option Element → Option ℕ
known_id none = none
known_id (some e) = if e.mirror then some e.id else none

-- The second loop: every other ready client whose mirror is installed, to the joiner.
unfoldable pub describe_known : Codec → Gns → Game → ℕ → List ℕ → Session → Session
describe_known c g w joiner [] s = s
describe_known c g w joiner (x ∷ slots) s = describe_known c g w joiner slots (
    if x == joiner
    then s
    else if not (is_slot_ready s x)
    then s
    else elim (known_id (seated_element w.players x)) [
      | none ↦ s
      | some eid ↦
          (send_reliable_to_slot g s joiner Kind.player_joined
            (player_joined_payload c x eid (nickname_for_slot w x)) 0).0
    ])

unfoldable pub broadcast_player_joined_from_host : Codec → Gns → Game → ℕ → ℕ → List ℕ → Game
broadcast_player_joined_from_host c g w joiner eid nick =
    if not (is_host w.session.role)
    then w
    else if ltb joiner 1 || leb max_peers joiner
    then w
    else record w {
      session = describe_known c g w joiner client_slots (
          announce_joiner g joiner (player_joined_payload c joiner eid nick) client_slots
            w.session);
    }

-- The mirror of a Join's sender is installed if the id fits the sender's role.
unfoldable pub install_sender : Game → ℕ → ℕ → ℕ → Game
install_sender w slot eid p =
    if not (is_set eid)
    then w
    else if not (is_allowed_sender_eid (slot == 0) eid)
    then w
    else establish w slot eid p

unfoldable pub handle_join_message : Codec → Gns → Game → ReliableMessage → ℕ → Game
handle_join_message c g w m p =
    if leb max_peers m.sender_peer_slot
    then w
    else if ltb (length m.payload) 4
    then w
    else let slot = m.sender_peer_slot in
      let eid = u32_at m.payload 0 in
      let nick = sanitize_nickname (read_nick c (w.remote_nick_by_slot slot) (drop 4 m.payload)) in
      let named = store_nick (install_sender w slot eid p) slot nick in
      let told =
        toast (if is_host w.session.role then joined nick else joined_game_of nick) named in
      if is_host w.session.role && is_set eid
      then broadcast_player_joined_from_host c g told slot eid nick
      else told

unfoldable pub handle_player_joined : Codec → Game → ReliableMessage → ℕ → Game
handle_player_joined c w m p =
    if is_host w.session.role
    then w
    else if not (m.sender_peer_slot == 0)
    then w
    else if ltb (length m.payload) 6
    then w
    else let slot = byte_at m.payload 0 in
      let eid = u32_at m.payload 1 in
      if ltb slot 1 || leb max_peers slot
      then w
      else if slot == w.players.local_peer_id
      then w
      else if not (is_allowed_peer_allocated_eid eid)
      then w
      else let nick =
          sanitize_nickname (read_nick c (w.remote_nick_by_slot slot) (drop 5 m.payload)) in
        toast (joined nick) (store_nick (establish w slot eid p) slot nick)

-- The addresses are those of the local player's element and of the host's mirror, if they are made.
unfoldable pub handle_assign_peer_slot : Game → ReliableMessage → ℕ → ℕ → Game
handle_assign_peer_slot w m p q =
    if ltb (length m.payload) 8
    then w
    else if is_host w.session.role
    then w
    else if not (m.sender_peer_slot == 0)
    then w
    else let slot = byte_at m.payload 0 in
      let eid = u32_at m.payload 4 in
      if ltb slot 1 || leb max_peers slot
      then w
      else let seated = record w { players = set_local_peer_id w.players slot p } in
        if is_set eid
        then if not (is_allowed_host_allocated_eid eid)
          then seated
          else establish seated peer_id_host eid q
        else seated
