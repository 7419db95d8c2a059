-- ===== src/Handshake/Delivered.antt =====
-- A Join arrives as it was sent: the id and the nickname of its payload.
use votv_mp.Base.{
  ℕ, ◌<◌, ◌≡◌, ◌⊎◌, refl, ap, sym, subst, true, false, ◌&&◌, List, leb, if◌then◌else◌, length, All,
  inl, inr, Bool-cases, ltb, drop, not, ◌==◌,
}
use votv_mp.ElementId.{max_peers, is_allowed_sender_eid}
use votv_mp.Players.{Players}
use votv_mp.Players.Established.{Outcome}
use votv_mp.Protocol.{u32_at}
use votv_mp.Session.{Gns, Session, ReliableMessage, is_host}
use votv_mp.Session.Quiet.{Quiet, Quiet-refl}
use votv_mp.Handshake.Audience.{broadcast_player_joined-session}
use votv_mp.Handshake.Nickname.{sanitize_nickname}
use votv_mp.Handshake.{
  Codec, Game, read_nick, store_nick, toast, is_set, install_sender, handle_join_message, joined,
  joined_game_of, establish, Shown,
}

abbrev pub Ascii : ℕ → Type 0
Ascii c = c < 128

-- UTF-8 leaves an ASCII string as it is, in both directions.
abbrev pub AsciiSame : Codec → Type 0
AsciiSame c = (s : List ℕ) → All Ascii s → (c.wide_to_multi s ≡ s) × (c.multi_to_wide s ≡ s)

-- Installing the sender's mirror changes the players only.
pub install_sender-players :
    (w : Game) (slot eid p : ℕ)
    → install_sender w slot eid p ≡ (record w { players = (install_sender w slot eid p).players })
unfolding install_sender establish
install_sender-players w slot eid p = elim (Bool-cases (not (is_set eid))) [
  | inl unset ↦ rw unset refl
  | inr set ↦ elim (Bool-cases (not (is_allowed_sender_eid (slot == 0) eid))) [
    | inl forged ↦ rw (set, forged) refl
    | inr allowed ↦ rw (set, allowed) refl
  ]
]

-- What a Join leaves beside the session: the sender's mirror, its nickname, and a toast.
abbrev pub greeting : Game → List ℕ → Shown
greeting w nick = if is_host w.session.role then joined nick else joined_game_of nick

abbrev pub greeted : Codec → Game → ReliableMessage → ℕ → Game
greeted c w m p =
    let nick =
      sanitize_nickname
        (read_nick c (w.remote_nick_by_slot m.sender_peer_slot) (drop 4 m.payload)) in
    toast (greeting w nick) (
      store_nick (install_sender w m.sender_peer_slot (u32_at m.payload 0) p) m.sender_peer_slot
        nick)

greeted-session :
    (c : Codec) (w : Game) (m : ReliableMessage) (p : ℕ) → (greeted c w m p).session ≡ w.session
unfolding toast store_nick
greeted-session c w m p =
    ap (λ v. v.session) (install_sender-players w m.sender_peer_slot (u32_at m.payload 0) p)

-- An accepted Join: the greeting, and sends.
pub handle_join_message-greeted :
    (c : Codec) (g : Gns) (w : Game) (m : ReliableMessage) (p : ℕ)
    → leb max_peers m.sender_peer_slot ≡ false
    → ltb (length m.payload) 4 ≡ false
    → (s : Session) × (Quiet w.session s
        × (handle_join_message c g w m p ≡ (record (greeted c w m p) { session = s })))
unfolding handle_join_message
handle_join_message-greeted c g w m p slot size =
    elim (Bool-cases (is_host w.session.role && is_set (u32_at m.payload 0))) [
      | inr away ↦
          rw (slot, size, away)
            (
              w.session,
              (
                Quiet-refl w.session,
                ap (λ s. record (greeted c w m p) { session = s }) (greeted-session c w m p),
              ),
            )
      | inl host ↦
          let (s, (q, e)) =
            broadcast_player_joined-session c g (greeted c w m p) m.sender_peer_slot
              (u32_at m.payload 0)
              (sanitize_nickname
                (read_nick c (w.remote_nick_by_slot m.sender_peer_slot) (drop 4 m.payload))) in
          rw (slot, size, host) (s, (subst (λ r. Quiet r s) (greeted-session c w m p) q, e))
    ]

-- Every Join leaves the slot table, the inbox and the stored poses of the session as they are.
pub handle_join_message-Quiet :
    (c : Codec) (g : Gns) (w : Game) (m : ReliableMessage) (p : ℕ)
    → Quiet w.session (handle_join_message c g w m p).session
handle_join_message-Quiet c g w m p = elim (Bool-cases (leb max_peers m.sender_peer_slot)) [
  | inl out ↦ unfold handle_join_message in rw out (Quiet-refl w.session)
  | inr slot ↦ elim (Bool-cases (ltb (length m.payload) 4)) [
    | inl short ↦ unfold handle_join_message in rw (slot, short) (Quiet-refl w.session)
    | inr size ↦
        let (s, (q, e)) = handle_join_message-greeted c g w m p slot size in
        subst (λ v. Quiet w.session v.session) (sym e) q
  ]
]

-- The sender's mirror after its Join, or players that are as they were.
abbrev pub Installed : Players → Players → ℕ → ℕ → Type 0
Installed s t slot eid =
    ((is_allowed_sender_eid (slot == 0) eid ≡ true) × Outcome s t slot eid)
    ⊎ ((is_allowed_sender_eid (slot == 0) eid ≡ false) × (t ≡ s))
