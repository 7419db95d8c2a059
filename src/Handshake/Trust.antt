-- ===== src/Handshake/Trust.antt =====
-- What peers can make this process show, and whom it believes: for every operation of the handshake.
use votv_mp.Base.{
  ℕ, ◌≡◌, ◌⊎◌, refl, sym, subst, Option, none, some, List, [], ◌∷◌, leb, ltb, ◌==◌, length, arith,
  All, update, inl, inr, Bool-cases, drop,
}
use votv_mp.ElementId.{max_peers}
use votv_mp.Players.{Players}
use votv_mp.Protocol.{u32_at}
use votv_mp.Session.{Gns, ReliableMessage, is_host}
use votv_mp.Handshake.Nickname.{sanitize_nickname, default_nick}
use votv_mp.Handshake.Text.{Displayable}
use votv_mp.Handshake.Displayable.{sanitize_nickname-Displayable}
use votv_mp.Handshake.Delivered.{handle_join_message-greeted, install_sender-players, greeting}
use votv_mp.Handshake.{
  Codec, Game, Shown, joined, joined_game_of, left_game, nameplate, placeholder, set_local_nickname,
  reset, maybe_send_join_to_slot, on_slot_disconnected, read_nick, nameplate_on, store_nick, toast,
  establish, install_sender, handle_join_message, nickname_for_slot,
}

-- A departed peer's nickname is empty until the next Join.
abbrev pub Named : List ℕ → Type 0
Named nick = Displayable nick ⊎ (nick ≡ [])

abbrev pub CleanText : Shown → Type 0
CleanText (joined nick) = Displayable nick
CleanText (joined_game_of nick) = Displayable nick
CleanText (left_game nick) = Named nick
CleanText (nameplate puppet nick) = Displayable nick

pub record Clean (w : Game) : Type 0 where
  pub own : Displayable w.local_nick
  pub nicks : (i : ℕ) → Named (w.remote_nick_by_slot i)
  pub texts : All CleanText w.shown

pub placeholder-Displayable : Displayable placeholder
placeholder-Displayable = record {
  printable = (
    refl,
    (
      refl,
      (refl, (refl, (refl, (refl, (refl, (refl, (refl, (refl, (refl, (refl, (refl, tt))))))))))),
    ),
  );
  spaced = ground arith;
  begun = ground arith;
  ended = refl;
  short = omega arith;
  shown = omega arith;
}

pub default_nick-Displayable : Displayable default_nick
default_nick-Displayable = record {
  printable = (refl, (refl, (refl, (refl, (refl, (refl, tt))))));
  spaced = ground arith;
  begun = ground arith;
  ended = refl;
  short = omega arith;
  shown = omega arith;
}

pub set_local_nickname-Clean :
    (w : Game) (nick : List ℕ) → Clean w → Clean (set_local_nickname w nick)
set_local_nickname-Clean w [] v = v
set_local_nickname-Clean w (c ∷ nick) v = record {
  own = sanitize_nickname-Displayable (c ∷ nick);
  nicks = v.nicks;
  texts = v.texts;
}

pub reset-Clean : (w : Game) → Clean w → Clean (reset w)
unfolding reset
reset-Clean w v = record { own = v.own; nicks = λ i. inl placeholder-Displayable; texts = v.texts }

pub maybe_send_join_to_slot-Clean :
    (c : Codec) (g : Gns) (w : Game) (slot : ℕ) (built : Option (List ℕ))
    → Clean w
    → Clean (maybe_send_join_to_slot c g w slot built).0
unfolding maybe_send_join_to_slot
maybe_send_join_to_slot-Clean c g w slot built v = ground (arith, v.own, v.nicks, v.texts)

update-Named :
    (nicks : ℕ → List ℕ) (slot : ℕ) (nick : List ℕ)
    → Named nick
    → ((i : ℕ) → Named (nicks i))
    → (i : ℕ) → Named (update nicks slot nick i)
update-Named nicks slot nick n h i = elim (Bool-cases (i == slot)) [
  | inl y ↦ rw y n
  | inr z ↦ rw z (h i)
]

pub on_slot_disconnected-Clean :
    (w : Game) (slot : ℕ) → Clean w → Clean (on_slot_disconnected w slot)
unfolding on_slot_disconnected
on_slot_disconnected-Clean w slot v = elim (Bool-cases (leb max_peers slot)) [
  | inl out ↦ rw out v
  | inr inside ↦ rw inside (record {
    own = v.own;
    nicks = update-Named w.remote_nick_by_slot slot [] (inr refl) v.nicks;
    texts = v.texts;
  })
]

pub nickname_for_slot-Named : (w : Game) (slot : ℕ) → Clean w → Named (nickname_for_slot w slot)
unfolding nickname_for_slot
nickname_for_slot-Named w slot v = elim (Bool-cases (leb max_peers slot)) [
  | inl out ↦ rw out (inl placeholder-Displayable)
  | inr inside ↦ rw inside (v.nicks slot)
]

pub toast-Clean :
    (w : Game) (message : Shown) → CleanText message → Clean w → Clean (toast message w)
unfolding toast
toast-Clean w message h v = record { own = v.own; nicks = v.nicks; texts = (h, v.texts) }

pub store_nick-Clean :
    (w : Game) (slot : ℕ) (nick : List ℕ)
    → Displayable nick
    → Clean w
    → Clean (store_nick w slot nick)
unfolding store_nick
store_nick-Clean w slot nick d v = record {
  own = v.own;
  nicks = update-Named w.remote_nick_by_slot slot nick (inl d) v.nicks;
  texts = labelled (w.players.puppet_by_peer slot);
}
  where
    labelled : (puppet : Option ℕ) → All CleanText (nameplate_on puppet nick w.shown)
    labelled none = v.texts
    labelled (some p) = (d, v.texts)

-- Only the players differ.
pub players-Clean : (w : Game) (ps : Players) → Clean w → Clean (record w { players = ps })
players-Clean w ps v = record { own = v.own; nicks = v.nicks; texts = v.texts }

pub establish-Clean : (w : Game) (slot eid p : ℕ) → Clean w → Clean (establish w slot eid p)
unfolding establish
establish-Clean w slot eid p v = players-Clean w _ v

greeting-Clean : (w : Game) (nick : List ℕ) → Displayable nick → CleanText (greeting w nick)
greeting-Clean w nick d = elim (Bool-cases (is_host w.session.role)) [
  | inl h ↦ rw h d
  | inr n ↦ rw n d
]

pub handle_join_message-Clean :
    (c : Codec) (g : Gns) (w : Game) (m : ReliableMessage) (p : ℕ)
    → Clean w
    → Clean (handle_join_message c g w m p)
unfolding handle_join_message
handle_join_message-Clean c g w m p v = elim (Bool-cases (leb max_peers m.sender_peer_slot)) [
  | inl out ↦ rw out v
  | inr slot ↦ elim (Bool-cases (ltb (length m.payload) 4)) [
    | inl short ↦ rw (slot, short) v
    | inr size ↦
        let (s, (q, e)) = handle_join_message-greeted c g w m p slot size in
        let raw = read_nick c (w.remote_nick_by_slot m.sender_peer_slot) (drop 4 m.payload) in
        let d = sanitize_nickname-Displayable raw in
        let installed : Clean (install_sender w m.sender_peer_slot (u32_at m.payload 0) p) =
          subst Clean (sym (install_sender-players w m.sender_peer_slot (u32_at m.payload 0) p))
            (players-Clean w _ v) in
        let named = store_nick-Clean _ m.sender_peer_slot (sanitize_nickname raw) d installed in
        let u =
          toast-Clean _ (greeting w (sanitize_nickname raw))
            (greeting-Clean w (sanitize_nickname raw) d) named in
        subst Clean (sym e) (record { own = u.own; nicks = u.nicks; texts = u.texts })
  ]
]
