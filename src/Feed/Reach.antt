-- ===== src/Feed/Reach.antt =====
-- A run of the whole process: events of the session's net thread, and operations of the handshake,
-- of the feed and of the puppets on the game thread, in any order.
use votv_mp.Base.{ℕ, ◌≡◌, ◌∙◌, false, inl, Option, none, some, List, []}
use votv_mp.Registry.{Process}
use votv_mp.Players.{Players, set_local_peer_id, register_puppet, unregister_puppet}
use votv_mp.Players.Published.{Published}
use votv_mp.Players.Lifetime.{
  set_local_peer_id-Published, register_puppet-Published, unregister_puppet-Published,
}
use votv_mp.Players.Mirrored.{vacant_players, starts, Reach-Published}
use votv_mp.Session.Life.{Boot, start}
use votv_mp.Session.Life.Beginning
use votv_mp.Session.Life.Beginning.{started-Good}
use votv_mp.Handshake.Nickname.{default_nick}
use votv_mp.Session.{Gns, Session, ReliableMessage}
use votv_mp.Session.Receive.{try_get_reliable}
use votv_mp.Session.Reach
use votv_mp.Session.Reach.{Event, Possible, reads_reliable, next, Good, Reach-Good}
use votv_mp.Handshake.{Codec, set_local_nickname, placeholder}
use votv_mp.Handshake.Trust.{
  set_local_nickname-Clean, reset-Clean, default_nick-Displayable, placeholder-Displayable,
}
use votv_mp.Feed.{Feed, Fresh, with_session, on_session_start, tend_slot, dispatch}
use votv_mp.Feed.Peers.{Free}
use votv_mp.Feed.Tended.{tend_slot-Calm, tend_slot-Clean, set_local_nickname-Calm, reset-Calm}
use votv_mp.Feed.Sound.{
  Sound, with_session-Sound, dispatch-Sound, moved, with_players, with_players-Sound,
}

-- The rest of the process creates, changes and deletes elements of its own: the objects that the
-- slots hold stay as they are.
abbrev pub Spares : Players → Process → Type 0
Spares s u = (i q : ℕ) → s.player_by_slot i ≡ some q → u.heap q ≡ s.proc.heap q

-- The steps of a run. A message is taken from the inbox by TryGetReliable and dispatched at once;
-- whatever happens between two turns of the loop is a step of its own. The net thread gives the id
-- that is published at that time.
pub data Run (c : Codec) (g : Gns) (f : Feed) : Feed → Type 0 where
  begins : Run c g f f
  nets :
      {t : Feed} (e : Event)
      → Run c g f t
      → Possible t.game.session e
      → Run c g f (with_session t (Reach.step g t.game.players.published t.game.session e))
  names :
      {t : Feed} (nick : List ℕ)
      → Run c g f t
      → Run c g f (record t { game = set_local_nickname t.game nick })
  restarts : {t : Feed} → Run c g f t → Run c g f (on_session_start t)
  tends :
      {t : Feed} (slot : ℕ) (built : Option (List ℕ))
      → Run c g f t
      → Run c g f (tend_slot c g slot (t, built)).0
  reads :
      {t : Feed} (new : Fresh) (m : ReliableMessage)
      → Run c g f t
      → (try_get_reliable t.game.session).1 ≡ some m
      → Free t.game.players new
      → Run c g f (dispatch c g new (with_session t (try_get_reliable t.game.session).0) m)
  takes_slot :
      {t : Feed} (id p : ℕ)
      → Run c g f t
      → t.game.players.proc.heap p ≡ none
      → Run c g f (with_players t (set_local_peer_id t.game.players id p))
  registers :
      {t : Feed} (slot : ℕ) (puppet : Option ℕ) (p : ℕ)
      → Run c g f t
      → t.game.players.proc.heap p ≡ none
      → Run c g f (with_players t (register_puppet t.game.players slot puppet p))
  unregisters :
      {t : Feed} (slot : ℕ)
      → Run c g f t
      → Run c g f (with_players t (unregister_puppet t.game.players slot))
  elsewhere :
      {t : Feed} (u : Process)
      → Run c g f t
      → Spares t.game.players u
      → Run c g f (with_players t (record t.game.players { proc = u }))

Spares-Published :
    (s : Players) (u : Process) → Spares s u → Published s → Published (record s { proc = u })
Spares-Published s u same v = record {
  seated = λ i q h. let (e, at, id, slot) = v.seated i q h in (e, same i q h ∙ at, id, slot);
  alive = λ n.
      let (q, e, lt, sits, at, id) = v.alive n in
      (q, e, lt, sits, same s.local_peer_id q sits ∙ at, id);
}

stepped :
    (g : Gns) (id : ℕ) (s : Session) (e : Event)
    → Possible s e
    → Good s
    → Good (Reach.step g id s e)
stepped g id s e p v = Reach-Good g id s _ v (next e Reach.begins p)

stays_in_order : (c : Codec) (g : Gns) (f t : Feed) → Sound f → Run c g f t → Sound t
unfolding try_get_reliable Reach.step on_session_start
stays_in_order c g f _ v begins = v
stays_in_order c g f _ v (nets {t} e r p) =
    let u = stays_in_order c g f t v r in
    with_session-Sound t _ (stepped g t.game.players.published t.game.session e p u.good) u
stays_in_order c g f _ v (names {t} nick r) =
    let u = stays_in_order c g f t v r in
    moved (record t { game = set_local_nickname t.game nick }) u
      (set_local_nickname-Calm t.game nick) (set_local_nickname-Clean t.game nick u.clean)
stays_in_order c g f _ v (restarts {t} r) =
    let u = stays_in_order c g f t v r in
    moved (on_session_start t) u (reset-Calm t.game) (reset-Clean t.game u.clean)
stays_in_order c g f _ v (tends {t} slot built r) =
    let u = stays_in_order c g f t v r in
    moved (tend_slot c g slot (t, built)).0 u (tend_slot-Calm c g slot t built)
      (tend_slot-Clean c g slot t built u.clean)
stays_in_order c g f _ v (reads {t} new m r e free) =
    let u = stays_in_order c g f t v r in
    dispatch-Sound c g new (with_session t (try_get_reliable t.game.session).0) m free (
      with_session-Sound t _
        (stepped g t.game.players.published t.game.session reads_reliable tt u.good) u)
stays_in_order c g f _ v (takes_slot {t} id p r free) =
    let u = stays_in_order c g f t v r in
    with_players-Sound t _ (set_local_peer_id-Published t.game.players id p free u.peers) u
stays_in_order c g f _ v (registers {t} slot puppet p r free) =
    let u = stays_in_order c g f t v r in
    with_players-Sound t _ (register_puppet-Published t.game.players slot puppet p free u.peers) u
stays_in_order c g f _ v (unregisters {t} slot r) =
    let u = stays_in_order c g f t v r in
    with_players-Sound t _ (unregister_puppet-Published t.game.players slot u.peers) u
stays_in_order c g f _ v (elsewhere {t} w r same) =
    let u = stays_in_order c g f t v r in
    with_players-Sound t _ (Spares-Published t.game.players w same u.peers) u

-- The process when the session has been started: no player has an element, nothing was said.
abbrev pub launched : Boot → Session → Process → Feed
launched b s proc = record {
  game = record {
    session = (start b s).0;
    players = vacant_players proc;
    local_nick = default_nick;
    remote_nick_by_slot = λ i. placeholder;
    join_sent_by_slot = λ i. false;
    shown = [];
  };
  last_connected_by_slot = λ i. false;
  actions = [];
}

launched-Sound :
    (g : Gns) (b : Boot) (s : Session) (proc : Process)
    → Beginning.Fresh s
    → Sound (launched b s proc)
launched-Sound g b s proc fresh = record {
  good = started-Good g 0 b s (start b s).0 fresh Reach.begins;
  clean = record {
    own = default_nick-Displayable;
    nicks = λ i. inl placeholder-Displayable;
    texts = tt;
  };
  peers = Reach-Published starts;
}

-- From the first Start of a session on, and before it is stopped, in every interleaving of the net
-- thread's events with the game thread's operations on the feed, the handshake and the players, and
-- with changes to other elements, which leave the players' objects as they are: the session stays in
-- order, every nickname of a peer is displayable or empty, every text shown is displayable or the
-- farewell of a nameless peer, each slot's player element is alive, has an id and knows its slot, and
-- the published id is that of the live element in the local peer's slot. An address given for a new
-- object must be free, and the library must report valid handles and call a connection new only when
-- it is.
pub Run-Sound :
    (c : Codec) (g : Gns) (b : Boot) (s : Session) (proc : Process) (t : Feed)
    → Beginning.Fresh s
    → Run c g (launched b s proc) t
    → Sound t
Run-Sound c g b s proc t fresh r =
    stays_in_order c g (launched b s proc) t (launched-Sound g b s proc fresh) r
