-- ===== src/Feed/Sound.antt =====
-- What the whole process keeps, and that a message keeps it.
use votv_mp.Base.{sym, subst, []}
use votv_mp.Players.{Players}
use votv_mp.Players.Published.{Published}
use votv_mp.Session.{Gns, Session, ReliableMessage}
use votv_mp.Session.Quiet.{Quiet}
use votv_mp.Session.Status.Table.{Table-Quiet}
use votv_mp.Session.Receive.Stored.{Kept-StoredValid}
use votv_mp.Session.Reach.{Good}
use votv_mp.Handshake.{Codec}
use votv_mp.Handshake.Received.{handle_player_joined-Clean, handle_assign_peer_slot-Clean}
use votv_mp.Handshake.Trust.{Clean, handle_join_message-Clean}
use votv_mp.Feed.{Feed, Fresh, with_session, dispatch}
use votv_mp.Feed.Dispatched.{
  Reaction, greets, assigns, introduces, ignores, acts, dispatch-Reaction,
}
use votv_mp.Feed.Emptied.{dispatch-Quiet}
use votv_mp.Feed.Peers.{
  Free, handle_join_message-Published, handle_player_joined-Published,
  handle_assign_peer_slot-Published,
}
use votv_mp.Feed.Tended.{Calm, calm}

pub Good-Quiet : (s t : Session) → Quiet s t → Good s → Good t
Good-Quiet s t q v = record {
  table = Table-Quiet s t q v.table;
  stored = (Kept-StoredValid 0 []).quiet s t q v.stored;
}

-- What every run keeps.
pub record Sound (f : Feed) : Type 0 where
  pub good : Good f.game.session
  pub clean : Clean f.game
  pub peers : Published f.game.players

pub with_session-Sound : (f : Feed) (s : Session) → Good s → Sound f → Sound (with_session f s)
with_session-Sound f s good v = record {
  good = good;
  clean = record { own = v.clean.own; nicks = v.clean.nicks; texts = v.clean.texts };
  peers = v.peers;
}

pub dispatch-Sound :
    (c : Codec) (g : Gns) (new : Fresh) (f : Feed) (m : ReliableMessage)
    → Free f.game.players new
    → Sound f
    → Sound (dispatch c g new f m)
dispatch-Sound c g new f m free v = record {
  good = Good-Quiet f.game.session _ (dispatch-Quiet c g new f m) v.good;
  clean = (parts (dispatch c g new f m) (dispatch-Reaction c g new f m)).0;
  peers = (parts (dispatch c g new f m) (dispatch-Reaction c g new f m)).1;
}
  where
    parts : (t : Feed) → Reaction c g new f m t → Clean t.game × Published t.game.players
    parts t (greets e) =
        subst (λ x. Clean x.game × Published x.game.players) (sym e)
          (
            handle_join_message-Clean c g f.game m new.first v.clean,
            handle_join_message-Published c g f.game m new.first free.first v.peers,
          )
    parts t (assigns e) =
        subst (λ x. Clean x.game × Published x.game.players) (sym e)
          (
            handle_assign_peer_slot-Clean f.game m new.first new.second v.clean,
            handle_assign_peer_slot-Published f.game m new free v.peers,
          )
    parts t (introduces e) =
        subst (λ x. Clean x.game × Published x.game.players) (sym e)
          (
            handle_player_joined-Clean c f.game m new.first v.clean,
            handle_player_joined-Published c f.game m new.first free.first v.peers,
          )
    parts t (ignores e) =
        subst (λ x. Clean x.game × Published x.game.players) (sym e) (v.clean, v.peers)
    parts t (acts a h e) =
        subst (λ x. Clean x.game × Published x.game.players) (sym e) (v.clean, v.peers)

abbrev pub with_players : Feed → Players → Feed
with_players f s = record f { game = record f.game { players = s } }

pub moved : {t : Feed} (u : Feed) → Sound t → Calm t.game u.game → Clean u.game → Sound u
moved {t} u v (calm q e) h = record {
  good = Good-Quiet t.game.session u.game.session q v.good;
  clean = h;
  peers = subst Published (sym e) v.peers;
}

pub with_players-Sound : (f : Feed) (s : Players) → Published s → Sound f → Sound (with_players f s)
with_players-Sound f s r v = record {
  good = v.good;
  clean = record { own = v.clean.own; nicks = v.clean.nicks; texts = v.clean.texts };
  peers = r;
}
