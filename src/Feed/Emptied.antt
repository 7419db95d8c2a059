-- ===== src/Feed/Emptied.antt =====
-- The loop over the inbox ends with the inbox empty: no handler adds to it, and the net thread adds
-- what it has received.
use votv_mp.Base.{
  ℕ, zero, suc, ◌+◌, ◌*◌, ◌≤◌, ◌<◌, ◌≡◌, refl, sym, ap, ◌∙◌, subst, All, Option, none, some, List,
  [], ◌∷◌, length, arith,
}
use votv_mp.Session.{Gns, Session, ReliableMessage, all_slots}
use votv_mp.Session.Receive.{try_get_reliable}
use votv_mp.Session.Quiet.{Quiet, Quiet-refl}
use votv_mp.Handshake.{Codec, Game}
use votv_mp.Handshake.Delivered.{handle_join_message-Quiet}
use votv_mp.Handshake.Received.{handle_player_joined-Quiet, handle_assign_peer_slot-Quiet}
use votv_mp.Feed.{
  Feed, Fresh, Net, net_turn, later, with_session, dispatch, tend_slot, tend_slots, drain,
  update_feed,
}
use votv_mp.Feed.Tended.{Calm, calm, tend_slot-Calm}
use votv_mp.Feed.Dispatched.{
  Reaction, greets, assigns, introduces, ignores, acts, dispatch-Reaction,
}

-- A handler of the handshake sends, or leaves the session alone.
Reaction-Quiet :
    (c : Codec) (g : Gns) (new : Fresh) (f : Feed) (m : ReliableMessage) (t : Feed)
    → Reaction c g new f m t
    → Quiet f.game.session t.game.session
Reaction-Quiet c g new f m t (greets e) =
    subst (λ v. Quiet f.game.session v.game.session) (sym e)
      (handle_join_message-Quiet c g f.game m new.first)
Reaction-Quiet c g new f m t (assigns e) =
    subst (λ v. Quiet f.game.session v.game.session) (sym e)
      (handle_assign_peer_slot-Quiet f.game m new.first new.second)
Reaction-Quiet c g new f m t (introduces e) =
    subst (λ v. Quiet f.game.session v.game.session) (sym e)
      (handle_player_joined-Quiet c f.game m new.first)
Reaction-Quiet c g new f m t (ignores e) =
    subst (λ v. Quiet f.game.session v.game.session) (sym e) (Quiet-refl f.game.session)
Reaction-Quiet c g new f m t (acts a h e) =
    subst (λ v. Quiet f.game.session v.game.session) (sym e) (Quiet-refl f.game.session)

pub dispatch-Quiet :
    (c : Codec) (g : Gns) (new : Fresh) (f : Feed) (m : ReliableMessage)
    → Quiet f.game.session (dispatch c g new f m).game.session
dispatch-Quiet c g new f m = Reaction-Quiet c g new f m _ (dispatch-Reaction c g new f m)

read_nothing : (s : Session) → s.inbox ≡ [] → try_get_reliable s ≡ (s, none)
unfolding try_get_reliable
read_nothing s e = rw e refl

read_message :
    (s : Session) (m : ReliableMessage) (ms : List ReliableMessage)
    → s.inbox ≡ m ∷ ms
    → try_get_reliable s ≡ (record s { inbox = ms }, some m)
unfolding try_get_reliable
read_message s m ms e = rw e refl

-- One turn of the loop, on either branch.
module _ (c : Codec) (g : Gns) (new : ℕ → Fresh) (net : Net) (fuel : ℕ) (f : Feed) where
  pub drain_ends :
      (net_turn net f.game.session).inbox ≡ []
      → drain c g new net (suc fuel) f ≡ some (with_session f (net_turn net f.game.session))
  unfolding drain
  drain_ends e =
      let read = read_nothing (net_turn net f.game.session) e in rw (read, drain) (rw read refl)

  pub drain_reads :
      (m : ReliableMessage) (ms : List ReliableMessage)
      → (net_turn net f.game.session).inbox ≡ m ∷ ms
      → let left = record (net_turn net f.game.session) { inbox = ms } in
        drain c g new net (suc fuel) f
        ≡ drain c g
            (λ n. new (suc n))
            (later net)
            fuel
            (dispatch c g (new zero) (with_session f left) m)
  unfolding drain
  drain_reads m ms e =
      let read = read_message (net_turn net f.game.session) m ms e in
      rw (read, drain) (rw read refl)

-- The net thread's work before one read adds at most `k` messages.
abbrev pub Adds : ℕ → (Session → Session) → Type 0
Adds k n = (s : Session) → length (n s).inbox ≤ k + length s.inbox

-- The loop has ended, with the inbox empty.
abbrev pub Ends : Option Feed → Type 0
Ends o = (t : Feed) × (o ≡ some t) × (t.game.session.inbox ≡ [])

net_turn-Adds :
    (k : ℕ) (net : Net) (s : Session)
    → All (Adds k) net
    → length (net_turn net s).inbox + k * length (later net) ≤ length s.inbox + k * length net
net_turn-Adds k [] s h = omega arith
net_turn-Adds k (n ∷ net) s h =
    let one = h.0 s in
    let product : k * length (n ∷ net) ≡ k + k * length net = times_suc k (length net) in
    omega (arith, one, product)
  where
    times_suc : (a b : ℕ) → a * suc b ≡ a + a * b
    times_suc a b = omega arith

later-Adds : (k : ℕ) (net : Net) → All (Adds k) net → All (Adds k) (later net)
later-Adds k [] h = tt
later-Adds k (n ∷ net) h = h.1

drain-Ends :
    (c : Codec) (g : Gns) (new : ℕ → Fresh) (k : ℕ) (net : Net) (fuel : ℕ) (f : Feed)
    → All (Adds k) net
    → length f.game.session.inbox + k * length net < fuel
    → Ends (drain c g new net fuel f)
drain-Ends c g new k net zero f h le = absurd (omega (arith, le))
drain-Ends c g new k net (suc fuel) f h le =
    by_inbox (net_turn net f.game.session).inbox refl
      (drain-Ends c g (λ n. new (suc n)) k (later net) fuel)
  where
    by_inbox :
        (ms : List ReliableMessage)
        → (net_turn net f.game.session).inbox ≡ ms
        → ((t : Feed)
            → All (Adds k) (later net)
            → length t.game.session.inbox + k * length (later net) < fuel
            → Ends (drain c g (λ n. new (suc n)) (later net) fuel t))
        → Ends (drain c g new net (suc fuel) f)
    by_inbox [] e again =
        (with_session f (net_turn net f.game.session), drain_ends c g new net fuel f e, e)
    by_inbox (m ∷ ms) e again =
        let left = with_session f (record (net_turn net f.game.session) { inbox = ms }) in
        let t = dispatch c g (new zero) left m in
        let more = net_turn-Adds k net f.game.session h in
        let was = ap length e in
        let now : length t.game.session.inbox ≡ length ms =
          ap length (dispatch-Quiet c g (new zero) left m).inbox in
        subst Ends (sym (drain_reads c g new net fuel f m ms e))
          (again t (later-Adds k net h) (omega (arith, more, was, now, le)))

pub tend_slots-inbox :
    (c : Codec) (g : Gns) (slots : List ℕ) (r : Feed × Option (List ℕ))
    → (tend_slots c g slots r).0.game.session.inbox ≡ r.0.game.session.inbox
unfolding tend_slots
tend_slots-inbox c g [] r = refl
tend_slots-inbox c g (slot ∷ slots) r =
    tend_slots-inbox c g slots (tend_slot c g slot r) ∙ kept (tend_slot-Calm c g slot r.0 r.1)
  where
    kept : {u : Game} → Calm r.0.game u → u.session.inbox ≡ r.0.game.session.inbox
    kept (calm q e) = q.inbox

-- The loop of an Update ends, because TryGetReliable finds the inbox empty, while the net thread goes
-- on: if it does something before each of the first `n` reads, each time adding at most `k` messages,
-- and nothing after them, the loop ends within one read more than the messages that are there at the
-- start and `k * n`.
pub update_feed-Ends :
    (c : Codec) (g : Gns) (new : ℕ → Fresh) (k : ℕ) (net : Net) (fuel : ℕ) (f : Feed)
    → All (Adds k) net
    → length f.game.session.inbox + k * length net < fuel
    → Ends (update_feed c g new net fuel f)
unfolding update_feed
update_feed-Ends c g new k net fuel f h le =
    let same = ap length (tend_slots-inbox c g all_slots (f, none)) in
    drain-Ends c g new k net fuel (tend_slots c g all_slots (f, none)).0 h (omega (arith, same, le))
