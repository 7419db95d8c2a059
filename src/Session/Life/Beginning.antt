-- ===== src/Session/Life/Beginning.antt =====
-- The first Start of a session, and the runs from it.
use votv_mp.Base.{ℕ, ◌≡◌, ◌≢◌, refl, Bool-cases, inl, inr, List, [], ◌∷◌, false, ◌==◌, arith}
use votv_mp.Session.{
  Gns, Session, host, is_host, connected, disconnected, connected_peer_count, count_slots, tell,
  all_slots,
}
use votv_mp.Session.Life.{Boot, start, open_transport, forget_epochs}
use votv_mp.Session.Reach.{Good, Reach, Reach-Good}

-- A session as it is constructed.
pub record Fresh (s : Session) : Type 0 where
  pub stopped : s.running ≡ false
  pub state : s.state ≡ disconnected
  pub conns : (i : ℕ) → s.peer_conns i ≡ 0
  pub lanes : (i : ℕ) → s.lanes_configured i ≡ false
  pub poses : (i : ℕ) → (s.remotes i).has_remote ≡ false
  pub props : (i : ℕ) → (s.remotes i).has_remote_prop ≡ false
  pub inbox : s.inbox ≡ []

-- No lanes, nothing received, and slot 0 at most taken, by a client.
record Early (s : Session) : Type 0 where
  pub state : s.state ≢ connected
  pub host_slot : s.role ≡ host → s.peer_conns 0 ≡ 0
  pub conns : (i : ℕ) → i ≢ 0 → s.peer_conns i ≡ 0
  pub lanes : (i : ℕ) → s.lanes_configured i ≡ false
  pub poses : (i : ℕ) → (s.remotes i).has_remote ≡ false
  pub props : (i : ℕ) → (s.remotes i).has_remote_prop ≡ false
  pub inbox : s.inbox ≡ []

no_lanes : (s : Session) → ((i : ℕ) → s.lanes_configured i ≡ false) → connected_peer_count s ≡ 0
unfolding connected_peer_count count_slots
no_lanes s l = ground (arith, l 0, l 1, l 2, l 3)

Early-Good : (s : Session) → Early s → Good s
Early-Good s e = record {
  table = record {
    host_slot = e.host_slot;
    distinct = λ i j li lj ne same. ground (arith, e.conns i, e.conns j);
    lanes = λ i z. e.lanes i;
    up = λ y. elim (e.state y) [ ];
    down = λ n. no_lanes s e.lanes;
  };
  stored = record {
    poses = λ i y. ground (arith, e.poses i);
    props = λ i y. ground (arith, e.props i);
    bounded = rw e.inbox (omega arith);
    messages = rw e.inbox tt;
  };
}

forget_epochs-Early : (slots : List ℕ) (s : Session) → Early s → Early (forget_epochs slots s)
unfolding forget_epochs
forget_epochs-Early [] s e = e
forget_epochs-Early (i ∷ slots) s e = forget_epochs-Early slots _ (record {
  state = e.state;
  host_slot = e.host_slot;
  conns = e.conns;
  lanes = e.lanes;
  poses = λ j. ground (arith, e.poses j, e.poses i);
  props = λ j. ground (arith, e.props j, e.props i);
  inbox = e.inbox;
})

forget_epochs-role : (slots : List ℕ) (s : Session) → (forget_epochs slots s).role ≡ s.role
unfolding forget_epochs
forget_epochs-role [] s = refl
forget_epochs-role (i ∷ slots) s = forget_epochs-role slots _

open_transport-Good :
    (b : Boot) (t : Session) → t.role ≡ b.role → Early t → Good (open_transport b t).0
unfolding open_transport tell
open_transport-Good b t role early = elim (Bool-cases b.gns_ready) [
  | inr missing ↦ rw (missing, open_transport) (Early-Good t early)
  | inl ready ↦
      rw (ready, open_transport)
        (elim (Bool-cases (is_host b.role)) [
          | inl h ↦
              rw (h, open_transport)
                (elim (Bool-cases (b.listen_handle == 0)) [
                  | inl none_given ↦ rw (none_given, open_transport) (Early-Good t early)
                  | inr given ↦
                      rw (given, open_transport)
                        (elim (Bool-cases (b.poll_handle == 0)) [
                          | inl no_group ↦
                              rw (no_group, open_transport)
                                (Early-Good _ (record {
                                  state = early.state;
                                  host_slot = early.host_slot;
                                  conns = early.conns;
                                  lanes = early.lanes;
                                  poses = early.poses;
                                  props = early.props;
                                  inbox = early.inbox;
                                }))
                          | inr group ↦
                              rw (group, open_transport)
                                (Early-Good _ (record {
                                  state = λ e. ground arith;
                                  host_slot = early.host_slot;
                                  conns = early.conns;
                                  lanes = early.lanes;
                                  poses = early.poses;
                                  props = early.props;
                                  inbox = early.inbox;
                                }))
                        ])
                ])
          | inr c ↦
              rw (c, open_transport)
                (elim (Bool-cases b.address_parses) [
                  | inr bad ↦ rw (bad, open_transport) (Early-Good t early)
                  | inl good ↦
                      rw (good, open_transport)
                        (elim (Bool-cases (b.conn_handle == 0)) [
                          | inl invalid ↦ rw (invalid, open_transport) (Early-Good t early)
                          | inr valid ↦
                              rw (valid, open_transport)
                                (Early-Good _ (record {
                                  state = λ e. ground arith;
                                  host_slot = λ h. ground (arith, role, c);
                                  conns = λ i ne. ground (arith, early.conns i);
                                  lanes = early.lanes;
                                  poses = early.poses;
                                  props = early.props;
                                  inbox = early.inbox;
                                }))
                        ])
                ])
        ])
]

start-Good : (b : Boot) (s : Session) → Fresh s → Good (start b s).0
unfolding start
start-Good b s f =
    rw (f.stopped, start)
      (open_transport-Good b (forget_epochs all_slots u) (forget_epochs-role all_slots u) (
        forget_epochs-Early all_slots u (record {
          state = λ e. ground (arith, f.state);
          host_slot = λ h. f.conns 0;
          conns = λ i ne. f.conns i;
          lanes = f.lanes;
          poses = f.poses;
          props = f.props;
          inbox = f.inbox;
        })))
  where
    u : Session
    u = record s { role = b.role; own_epoch = b.epoch; running = false }

-- A session that was only constructed is in order from Start on, whether Start succeeded or failed at
-- any of its steps: after every sequence of status changes, packets and reads, interleaved in any
-- way, the slot table is in order and what is stored from the wire is in its bounds, if the library
-- reports valid handles and calls a connection new only when it is.
pub started-Good :
    (g : Gns) (id : ℕ) (b : Boot) (s t : Session) → Fresh s → Reach g id (start b s).0 t → Good t
started-Good g id b s t f r = Reach-Good g id (start b s).0 t (start-Good b s f) r
