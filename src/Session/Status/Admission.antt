-- ===== src/Session/Status/Admission.antt =====
-- The branches that give a connection a slot: Connecting on the host, and Connected.
use votv_mp.Base.{
  ℕ, ◌≤◌, ◌<◌, ◌≡◌, ◌≢◌, refl, sym, ◌∙◌, true, List, ◌==◌, leb, ◌||◌, arith, update, inl, inr,
  Bool-cases, Option-cases, length, ltb,
}
use votv_mp.ElementId.{max_peers}
use votv_mp.Protocol.{max_reliable_payload}
use votv_mp.Lanes.{lane_for_kind}
use votv_mp.Session.{
  Gns, Session, accept, is_host, ConnState, connected, find_peer_slot_for_conn,
  find_free_peer_slot_for_client, connected_peer_count, tell, close, count_call,
  send_reliable_to_slot, next32, reliable_bytes, configure_lanes,
}
use votv_mp.Session.Status.{handshake, register, on_connecting, open_slot, on_connected}
use votv_mp.Session.Status.Table.{
  Table, Table-Quiet, found_slot, free_slot, not_found, ready_counts, count-same,
}
use votv_mp.Session.Quiet.{Quiet, Quiet-refl, tell-Quiet, post_reliable-Quiet}

pub send_reliable_to_slot-Quiet :
    (g : Gns) (s : Session) (slot kind : ℕ) (payload : List ℕ) (sender : ℕ)
    → Quiet s (send_reliable_to_slot g s slot kind payload sender).0
unfolding send_reliable_to_slot
send_reliable_to_slot-Quiet g s slot kind payload sender =
    elim (Bool-cases (leb max_peers slot || ltb max_reliable_payload (length payload))) [
      | inl bad ↦ rw bad (Quiet-refl s)
      | inr good ↦ rw good (elim (Bool-cases (s.peer_conns slot == 0)) [
        | inl vacant ↦ rw vacant (Quiet-refl s)
        | inr taken ↦ rw taken (
            let q =
              post_reliable-Quiet g (s.peer_conns slot) (lane_for_kind kind)
                (reliable_bytes s.send_seq s.own_epoch sender kind payload)
                (record s { send_seq = next32 s.send_seq }) in
            record {
              role = q.role;
              own_epoch = q.own_epoch;
              state = q.state;
              h_poll = q.h_poll;
              peer_conns = q.peer_conns;
              lanes_configured = q.lanes_configured;
              remotes = q.remotes;
              inbox = q.inbox;
              recv = q.recv;
            })
      ])
    ]

-- A connection without a slot takes a vacant one, whichever the next state is.
register-Table :
    (s : Session) (conn slot : ℕ) (state : ConnState)
    → Table s
    → conn ≢ 0
    → ((i : ℕ) → i < max_peers → s.peer_conns i ≢ conn)
    → 1 ≤ slot
    → slot < max_peers
    → s.peer_conns slot ≡ 0
    → (state ≡ connected → s.state ≡ connected)
    → (s.state ≡ connected → state ≡ connected)
    → Table (record (register s conn slot) { state = state })
unfolding register tell
register-Table s conn slot state t nonzero fresh pos lt vacant up down = record {
  host_slot = λ h. ground (arith, t.host_slot);
  distinct = λ i j li lj ne e. ground (arith, t.distinct i j li lj, fresh i li, fresh j lj);
  lanes = λ i e. ground (arith, t.lanes i);
  up = λ e z. t.up (up e) (sym count ∙ z);
  down = λ n. count ∙ t.down (λ e. n (down e));
}
  where
    count :
        connected_peer_count (record (register s conn slot) { state = state })
        ≡ connected_peer_count s
    count = count-same s _ (λ i li. ground (arith, t.lanes i))

called-Table : (s : Session) (conn : ℕ) → Table s → Table (count_call (tell s (accept conn)))
unfolding tell count_call connected_peer_count
called-Table s conn t = record {
  host_slot = t.host_slot;
  distinct = t.distinct;
  lanes = t.lanes;
  up = t.up;
  down = t.down;
}

pub on_connecting-Table :
    (g : Gns) (s : Session) (conn : ℕ)
    → Table s
    → conn ≢ 0
    → ((i : ℕ) → i < max_peers → s.peer_conns i ≢ conn)
    → Table (on_connecting g s conn)
unfolding on_connecting tell count_call register
on_connecting-Table g s conn t nonzero fresh =
    elim (Option-cases (find_free_peer_slot_for_client s)) [
      | inl full ↦ rw (full, on_connecting) (Table-Quiet s _ (tell-Quiet s (close conn)) t)
      | inr (slot, e) ↦
          rw (e, on_connecting)
            (elim (Bool-cases (g.accepts s.calls)) [
              | inl ok ↦ rw ok (
                  let (pos, lt, vacant) = free_slot s slot e in
                  let u = count_call (tell s (accept conn)) in
                  register-Table u conn slot (handshake (register u conn slot).state)
                    (called-Table s conn t) nonzero fresh pos lt vacant (λ y. ground arith)
                    (λ y. ground arith))
              | inr refused ↦
                  rw refused (Table-Quiet _ _ (tell-Quiet _ (close conn)) (called-Table s conn t))
            ])
    ]

opened_Table :
    (s : Session) (conn slot : ℕ)
    → Table s
    → slot < max_peers
    → s.peer_conns slot ≢ 0
    → Table (record (tell s (configure_lanes conn)) {
      lanes_configured = update s.lanes_configured slot true;
      state = connected;
    })
unfolding tell
opened_Table s conn slot t lt taken = record {
  host_slot = t.host_slot;
  distinct = t.distinct;
  lanes = λ i e. ground (arith, t.lanes i);
  up = λ e. ready_counts _ slot lt (ground arith);
  down = λ n. elim (n refl) [ ];
}

open_slot-Table :
    (g : Gns) (id : ℕ) (s : Session) (conn slot : ℕ)
    → Table s
    → slot < max_peers
    → s.peer_conns slot ≢ 0
    → Table (open_slot g id s conn slot)
unfolding open_slot tell
open_slot-Table g id s conn slot t lt taken = elim (Bool-cases (is_host s.role)) [
  | inl h ↦ rw h (
      Table-Quiet _ _ (send_reliable_to_slot-Quiet g _ slot _ _ 0)
        (opened_Table s conn slot t lt taken))
  | inr c ↦ rw c (opened_Table s conn slot t lt taken)
]

state-register : (s : Session) (conn slot : ℕ) → (register s conn slot).state ≡ s.state
unfolding register tell
state-register s conn slot = ground arith

pub conn-register : (s : Session) (conn slot : ℕ) → (register s conn slot).peer_conns slot ≡ conn
unfolding register tell
conn-register s conn slot = ground arith

pub on_connected-Table :
    (g : Gns) (id : ℕ) (s : Session) (conn : ℕ)
    → Table s
    → conn ≢ 0
    → Table (on_connected g id s conn)
unfolding on_connected
on_connected-Table g id s conn t nonzero = elim (Option-cases (find_peer_slot_for_conn s conn)) [
  | inr (slot, e) ↦
      rw (e, on_connected)
        (open_slot-Table g id s conn slot t (found_slot s conn slot e).0
          (λ z. nonzero (sym (found_slot s conn slot e).1 ∙ z)))
  | inl none_found ↦
      rw (none_found, on_connected)
        (elim (Bool-cases (is_host s.role)) [
          | inr c ↦ rw c t
          | inl h ↦ rw h (elim (Option-cases (find_free_peer_slot_for_client s)) [
            | inl full ↦ rw (full, on_connected) (Table-Quiet s _ (tell-Quiet s (close conn)) t)
            | inr (slot, e) ↦
                rw (e, on_connected)
                  (let (pos, lt, vacant) = free_slot s slot e in
                    open_slot-Table g id (register s conn slot) conn slot
                      (register-Table s conn slot (register s conn slot).state t nonzero
                        (not_found s conn none_found) pos lt vacant
                        (λ y. sym (state-register s conn slot) ∙ y)
                        (λ y. state-register s conn slot ∙ y))
                      lt (λ z. nonzero (sym (conn-register s conn slot) ∙ z)))
          ])
        ])
]
