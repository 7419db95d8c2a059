-- ===== src/Session/Status/Ready.antt =====
-- What a connection gets from the two branches that admit it, and what a full host answers.
use votv_mp.Base.{
  ℕ, ◌≤◌, ◌<◌, ◌≡◌, ◌≢◌, refl, ap, sym, ◌∙◌, true, none, arith, update, inl, inr, if◌then◌else◌,
  leb, false, Bool-cases, Option-cases,
}
use votv_mp.ElementId.{max_peers}
use votv_mp.Session.{
  Gns, Session, host, is_host, connected, find_peer_slot_for_conn, find_free_peer_slot_for_client,
  is_slot_ready, tell, close, configure_lanes,
}
use votv_mp.Session.Status.{
  register, on_connecting, open_slot, on_connected, no_state, connecting, conn_open,
  handle_conn_status_changed,
}
use votv_mp.Session.Status.Table.{found_slot, free_slot, no_free_slot}
use votv_mp.Session.Status.Admission.{send_reliable_to_slot-Quiet, conn-register}
use votv_mp.Session.Quiet.{Quiet}

-- The connection has a ready slot, and no connection lost its own.
pub record Ready (s t : Session) (conn : ℕ) : Type 0 where
  pub slot : ℕ
  pub in_range : slot < max_peers
  pub taken : t.peer_conns slot ≡ conn
  pub ready : is_slot_ready t slot ≡ true
  pub state : t.state ≡ connected
  pub kept : (i : ℕ) → s.peer_conns i ≢ 0 → t.peer_conns i ≡ s.peer_conns i

opened_Ready :
    (s : Session) (conn slot : ℕ)
    → slot < max_peers
    → conn ≢ 0
    → s.peer_conns slot ≡ conn
    → Ready s
        (record (tell s (configure_lanes conn)) {
          lanes_configured = update s.lanes_configured slot true;
          state = connected;
        })
        conn
unfolding tell
opened_Ready s conn slot lt nonzero at = record {
  slot = slot;
  in_range = lt;
  taken = at;
  ready = ground arith;
  state = refl;
  kept = λ i ne. refl;
}

Ready-Quiet : (s t u : Session) (conn : ℕ) → Quiet t u → Ready s t conn → Ready s u conn
Ready-Quiet s t u conn q r = record {
  slot = r.slot;
  in_range = r.in_range;
  taken = ap (λ c. c r.slot) q.peer_conns ∙ r.taken;
  ready = ap (λ l. if leb max_peers r.slot then false else l r.slot) q.lanes_configured ∙ r.ready;
  state = q.state ∙ r.state;
  kept = λ i ne. ap (λ c. c i) q.peer_conns ∙ r.kept i ne;
}

open_slot-Ready :
    (g : Gns) (id : ℕ) (s : Session) (conn slot : ℕ)
    → slot < max_peers
    → conn ≢ 0
    → s.peer_conns slot ≡ conn
    → Ready s (open_slot g id s conn slot) conn
unfolding open_slot tell
open_slot-Ready g id s conn slot lt nonzero at = elim (Bool-cases (is_host s.role)) [
  | inl h ↦ rw h (
      Ready-Quiet s _ _ conn (send_reliable_to_slot-Quiet g _ slot _ _ 0)
        (opened_Ready s conn slot lt nonzero at))
  | inr c ↦ rw c (opened_Ready s conn slot lt nonzero at)
]

register-kept :
    (s : Session) (conn slot : ℕ)
    → s.peer_conns slot ≡ 0
    → (i : ℕ) → s.peer_conns i ≢ 0
    → (register s conn slot).peer_conns i ≡ s.peer_conns i
unfolding register tell
register-kept s conn slot vacant i ne = ground arith

free_from :
    (s : Session) (i : ℕ)
    → 1 ≤ i
    → i < max_peers
    → s.peer_conns i ≡ 0
    → find_free_peer_slot_for_client s ≢ none
free_from s i l h z e = no_free_slot s e i l h z

-- On a host with a vacant client slot, a connection that reports Connected, known or not, then has
-- a slot of its own that is ready for sends, the session is Connected, and every other connection
-- keeps its slot.
pub on_connected-Ready :
    (g : Gns) (id : ℕ) (s : Session) (conn i : ℕ)
    → s.role ≡ host
    → conn ≢ 0
    → 1 ≤ i
    → i < max_peers
    → s.peer_conns i ≡ 0
    → Ready s (on_connected g id s conn) conn
unfolding on_connected
on_connected-Ready g id s conn i role nonzero l h z =
    elim (Option-cases (find_peer_slot_for_conn s conn)) [
      | inr (slot, e) ↦
          rw (e, on_connected)
            (open_slot-Ready g id s conn slot (found_slot s conn slot e).0 nonzero
              (found_slot s conn slot e).1)
      | inl unknown ↦
          rw (unknown, on_connected)
            (rw (ap is_host role) (elim (Option-cases (find_free_peer_slot_for_client s)) [
              | inl full ↦ elim (free_from s i l h z full) [ ]
              | inr (slot, e) ↦
                  rw (e, on_connected)
                    (let (pos, lt, vacant) = free_slot s slot e in
                      let r =
                        open_slot-Ready g id (register s conn slot) conn slot lt nonzero
                          (conn-register s conn slot) in
                      record {
                        slot = r.slot;
                        in_range = r.in_range;
                        taken = r.taken;
                        ready = r.ready;
                        state = r.state;
                        kept = λ j ne.
                            let k = register-kept s conn slot vacant j ne in
                            r.kept j (λ y. ne (sym k ∙ y)) ∙ k;
                      })
            ]))
    ]

-- On a host whose three client slots are taken, a new connection, at Connecting or, unseen before,
-- at Connected, is closed, and nothing else changes.
pub full_host_rejects :
    (g : Gns) (id : ℕ) (s : Session) (conn : ℕ)
    → s.role ≡ host
    → ((i : ℕ) → i < max_peers → s.peer_conns i ≢ conn)
    → ((i : ℕ) → 1 ≤ i → i < max_peers → s.peer_conns i ≢ 0)
    → (handle_conn_status_changed g id s
          (record { conn = conn; old_state = no_state; new_state = connecting })
        ≡ tell s (close conn))
      × (handle_conn_status_changed g id s
            (record { conn = conn; old_state = connecting; new_state = conn_open })
          ≡ tell s (close conn))
unfolding handle_conn_status_changed on_connecting on_connected
full_host_rejects g id s conn role fresh taken = (
  rw (ap is_host role) (rw (no_free, on_connecting) refl),
  rw (no_conn, on_connected) (rw (ap is_host role) (rw (no_free, on_connected) refl)),
)
  where
    no_free : find_free_peer_slot_for_client s ≡ none
    no_free = elim (Option-cases (find_free_peer_slot_for_client s)) [
      | inl e ↦ e
      | inr (slot, e) ↦
          let (pos, lt, vacant) = free_slot s slot e in elim (taken slot pos lt vacant) [ ]
    ]

    no_conn : find_peer_slot_for_conn s conn ≡ none
    no_conn = elim (Option-cases (find_peer_slot_for_conn s conn)) [
      | inl e ↦ e
      | inr (slot, e) ↦ let (lt, at) = found_slot s conn slot e in elim (fresh slot lt at) [ ]
    ]
