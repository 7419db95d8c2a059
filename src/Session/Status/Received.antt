-- ===== src/Session/Status/Received.antt =====
-- A status change and what is stored from the wire: admission keeps it, a closing only removes.
use votv_mp.Base.{
  ℕ, ◌≤◌, ◌≡◌, refl, sym, subst, true, false, ◌==◌, not, leb, length, All, keep_if-All_kept,
  length-keep_if_le, arith, update, inl, inr, Bool-cases, Option-cases,
}
use votv_mp.ElementId.{max_peers}
use votv_mp.Protocol.{validate_pose, validate_prop_pose}
use votv_mp.Session.{
  Gns, Session, is_host, tell, close, accept, count_call, find_peer_slot_for_conn,
  find_free_peer_slot_for_client, connected_peer_count,
}
use votv_mp.Session.Receive.{inbox_cap}
use votv_mp.Session.Receive.Stored.{StoredValid, SmallMessage}
use votv_mp.Session.Status.{
  register, on_connecting, open_slot, on_connected, on_closed, release_slot,
  reset_peer_remote_state, reset_all, settle,
}
use votv_mp.Session.Status.Admission.{send_reliable_to_slot-Quiet}

StoredValid-fields :
    (s t : Session) → t.remotes ≡ s.remotes → t.inbox ≡ s.inbox → StoredValid s → StoredValid t
StoredValid-fields s t remotes inbox v = record {
  poses = λ i.
      subst (λ r. (r i).has_remote ≡ true → validate_pose (r i).pose ≡ true) (sym remotes)
        (v.poses i);
  props = λ i.
      subst (λ r. (r i).has_remote_prop ≡ true → validate_prop_pose (r i).prop_pose ≡ true)
        (sym remotes) (v.props i);
  bounded = subst (λ b. length b ≤ inbox_cap) (sym inbox) v.bounded;
  messages = subst (All SmallMessage) (sym inbox) v.messages;
}

register-received :
    (s : Session) (conn slot : ℕ)
    → ((register s conn slot).remotes ≡ s.remotes) × ((register s conn slot).inbox ≡ s.inbox)
unfolding register tell
register-received s conn slot = ground arith

pub on_connecting-StoredValid :
    (g : Gns) (s : Session) (conn : ℕ) → StoredValid s → StoredValid (on_connecting g s conn)
unfolding on_connecting tell count_call
on_connecting-StoredValid g s conn v = elim (Option-cases (find_free_peer_slot_for_client s)) [
  | inl full ↦ rw (full, on_connecting) (StoredValid-fields s _ refl refl v)
  | inr (slot, e) ↦
      rw (e, on_connecting)
        (elim (Bool-cases (g.accepts s.calls)) [
          | inl ok ↦ rw ok (
              let (remotes, inbox) =
                register-received (count_call (tell s (accept conn))) conn slot in
              StoredValid-fields s _ remotes inbox v)
          | inr refused ↦ rw refused (StoredValid-fields s _ refl refl v)
        ])
]

open_slot-StoredValid :
    (g : Gns) (id : ℕ) (s : Session) (conn slot : ℕ)
    → StoredValid s
    → StoredValid (open_slot g id s conn slot)
unfolding open_slot tell
open_slot-StoredValid g id s conn slot v = elim (Bool-cases (is_host s.role)) [
  | inl h ↦ rw h (
      let q = send_reliable_to_slot-Quiet g _ slot _ _ 0 in
      StoredValid-fields s _ q.remotes q.inbox v)
  | inr c ↦ rw c (StoredValid-fields s _ refl refl v)
]

pub on_connected-StoredValid :
    (g : Gns) (id : ℕ) (s : Session) (conn : ℕ)
    → StoredValid s
    → StoredValid (on_connected g id s conn)
unfolding on_connected tell
on_connected-StoredValid g id s conn v = elim (Option-cases (find_peer_slot_for_conn s conn)) [
  | inr (slot, e) ↦ rw (e, on_connected) (open_slot-StoredValid g id s conn slot v)
  | inl unknown ↦
      rw (unknown, on_connected)
        (elim (Bool-cases (is_host s.role)) [
          | inr c ↦ rw c v
          | inl h ↦ rw h (elim (Option-cases (find_free_peer_slot_for_client s)) [
            | inl full ↦ rw (full, on_connected) (StoredValid-fields s _ refl refl v)
            | inr (slot, e) ↦
                rw (e, on_connected)
                  (let (remotes, inbox) = register-received s conn slot in
                    open_slot-StoredValid g id (register s conn slot) conn slot
                      (StoredValid-fields s _ remotes inbox v))
          ])
        ])
]

reset-StoredValid :
    (s : Session) (slot : ℕ) → StoredValid s → StoredValid (reset_peer_remote_state s slot)
unfolding reset_peer_remote_state
reset-StoredValid s slot v = elim (Bool-cases (leb max_peers slot)) [
  | inl out ↦ rw out v
  | inr inside ↦ rw inside (record {
    poses = λ i e. ground (arith, v.poses i);
    props = λ i e. ground (arith, v.props i);
    bounded = v.bounded;
    messages = v.messages;
  })
]

reset_all-StoredValid : (s : Session) → StoredValid s → StoredValid (reset_all s)
unfolding reset_all
reset_all-StoredValid s v =
    reset-StoredValid _ 3 (reset-StoredValid _ 2 (reset-StoredValid _ 1 (reset-StoredValid s 0 v)))

settle-StoredValid : (s : Session) → StoredValid s → StoredValid (settle s)
unfolding settle
settle-StoredValid s v = elim (Bool-cases (connected_peer_count s == 0)) [
  | inl empty ↦ rw empty (
      let w = reset_all-StoredValid s v in
      record { poses = w.poses; props = w.props; bounded = omega arith; messages = tt })
  | inr left ↦ rw left v
]

pub on_closed-StoredValid :
    (s : Session) (conn : ℕ) → StoredValid s → StoredValid (on_closed s conn)
unfolding on_closed release_slot tell
on_closed-StoredValid s conn v = elim (Option-cases (find_peer_slot_for_conn s conn)) [
  | inl e ↦ rw (e, on_closed) (settle-StoredValid _ (StoredValid-fields s _ refl refl v))
  | inr (slot, e) ↦
      rw (e, on_closed)
        (settle-StoredValid _ (
          let t =
            tell
              (record s {
                peer_conns = update s.peer_conns slot 0;
                lanes_configured = update s.lanes_configured slot false;
              })
              (close conn) in
          let w = reset-StoredValid t slot (StoredValid-fields s t refl refl v) in
          record {
            poses = w.poses;
            props = w.props;
            bounded = omega (
              arith,
              w.bounded,
              length-keep_if_le (λ m. not (m.sender_peer_slot == slot))
                  (reset_peer_remote_state t slot).inbox,
            );
            messages =
                keep_if-All_kept (λ m. not (m.sender_peer_slot == slot)) SmallMessage
                  (reset_peer_remote_state t slot).inbox w.messages;
          }))
]
