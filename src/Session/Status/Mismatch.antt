-- ===== src/Session/Status/Mismatch.antt =====
-- A peer of another protocol version and the slots of the host.
use votv_mp.Base.{ℕ, ◌≤◌, ◌<◌, ◌≡◌, ◌≢◌, sym, subst, List}
use votv_mp.ElementId.{max_peers}
use votv_mp.Protocol.{peek_protocol_version, protocol_version}
use votv_mp.Session.{Gns, Session, host, tell, close}
use votv_mp.Session.Receive.{handle_message}
use votv_mp.Session.Receive.Version.{other_version_closes}
use votv_mp.Session.Status.{no_state, connecting, conn_open, handle_conn_status_changed}
use votv_mp.Session.Status.Ready.{full_host_rejects}

-- On a host whose three client slots are taken, a client's packet of the right magic and of a
-- protocol version that is neither this one nor 0 makes the host close that client's connection, but
-- does not free its slot: a connection that comes next, at Connecting or, unseen before, at
-- Connected, is closed as well, and nothing else changes.
pub mismatched_peer_blocks :
    (g : Gns) (id : ℕ) (s : Session) (slot conn : ℕ) (bytes : List ℕ)
    → s.role ≡ host
    → ((i : ℕ) → i < max_peers → s.peer_conns i ≢ conn)
    → ((i : ℕ) → 1 ≤ i → i < max_peers → s.peer_conns i ≢ 0)
    → 1 ≤ slot
    → slot < max_peers
    → peek_protocol_version bytes ≢ 0
    → peek_protocol_version bytes ≢ protocol_version
    → let t = handle_message g s slot bytes in
      (handle_conn_status_changed g id t
          (record { conn = conn; old_state = no_state; new_state = connecting })
        ≡ tell (tell s (close (s.peer_conns slot))) (close conn))
      × (handle_conn_status_changed g id t
            (record { conn = conn; old_state = connecting; new_state = conn_open })
          ≡ tell (tell s (close (s.peer_conns slot))) (close conn))
mismatched_peer_blocks g id s slot conn bytes role fresh taken pos lt real other =
    let closed = other_version_closes g s slot bytes real other lt (taken slot pos lt) in
    subst
      (λ t.
        (handle_conn_status_changed g id t
            (record { conn = conn; old_state = no_state; new_state = connecting })
          ≡ tell (tell s (close (s.peer_conns slot))) (close conn))
        × (handle_conn_status_changed g id t
              (record { conn = conn; old_state = connecting; new_state = conn_open })
            ≡ tell (tell s (close (s.peer_conns slot))) (close conn)))
      (sym closed)
      (unfold tell in
        full_host_rejects g id (tell s (close (s.peer_conns slot))) conn role fresh taken)
