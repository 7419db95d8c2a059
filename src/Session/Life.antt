-- ===== src/Session/Life.antt =====
-- Session::Start and Session::Stop of coop/net/session.cpp. The random draw, the parse of the
-- address and the handles come from outside, and are arguments; a handle of 0 is invalid.
pub mod Restart
pub mod Beginning
use votv_mp.Base.{ℕ, zero, suc, Bool, true, false, not, List, [], ◌∷◌, ◌==◌, if◌then◌else◌, update}
use votv_mp.Session.{
  Gns, Session, Remote, Role, is_host, disconnected, handshaking, tell, close_linger,
  destroy_poll_group, close_listen_socket, all_slots,
}
use votv_mp.Session.Receive.{set_remote}
use votv_mp.Session.Status.{StatusChange, handle_conn_status_changed}

-- The configured role, the first draw that is not 0, and the library's answers.
pub record Boot : Type 0 where
  pub role : Role
  pub epoch : ℕ
  pub gns_ready : Bool
  pub listen_handle : ℕ
  pub poll_handle : ℕ
  pub address_parses : Bool
  pub conn_handle : ℕ

unfoldable pub forget_epochs : List ℕ → Session → Session
forget_epochs [] s = s
forget_epochs (i ∷ slots) s =
    forget_epochs slots (set_remote s i (record (s.remotes i) { expected_epoch = 0 }))

abbrev pub begin : Session → Session × Bool
begin s = (record s { state = handshaking; last_rtt_ms = 0; running = true }, true)

-- The listen socket and its poll group on the host, the connection to it on a client.
unfoldable pub open_transport : Boot → Session → Session × Bool
unfolding tell
open_transport b t =
    if not b.gns_ready
    then (t, false)
    else if is_host b.role
    then (if b.listen_handle == 0
        then (t, false)
        else if b.poll_handle == 0
        then (record (tell t (close_listen_socket b.listen_handle)) { h_listen = 0 }, false)
        else begin (record t { h_listen = b.listen_handle; h_poll = b.poll_handle }))
    else if not b.address_parses
    then (t, false)
    else if b.conn_handle == 0
    then (t, false)
    else begin (record t { peer_conns = update t.peer_conns 0 b.conn_handle })

unfoldable pub start : Boot → Session → Session × Bool
start b s =
    if s.running
    then (s, false)
    else open_transport b
        (forget_epochs all_slots (record s { role = b.role; own_epoch = b.epoch }))

unfoldable pub close_all : List ℕ → Session → Session
unfolding tell
close_all [] s = s
close_all (i ∷ slots) s = close_all slots (
    let t = record s { peer_conns = update s.peer_conns i 0 } in
    if s.peer_conns i == 0 then t else tell t (close_linger (s.peer_conns i)))

-- The status changes that the library reports while Stop pumps its callbacks.
unfoldable pub callbacks : Gns → ℕ → List StatusChange → Session → Session
callbacks g element_id [] s = s
callbacks g element_id (c ∷ cs) s =
    callbacks g element_id cs (handle_conn_status_changed g element_id s c)

unfoldable pub stop : Gns → ℕ → List StatusChange → Session → Session
unfolding tell
stop g element_id reported s =
    if not s.running
    then s
    else let t =
        callbacks g element_id reported (close_all all_slots (record s { running = false })) in
      let u = if t.h_poll == 0 then t else tell t (destroy_poll_group t.h_poll) in
      let v = if u.h_listen == 0 then u else tell u (close_listen_socket u.h_listen) in
      record v { h_poll = 0; h_listen = 0; state = disconnected }
