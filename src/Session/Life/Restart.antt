-- ===== src/Session/Life/Restart.antt =====
-- A session that is stopped and started again as a client.
use votv_mp.Base.{
  ==_ne, ℕ, ◌≡◌, ◌≢◌, refl, ap, ◌∙◌, Bool, List, ◌∷◌, true, false, [], not, ◌==◌, ◌&&◌, arith,
  if◌then◌else◌, update,
}
use votv_mp.Session.{
  is_host, Gns, Session, client, handshaking, connected_peer_count, tell, close_linger, all_slots,
}
use votv_mp.Session.Status.Table.{ready_counts}
use votv_mp.Session.Life.{Boot, start, open_transport, stop, callbacks, close_all, forget_epochs}

close_all-facts :
    (slots : List ℕ) (s : Session)
    → ((close_all slots s).running ≡ s.running)
      × ((close_all slots s).lanes_configured ≡ s.lanes_configured)
unfolding close_all tell
close_all-facts [] s = (refl, refl)
close_all-facts (i ∷ slots) s =
    let t = record s { peer_conns = update s.peer_conns i 0 } in
    let u = (if s.peer_conns i == 0 then t else tell t (close_linger (s.peer_conns i))) in
    let (running, lanes) = close_all-facts slots u in (running ∙ ground arith, lanes ∙ ground arith)

stop-facts :
    (g : Gns) (id : ℕ) (s : Session)
    → s.running ≡ true
    → ((stop g id [] s).running ≡ false) × ((stop g id [] s).lanes_configured ≡ s.lanes_configured)
unfolding stop callbacks tell
stop-facts g id s running = ground (arith, close_all-facts all_slots (record s { running = false }))

forget_epochs-facts :
    (slots : List ℕ) (s : Session) → ((forget_epochs slots s).lanes_configured ≡ s.lanes_configured)
unfolding forget_epochs
forget_epochs-facts [] s = refl
forget_epochs-facts (i ∷ slots) s = forget_epochs-facts slots _

open_transport-facts :
    (b : Boot) (t : Session)
    → is_host b.role ≡ false
    → b.gns_ready ≡ true
    → b.address_parses ≡ true
    → (b.conn_handle == 0) ≡ false
    → ((open_transport b t).1 ≡ true)
      × ((open_transport b t).0.state ≡ handshaking)
      × ((open_transport b t).0.peer_conns 0 ≡ b.conn_handle)
      × ((open_transport b t).0.lanes_configured ≡ t.lanes_configured)
unfolding open_transport
open_transport-facts b t role ready parses handle =
    rw (role, ready, parses, handle, open_transport) (refl, refl, refl, refl)

start-facts :
    (b : Boot) (s : Session)
    → s.running ≡ false
    → b.role ≡ client
    → b.gns_ready ≡ true
    → b.address_parses ≡ true
    → b.conn_handle ≢ 0
    → ((start b s).1 ≡ true)
      × ((start b s).0.state ≡ handshaking)
      × ((start b s).0.peer_conns 0 ≡ b.conn_handle)
      × ((start b s).0.lanes_configured ≡ s.lanes_configured)
unfolding start
start-facts b s running role ready parses handle =
    let (good, state, conn, lanes) =
      open_transport-facts b
        (forget_epochs all_slots (record s { role = b.role; own_epoch = b.epoch; running = false }))
        (ap is_host role) ready parses (==_ne b.conn_handle 0 handle) in
    rw (running, start) (good, state, conn, lanes ∙ forget_epochs-facts all_slots _)

-- Stop leaves the flags of the configured lanes. A client that was connected, is stopped with no
-- callback reported, and is started again, counts its host as a connected peer while the new
-- connection is still in its handshake.
pub stop-start_half_open :
    (g : Gns) (id : ℕ) (b : Boot) (s : Session)
    → s.running ≡ true
    → s.lanes_configured 0 ≡ true
    → b.role ≡ client
    → b.gns_ready ≡ true
    → b.address_parses ≡ true
    → b.conn_handle ≢ 0
    → ((start b (stop g id [] s)).1 ≡ true)
      × ((start b (stop g id [] s)).0.state ≡ handshaking)
      × (connected_peer_count (start b (stop g id [] s)).0 ≢ 0)
stop-start_half_open g id b s running lanes role ready parses handle =
    let (stopped, left) = stop-facts g id s running in
    let (good, state, conn, flags) =
      start-facts b (stop g id [] s) stopped role ready parses handle in
    (
      good,
      state,
      ready_counts (start b (stop g id [] s)).0 0 (omega arith)
          (half_open conn (ap (λ l. l 0) flags ∙ ap (λ l. l 0) left ∙ lanes)),
    )
  where
    half_open : {c : ℕ} {l : Bool} → c ≡ b.conn_handle → l ≡ true → (not (c == 0) && l) ≡ true
    half_open e f = ground arith
