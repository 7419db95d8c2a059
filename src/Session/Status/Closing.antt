-- ===== src/Session/Status/Closing.antt =====
-- The branch for a connection that has ended: its slot, its state and its messages go.
use votv_mp.Base.{
  ℕ, ◌<◌, ◌≡◌, ◌≢◌, refl, ap, ◌∙◌, false, some, List, [], ◌==◌, not, arith, inl, inr, if◌then◌else◌,
  leb, Bool-cases, Option-cases, keep_if, keep_if-All, All,
}
use votv_mp.ElementId.{max_peers}
use votv_mp.Session.{
  Session, host, connected, disconnected, ReliableMessage, find_peer_slot_for_conn,
  connected_peer_count, count_slots, is_slot_ready, tell, close,
}
use votv_mp.Session.Status.{reset_peer_remote_state, release_slot, reset_all, settle, on_closed}
use votv_mp.Session.Status.Table.{Table, Table-Quiet, found_slot}
use votv_mp.Session.Quiet.{tell-Quiet}

-- A cleared slot: nothing received is kept for it.
pub record Clear (s : Session) (slot : ℕ) : Type 0 where
  pub pose : (s.remotes slot).has_remote ≡ false
  pub prop : (s.remotes slot).has_remote_prop ≡ false
  pub epoch : (s.remotes slot).expected_epoch ≡ 0

pub reset_all-conns : (s : Session) → (reset_all s).peer_conns ≡ s.peer_conns
unfolding reset_all reset_peer_remote_state
reset_all-conns s = refl

pub reset_all-lanes : (s : Session) → (reset_all s).lanes_configured ≡ s.lanes_configured
unfolding reset_all reset_peer_remote_state
reset_all-lanes s = refl

pub reset_all-role : (s : Session) → (reset_all s).role ≡ s.role
unfolding reset_all reset_peer_remote_state
reset_all-role s = refl

pub reset_all-Clear : (s : Session) (i : ℕ) → i < max_peers → Clear (reset_all s) i
unfolding reset_all reset_peer_remote_state
reset_all-Clear s i lt = ground arith

count-reset :
    (s : Session) (x : List ReliableMessage)
    → connected_peer_count
        (record (reset_all s) { state = disconnected; inbox = x; last_rtt_ms = 0 })
      ≡ connected_peer_count s
unfolding reset_all reset_peer_remote_state connected_peer_count count_slots
count-reset s x = refl

emptied-Table :
    (s : Session)
    → (s.role ≡ host → s.peer_conns 0 ≡ 0)
    → ((i j : ℕ)
        → i < max_peers
        → j < max_peers
        → s.peer_conns i ≢ 0
        → s.peer_conns i ≡ s.peer_conns j
        → i ≡ j)
    → ((i : ℕ) → s.peer_conns i ≡ 0 → s.lanes_configured i ≡ false)
    → connected_peer_count s ≡ 0
    → Table (record (reset_all s) { state = disconnected; inbox = []; last_rtt_ms = 0 })
unfolding reset_all reset_peer_remote_state
emptied-Table s h d l z = record {
  host_slot = h;
  distinct = d;
  lanes = l;
  up = λ e. ground arith;
  down = λ n. count-reset s [] ∙ z;
}

settle-Table :
    (s : Session)
    → (s.role ≡ host → s.peer_conns 0 ≡ 0)
    → ((i j : ℕ)
        → i < max_peers
        → j < max_peers
        → s.peer_conns i ≢ 0
        → s.peer_conns i ≡ s.peer_conns j
        → i ≡ j)
    → ((i : ℕ) → s.peer_conns i ≡ 0 → s.lanes_configured i ≡ false)
    → (s.state ≢ connected → connected_peer_count s ≡ 0)
    → Table (settle s)
unfolding settle
settle-Table s h d l down = elim (Bool-cases (connected_peer_count s == 0)) [
  | inl empty ↦ rw empty (emptied-Table s h d l (ground arith))
  | inr some_left ↦
      rw some_left
        (record { host_slot = h; distinct = d; lanes = l; up = λ e z. ground arith; down = down })
]

release_slot-down :
    (s : Session) (conn slot : ℕ)
    → slot < max_peers
    → connected_peer_count s ≡ 0
    → connected_peer_count (release_slot s conn slot) ≡ 0
unfolding release_slot reset_peer_remote_state tell connected_peer_count count_slots
release_slot-down s conn slot lt z = ground arith

release_slot-distinct :
    (s : Session) (conn slot : ℕ)
    → Table s
    → slot < max_peers
    → (i j : ℕ) → i < max_peers
    → j < max_peers
    → (release_slot s conn slot).peer_conns i ≢ 0
    → (release_slot s conn slot).peer_conns i ≡ (release_slot s conn slot).peer_conns j
    → i ≡ j
unfolding release_slot reset_peer_remote_state tell
release_slot-distinct s conn slot t lt i j li lj ne e = ground (arith, t.distinct i j li lj)

release_slot-Table :
    (s : Session) (conn slot : ℕ)
    → Table s
    → slot < max_peers
    → Table (settle (release_slot s conn slot))
unfolding release_slot reset_peer_remote_state tell
release_slot-Table s conn slot t lt =
    settle-Table (release_slot s conn slot) (λ h. ground (arith, t.host_slot))
      (release_slot-distinct s conn slot t lt) (λ i e. ground (arith, t.lanes i))
      (λ n. release_slot-down s conn slot lt (t.down (λ e. ground arith)))

-- The table stays in order when a connection ends, known or not, the last one or not.
pub on_closed-Table : (s : Session) (conn : ℕ) → Table s → Table (on_closed s conn)
unfolding on_closed
on_closed-Table s conn t = elim (Option-cases (find_peer_slot_for_conn s conn)) [
  | inl e ↦
      rw (e, on_closed)
        (let u = Table-Quiet s (tell s (close conn)) (tell-Quiet s (close conn)) t in
          settle-Table _ u.host_slot u.distinct u.lanes u.down)
  | inr (slot, e) ↦
      rw (e, on_closed) (release_slot-Table s conn slot t (found_slot s conn slot e).0)
]

abbrev pub NotSentBy : ℕ → ReliableMessage → Type 0
NotSentBy slot m = m.sender_peer_slot ≢ slot

purged :
    (slot : ℕ) (ms : List ReliableMessage)
    → All (NotSentBy slot) (keep_if (λ m. not (m.sender_peer_slot == slot)) ms)
purged slot ms =
    keep_if-All (λ m. not (m.sender_peer_slot == slot)) (NotSentBy slot) ms (λ m y e. ground arith)

-- What is left of a departed peer's slot: nothing; and the other slots keep their connections.
pub record Departed (s t : Session) (slot : ℕ) : Type 0 where
  pub vacant : t.peer_conns slot ≡ 0
  pub unready : is_slot_ready t slot ≡ false
  pub clear : Clear t slot
  pub messages : All (NotSentBy slot) t.inbox
  pub others :
      (i : ℕ)
      → i ≢ slot
      → (t.peer_conns i ≡ s.peer_conns i) × (t.lanes_configured i ≡ s.lanes_configured i)

release_slot-Departed :
    (s : Session) (conn slot : ℕ) → slot < max_peers → Departed s (release_slot s conn slot) slot
unfolding release_slot reset_peer_remote_state tell
release_slot-Departed s conn slot lt = record {
  vacant = ground arith;
  unready = ground arith;
  clear = ground arith;
  messages = ground (arith, purged slot s.inbox);
  others = λ i ne. ground arith;
}

settle-Departed :
    (s t : Session) (slot : ℕ) → slot < max_peers → Departed s t slot → Departed s (settle t) slot
unfolding settle
settle-Departed s t slot lt d = elim (Bool-cases (connected_peer_count t == 0)) [
  | inl empty ↦ rw empty (record {
    vacant = ap (λ c. c slot) (reset_all-conns t) ∙ d.vacant;
    unready =
        ap (λ l. if leb max_peers slot then false else l slot) (reset_all-lanes t) ∙ d.unready;
    clear =
        let c = reset_all-Clear t slot lt in
        record { pose = c.pose; prop = c.prop; epoch = c.epoch };
    messages = tt;
    others = λ i ne. (
      ap (λ c. c i) (reset_all-conns t) ∙ (d.others i ne).0,
      ap (λ c. c i) (reset_all-lanes t) ∙ (d.others i ne).1,
    );
  })
  | inr left ↦ rw left d
]

-- When the connection of a slot ends, the slot is vacant, holds no pose and no latched epoch, no
-- queued message names it as sender, and every other slot keeps its connection and its lanes.
pub on_closed-Departed :
    (s : Session) (conn slot : ℕ)
    → find_peer_slot_for_conn s conn ≡ some slot
    → Departed s (on_closed s conn) slot
unfolding on_closed
on_closed-Departed s conn slot e =
    rw (e, on_closed)
      (settle-Departed s (release_slot s conn slot) slot (found_slot s conn slot e).0
        (release_slot-Departed s conn slot (found_slot s conn slot e).0))
