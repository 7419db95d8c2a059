-- ===== src/Session/Reach.antt =====
-- A run of the session: status changes and packets on the net thread, reads on the game thread, in
-- any order.
use votv_mp.Base.{
  ℕ, ◌<◌, ◌≡◌, ◌≢◌, refl, ap, subst, List, [], ◌∷◌, ◌==◌, not, leb, length, All, ◌||◌, arith, inl,
  inr, Bool-cases,
}
use votv_mp.ElementId.{max_peers}
use votv_mp.Session.{Gns, Session, is_host, ReliableMessage, is_connected}
use votv_mp.Session.Receive.{
  receive, handle_message, try_get_remote_pose, try_get_remote_prop_pose, try_get_reliable,
}
use votv_mp.Session.Receive.Cases.{Kept, handle_message-keeps}
use votv_mp.Session.Receive.Stored.{StoredValid, handle_message-StoredValid, SmallMessage}
use votv_mp.Session.Status.{
  StatusChange, GnsState, no_state, connecting, conn_open, closed_by_peer, problem_detected_locally,
  handle_conn_status_changed,
}
use votv_mp.Session.Status.Received.{
  on_connecting-StoredValid, on_connected-StoredValid, on_closed-StoredValid,
}
use votv_mp.Session.Status.Table.{Table, Table-fields, Table-Quiet}
use votv_mp.Session.Status.Admission.{on_connecting-Table, on_connected-Table}
use votv_mp.Session.Status.Closing.{on_closed-Table}

pub data Event : Type 0 where
  status_changed : StatusChange → Event
  packet : ℕ → List ℕ → Event
  reads_pose : ℕ → Event
  reads_prop_pose : ℕ → Event
  reads_reliable : Event

unfoldable pub step : Gns → ℕ → Session → Event → Session
step g id s (status_changed c) = handle_conn_status_changed g id s c
step g id s (packet user_data bytes) = receive g s user_data bytes
step g id s (reads_pose slot) = (try_get_remote_pose s slot).0
step g id s (reads_prop_pose slot) = (try_get_remote_prop_pose s slot).0
step g id s reads_reliable = (try_get_reliable s).0

-- The library reports valid handles, and a connection that is new to it is new to the table.
pub record Reported (s : Session) (c : StatusChange) : Type 0 where
  pub valid : c.conn ≢ 0
  pub fresh : c.old_state ≡ no_state → (i : ℕ) → i < max_peers → s.peer_conns i ≢ c.conn

abbrev pub Possible : Session → Event → Type 0
Possible s (status_changed c) = Reported s c
Possible s _ = Unit

pub data Reach (g : Gns) (id : ℕ) (s : Session) : Session → Type 0 where
  begins : Reach g id s s
  next : {t : Session} (e : Event) → Reach g id s t → Possible t e → Reach g id s (step g id t e)

Kept-Table : (slot : ℕ) (bytes : List ℕ) → Kept Table slot bytes
Kept-Table slot bytes = record {
  quiet = λ s t q v. Table-Quiet s t q v;
  received = λ s v. Table-fields s _ refl refl refl refl v;
  latch = λ s h parsed real open_slot v. Table-fields s _ refl refl refl refl v;
  pose = λ s h r a good new v. Table-fields s _ refl refl refl refl v;
  prop_pose = λ s h r a good new v. Table-fields s _ refl refl refl refl v;
  queue = λ s h r a room fits whole v. Table-fields s _ refl refl refl refl v;
}

status-Table :
    (g : Gns) (id : ℕ) (s : Session) (c : StatusChange)
    → Reported s c
    → Table s
    → Table (handle_conn_status_changed g id s c)
unfolding handle_conn_status_changed
status-Table g id s c reported t = by_state c.old_state c.new_state reported.fresh
  where
    by_state :
        (old new : GnsState)
        → (old ≡ no_state → (i : ℕ) → i < max_peers → s.peer_conns i ≢ c.conn)
        → Table (
            handle_conn_status_changed g id s
              (record { conn = c.conn; old_state = old; new_state = new }))
    by_state no_state connecting fresh = elim (Bool-cases (is_host s.role)) [
      | inl h ↦ rw h (on_connecting-Table g s c.conn t reported.valid (fresh refl))
      | inr n ↦ rw n t
    ]
    by_state old conn_open fresh = on_connected-Table g id s c.conn t reported.valid
    by_state old closed_by_peer fresh = on_closed-Table s c.conn t
    by_state old problem_detected_locally fresh = on_closed-Table s c.conn t
    by_state old new fresh = t

receive-keeps :
    (P : Session → Type 0) (g : Gns) (s : Session) (user_data : ℕ) (bytes : List ℕ)
    → ((slot : ℕ) → P (handle_message g s slot bytes))
    → P s
    → P (receive g s user_data bytes)
unfolding receive
receive-keeps P g s user_data bytes f p = elim (Bool-cases (is_host s.role)) [
  | inr c ↦ rw c (f 0)
  | inl h ↦ rw h (elim (Bool-cases (user_data == 0 || leb max_peers user_data)) [
    | inl bad ↦ rw bad p
    | inr good ↦ rw good (f user_data)
  ])
]

status-StoredValid :
    (g : Gns) (id : ℕ) (s : Session) (c : StatusChange)
    → StoredValid s
    → StoredValid (handle_conn_status_changed g id s c)
unfolding handle_conn_status_changed
status-StoredValid g id s c v = by_state c.old_state c.new_state
  where
    by_state :
        (old new : GnsState)
        → StoredValid (
            handle_conn_status_changed g id s
              (record { conn = c.conn; old_state = old; new_state = new }))
    by_state no_state connecting = elim (Bool-cases (is_host s.role)) [
      | inl h ↦ rw h (on_connecting-StoredValid g s c.conn v)
      | inr n ↦ rw n v
    ]
    by_state old conn_open = on_connected-StoredValid g id s c.conn v
    by_state old closed_by_peer = on_closed-StoredValid s c.conn v
    by_state old problem_detected_locally = on_closed-StoredValid s c.conn v
    by_state old new = v

-- What a run keeps: the slot table in order, and what is stored from the wire in its bounds.
pub record Good (s : Session) : Type 0 where
  pub table : Table s
  pub stored : StoredValid s

taken :
    (s : Session) (ms : List ReliableMessage) → s.inbox ≡ ms → Good s → Good (try_get_reliable s).0
unfolding try_get_reliable
taken s [] e v = rw (e, try_get_reliable) v
taken s (m ∷ ms) e v =
    rw (e, try_get_reliable)
      (record {
        table = Table-fields s _ refl refl refl refl v.table;
        stored = record {
          poses = v.stored.poses;
          props = v.stored.props;
          bounded = omega (arith, v.stored.bounded, ap (λ xs. length xs) e);
          messages = (subst (All SmallMessage) e v.stored.messages).1;
        };
      })

pose_read-Good : (s : Session) (slot : ℕ) → Good s → Good (try_get_remote_pose s slot).0
unfolding try_get_remote_pose
pose_read-Good s slot v =
    elim (Bool-cases
      (not (is_connected s.state) || leb max_peers slot || not (s.remotes slot).has_remote)) [
        | inl absent ↦ rw (absent, try_get_remote_pose) v
        | inr read ↦
            rw (read, try_get_remote_pose)
              (record {
                table = Table-fields s _ refl refl refl refl v.table;
                stored = record {
                  poses = λ i e. ground (arith, v.stored.poses i, v.stored.poses slot);
                  props = λ i e. ground (arith, v.stored.props i, v.stored.props slot);
                  bounded = v.stored.bounded;
                  messages = v.stored.messages;
                };
              })
      ]

prop_pose_read-Good : (s : Session) (slot : ℕ) → Good s → Good (try_get_remote_prop_pose s slot).0
unfolding try_get_remote_prop_pose
prop_pose_read-Good s slot v =
    elim (Bool-cases
      (not (is_connected s.state) || leb max_peers slot || not (s.remotes slot).has_remote_prop)) [
        | inl absent ↦ rw (absent, try_get_remote_prop_pose) v
        | inr read ↦
            rw (read, try_get_remote_prop_pose)
              (record {
                table = Table-fields s _ refl refl refl refl v.table;
                stored = record {
                  poses = λ i e. ground (arith, v.stored.poses i, v.stored.poses slot);
                  props = λ i e. ground (arith, v.stored.props i, v.stored.props slot);
                  bounded = v.stored.bounded;
                  messages = v.stored.messages;
                };
              })
      ]

step-Good :
    (g : Gns) (id : ℕ) (s : Session) (e : Event) → Possible s e → Good s → Good (step g id s e)
unfolding step
step-Good g id s (status_changed c) p v = record {
  table = status-Table g id s c p v.table;
  stored = status-StoredValid g id s c v.stored;
}
step-Good g id s (packet user_data bytes) p v = record {
  table =
      receive-keeps Table g s user_data bytes
        (λ slot. handle_message-keeps Table g slot bytes (Kept-Table slot bytes) s v.table) v.table;
  stored =
      receive-keeps StoredValid g s user_data bytes
        (λ slot. handle_message-StoredValid g s slot bytes v.stored) v.stored;
}
step-Good g id s (reads_pose slot) p v = pose_read-Good s slot v
step-Good g id s (reads_prop_pose slot) p v = prop_pose_read-Good s slot v
step-Good g id s reads_reliable p v = taken s s.inbox refl v

-- From a session in order, every sequence of status changes, packets and reads, interleaved in any
-- way, leaves the session in order, if the library reports valid handles and calls a connection new
-- only when it is.
pub Reach-Good : (g : Gns) (id : ℕ) (s t : Session) → Good s → Reach g id s t → Good t
Reach-Good g id s _ v begins = v
Reach-Good g id s _ v (next {t} e r p) = step-Good g id t e p (Reach-Good g id s t v r)
