-- ===== src/Session/Status/Table.antt =====
-- The slot table: what it keeps true, and what its two searches find.
use votv_mp.Base.{
  ℕ, ◌≤◌, ◌<◌, ◌≡◌, ◌≢◌, refl, ap, sym, ◌∙◌, true, false, none, some, ◌==◌, not, ◌&&◌, arith, inl,
  inr, Option-cases,
}
use votv_mp.ElementId.{max_peers}
use votv_mp.Session.{
  Session, host, connected, find_slot, find_free_peer_slot_for_client, find_peer_slot_for_conn,
  is_counted, count_slots, connected_peer_count,
}
use votv_mp.Session.Quiet.{Quiet}

-- The host keeps slot 0 for itself; no connection has two slots; lanes are configured on occupied
-- slots only; the state is Connected exactly while a slot is ready.
pub record Table (s : Session) : Type 0 where
  pub host_slot : s.role ≡ host → s.peer_conns 0 ≡ 0
  pub distinct :
      (i j : ℕ)
      → i < max_peers
      → j < max_peers
      → s.peer_conns i ≢ 0
      → s.peer_conns i ≡ s.peer_conns j
      → i ≡ j
  pub lanes : (i : ℕ) → s.peer_conns i ≡ 0 → s.lanes_configured i ≡ false
  pub up : s.state ≡ connected → connected_peer_count s ≢ 0
  pub down : s.state ≢ connected → connected_peer_count s ≡ 0

pub free_slot :
    (s : Session) (slot : ℕ)
    → find_free_peer_slot_for_client s ≡ some slot
    → (1 ≤ slot) × (slot < max_peers) × (s.peer_conns slot ≡ 0)
unfolding find_free_peer_slot_for_client find_slot
free_slot s slot e = ground arith

pub no_free_slot :
    (s : Session)
    → find_free_peer_slot_for_client s ≡ none
    → (i : ℕ) → 1 ≤ i
    → i < max_peers
    → s.peer_conns i ≢ 0
unfolding find_free_peer_slot_for_client find_slot
no_free_slot s e i l h = ground arith

pub found_slot :
    (s : Session) (conn slot : ℕ)
    → find_peer_slot_for_conn s conn ≡ some slot
    → (slot < max_peers) × (s.peer_conns slot ≡ conn)
unfolding find_peer_slot_for_conn find_slot
found_slot s conn slot e = ground arith

pub not_found :
    (s : Session) (conn : ℕ)
    → find_peer_slot_for_conn s conn ≡ none
    → (i : ℕ) → i < max_peers
    → s.peer_conns i ≢ conn
unfolding find_peer_slot_for_conn find_slot
not_found s conn e i h = ground arith

-- The search finds the slot of a connection that has one.
pub found :
    (s : Session) (slot : ℕ)
    → Table s
    → slot < max_peers
    → s.peer_conns slot ≢ 0
    → find_peer_slot_for_conn s (s.peer_conns slot) ≡ some slot
found s slot t lt ne = elim (Option-cases (find_peer_slot_for_conn s (s.peer_conns slot))) [
  | inl e ↦ elim (not_found s _ e slot lt refl) [ ]
  | inr (i, e) ↦
      let (lt_i, same) = found_slot s _ i e in
      e ∙ ap some (sym (t.distinct slot i lt lt_i ne (sym same)))
]

pub ready_counts :
    (s : Session) (i : ℕ) → i < max_peers → is_counted s i ≡ true → connected_peer_count s ≢ 0
unfolding connected_peer_count count_slots
ready_counts s i lt e = ground arith

-- Two sessions with the same ready slots count alike.
pub count-same :
    (s t : Session)
    → ((i : ℕ) → i < max_peers → is_counted t i ≡ is_counted s i)
    → connected_peer_count t ≡ connected_peer_count s
unfolding connected_peer_count count_slots
count-same s t same = ground (arith, same 0, same 1, same 2, same 3)

-- The table is in the role, the state, the slots and their lanes.
pub Table-fields :
    (s t : Session)
    → t.role ≡ s.role
    → t.state ≡ s.state
    → t.peer_conns ≡ s.peer_conns
    → t.lanes_configured ≡ s.lanes_configured
    → Table s
    → Table t
Table-fields s t role state conns lanes v = record {
  host_slot = λ r. at 0 ∙ v.host_slot (sym role ∙ r);
  distinct = λ i j li lj ne e. v.distinct i j li lj (λ z. ne (at i ∙ z)) (sym (at i) ∙ e ∙ at j);
  lanes = λ i e. ap (λ c. c i) lanes ∙ v.lanes i (sym (at i) ∙ e);
  up = λ e z. v.up (sym state ∙ e) (sym count ∙ z);
  down = λ n. count ∙ v.down (λ e. n (state ∙ e));
}
  where
    at : (i : ℕ) → t.peer_conns i ≡ s.peer_conns i
    at i = ap (λ c. c i) conns

    count : connected_peer_count t ≡ connected_peer_count s
    count = count-same s t (λ i lt.
        ap (λ c. not (c == 0) && t.lanes_configured i) (at i)
        ∙ ap (λ l. not (s.peer_conns i == 0) && l i) lanes)

pub Table-Quiet : (s t : Session) → Quiet s t → Table s → Table t
Table-Quiet s t q = Table-fields s t q.role q.state q.peer_conns q.lanes_configured
