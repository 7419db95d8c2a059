-- ===== src/Handshake/Assigned.antt =====
-- Whom a client believes about its own slot: the host, with a client slot.
use votv_mp.Base.{
  ℕ, ◌≤◌, ◌<◌, ◌≡◌, ◌≢◌, ◌⊎◌, refl, sym, subst, ◌∙◌, Bool, true, false, not, ◌&&◌, ◌||◌, leb, ltb,
  ◌==◌, if◌then◌else◌, length, arith, inl, inr, Bool-cases,
}
use votv_mp.ElementId.{max_peers, max_elements, peer_id_host, is_allowed_host_allocated_eid}
use votv_mp.Players.{Players, set_local_peer_id}
use votv_mp.Players.Established.{
  Outcome, establish_mirror_for_slot-Outcome, local_peer_id-set_local,
}
use votv_mp.Protocol.{byte_at, u32_at}
use votv_mp.Session.{ReliableMessage, is_host}
use votv_mp.Handshake.{Game, establish, is_set, handle_assign_peer_slot}
use votv_mp.Handshake.Credited.{FromHost}

-- An AssignPeerSlot that a client believes.
pub record Assigns (w : Game) (m : ReliableMessage) : Type 0 where
  pub from : FromHost w m (byte_at m.payload 0)
  pub long : 8 ≤ length m.payload

abbrev pub assigned : Game → ReliableMessage → ℕ → ℕ → Game
assigned w m p q =
    let seated = record w { players = set_local_peer_id w.players (byte_at m.payload 0) p } in
    if is_set (u32_at m.payload 4) && is_allowed_host_allocated_eid (u32_at m.payload 4)
    then establish seated peer_id_host (u32_at m.payload 4) q
    else seated

pub assign_cases :
    (w : Game) (m : ReliableMessage) (p q : ℕ)
    → ((handle_assign_peer_slot w m p q ≡ w) × ¬ Assigns w m)
      ⊎ ((handle_assign_peer_slot w m p q ≡ assigned w m p q) × Assigns w m)
unfolding handle_assign_peer_slot
assign_cases w m p q = elim (Bool-cases (ltb (length m.payload) 8)) [
  | inl short ↦ inl (rw short refl, λ b. ground (arith, short, b.long))
  | inr size ↦ elim (Bool-cases (is_host w.session.role)) [
    | inl h ↦ inl (rw (size, h) refl, λ b. ground (arith, h, b.from.at_client))
    | inr n ↦ elim (Bool-cases (not (m.sender_peer_slot == 0))) [
      | inl peer ↦ inl (rw (size, n, peer) refl, λ b. ground (arith, peer, b.from.by_host))
      | inr by_host ↦
          elim (Bool-cases (ltb (byte_at m.payload 0) 1 || leb max_peers (byte_at m.payload 0))) [
            | inl out ↦ inl (
              rw (size, n, by_host, out) refl,
              λ b. ground (arith, out, b.from.above_host, b.from.in_range),
            )
            | inr inside ↦ inr (
              rw (size, n, by_host, inside)
                  (nested (is_set (u32_at m.payload 4))
                    (is_allowed_host_allocated_eid (u32_at m.payload 4)) _ _),
              record {
                from = record {
                  at_client = n;
                  by_host = ground (arith, by_host);
                  above_host = ground (arith, inside);
                  in_range = ground (arith, inside);
                };
                long = ground (arith, size);
              },
            )
          ]
    ]
  ]
]
  where
    nested :
        (a b : Bool) (x y : Game)
        → (if a then if not b then x else y else x) ≡ (if a && b then y else x)
    nested true true x y = refl
    nested true false x y = refl
    nested false b x y = refl

-- What a believed AssignPeerSlot leaves. `s` are the players once the slot is taken.
pub record Assigned (w : Game) (m : ReliableMessage) (s : Players) (t : Game) : Type 0 where
  pub taken : t.players.local_peer_id ≡ byte_at m.payload 0
  pub host_mirror :
      ((is_allowed_host_allocated_eid (u32_at m.payload 4) ≡ true)
        × Outcome s t.players peer_id_host (u32_at m.payload 4))
      ⊎ ((is_allowed_host_allocated_eid (u32_at m.payload 4) ≡ false) × (t.players ≡ s))
  pub rest : t ≡ record w { players = t.players }

host_id :
    (eid : ℕ)
    → is_allowed_host_allocated_eid eid ≡ true
    → (is_set eid ≡ true) × ((eid ≢ 0) × (eid < max_elements))
unfolding is_allowed_host_allocated_eid
host_id eid h = (ground (arith, h), (λ e. ground (arith, h, e), ground (arith, h)))

no_host : (a b : Bool) → b ≡ false → (a && b) ≡ false
no_host true b h = h
no_host false b h = refl

assigned-Assigned :
    (w : Game) (m : ReliableMessage) (p q : ℕ)
    → Assigned w m (set_local_peer_id w.players (byte_at m.payload 0) p) (assigned w m p q)
unfolding establish
assigned-Assigned w m p q =
    let slot = byte_at m.payload 0 in
    let eid = u32_at m.payload 4 in
    let s = set_local_peer_id w.players slot p in
    elim (Bool-cases (is_allowed_host_allocated_eid eid)) [
      | inr not_host ↦ rw (no_host (is_set eid) _ not_host) (record {
        taken = local_peer_id-set_local w.players slot p;
        host_mirror = inr (not_host, refl);
        rest = refl;
      })
      | inl allowed ↦
          let real = host_id eid allowed in
          let o =
            establish_mirror_for_slot-Outcome s peer_id_host eid q (omega arith) real.1.0
              real.1.1 in
          rw (real.0, allowed)
            (record {
              taken = o.local_peer_id ∙ local_peer_id-set_local w.players slot p;
              host_mirror = inl (allowed, o);
              rest = refl;
            })
    ]

-- An AssignPeerSlot that is believed, by a client, from the host, with a client slot, makes that slot
-- the client's own; then an id of the host's range leaves a live mirror of exactly this id in slot 0,
-- or no element there if another element has the id already, and any other id leaves the players as
-- taking the slot left them. Nothing but the players changes. Every other AssignPeerSlot changes
-- nothing.
pub handle_assign_peer_slot-credited :
    (w : Game) (m : ReliableMessage) (p q : ℕ)
    → ((handle_assign_peer_slot w m p q ≡ w) × ¬ Assigns w m)
      ⊎ (Assigned w m
            (set_local_peer_id w.players (byte_at m.payload 0) p)
            (handle_assign_peer_slot w m p q)
          × Assigns w m)
handle_assign_peer_slot-credited w m p q = elim (assign_cases w m p q) [
  | inl same ↦ inl same
  | inr (e, b) ↦ inr (
    subst (Assigned w m (set_local_peer_id w.players (byte_at m.payload 0) p)) (sym e)
        (assigned-Assigned w m p q),
    b,
  )
]
