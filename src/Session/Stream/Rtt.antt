-- ===== src/Session/Stream/Rtt.antt =====
-- The round-trip time that NetThread in coop/net/session.cpp samples for the HUD.
use votv_mp.Base.{
  ℕ, ◌<◌, ◌≤◌, ◌≡◌, ◌≢◌, ◌⊎◌, refl, true, false, Option, none, some, List, [], ◌∷◌, ltb, ◌==◌,
  if◌then◌else◌, arith, inl, inr, Bool-cases, Option-cases, All, ==_ne,
}
use votv_mp.ElementId.{max_peers}
use votv_mp.Session.{Session, all_slots, is_connected}
use votv_mp.Session.Stream.{usable, better, best_ping, store_ping, sample_rtt}

-- The library reports this ping for the connection of the slot, and it is in range.
abbrev pub Answers : (ℕ → Option ℕ) → Session → ℕ → ℕ → Type 0
Answers pings s i ping =
    (s.peer_conns i ≢ 0) × (pings (s.peer_conns i) ≡ some ping) × (ping < 60000)

-- The best ping so far is there and no more than this one.
abbrev AtMost : Option ℕ → ℕ → Type 0
AtMost none q = ⊥
AtMost (some m) q = m ≤ q

abbrev Holds : (ℕ → Type 0) → Option ℕ → Type 0
Holds P none = Unit {0}
Holds P (some m) = P m

better-AtMost_kept : (best new : Option ℕ) (q : ℕ) → AtMost best q → AtMost (better best new) q
better-AtMost_kept none new q h = absurd h
better-AtMost_kept (some m) none q h = h
better-AtMost_kept (some m) (some n) q h = elim (Bool-cases (ltb n m)) [
  | inl less ↦ rw less (ground (arith, less, h))
  | inr more ↦ rw more h
]

better-AtMost_new : (best : Option ℕ) (q : ℕ) → AtMost (better best (some q)) q
better-AtMost_new none q = omega arith
better-AtMost_new (some m) q = elim (Bool-cases (ltb q m)) [
  | inl less ↦ rw less (omega arith)
  | inr more ↦ rw more (ground (arith, more))
]

better-Holds :
    (P : ℕ → Type 0) (best new : Option ℕ) → Holds P best → Holds P new → Holds P (better best new)
better-Holds P none none h k = h
better-Holds P (some m) none h k = h
better-Holds P none (some n) h k = k
better-Holds P (some m) (some n) h k = elim (Bool-cases (ltb n m)) [
  | inl less ↦ rw less k
  | inr more ↦ rw more h
]

-- The best ping after one slot.
abbrev after_slot : (ℕ → Option ℕ) → Session → ℕ → Option ℕ → Option ℕ
after_slot pings s i best =
    if s.peer_conns i == 0 then best else better best (usable (pings (s.peer_conns i)))

module _ (pings : ℕ → Option ℕ) (s : Session) where
  after_slot-AtMost_kept :
      (i : ℕ) (best : Option ℕ) (q : ℕ) → AtMost best q → AtMost (after_slot pings s i best) q
  after_slot-AtMost_kept i best q h = elim (Bool-cases (s.peer_conns i == 0)) [
    | inl vacant ↦ rw vacant h
    | inr taken ↦ rw taken (better-AtMost_kept best (usable (pings (s.peer_conns i))) q h)
  ]

  after_slot-AtMost_new :
      (i : ℕ) (best : Option ℕ) (q : ℕ) → Answers pings s i q → AtMost (after_slot pings s i best) q
  after_slot-AtMost_new i best q (taken, reported, small) =
      let inside : ltb q 60000 ≡ true = ground (arith, small) in
      rw (==_ne (s.peer_conns i) 0 taken, reported, inside) (better-AtMost_new best q)

  after_slot-Holds :
      (P : ℕ → Type 0) (i : ℕ) (best : Option ℕ)
      → ((q : ℕ) → Answers pings s i q → P q)
      → Holds P best
      → Holds P (after_slot pings s i best)
  after_slot-Holds P i best f h = elim (Bool-cases (s.peer_conns i == 0)) [
    | inl vacant ↦ rw vacant h
    | inr taken ↦ rw taken (better-Holds P best (usable (pings (s.peer_conns i))) h (answer taken))
  ]
    where
      answer : (s.peer_conns i == 0) ≡ false → Holds P (usable (pings (s.peer_conns i)))
      answer taken = elim (Option-cases (pings (s.peer_conns i))) [
        | inl failed ↦ rw failed tt
        | inr (q, reported) ↦ elim (Bool-cases (ltb q 60000)) [
          | inl small ↦
              rw (reported, small)
                (f q (λ e. ground (arith, e, taken), reported, ground (arith, small)))
          | inr large ↦ rw (reported, large) tt
        ]
      ]

  best_ping-AtMost_kept :
      (slots : List ℕ) (best : Option ℕ) (q : ℕ)
      → AtMost best q
      → AtMost (best_ping pings s slots best) q
  unfolding best_ping
  best_ping-AtMost_kept [] best q h = h
  best_ping-AtMost_kept (i ∷ slots) best q h =
      best_ping-AtMost_kept slots (after_slot pings s i best) q (after_slot-AtMost_kept i best q h)

  best_ping-AtMost :
      (slots : List ℕ) (best : Option ℕ)
      → All (λ i. (q : ℕ) → Answers pings s i q → AtMost (best_ping pings s slots best) q) slots
  unfolding best_ping
  best_ping-AtMost [] best = tt
  best_ping-AtMost (i ∷ slots) best = (
    λ q a.
        best_ping-AtMost_kept slots (after_slot pings s i best) q
          (after_slot-AtMost_new i best q a),
    best_ping-AtMost slots (after_slot pings s i best),
  )

  best_ping-Holds :
      (P : ℕ → Type 0) (slots : List ℕ) (best : Option ℕ)
      → All (λ i. (q : ℕ) → Answers pings s i q → P q) slots
      → Holds P best
      → Holds P (best_ping pings s slots best)
  unfolding best_ping
  best_ping-Holds P [] best f h = h
  best_ping-Holds P (i ∷ slots) best f h =
      best_ping-Holds P slots (after_slot pings s i best) f.1 (after_slot-Holds P i best f.0 h)

  -- What a sample does: without an answer nothing changes; else the stored time is the ping of one
  -- of the slots, and no slot has a smaller one.
  abbrev pub Sampled : Session → Type 0
  Sampled t =
      ((t ≡ s) × All (λ i. (q : ℕ) → ¬ Answers pings s i q) all_slots)
      ⊎ ((best : ℕ) × (t ≡ record s { last_rtt_ms = best })
          × ((i : ℕ) × (i < max_peers) × Answers pings s i best)
          × All (λ i. (q : ℕ) → Answers pings s i q → best ≤ q) all_slots)

  sampled :
      (o : Option ℕ)
      → All (λ i. (q : ℕ) → Answers pings s i q → AtMost o q) all_slots
      → Holds (λ q. (i : ℕ) × (i < max_peers) × Answers pings s i q) o
      → Sampled (store_ping s o)
  sampled none least from = inl (refl, least)
  sampled (some best) least from = inr (best, refl, from, least)

  -- A sample that is due on a connected session stores the least ping, below 60000, that the library
  -- reports for a connected slot, and changes nothing else; when it reports none for any of them, the
  -- sample changes nothing at all, whichever slots are connected.
  pub sample_rtt-Sampled : is_connected s.state ≡ true → Sampled (sample_rtt pings true s)
  unfolding sample_rtt
  sample_rtt-Sampled up = rw up (
      sampled (best_ping pings s all_slots none) (best_ping-AtMost all_slots none) (
        best_ping-Holds (λ q. (i : ℕ) × (i < max_peers) × Answers pings s i q) all_slots none
          (
            answer 0 (omega arith),
            (answer 1 (omega arith), (answer 2 (omega arith), (answer 3 (omega arith), tt))),
          )
          tt))
    where
      answer :
          (i : ℕ)
          → i < max_peers
          → (q : ℕ) → Answers pings s i q
          → (j : ℕ) × (j < max_peers) × Answers pings s j q
      answer i inside q a = (i, inside, a)
