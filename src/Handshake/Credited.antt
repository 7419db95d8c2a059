-- ===== src/Handshake/Credited.antt =====
-- Whom a client believes about other peers: the host, within bounds.
use votv_mp.Base.{
  ℕ, ◌≤◌, ◌<◌, ◌≡◌, ◌≢◌, ◌⊎◌, refl, true, false, not, ◌||◌, List, ◌∷◌, update, leb, ltb, ◌==◌,
  length, arith, inl, inr, Bool-cases, drop,
}
use votv_mp.ElementId.{max_peers, is_allowed_peer_allocated_eid}
use votv_mp.Players.Established.{Outcome}
use votv_mp.Protocol.{byte_at, u32_at}
use votv_mp.Session.{ReliableMessage, is_host}
use votv_mp.Handshake.Nickname.{sanitize_nickname}
use votv_mp.Handshake.{
  Codec, Game, Shown, joined, read_nick, store_nick, toast, establish, handle_player_joined,
}

-- A message that the host sends to a client about a client slot.
pub record FromHost (w : Game) (m : ReliableMessage) (slot : ℕ) : Type 0 where
  pub at_client : is_host w.session.role ≡ false
  pub by_host : m.sender_peer_slot ≡ 0
  pub above_host : 1 ≤ slot
  pub in_range : slot < max_peers

-- A PlayerJoined that a client believes.
pub record Believed (w : Game) (m : ReliableMessage) : Type 0 where
  pub from : FromHost w m (byte_at m.payload 0)
  pub long : 6 ≤ length m.payload
  pub other : byte_at m.payload 0 ≢ w.players.local_peer_id
  pub allowed : is_allowed_peer_allocated_eid (u32_at m.payload 1) ≡ true

abbrev pub joined_nick : Codec → Game → ReliableMessage → List ℕ
joined_nick c w m =
    sanitize_nickname (read_nick c (w.remote_nick_by_slot (byte_at m.payload 0)) (drop 5 m.payload))

abbrev pub introduced : Codec → Game → ReliableMessage → ℕ → Game
introduced c w m p =
    let slot = byte_at m.payload 0 in
    toast (joined (joined_nick c w m))
      (store_nick (establish w slot (u32_at m.payload 1) p) slot (joined_nick c w m))

pub player_joined_cases :
    (c : Codec) (w : Game) (m : ReliableMessage) (p : ℕ)
    → ((handle_player_joined c w m p ≡ w) × ¬ Believed w m)
      ⊎ ((handle_player_joined c w m p ≡ introduced c w m p) × Believed w m)
unfolding handle_player_joined
player_joined_cases c w m p = elim (Bool-cases (is_host w.session.role)) [
  | inl h ↦ inl (rw h refl, λ b. ground (arith, h, b.from.at_client))
  | inr n ↦ elim (Bool-cases (not (m.sender_peer_slot == 0))) [
    | inl peer ↦ inl (rw (n, peer) refl, λ b. ground (arith, peer, b.from.by_host))
    | inr by_host ↦ elim (Bool-cases (ltb (length m.payload) 6)) [
      | inl short ↦ inl (rw (n, by_host, short) refl, λ b. ground (arith, short, b.long))
      | inr size ↦
          elim (Bool-cases (ltb (byte_at m.payload 0) 1 || leb max_peers (byte_at m.payload 0))) [
            | inl out ↦ inl (
              rw (n, by_host, size, out) refl,
              λ b. ground (arith, out, b.from.above_host, b.from.in_range),
            )
            | inr inside ↦ elim (Bool-cases (byte_at m.payload 0 == w.players.local_peer_id)) [
              | inl own ↦
                  inl (rw (n, by_host, size, inside, own) refl, λ b. ground (arith, own, b.other))
              | inr other ↦
                  elim (Bool-cases (not (is_allowed_peer_allocated_eid (u32_at m.payload 1)))) [
                    | inl forged ↦ inl (
                      rw (n, by_host, size, inside, other, forged) refl,
                      λ b. ground (arith, forged, b.allowed),
                    )
                    | inr allowed ↦ inr (
                      rw (n, by_host, size, inside, other, allowed) refl,
                      record {
                        from = record {
                          at_client = n;
                          by_host = ground (arith, by_host);
                          above_host = ground (arith, inside);
                          in_range = ground (arith, inside);
                        };
                        long = ground (arith, size);
                        other = ground (arith, other);
                        allowed = ground (arith, allowed);
                      },
                    )
                  ]
            ]
          ]
    ]
  ]
]

-- What a believed PlayerJoined leaves: a live mirror of exactly the given id in the described slot,
-- or the slot empty because another element has that id; the sanitized nickname; and its toast.
pub record Introduced (c : Codec) (w : Game) (m : ReliableMessage) (t : Game) : Type 0 where
  pub mirror : Outcome w.players t.players (byte_at m.payload 0) (u32_at m.payload 1)
  pub nicks :
      t.remote_nick_by_slot ≡ update w.remote_nick_by_slot (byte_at m.payload 0) (joined_nick c w m)
  pub shown : (rest : List Shown) × (t.shown ≡ joined (joined_nick c w m) ∷ rest)
  pub session : t.session ≡ w.session
