-- ===== src/Feed/Peers.antt =====
-- The handlers of the handshake keep the published id that of a live element.
use votv_mp.Base.{
  ℕ, ◌≡◌, sym, subst, not, ◌&&◌, none, inl, inr, Bool-cases, either_branch, leb, ltb, length, ◌==◌,
}
use votv_mp.ElementId.{
  is_allowed_host_allocated_eid, is_allowed_sender_eid, max_peers, peer_id_host,
}
use votv_mp.Players.{Players, set_local_peer_id}
use votv_mp.Players.Published.{Published}
use votv_mp.Players.Lifetime.{set_local_peer_id-Published}
use votv_mp.Players.Mirrored.{establish_mirror_for_slot-Published}
use votv_mp.Protocol.{byte_at, u32_at}
use votv_mp.Session.{Gns, ReliableMessage}
use votv_mp.Handshake.{
  Codec, Game, is_set, install_sender, establish, store_nick, toast, handle_join_message,
  handle_player_joined, handle_assign_peer_slot,
}
use votv_mp.Handshake.Delivered.{handle_join_message-greeted}
use votv_mp.Handshake.Credited.{player_joined_cases}
use votv_mp.Handshake.Assigned.{assign_cases}
use votv_mp.Feed.{Fresh}

-- The two addresses are free when they are used.
pub record Free (s : Players) (new : Fresh) : Type 0 where
  pub first : s.proc.heap new.first ≡ none
  pub second : (slot : ℕ) → (set_local_peer_id s slot new.first).proc.heap new.second ≡ none

install_sender-Published :
    (w : Game) (slot eid p : ℕ)
    → w.players.proc.heap p ≡ none
    → Published w.players
    → Published (install_sender w slot eid p).players
unfolding install_sender establish
install_sender-Published w slot eid p free r =
    either_branch (not (is_set eid)) (λ (v : Game). Published v.players) _ _ r
      (either_branch (not (is_allowed_sender_eid (slot == 0) eid))
        (λ (v : Game). Published v.players) _ _ r
        (establish_mirror_for_slot-Published w.players slot eid p free r))

pub handle_join_message-Published :
    (c : Codec) (g : Gns) (w : Game) (m : ReliableMessage) (p : ℕ)
    → w.players.proc.heap p ≡ none
    → Published w.players
    → Published (handle_join_message c g w m p).players
handle_join_message-Published c g w m p free r =
    elim (Bool-cases (leb max_peers m.sender_peer_slot)) [
      | inl out ↦ unfold handle_join_message in rw out r
      | inr slot ↦ elim (Bool-cases (ltb (length m.payload) 4)) [
        | inl short ↦ unfold handle_join_message in rw (slot, short) r
        | inr size ↦
            let (s, (q, e)) = handle_join_message-greeted c g w m p slot size in
            subst (λ v. Published v.players) (sym e)
              (unfold store_nick toast in
                install_sender-Published w m.sender_peer_slot (u32_at m.payload 0) p free r)
      ]
    ]

pub handle_player_joined-Published :
    (c : Codec) (w : Game) (m : ReliableMessage) (p : ℕ)
    → w.players.proc.heap p ≡ none
    → Published w.players
    → Published (handle_player_joined c w m p).players
unfolding store_nick toast establish
handle_player_joined-Published c w m p free r = elim (player_joined_cases c w m p) [
  | inl (same, _) ↦ subst (λ v. Published v.players) (sym same) r
  | inr (e, _) ↦
      subst (λ v. Published v.players) (sym e)
        (establish_mirror_for_slot-Published w.players (byte_at m.payload 0) (u32_at m.payload 1) p
          free r)
]

pub handle_assign_peer_slot-Published :
    (w : Game) (m : ReliableMessage) (new : Fresh)
    → Free w.players new
    → Published w.players
    → Published (handle_assign_peer_slot w m new.first new.second).players
unfolding establish
handle_assign_peer_slot-Published w m new free r = elim (assign_cases w m new.first new.second) [
  | inl (same, _) ↦ subst (λ v. Published v.players) (sym same) r
  | inr (e, _) ↦
      let slot = byte_at m.payload 0 in
      let eid = u32_at m.payload 4 in
      let seated = set_local_peer_id-Published w.players slot new.first free.first r in
      subst (λ v. Published v.players) (sym e)
        (either_branch (is_set eid && is_allowed_host_allocated_eid eid)
          (λ (v : Game). Published v.players) _ _
          (establish_mirror_for_slot-Published (set_local_peer_id w.players slot new.first)
            peer_id_host eid new.second (free.second slot) seated)
          seated)
]
