-- ===== src/Handshake/Received.antt =====
-- The two handlers of a client keep its texts clean, and leave the tables of its session alone.
use votv_mp.Base.{either_branch, ℕ, sym, subst, ◌&&◌, List, inl, inr}
use votv_mp.ElementId.{peer_id_host, is_allowed_host_allocated_eid}
use votv_mp.Players.{set_local_peer_id}
use votv_mp.Protocol.{byte_at, u32_at}
use votv_mp.Session.{ReliableMessage}
use votv_mp.Session.Quiet.{Quiet, Quiet-refl}
use votv_mp.Handshake.Nickname.{sanitize_nickname}
use votv_mp.Handshake.Displayable.{sanitize_nickname-Displayable}
use votv_mp.Handshake.Trust.{Clean, players-Clean, store_nick-Clean, toast-Clean, establish-Clean}
use votv_mp.Handshake.{
  Codec, Game, joined, store_nick, toast, establish, is_set, handle_player_joined,
  handle_assign_peer_slot,
}
use votv_mp.Handshake.Credited.{player_joined_cases}
use votv_mp.Handshake.Assigned.{assign_cases}

introduced-Clean :
    (w : Game) (slot eid p : ℕ) (raw : List ℕ)
    → Clean w
    → Clean (
        toast
          (joined (sanitize_nickname raw))
          (store_nick (establish w slot eid p) slot (sanitize_nickname raw)))
introduced-Clean w slot eid p raw v =
    let d = sanitize_nickname-Displayable raw in
    toast-Clean _ (joined (sanitize_nickname raw)) d
      (store_nick-Clean _ slot (sanitize_nickname raw) d (establish-Clean w slot eid p v))

pub handle_player_joined-Clean :
    (c : Codec) (w : Game) (m : ReliableMessage) (p : ℕ)
    → Clean w
    → Clean (handle_player_joined c w m p)
handle_player_joined-Clean c w m p v = elim (player_joined_cases c w m p) [
  | inl (same, _) ↦ subst Clean (sym same) v
  | inr (e, _) ↦ subst Clean (sym e) (introduced-Clean w _ _ p _ v)
]

pub handle_assign_peer_slot-Clean :
    (w : Game) (m : ReliableMessage) (p q : ℕ) → Clean w → Clean (handle_assign_peer_slot w m p q)
handle_assign_peer_slot-Clean w m p q v = elim (assign_cases w m p q) [
  | inl (same, _) ↦ subst Clean (sym same) v
  | inr (e, _) ↦
      let seated = record w { players = set_local_peer_id w.players (byte_at m.payload 0) p } in
      let u = players-Clean w (set_local_peer_id w.players (byte_at m.payload 0) p) v in
      subst Clean (sym e) (
        either_branch
          (is_set (u32_at m.payload 4) && is_allowed_host_allocated_eid (u32_at m.payload 4)) Clean
          (establish seated peer_id_host (u32_at m.payload 4) q) seated
          (establish-Clean seated peer_id_host (u32_at m.payload 4) q u) u)
]

pub handle_player_joined-Quiet :
    (c : Codec) (w : Game) (m : ReliableMessage) (p : ℕ)
    → Quiet w.session (handle_player_joined c w m p).session
unfolding toast store_nick establish
handle_player_joined-Quiet c w m p = elim (player_joined_cases c w m p) [
  | inl (same, _) ↦ subst (λ v. Quiet w.session v.session) (sym same) (Quiet-refl w.session)
  | inr (e, _) ↦ subst (λ v. Quiet w.session v.session) (sym e) (Quiet-refl w.session)
]

pub handle_assign_peer_slot-Quiet :
    (w : Game) (m : ReliableMessage) (p q : ℕ)
    → Quiet w.session (handle_assign_peer_slot w m p q).session
unfolding establish
handle_assign_peer_slot-Quiet w m p q = elim (assign_cases w m p q) [
  | inl (same, _) ↦ subst (λ v. Quiet w.session v.session) (sym same) (Quiet-refl w.session)
  | inr (e, _) ↦
      subst (λ v. Quiet w.session v.session) (sym e)
        (either_branch
          (is_set (u32_at m.payload 4) && is_allowed_host_allocated_eid (u32_at m.payload 4))
          (λ (v : Game). Quiet w.session v.session) _ _ (Quiet-refl w.session)
          (Quiet-refl w.session))
]
