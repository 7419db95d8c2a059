-- ===== src/Feed/Tended.antt =====
-- The loop of Update over the slots: the toasts of the departed and the Joins.
use votv_mp.Base.{ℕ, ◌≡◌, refl, ◌∙◌, not, ◌&&◌, Option, List, [], ◌∷◌, either_branch, leb, ◌==◌}
use votv_mp.ElementId.{max_peers}
use votv_mp.Session.{Gns, is_slot_connected, is_slot_ready}
use votv_mp.Session.Quiet.{Quiet, Quiet-refl}
use votv_mp.Session.Status.Admission.{send_reliable_to_slot-Quiet}
use votv_mp.Handshake.{
  Codec, Game, set_local_nickname, toast, left_game, nickname_for_slot, on_slot_disconnected,
  maybe_send_join_to_slot, reset,
}
use votv_mp.Handshake.Trust.{
  Clean, maybe_send_join_to_slot-Clean, on_slot_disconnected-Clean, nickname_for_slot-Named,
  toast-Clean,
}
use votv_mp.Feed.{Feed, say_left, tend_slot}
use votv_mp.ElementId.{invalid_id}
use votv_mp.Protocol.Kind
use votv_mp.Handshake.{or_build, join_payload}
use votv_mp.Session.Quiet.{Quiet-trans}

pub data Calm (w t : Game) : Type 0 where
  calm : Quiet w.session t.session → t.players ≡ w.players → Calm w t

say_left-Calm : (f : Feed) (slot : ℕ) → Calm f.game (say_left f slot)
unfolding say_left on_slot_disconnected toast
say_left-Calm f slot =
    either_branch (f.last_connected_by_slot slot && not (is_slot_connected f.game.session slot))
      (λ (t : Game). Calm f.game t) _ _
      (either_branch (leb max_peers slot) (λ (t : Game). Calm f.game t) _ _
        (calm (Quiet-refl f.game.session) refl) (calm (Quiet-refl f.game.session) refl))
      (calm (Quiet-refl f.game.session) refl)

say_left-Clean : (f : Feed) (slot : ℕ) → Clean f.game → Clean (say_left f slot)
unfolding say_left
say_left-Clean f slot v =
    either_branch (f.last_connected_by_slot slot && not (is_slot_connected f.game.session slot))
      Clean _ _
      (on_slot_disconnected-Clean _ slot (
        toast-Clean f.game (left_game (nickname_for_slot f.game slot))
          (nickname_for_slot-Named f.game slot v) v))
      v

maybe_send_join_to_slot-Calm :
    (c : Codec) (g : Gns) (w : Game) (slot : ℕ) (built : Option (List ℕ))
    → Calm w (maybe_send_join_to_slot c g w slot built).0
unfolding maybe_send_join_to_slot
maybe_send_join_to_slot-Calm c g w slot built =
    let P : Game × Option (List ℕ) → Type 0 = λ r. Calm w r.0 in
    let same = calm (Quiet-refl w.session) refl in
    either_branch (leb max_peers slot) P _ _ same (
      either_branch (w.join_sent_by_slot slot) P _ _ same (
        either_branch (w.players.published == invalid_id) P _ _ same (
          calm
            (send_reliable_to_slot-Quiet g w.session slot Kind.join
              (or_build built (join_payload c w.players.published w.local_nick)) 0)
            refl)))

Calm-trans : (u v w : Game) → Calm u v → Calm v w → Calm u w
Calm-trans u v w (calm q e) (calm r d) = calm (Quiet-trans q r) (d ∙ e)

-- One turn of the loop over the slots sends at most, and shows nothing but clean text.
pub tend_slot-Calm :
    (c : Codec) (g : Gns) (slot : ℕ) (f : Feed) (built : Option (List ℕ))
    → Calm f.game (tend_slot c g slot (f, built)).0.game
unfolding tend_slot
tend_slot-Calm c g slot f built =
    let P : Game × Option (List ℕ) → Type 0 = λ r. Calm f.game r.0 in
    let left = say_left-Calm f slot in
    either_branch (is_slot_ready f.game.session slot) P _ (say_left f slot, built)
      (Calm-trans f.game (say_left f slot) _ left
        (maybe_send_join_to_slot-Calm c g (say_left f slot) slot built))
      left

pub tend_slot-Clean :
    (c : Codec) (g : Gns) (slot : ℕ) (f : Feed) (built : Option (List ℕ))
    → Clean f.game
    → Clean (tend_slot c g slot (f, built)).0.game
unfolding tend_slot
tend_slot-Clean c g slot f built v =
    let P : Game × Option (List ℕ) → Type 0 = λ r. Clean r.0 in
    let left = say_left-Clean f slot v in
    either_branch (is_slot_ready f.game.session slot) P _ (say_left f slot, built)
      (maybe_send_join_to_slot-Clean c g (say_left f slot) slot built left) left

pub set_local_nickname-Calm : (w : Game) (nick : List ℕ) → Calm w (set_local_nickname w nick)
set_local_nickname-Calm w [] = calm (Quiet-refl w.session) refl
set_local_nickname-Calm w (c ∷ nick) = calm (Quiet-refl w.session) refl

pub reset-Calm : (w : Game) → Calm w (reset w)
unfolding reset
reset-Calm w = calm (Quiet-refl w.session) refl
