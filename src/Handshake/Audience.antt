-- ===== src/Handshake/Audience.antt =====
-- Who is told what when a client joins: the two loops of BroadcastPlayerJoinedFromHost as one list
-- of sends, fixed before the first of them.
use votv_mp.Base.{
  ℕ, ◌≡◌, refl, ap, sym, ◌∙◌, Bool, true, false, not, ◌&&◌, ◌||◌, Option, none, some, List, [], ◌∷◌,
  ◌++◌, leb, ltb, ◌==◌, if◌then◌else◌, inl, inr, Bool-cases, Option-cases,
}
use votv_mp.ElementId.{max_peers}
use votv_mp.Players.{seated_element}
use votv_mp.Protocol.Kind
use votv_mp.Session.{Gns, Session, client_slots, is_host, is_slot_ready, send_reliable_to_slot}
use votv_mp.Session.Quiet.{Quiet, Quiet-refl, Quiet-trans}
use votv_mp.Session.Status.Admission.{send_reliable_to_slot-Quiet}
use votv_mp.Handshake.{
  Codec, Game, player_joined_payload, announce_joiner, known_id, describe_known, nickname_for_slot,
  broadcast_player_joined_from_host,
}

-- A recipient's slot and the payload for it.
abbrev pub Letter : Type 0
Letter = ℕ × List ℕ

abbrev pub others_ready : Session → ℕ → ℕ → Bool
others_ready s joiner x = not (x == joiner) && is_slot_ready s x

abbrev pub announcements : Session → ℕ → List ℕ → List ℕ → List Letter
announcements s joiner payload [] = []
announcements s joiner payload (x ∷ slots) =
    let rest = announcements s joiner payload slots in
    if others_ready s joiner x then (x, payload) ∷ rest else rest

abbrev pub description : Codec → Game → ℕ → ℕ → Option ℕ → List Letter
description c w joiner x none = []
description c w joiner x (some eid) =
    (joiner, player_joined_payload c x eid (nickname_for_slot w x)) ∷ []

abbrev pub descriptions : Codec → Game → Session → ℕ → List ℕ → List Letter
descriptions c w s joiner [] = []
descriptions c w s joiner (x ∷ slots) =
    (if others_ready s joiner x
      then description c w joiner x (known_id (seated_element w.players x))
      else [])
    ++ descriptions c w s joiner slots

-- The letters, sent in order.
abbrev pub post_all : Gns → List Letter → Session → Session
post_all g [] s = s
post_all g ((slot, payload) ∷ letters) s =
    post_all g letters (send_reliable_to_slot g s slot Kind.player_joined payload 0).0

post_all-append :
    (g : Gns) (xs ys : List Letter) (s : Session)
    → post_all g (xs ++ ys) s ≡ post_all g ys (post_all g xs s)
post_all-append g [] ys s = refl
post_all-append g ((slot, payload) ∷ xs) ys s = post_all-append g xs ys _

post_all-Quiet : (g : Gns) (xs : List Letter) (s : Session) → Quiet s (post_all g xs s)
post_all-Quiet g [] s = Quiet-refl s
post_all-Quiet g ((slot, payload) ∷ xs) s =
    Quiet-trans (send_reliable_to_slot-Quiet g s slot Kind.player_joined payload 0)
      (post_all-Quiet g xs _)

ready-Quiet :
    (s t : Session) (joiner x : ℕ) → Quiet s t → others_ready t joiner x ≡ others_ready s joiner x
ready-Quiet s t joiner x q =
    ap (λ l. not (x == joiner) && (if leb max_peers x then false else l x)) q.lanes_configured

announcements-Quiet :
    (s t : Session) (joiner : ℕ) (payload slots : List ℕ)
    → Quiet s t
    → announcements t joiner payload slots ≡ announcements s joiner payload slots
announcements-Quiet s t joiner payload [] q = refl
announcements-Quiet s t joiner payload (x ∷ slots) q =
    rw (ready-Quiet s t joiner x q, announcements-Quiet s t joiner payload slots q) refl

descriptions-Quiet :
    (c : Codec) (w : Game) (s t : Session) (joiner : ℕ) (slots : List ℕ)
    → Quiet s t
    → descriptions c w t joiner slots ≡ descriptions c w s joiner slots
descriptions-Quiet c w s t joiner [] q = refl
descriptions-Quiet c w s t joiner (x ∷ slots) q =
    rw (ready-Quiet s t joiner x q, descriptions-Quiet c w s t joiner slots q) refl

announce_joiner-post_all :
    (g : Gns) (joiner : ℕ) (payload slots : List ℕ) (s : Session)
    → announce_joiner g joiner payload slots s ≡ post_all g (announcements s joiner payload slots) s
unfolding announce_joiner
announce_joiner-post_all g joiner payload [] s = refl
announce_joiner-post_all g joiner payload (x ∷ slots) s = elim (Bool-cases (x == joiner)) [
  | inl self ↦ rw self (announce_joiner-post_all g joiner payload slots s)
  | inr other ↦ elim (Bool-cases (is_slot_ready s x)) [
    | inr unready ↦ rw (other, unready) (announce_joiner-post_all g joiner payload slots s)
    | inl ready ↦
        let q = send_reliable_to_slot-Quiet g s x Kind.player_joined payload 0 in
        let t = (send_reliable_to_slot g s x Kind.player_joined payload 0).0 in
        rw (other, ready)
          (announce_joiner-post_all g joiner payload slots t
            ∙ ap (λ l. post_all g l t) (announcements-Quiet s t joiner payload slots q))
  ]
]

describe_known-post_all :
    (c : Codec) (g : Gns) (w : Game) (joiner : ℕ) (slots : List ℕ) (s : Session)
    → describe_known c g w joiner slots s ≡ post_all g (descriptions c w s joiner slots) s
unfolding describe_known
describe_known-post_all c g w joiner [] s = refl
describe_known-post_all c g w joiner (x ∷ slots) s = elim (Bool-cases (x == joiner)) [
  | inl self ↦ rw self (describe_known-post_all c g w joiner slots s)
  | inr other ↦ elim (Bool-cases (is_slot_ready s x)) [
    | inr unready ↦ rw (other, unready) (describe_known-post_all c g w joiner slots s)
    | inl ready ↦ elim (Option-cases (known_id (seated_element w.players x))) [
      | inl unknown ↦ rw (other, ready, unknown) (describe_known-post_all c g w joiner slots s)
      | inr (eid, known) ↦
          let payload = player_joined_payload c x eid (nickname_for_slot w x) in
          let q = send_reliable_to_slot-Quiet g s joiner Kind.player_joined payload 0 in
          let t = (send_reliable_to_slot g s joiner Kind.player_joined payload 0).0 in
          rw (other, ready, known)
            (describe_known-post_all c g w joiner slots t
              ∙ ap (λ l. post_all g l t) (descriptions-Quiet c w s t joiner slots q))
    ]
  ]
]

-- The whole broadcast: the joiner to the others, then the others to the joiner.
abbrev pub letters : Codec → Game → ℕ → ℕ → List ℕ → List Letter
letters c w joiner eid nick =
    announcements w.session joiner (player_joined_payload c joiner eid nick) client_slots
    ++ descriptions c w w.session joiner client_slots

-- On a host, the broadcast for a joiner in a client slot is exactly these sends, in this order: its
-- identity to every other client that is ready, then to it the identity of every other client that
-- is ready and whose mirror is installed. Both lists are those of the state before the first send.
pub broadcast_player_joined-letters :
    (c : Codec) (g : Gns) (w : Game) (joiner eid : ℕ) (nick : List ℕ)
    → is_host w.session.role ≡ true
    → (ltb joiner 1 || leb max_peers joiner) ≡ false
    → broadcast_player_joined_from_host c g w joiner eid nick
      ≡ (record w { session = post_all g (letters c w joiner eid nick) w.session })
unfolding broadcast_player_joined_from_host
broadcast_player_joined-letters c g w joiner eid nick role range =
    let payload = player_joined_payload c joiner eid nick in
    let first = announcements w.session joiner payload client_slots in
    let t = post_all g first w.session in
    rw (role, range)
      (ap (λ s. record w { session = s })
        (ap (λ s. describe_known c g w joiner client_slots s)
            (announce_joiner-post_all g joiner payload client_slots w.session)
          ∙ describe_known-post_all c g w joiner client_slots t
          ∙ ap (λ l. post_all g l t)
              (descriptions-Quiet c w w.session t joiner client_slots
                (post_all-Quiet g first w.session))
          ∙ sym
              (post_all-append g first (descriptions c w w.session joiner client_slots) w.session)))

-- The broadcast sends, and does nothing else.
pub broadcast_player_joined-session :
    (c : Codec) (g : Gns) (w : Game) (joiner eid : ℕ) (nick : List ℕ)
    → (s : Session) × (Quiet w.session s
        × (broadcast_player_joined_from_host c g w joiner eid nick ≡ (record w { session = s })))
broadcast_player_joined-session c g w joiner eid nick = elim (Bool-cases (is_host w.session.role)) [
  | inr away ↦
      unfold broadcast_player_joined_from_host in rw away (w.session, (Quiet-refl w.session, refl))
  | inl home ↦ elim (Bool-cases (ltb joiner 1 || leb max_peers joiner)) [
    | inl out ↦
        unfold broadcast_player_joined_from_host in
        rw (home, out) (w.session, (Quiet-refl w.session, refl))
    | inr inside ↦
        let sent = letters c w joiner eid nick in
        (
          post_all g sent w.session,
          (
            post_all-Quiet g sent w.session,
            broadcast_player_joined-letters c g w joiner eid nick home inside,
          ),
        )
  ]
]
