-- ===== src/Players/Published.antt =====
-- The published id, and the element behind it.
use votv_mp.Base.{
  ℕ, ◌<◌, ◌≡◌, ◌≢◌, refl, sym, ap, ◌∙◌, Option, none, some, ◌==◌, ==_iff, arith, inl, inr,
  Bool-cases,
}
use mathlib.Core.Option.{some-injective}
use votv_mp.ElementId.{invalid_id, max_peers}
use votv_mp.Registry.{Process, Element, Derived, plain, as_player, modify}
use votv_mp.Players.{Players, release_player, seat, set_puppet, bind_puppet}
use votv_mp.Players.Objects.{ElseSame, heap-destroy, modify_other, modify_here}

abbrev pub slot_of : Derived → Option ℕ
slot_of plain = none
slot_of (as_player i p) = some i

-- The object at `p` is the element of the slot, and has an id.
abbrev pub Sits : Process → ℕ → ℕ → Type 0
Sits s i p =
    (e : Element) × (s.heap p ≡ some e) × (e.id ≢ invalid_id) × (slot_of e.derived ≡ some i)

-- Every slot's element is alive, has an id and knows its slot; a published id is that of the live
-- element in the local slot.
pub record Published (s : Players) : Type 0 where
  pub seated : (i q : ℕ) → s.player_by_slot i ≡ some q → Sits s.proc i q
  pub alive :
      s.published ≢ invalid_id
      → (q : ℕ) × (e : Element) × (s.local_peer_id < max_peers)
        × (s.player_by_slot s.local_peer_id ≡ some q)
        × (s.proc.heap q ≡ some e)
        × (e.id ≡ s.published)

pub elsewhere : (s : Players) (p q i : ℕ) → s.proc.heap p ≡ none → Sits s.proc i q → q ≢ p
elsewhere s p q i empty sits e = cc (sits.1, empty, ap s.proc.heap e)

-- Objects come and go at an address that no slot held.
pub keep-Published :
    (s : Players) (p : ℕ) (t : Process)
    → s.proc.heap p ≡ none
    → ElseSame s.proc p t
    → Published s
    → Published (record s { proc = t })
keep-Published s p t empty same v = record {
  seated = λ i q h.
      let (e, at, id, slot) = v.seated i q h in
      (e, same q (elsewhere s p q i empty (e, at, id, slot)) ∙ at, id, slot);
  alive = λ n.
      let (q, e, lt, sits, at, id) = v.alive n in
      (
        q,
        e,
        lt,
        sits,
        same q (elsewhere s p q s.local_peer_id empty (v.seated s.local_peer_id q sits)) ∙ at,
        id,
      );
}

pub seat-Published :
    (s : Players) (slot p id : ℕ) (t : Process) (e : Element)
    → slot < max_peers
    → s.proc.heap p ≡ none
    → ElseSame s.proc p t
    → t.heap p ≡ some e
    → e.id ≡ id
    → id ≢ invalid_id
    → slot_of e.derived ≡ some slot
    → Published s
    → Published (seat (record s { proc = t }) slot p id)
seat-Published s slot p id t e lt empty same at eq named place v =
    let w = keep-Published s p t empty same v in
    record {
      seated = λ i q h. elim (Bool-cases (i == slot)) [
        | inl own ↦ (
          e,
          ground (arith, at),
          ground arith,
          ground (arith, ap {B = Option ℕ} (λ (x : ℕ). some x)),
        )
        | inr other ↦ w.seated i q (ground arith)
      ];
      alive = λ n. elim (Bool-cases (slot == s.local_peer_id)) [
        | inl own ↦ (p, e, ground arith, ground arith, at, ground arith)
        | inr other ↦
            let (q, f, l, sits, held, k) = w.alive (ground arith) in
            (q, f, l, ground arith, held, ground arith)
      ];
    }

abbrev slot_in : Option Element → Option ℕ
slot_in none = none
slot_in (some e) = slot_of e.derived

pub one_slot :
    (i j : ℕ) (e f : Element)
    → Path (Option Element) (some e) (some f)
    → slot_of e.derived ≡ some i
    → slot_of f.derived ≡ some j
    → i ≡ j
one_slot i j e f both a b =
    let same : slot_of e.derived ≡ slot_of f.derived = ap slot_in both in
    some-injective i j (sym a ∙ same ∙ b)

pub release_player-Published :
    (s : Players) (slot p : ℕ)
    → s.player_by_slot slot ≡ some p
    → Published s
    → Published (release_player s slot p)
unfolding release_player
release_player-Published s slot p at v = record {
  seated = λ i q h.
      let ne : i ≢ slot = ground arith in
      let old : s.player_by_slot i ≡ some q = ground arith in
      let (e, held, id, place) = v.seated i q old in
      (e, heap-destroy s.proc p q (apart i q ne (e, held, id, place)) ∙ held, id, place);
  alive = λ n. elim (Bool-cases (slot == s.local_peer_id)) [
    | inl own ↦ absurd (ground arith)
    | inr other ↦
        let (q, e, lt, sits, held, id) = v.alive (ground arith) in
        (
          q,
          e,
          lt,
          ground arith,
          heap-destroy s.proc p q
                (apart s.local_peer_id q (λ y. ground arith) (v.seated s.local_peer_id q sits))
              ∙ held,
          ground arith,
        )
  ];
}
  where
    apart : (i q : ℕ) → i ≢ slot → Sits s.proc i q → q ≢ p
    apart i q ne (e, held, id, place) same =
        let (f, at_p, named, here) = v.seated slot p at in
        let both : Path (Option Element) (some e) (some f) =
          sym held ∙ ap s.proc.heap same ∙ at_p in
        ne (one_slot i slot e f both place here)

pub slot_of-bind_puppet :
    (puppet : Option ℕ) (d : Derived) → slot_of (bind_puppet puppet d) ≡ slot_of d
slot_of-bind_puppet puppet plain = refl
slot_of-bind_puppet puppet (as_player i p) = refl

-- Binding a puppet keeps an element's id and its slot.
pub rebound :
    (h : ℕ → Option Element) (q : ℕ) (puppet : Option ℕ) (r : ℕ) (e : Element)
    → h r ≡ some e
    → (f : Element) × (modify h q (set_puppet puppet) r ≡ some f)
      × (f.id ≡ e.id)
      × (slot_of f.derived ≡ slot_of e.derived)
rebound h q puppet r e at = elim (Bool-cases (r == q)) [
  | inl own ↦
      let same = (==_iff r q).0 own in
      (
        set_puppet puppet e,
        ap (λ x. modify h q (set_puppet puppet) x) same
            ∙ modify_here h q (set_puppet puppet) e (ap h (sym same) ∙ at),
        refl,
        slot_of-bind_puppet puppet e.derived,
      )
  | inr other ↦ (e, modify_other h q r (set_puppet puppet) (λ y. ground arith) ∙ at, refl, refl)
]

pub bound-Published :
    (s : Players) (q : ℕ) (puppet : Option ℕ)
    → Published s
    → Published
        (record s { proc = record s.proc { heap = modify s.proc.heap q (set_puppet puppet) } })
bound-Published s q puppet v = record {
  seated = λ i r h.
      let (e, at, id, place) = v.seated i r h in
      let (f, held, same, slot) = rebound s.proc.heap q puppet r e at in
      (f, held, λ y. id (sym same ∙ y), slot ∙ place);
  alive = λ n.
      let (r, e, lt, sits, at, id) = v.alive n in
      let (f, held, same, slot) = rebound s.proc.heap q puppet r e at in
      (r, f, lt, sits, held, same ∙ id);
}

-- A change of the objects' surroundings only.
pub same_heap-Published :
    (s : Players) (t : Process)
    → t.heap ≡ s.proc.heap
    → Published s
    → Published (record s { proc = t })
same_heap-Published s t same v = record {
  seated =
      λ i q h. let (e, at, id, place) = v.seated i q h in (e, ap (λ f. f q) same ∙ at, id, place);
  alive = λ n.
      let (q, e, lt, sits, at, id) = v.alive n in (q, e, lt, sits, ap (λ f. f q) same ∙ at, id);
}
