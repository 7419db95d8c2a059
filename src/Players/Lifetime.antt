-- ===== src/Players/Lifetime.antt =====
-- The operations on player elements keep every published id that of a live element.
use votv_mp.Base.{
  either_branch, ℕ, ◌<◌, ◌≡◌, ◌≢◌, ap, subst, ◌∙◌, not, ◌&&◌, Option, none, some, leb, ltb, ◌==◌,
  if◌then◌else◌, update, arith, inl, inr, Bool-cases, Option-cases,
}
use votv_mp.ElementId.{invalid_id, max_peers, peer_id_host}
use votv_mp.Registry.{
  Element, as_player, player, new_element, construct, alloc_host_id, alloc_local_id,
  set_local_peer_band, destroy,
}
use votv_mp.Players.{
  Players, release_player, drop_player_element, create_player, ensure_player_element, take_local_id,
  set_local_peer_id, register_puppet, unregister_puppet, same_player, is_seated,
}
use votv_mp.Players.Objects.{
  ElseSame, heap-destroy, alloc-Names, none_after_destroy, heap-set_local_peer_band,
}
use votv_mp.Players.Published.{
  Published, slot_of, keep-Published, seat-Published, release_player-Published, bound-Published,
  same_heap-Published,
}

create_player-Published :
    (s : Players) (slot : ℕ) (puppet : Option ℕ) (p : ℕ)
    → slot < max_peers
    → s.proc.heap p ≡ none
    → Published s
    → Published (create_player s slot puppet p)
unfolding create_player construct
create_player-Published s slot puppet p lt empty v =
    let e = new_element player (as_player slot puppet) in
    let made = construct s.proc p e in
    let names = alloc-Names made (s.local_peer_id == peer_id_host) p e (ground arith) in
    let r =
      (if s.local_peer_id == peer_id_host
        then alloc_host_id made (some p)
        else alloc_local_id made (some p)) in
    let before : ElseSame s.proc p r.0 = λ q ne. names.same q ne ∙ ground arith in
    elim (Bool-cases (r.1 == invalid_id)) [
      | inl failed ↦ rw failed (
          keep-Published s p (destroy r.0 p) empty (λ q ne. heap-destroy r.0 p q ne ∙ before q ne)
            v)
      | inr named ↦ rw named (
          let n : r.1 ≢ invalid_id = ground arith in
          let (f, at, id, derived) = names.named n in
          seat-Published s slot p r.1 r.0 f lt empty before at id n (ap slot_of derived) v)
    ]

pub drop_player_element-Published :
    (s : Players) (slot : ℕ) → Published s → Published (drop_player_element s slot)
unfolding drop_player_element
drop_player_element-Published s slot v = elim (Bool-cases (leb max_peers slot)) [
  | inl out ↦ rw out v
  | inr inside ↦ rw inside (elim (Option-cases (s.player_by_slot slot)) [
    | inl vacant ↦ rw (vacant, drop_player_element) v
    | inr (p, at) ↦ rw (at, drop_player_element) (release_player-Published s slot p at v)
  ])
]

pub still_empty :
    (s : Players) (slot p : ℕ)
    → s.proc.heap p ≡ none
    → (drop_player_element s slot).proc.heap p ≡ none
unfolding drop_player_element release_player
still_empty s slot p empty = elim (Bool-cases (leb max_peers slot)) [
  | inl out ↦ rw out empty
  | inr inside ↦ rw inside (elim (Option-cases (s.player_by_slot slot)) [
    | inl vacant ↦ rw (vacant, drop_player_element) empty
    | inr (q, at) ↦ rw (at, drop_player_element) (none_after_destroy s.proc q p empty)
  ])
]

ensure_player_element-Published :
    (s : Players) (slot : ℕ) (puppet : Option ℕ) (p : ℕ)
    → s.proc.heap p ≡ none
    → Published s
    → Published (ensure_player_element s slot puppet p)
unfolding ensure_player_element
ensure_player_element-Published s slot puppet p empty v = elim (Bool-cases (leb max_peers slot)) [
  | inl out ↦ rw out v
  | inr inside ↦ rw inside (elim (Option-cases (s.player_by_slot slot)) [
    | inl vacant ↦
        rw (vacant, ensure_player_element)
          (create_player-Published s slot puppet p (ground arith) empty v)
    | inr (q, at) ↦
        rw (at, ensure_player_element)
          (elim (Option-cases (s.proc.heap q)) [
            | inl gone ↦ rw (gone, ensure_player_element) v
            | inr (e, held) ↦
                rw (held, ensure_player_element)
                  (elim (Bool-cases (same_player slot puppet e.derived)) [
                    | inl same ↦ rw same v
                    | inr differs ↦ rw differs (elim (Bool-cases e.mirror) [
                      | inl theirs ↦ rw theirs (bound-Published s q puppet v)
                      | inr own ↦ rw own (
                          create_player-Published (drop_player_element s slot) slot puppet p
                            (ground arith) (still_empty s slot p empty)
                            (drop_player_element-Published s slot v))
                    ])
                  ])
          ])
  ])
]

Ready : ℕ → Players → Type 0
Ready p s = Published s × (s.proc.heap p ≡ none)

take_local_id-Published :
    (s : Players) (id p : ℕ)
    → s.proc.heap p ≡ none
    → Published (record s { local_peer_id = id })
    → Published (take_local_id s id p)
unfolding take_local_id Ready
take_local_id-Published s id p empty v =
    let t = record s { local_peer_id = id } in
    let same = heap-set_local_peer_band t.proc id in
    let u = record t { proc = set_local_peer_band t.proc id } in
    let kept =
      either_branch (not (id == peer_id_host) && ltb id max_peers) (Ready p) u t
        (same_heap-Published t (set_local_peer_band t.proc id) same v, ap (λ f. f p) same ∙ empty)
        (v, empty) in
    either_branch (ltb id max_peers) Published _ _
      (ensure_player_element-Published _ id none p kept.1 kept.0) kept.0

relocated :
    (s : Players) (id : ℕ)
    → (s.published ≢ invalid_id → s.local_peer_id ≡ id)
    → Published s
    → Published (record s { local_peer_id = id })
relocated s id here v = record {
  seated = v.seated;
  alive = λ n.
      subst
        (λ i.
          (q : ℕ) × (e : Element) × (i < max_peers)
          × (s.player_by_slot i ≡ some q)
          × (s.proc.heap q ≡ some e)
          × (e.id ≡ s.published))
        (here n) (v.alive n);
}

pub silent_local :
    (s : Players)
    → s.local_peer_id < max_peers
    → Published s
    → (drop_player_element s s.local_peer_id).published ≡ invalid_id
unfolding drop_player_element release_player
silent_local s lt v = elim (Option-cases (s.player_by_slot s.local_peer_id)) [
  | inr (p, at) ↦ rw (at, drop_player_element) (ground arith)
  | inl vacant ↦ elim (Bool-cases (s.published == invalid_id)) [
    | inl silent ↦ rw (vacant, drop_player_element) (ground arith)
    | inr speaks ↦
        let (q, e, l, sits, at, id) = v.alive (ground arith) in absurd (ground (arith, sits))
  ]
]

pub set_local_peer_id-Published :
    (s : Players) (id p : ℕ)
    → s.proc.heap p ≡ none
    → Published s
    → Published (set_local_peer_id s id p)
unfolding set_local_peer_id
set_local_peer_id-Published s id p empty v =
    elim (Bool-cases
      ((s.local_peer_id == id) && ltb id max_peers && is_seated (s.player_by_slot id))) [
        | inl again ↦ rw again v
        | inr new ↦
            rw new
              (elim (Bool-cases (not (s.local_peer_id == id) && ltb s.local_peer_id max_peers)) [
                | inl moves ↦ rw moves (
                    take_local_id-Published (drop_player_element s s.local_peer_id) id p
                      (still_empty s s.local_peer_id p empty)
                      (relocated (drop_player_element s s.local_peer_id) id
                        (λ n. absurd (n (silent_local s (ground arith) v)))
                        (drop_player_element-Published s s.local_peer_id v)))
                | inr stays ↦ rw stays (
                    take_local_id-Published s id p empty (
                      relocated s id
                        (λ n. let (q, e, lt, sits, at, same) = v.alive n in ground (arith, lt)) v))
              ])
      ]

pub register_puppet-Published :
    (s : Players) (slot : ℕ) (puppet : Option ℕ) (p : ℕ)
    → s.proc.heap p ≡ none
    → Published s
    → Published (register_puppet s slot puppet p)
unfolding register_puppet
register_puppet-Published s slot puppet p empty v = elim (Bool-cases (leb max_peers slot)) [
  | inl out ↦ rw out v
  | inr inside ↦ rw inside (
      ensure_player_element-Published
        (record s { puppet_by_peer = update s.puppet_by_peer slot puppet }) slot puppet p empty
        (record { seated = v.seated; alive = v.alive }))
]

pub unregister_puppet-Published :
    (s : Players) (slot : ℕ) → Published s → Published (unregister_puppet s slot)
unfolding unregister_puppet
unregister_puppet-Published s slot v = elim (Bool-cases (leb max_peers slot)) [
  | inl out ↦ rw out v
  | inr inside ↦ rw inside (
      drop_player_element-Published
        (record s { puppet_by_peer = update s.puppet_by_peer slot none }) slot
        (record { seated = v.seated; alive = v.alive }))
]
