-- ===== src/Items/Deferred.antt =====
-- An activation that comes before its puppet: stashed, and applied when the puppet is there.
use votv_mp.Base.{
  ℕ, ◌<◌, ◌≡◌, ◌≢◌, refl, ap, sym, ◌∙◌, subst, fun_ext, Bool, true, false, not, ◌&&◌, ◌||◌, none,
  some, List, [], ◌∷◌, leb, ◌==◌, arith, inl, inr, Bool-cases, update, update_self, either_branch,
}
use votv_mp.ElementId.{max_peers}
use votv_mp.Feed.Payloads.{ItemActivatePayload}
use votv_mp.Session.{all_slots, is_host}
use votv_mp.Items.{
  Engine, Items, apply_to_puppet, remember, apply_to_puppet_or_defer, apply_stashed, drain_pending,
  tick_connect,
}

update_again {ℓ} :
    {A : Type ℓ} (f : ℕ → A) (k : ℕ) (v w : A) → update (update f k v) k w ≡ update f k w
update_again f k v w =
    fun_ext (λ j. elim (Bool-cases (j == k)) [ inl y ↦ rw y refl | inr n ↦ rw n refl ])

pending-apply_to_puppet :
    (e : Engine) (w : Items) (puppet : ℕ) (p : ItemActivatePayload) (slot : ℕ)
    → (apply_to_puppet e w puppet p slot).pending_apply ≡ w.pending_apply
unfolding apply_to_puppet
pending-apply_to_puppet e w puppet p slot =
    let P : Items → Type 0 = λ v. v.pending_apply ≡ w.pending_apply in
    either_branch (not (p.item_class_hash == w.flashlight_class_hash)) P _ _ refl
      (either_branch (not (e.has_light puppet)) P _ _ refl refl)

-- Nothing is stashed.
abbrev Clear : Items → Type 0
Clear w = (j : ℕ) → w.pending_apply j ≡ none

drain_pending-Clear :
    (e : Engine) (slots : List ℕ) (w : Items) → Clear w → drain_pending e slots w ≡ w
unfolding drain_pending
drain_pending-Clear e [] w h = refl
drain_pending-Clear e (slot ∷ slots) w h =
    ap (λ o. drain_pending e slots (apply_stashed e w slot o (e.live_puppet slot))) (h slot)
    ∙ drain_pending-Clear e slots w h

abbrev covers : ℕ → List ℕ → Bool
covers slot [] = false
covers slot (x ∷ slots) = (x == slot) || covers slot slots

-- The slot's turn in the loop.
abbrev applied : Engine → Items → ℕ → ℕ → ItemActivatePayload → Items
applied e w slot puppet p =
    apply_to_puppet e (record w { pending_apply = update w.pending_apply slot none }) puppet p slot

drain_pending-applied :
    (e : Engine) (slots : List ℕ) (w : Items) (slot puppet : ℕ) (p : ItemActivatePayload)
    → covers slot slots ≡ true
    → ((j : ℕ) → j ≢ slot → w.pending_apply j ≡ none)
    → w.pending_apply slot ≡ some p
    → e.live_puppet slot ≡ some puppet
    → drain_pending e slots w ≡ applied e w slot puppet p
unfolding drain_pending
drain_pending-applied e [] w slot puppet p c others at live = absurd (ground (arith, c))
drain_pending-applied e (x ∷ slots) w slot puppet p c others at live =
    elim (Bool-cases (x == slot)) [
      | inl here ↦
          let same : x ≡ slot = ground (arith, here) in
          subst
            (λ y.
              drain_pending e slots (apply_stashed e w y (w.pending_apply y) (e.live_puppet y))
              ≡ applied e w slot puppet p)
            (sym same)
            (ap (λ o. drain_pending e slots (apply_stashed e w slot o (e.live_puppet slot))) at
              ∙ ap (λ o. drain_pending e slots (apply_stashed e w slot (some p) o)) live
              ∙ drain_pending-Clear e slots (applied e w slot puppet p) cleared)
      | inr elsewhere ↦
          ap (λ o. drain_pending e slots (apply_stashed e w x o (e.live_puppet x)))
            (others x (ground (arith, elsewhere)))
          ∙ drain_pending-applied e slots w slot puppet p (ground (arith, c, elsewhere)) others at
              live
    ]
  where
    cleared : Clear (applied e w slot puppet p)
    cleared j =
        ap (λ f. f j) (pending-apply_to_puppet e _ puppet p slot) ∙ elim (Bool-cases (j == slot)) [
          | inl y ↦ rw y refl
          | inr n ↦ rw n (others j (ground (arith, n)))
        ]

pending-remember :
    (w : Items) (slot : ℕ) (p : ItemActivatePayload)
    → (remember w slot p).pending_apply ≡ w.pending_apply
unfolding remember
pending-remember w slot p =
    either_branch (leb 1 slot && is_host w.session.role)
      (λ (v : Items). v.pending_apply ≡ w.pending_apply) _ _ refl refl

-- An activation that arrives before its puppet is live, where no other slot has one stashed, is
-- applied by the first TickConnect that finds the puppet, with the same calls and the same cache as
-- if the puppet had been live when it arrived.
pub tick_connect-apply_to_puppet_or_defer :
    (e : Engine) (w : Items) (slot puppet : ℕ) (p : ItemActivatePayload)
    → slot < max_peers
    → e.live_puppet slot ≡ some puppet
    → ((j : ℕ) → j ≢ slot → w.pending_apply j ≡ none)
    → tick_connect e (apply_to_puppet_or_defer e w slot none p)
      ≡ apply_to_puppet_or_defer e w slot (some puppet) p
unfolding tick_connect apply_to_puppet_or_defer
tick_connect-apply_to_puppet_or_defer e w slot puppet p lt live others =
    let inside : leb max_peers slot ≡ false = ground (arith, lt) in
    let v = remember w slot p in
    let stashed = record v { pending_apply = update v.pending_apply slot (some p) } in
    rw inside (
      drain_pending-applied e all_slots stashed slot puppet p (ground (arith, lt))
        (λ j ne. elim (Bool-cases (j == slot)) [
          | inl y ↦ absurd (ne (ground (arith, y)))
          | inr n ↦ rw n (ap (λ f. f j) (pending-remember w slot p) ∙ others j ne)
        ])
        (update_self v.pending_apply slot (some p)) live
      ∙ ap (λ f. apply_to_puppet e (record v { pending_apply = f }) puppet p slot)
          (update_again v.pending_apply slot (some p) none))
