-- ===== src/Registry/Links.antt =====
-- The two directions of the id table: an object knows the id under which the table holds it.
use votv_mp.Base.{
  ℕ, ◌≤◌, ◌<◌, ◌≡◌, ap, ◌≢◌, inl, inr, Bool, false, not, Option, none, some, arith, ◌==◌, update,
  Option-cases, Bool-cases,
}
use votv_mp.ElementId.{invalid_id, max_elements}
use votv_mp.Registry.{Process, Element}

-- The object that the table holds at an id.
abbrev pub holder : Process → ℕ → Option Element
holder s id = elim (s.by_id id) [ none ↦ none | some p ↦ s.heap p ]

abbrev pub is_own : Option Element → Bool
is_own none = false
is_own (some e) = not e.mirror

-- The table holds an element at this id that this process allocated.
abbrev pub own_at : Process → ℕ → Bool
own_at s id = is_own (holder s id)

abbrev pub Pointed : Process → ℕ → ℕ → Type 0
Pointed s id p =
    (id < max_elements)
    × (e : Element) × (s.heap p ≡ some e)
    × (e.id ≡ id)
    × (e.mirror ≡ false → 1 ≤ id)

pub record Links (s : Process) : Type 0 where
  pub registered :
      (p : ℕ) (e : Element) → s.heap p ≡ some e → e.id ≢ invalid_id → s.by_id e.id ≡ some p
  pub pointed : (id p : ℕ) → s.by_id id ≡ some p → Pointed s id p

-- Nothing points at an object without an id, nor at an empty address.
pub unpointed :
    {s : Process} (p id : ℕ)
    → Links s
    → ((e : Element) → s.heap p ≡ some e → e.id ≡ invalid_id)
    → s.by_id id ≢ some p
unpointed p id l h b = let k = l.pointed id p b in omega (arith, h k.1 k.2, k.3, k.0)

-- The process with the object at `p` replaced, and the table at `id`.
abbrev pub relink : Process → ℕ → Option ℕ → ℕ → Option Element → Process
relink s id b p o = record s { by_id = update s.by_id id b; heap = update s.heap p o }

-- What no slot but `id` points at can be replaced without changing the other slots.
pub holder-relink :
    (s : Process) (id p j : ℕ) (b : Option ℕ) (o : Option Element)
    → j ≢ id
    → s.by_id j ≢ some p
    → holder (relink s id b p o) j ≡ holder s j
holder-relink s id p j b o h k = elim (Option-cases (s.by_id j)) [
  | inl e ↦ ground arith
  | inr (q, e) ↦ ground (arith, ap {B = Option ℕ} (λ (x : ℕ). some x))
]

-- An object without an id gets one, at an empty slot.
module _ (s : Process) (id p : ℕ) (e e' : Element) (at : s.heap p ≡ some e)
    (no_id : e.id ≡ invalid_id) (new_id : e'.id ≡ id) (in_range : id < max_elements)
    (own_pos : e'.mirror ≡ false → 1 ≤ id) where
  pub own_at-bind :
      (j : ℕ) → Links s → j ≢ id → own_at (relink s id (some p) p (some e')) j ≡ own_at s j
  own_at-bind j l h =
      ap is_own
        (holder-relink s id p j (some p) (some e') h (unpointed p j l (λ f q. ground (arith))))

  pub relink_bind-Links : s.by_id id ≡ none → Links s → Links (relink s id (some p) p (some e'))
  relink_bind-Links empty l = record {
    registered = λ q f hq hid. ground (arith, l.registered q f);
    pointed = λ j q hb. elim (Bool-cases (j == id)) [
      | inl y ↦ (ground arith, e', ground arith, ground arith, ground arith)
      | inr n ↦
          let k = l.pointed j q (ground arith) in
          (k.0, k.1, ground (arith, k.2, k.3, k.0), k.3, k.4)
    ];
  }

-- An object and its slot are cleared together.
module _ (s : Process) (id p : ℕ) (e : Element) (at : s.heap p ≡ some e) (its_id : e.id ≡ id)
    (has_id : e.id ≢ invalid_id) where
  pub own_at-unbind : (j : ℕ) → Links s → j ≢ id → own_at (relink s id none p none) j ≡ own_at s j
  own_at-unbind j l h = ap is_own (
      holder-relink s id p j none none h (λ b. let k = l.pointed j p b in ground (arith, k.2, k.3)))

  pub relink_unbind-Links : Links s → Links (relink s id none p none)
  relink_unbind-Links l = record {
    registered = λ q f hq hid. ground (arith, l.registered q f, l.registered p e);
    pointed = λ j q hb. elim (Bool-cases (j == id)) [
      | inl y ↦ absurd (ground arith)
      | inr n ↦
          let k = l.pointed j q (ground arith) in (k.0, k.1, ground (arith, k.2, k.3), k.3, k.4)
    ];
  }

-- An object without an id comes, goes or changes.
module _ (s : Process) (p : ℕ) (o : Option Element)
    (unnamed : (e : Element) → s.heap p ≡ some e → e.id ≡ invalid_id)
    (new_unnamed : (e : Element) → o ≡ some e → e.id ≡ invalid_id) where
  pub own_at-rewrite :
      (j : ℕ) → Links s → own_at (record s { heap = update s.heap p o }) j ≡ own_at s j
  own_at-rewrite j l = elim (Option-cases (s.by_id j)) [
    | inl e ↦ ground arith
    | inr (q, e) ↦ ground (arith, unpointed p j l unnamed)
  ]

  pub rewrite-Links : Links s → Links (record s { heap = update s.heap p o })
  rewrite-Links l = record {
    registered = λ q f hq hid. ground (arith, l.registered q f, new_unnamed f);
    pointed = λ j q hb.
        let k = l.pointed j q hb in
        (k.0, k.1, ground (arith, k.2, k.3, k.0, unnamed k.1), k.3, k.4);
  }
