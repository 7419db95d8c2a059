-- ===== src/Registry/Invariant.antt =====
-- The registry's invariant, and the operations that keep it.
use votv_mp.Base.{
  ℕ, ◌≤◌, ◌<◌, ◌≡◌, ◌∙◌, ap, ◌≢◌, true, false, Option, some, List, arith, update, All, All-of,
  All-map, All-map₂, NotIn, Distinct,
}
use votv_mp.ElementId.{invalid_id, max_elements, host_range_size}
use votv_mp.Registry.{Process, Element}
use votv_mp.Registry.Links.{Links, own_at, relink, own_at-rewrite, rewrite-Links}

abbrev pub HostFree : Process → ℕ → Type 0
HostFree s id = (1 ≤ id) × (id < host_range_size) × (own_at s id ≡ false)

-- A band that is activated again may hold ids that are still in use.
abbrev pub LocalFree : ℕ → Type 0
LocalFree id = (host_range_size ≤ id) × (id < max_elements)

pub record Inv (s : Process) : Type 0 where
  pub links : Links s
  pub host_ids : All (HostFree s) s.host_free
  pub host_distinct : Distinct s.host_free
  pub local_ids : All LocalFree s.local_free
  pub alive : s.shutting_down ≡ false

-- The stacks of one process serve another whose slots agree on them.
pub HostFree-All :
    (s t : Process) (xs : List ℕ)
    → All (λ id. own_at t id ≡ own_at s id) xs
    → All (HostFree s) xs
    → All (HostFree t) xs
HostFree-All s t xs = All-map₂ xs (λ id e h. (h.0, h.1, e ∙ h.2))

pub local-NotIn-host :
    (s : Process) (id : ℕ) (xs : List ℕ) → host_range_size ≤ id → All (HostFree s) xs → NotIn id xs
local-NotIn-host s id xs h = All-map xs (λ y f e. omega (arith, f.1))

-- A host id in use by this process is not on the stack.
pub own-NotIn-host :
    (s : Process) (id : ℕ) (xs : List ℕ) → own_at s id ≡ true → All (HostFree s) xs → NotIn id xs
own-NotIn-host s id xs h = All-map xs (λ y f e. cc (f.2, h, ap (own_at s) e))

-- What changes no slot's owner, or one slot's that is on no stack, keeps the invariant.
module _ (s : Process) (id p : ℕ) (b : Option ℕ) (o : Option Element) where
  pub relink_same-Inv :
      Inv s
      → Links (relink s id b p o)
      → ((j : ℕ) → own_at (relink s id b p o) j ≡ own_at s j)
      → Inv (relink s id b p o)
  relink_same-Inv v l same = record {
    links = l;
    host_ids =
        HostFree-All s (relink s id b p o) s.host_free (All-of _ s.host_free same) v.host_ids;
    host_distinct = v.host_distinct;
    local_ids = v.local_ids;
    alive = v.alive;
  }

  pub relink_but-Inv :
      Inv s
      → Links (relink s id b p o)
      → ((j : ℕ) → j ≢ id → own_at (relink s id b p o) j ≡ own_at s j)
      → NotIn id s.host_free
      → Inv (relink s id b p o)
  relink_but-Inv v l same h = record {
    links = l;
    host_ids =
        HostFree-All s (relink s id b p o) s.host_free (All-map s.host_free same h) v.host_ids;
    host_distinct = v.host_distinct;
    local_ids = v.local_ids;
    alive = v.alive;
  }

-- What changes only objects without an id keeps the invariant.
pub rewrite-Inv :
    (s : Process) (p : ℕ) (o : Option Element)
    → ((e : Element) → s.heap p ≡ some e → e.id ≡ invalid_id)
    → ((e : Element) → o ≡ some e → e.id ≡ invalid_id)
    → Inv s
    → Inv (record s { heap = update s.heap p o })
rewrite-Inv s p o old new v =
    let same : (j : ℕ) → own_at (record s { heap = update s.heap p o }) j ≡ own_at s j =
      λ j. own_at-rewrite s p o old new j v.links in
    record {
      links = rewrite-Links s p o old new v.links;
      host_ids =
          HostFree-All s (record s { heap = update s.heap p o }) s.host_free
            (All-of _ s.host_free same) v.host_ids;
      host_distinct = v.host_distinct;
      local_ids = v.local_ids;
      alive = v.alive;
    }
