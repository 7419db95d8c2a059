-- ===== src/Players/Objects.antt =====
-- What the registry's operations do to the objects other than the one they are about.
use votv_mp.Base.{
  ℕ, List, [], ◌∷◌, ◌≡◌, ◌≢◌, refl, ap, ◌∙◌, Bool, true, false, Option, none, some, if◌then◌else◌,
  arith, inl, inr, Option-cases,
}
use votv_mp.ElementId.{invalid_id}
use votv_mp.Registry.{
  Process, Element, set_id, modify, alloc_host_id, alloc_local_id, pop_host, pop_local, claim,
  set_local_peer_band, destroy, unregister, free_id, release_id, unregister_mirror,
}

-- Destroying an element touches no other object.
pub heap-unregister : (s : Process) (e : Element) → (unregister s e).heap ≡ s.heap
unfolding unregister free_id release_id unregister_mirror
heap-unregister s e = elim (Option-cases (s.by_id e.id)) [
  | inl empty ↦ rw (empty, unregister_mirror, free_id) (ground arith)
  | inr (q, at) ↦ rw (at, unregister_mirror, free_id) (ground arith)
]

pub heap-destroy : (s : Process) (p q : ℕ) → q ≢ p → (destroy s p).heap q ≡ s.heap q
unfolding destroy
heap-destroy s p q ne = elim (Option-cases (s.heap p)) [
  | inl gone ↦ rw (gone, destroy) refl
  | inr (e, at) ↦ rw (at, destroy) (ground (arith, heap-unregister s e))
]

-- A process in which the objects other than the one at `p` are as before.
abbrev pub ElseSame : Process → ℕ → Process → Type 0
ElseSame s p t = (q : ℕ) → q ≢ p → t.heap q ≡ s.heap q

-- What the three ways to name an element do to the objects.
pub record Names (s : Process) (p : ℕ) (e : Element) (t : Process) (id : ℕ) : Type 0 where
  pub same : ElseSame s p t
  pub named :
      id ≢ invalid_id → (f : Element) × (t.heap p ≡ some f) × (f.id ≡ id) × (f.derived ≡ e.derived)

pub modify_other :
    (h : ℕ → Option Element) (p q : ℕ) (f : Element → Element) → q ≢ p → modify h p f q ≡ h q
modify_other h p q f ne = elim (Option-cases (h p)) [
  | inl gone ↦ rw (gone, modify) refl
  | inr (e, at) ↦ rw (at, modify) (ground arith)
]

pub modify_here :
    (h : ℕ → Option Element) (p : ℕ) (f : Element → Element) (e : Element)
    → h p ≡ some e
    → modify h p f p ≡ some (f e)
modify_here h p f e at = rw (at, modify) (ground arith)

pub claim-Names :
    (s u : Process) (id p : ℕ) (e : Element)
    → u.heap ≡ s.heap
    → s.heap p ≡ some e
    → Names s p e (claim u id p).0 (claim u id p).1
unfolding claim
claim-Names s u id p e same at = elim (Option-cases (u.by_id id)) [
  | inr (q, taken) ↦
      rw (taken, claim) (record { same = λ q ne. ap (λ h. h q) same; named = λ n. absurd (n refl) })
  | inl empty ↦
      rw (empty, claim)
        (record {
          same = λ q ne. modify_other u.heap p q (set_id id) ne ∙ ap (λ h. h q) same;
          named = λ n. (
            record e { id = id },
            modify_here u.heap p (set_id id) e (ap (λ h. h p) same ∙ at),
            refl,
            refl,
          );
        })
]

pub pop_host-Names :
    (s : Process) (ids : List ℕ) (p : ℕ) (e : Element)
    → s.heap p ≡ some e
    → Names s p e (pop_host s ids p).0 (pop_host s ids p).1
unfolding pop_host
pop_host-Names s [] p e at = record { same = λ q ne. refl; named = λ n. absurd (n refl) }
pop_host-Names s (id ∷ rest) p e at = claim-Names s (record s { host_free = rest }) id p e refl at

pub pop_local-Names :
    (s : Process) (ids : List ℕ) (p : ℕ) (e : Element)
    → s.heap p ≡ some e
    → Names s p e (pop_local s ids p).0 (pop_local s ids p).1
unfolding pop_local
pop_local-Names s [] p e at = record { same = λ q ne. refl; named = λ n. absurd (n refl) }
pop_local-Names s (id ∷ rest) p e at = claim-Names s (record s { local_free = rest }) id p e refl at

pub alloc-Names :
    (s : Process) (host : Bool) (p : ℕ) (e : Element)
    → s.heap p ≡ some e
    → let r = if host then alloc_host_id s (some p) else alloc_local_id s (some p) in
      Names s p e r.0 r.1
unfolding alloc_host_id alloc_local_id
alloc-Names s true p e at = pop_host-Names s s.host_free p e at
alloc-Names s false p e at = pop_local-Names s s.local_free p e at

pub none_after_destroy : (s : Process) (q p : ℕ) → s.heap p ≡ none → (destroy s q).heap p ≡ none
unfolding destroy
none_after_destroy s q p empty = elim (Option-cases (s.heap q)) [
  | inl gone ↦ rw (gone, destroy) empty
  | inr (e, at) ↦ rw (at, destroy) (ground (arith, heap-unregister s e))
]

-- Another band changes no object.
pub heap-set_local_peer_band : (s : Process) (slot : ℕ) → (set_local_peer_band s slot).heap ≡ s.heap
unfolding set_local_peer_band
heap-set_local_peer_band s slot = ground arith
