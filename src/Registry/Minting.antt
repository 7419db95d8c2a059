-- ===== src/Registry/Minting.antt =====
-- Which ids a client mints: the bands keep clients apart, except for ids of the boot window.
use votv_mp.Base.{
  ℕ, ◌≤◌, ◌<◌, ◌≡◌, refl, ◌∙◌, ◌≢◌, ◌⊎◌, inl, inr, false, ◌||◌, none, some, List, [], ◌∷◌, arith,
  ◌==◌, leb, update, Option-cases, Bool-cases, All, All-map, subst,
}
use votv_mp.ElementId.{invalid_id, max_peers, host_range_size, is_host_id}
use votv_mp.ElementId.Bands.{InBand, band_bounds}
use votv_mp.Registry.{
  Process, Element, ElementType, Derived, new_element, refill_free_stacks, init, claim, pop_local,
  alloc_local_id, register_mirror, set_local_peer_band, destroy, construct, release_id,
}
use votv_mp.Registry.Fill.{All-push_down}
use votv_mp.Registry.Invariant.{Inv}
use votv_mp.Registry.Allocation.{Unnamed, construct-Inv, alloc_local_id-Inv, register_mirror-Inv}
use votv_mp.Registry.Destruction.{
  unregister_own, unregister_theirs, unregister_unnamed, destroy-Inv,
}

-- All free ids of the peer range lie in the active band.
pub record Banded (s : Process) (band : ℕ) : Type 0 where
  pub active : s.active_band ≡ band
  pub free : All (InBand band) s.local_free

init-Banded : Banded init 0
unfolding init refill_free_stacks
init-Banded = record {
  active = refl;
  free =
      All-push_down _ _ _ []
        (λ k lo hi. let b = band_bounds 0 (omega arith) in (lo, omega (arith, b))) tt;
}

set_local_peer_band-Banded :
    (s : Process) (slot : ℕ)
    → 0 < slot
    → slot < max_peers
    → Banded s s.active_band
    → Banded (set_local_peer_band s slot) slot
unfolding set_local_peer_band
set_local_peer_band-Banded s slot lo hi b =
    let valid : (slot == 0 || leb max_peers slot) ≡ false = ground arith in
    elim (Bool-cases (s.active_band == slot)) [
      | inl same ↦
          let e : s.active_band ≡ slot = ground arith in
          rw (valid, same, set_local_peer_band) (record { active = e; free = rw e at b.free })
      | inr other ↦
          rw (valid, other, set_local_peer_band)
            (record {
              active = refl;
              free =
                  All-push_down _ _ _ []
                    (λ k l h. let b = band_bounds slot hi in (l, omega (arith, b))) tt;
            })
    ]

-- An allocation draws from the band and leaves the rest of it.
pop_local-Banded :
    (s : Process) (band p : ℕ) (ids : List ℕ)
    → s.active_band ≡ band
    → s.local_free ≡ ids
    → All (InBand band) ids
    → let r = pop_local s ids p in Banded r.0 band × ((r.1 ≡ invalid_id) ⊎ InBand band r.1)
unfolding pop_local claim
pop_local-Banded s band p [] act e h = (record { active = act; free = rw e h }, inl refl)
pop_local-Banded s band p (id ∷ rest) act e h = elim (Option-cases (s.by_id id)) [
  | inl empty ↦ rw (empty, claim) (record { active = act; free = h.1 }, inr h.0)
  | inr (q, taken) ↦ rw (taken, claim) (record { active = act; free = h.1 }, inl refl)
]

alloc_local_id-Banded :
    (s : Process) (band p : ℕ)
    → Banded s band
    → let r = alloc_local_id s (some p) in Banded r.0 band × ((r.1 ≡ invalid_id) ⊎ InBand band r.1)
unfolding alloc_local_id
alloc_local_id-Banded s band p b = pop_local-Banded s band p s.local_free b.active refl b.free

-- Destroying the object frees no id outside the band.
abbrev pub FreesInBand : Process → ℕ → ℕ → Type 0
FreesInBand s band p =
    (e : Element) → s.heap p ≡ some e → e.mirror ≡ false → host_range_size ≤ e.id → InBand band e.id

destroy-Banded :
    (s : Process) (band p : ℕ)
    → Inv s
    → FreesInBand s band p
    → Banded s band
    → Banded (destroy s p) band
unfolding destroy
destroy-Banded s band p v h b = elim (Option-cases (s.heap p)) [
  | inl gone ↦ rw (gone, destroy) b
  | inr (e, at) ↦
      rw (at, destroy)
        (elim (Bool-cases (e.id == invalid_id)) [
          | inl unnamed ↦
              rw (unregister_unnamed s e (ground arith))
                (record { active = b.active; free = b.free })
          | inr named ↦
              let ne : e.id ≢ invalid_id = ground arith in
              let held = v.links.registered p e at ne in
              let inside = (v.links.pointed e.id p held).0 in
              elim (Bool-cases e.mirror) [
                | inl theirs ↦
                    rw (unregister_theirs s p e v.alive ne inside held theirs)
                      (record { active = b.active; free = b.free })
                | inr own ↦
                    rw (unregister_own s p e v.alive ne inside held own) (released e (h e at own))
              ]
        ])
]
  where
    released :
        (e : Element)
        → (host_range_size ≤ e.id → InBand band e.id)
        → let t = release_id s e.id in Banded (record t { heap = update t.heap p none }) band
    released e k = elim (Bool-cases (is_host_id e.id)) [
      | inl host ↦ rw (host, release_id) (record { active = b.active; free = b.free })
      | inr peer ↦
          rw (peer, release_id)
            (record { active = b.active; free = (k (unfold is_host_id in ground arith), b.free) })
    ]

-- A client's life in its band, from `s`: the ids that it mints, the latest first. It creates
-- objects, mints, mirrors and destroys; what it destroys frees no id outside the band.
pub data Mints (band : ℕ) (s : Process) : List ℕ → Process → Type 0 where
  enters : Mints band s [] s
  mints :
      {ids : List ℕ} {t : Process} (p : ℕ)
      → Mints band s ids t
      → Unnamed t p
      → Mints band s ((alloc_local_id t (some p)).1 ∷ ids) (alloc_local_id t (some p)).0
  meets :
      {ids : List ℕ} {t : Process} (id p : ℕ)
      → Mints band s ids t
      → Unnamed t p
      → Mints band s ids (register_mirror t id (some p)).0
  makes :
      {ids : List ℕ} {t : Process} (p : ℕ) (type : ElementType) (d : Derived)
      → Mints band s ids t
      → t.heap p ≡ none
      → Mints band s ids (construct t p (new_element type d))
  drops :
      {ids : List ℕ} {t : Process} (p : ℕ)
      → Mints band s ids t
      → FreesInBand t band p
      → Mints band s ids (destroy t p)

abbrev MintedIn : ℕ → ℕ → Type 0
MintedIn band id = (id ≡ invalid_id) ⊎ InBand band id

construct-Banded :
    (s : Process) (band p : ℕ) (e : Element) → Banded s band → Banded (construct s p e) band
unfolding construct
construct-Banded s band p e b = record { active = b.active; free = b.free }

register_mirror-Banded :
    (s : Process) (band id p : ℕ) → Banded s band → Banded (register_mirror s id (some p)).0 band
unfolding register_mirror
register_mirror-Banded s band id p b = record {
  active = ground (arith, b.active);
  free = subst (All (InBand band)) (ground arith) b.free;
}

Mints-Banded :
    {band : ℕ} {s t : Process} {ids : List ℕ}
    → Mints band s ids t
    → Inv s
    → Banded s band
    → Inv t × Banded t band × All (MintedIn band) ids
Mints-Banded enters v b = (v, b, tt)
Mints-Banded {band} (mints {t = t} p m u) v b =
    let h = Mints-Banded m v b in
    let r = alloc_local_id-Banded t band p h.1 in (alloc_local_id-Inv t p u h.0, r.0, (r.1, h.2))
Mints-Banded {band} (meets {t = t} id p m u) v b =
    let h = Mints-Banded m v b in
    (register_mirror-Inv t id p u h.0, register_mirror-Banded t band id p h.1, h.2)
Mints-Banded {band} (makes {t = t} p type d m e) v b =
    let h = Mints-Banded m v b in
    (construct-Inv t p type d e h.0, construct-Banded t band p (new_element type d) h.1, h.2)
Mints-Banded {band} (drops {t = t} p m k) v b =
    let h = Mints-Banded m v b in (destroy-Inv t p h.0, destroy-Banded t band p h.0 k h.1, h.2)

-- Two clients that hold different bands never mint the same id, as long as neither frees an own id
-- of the peer range that is outside its band.
pub minted_apart :
    {a b : ℕ} {s s' t t' : Process} {ids ids' : List ℕ}
    → a ≢ b
    → a < max_peers
    → b < max_peers
    → Inv s
    → Inv s'
    → Banded s a
    → Banded s' b
    → Mints a s ids t
    → Mints b s' ids' t'
    → All (λ x. All (λ y. x ≡ y → x ≡ invalid_id) ids') ids
minted_apart {a} {b} {ids = ids} {ids' = ids'} ne la lb v v' ba bb m m' =
    All-map ids (λ x hx. All-map ids' (λ y hy e. apart x y e hx hy) (Mints-Banded m' v' bb).2)
      (Mints-Banded m v ba).2
  where
    apart : (x y : ℕ) → x ≡ y → MintedIn a x → MintedIn b y → x ≡ invalid_id
    apart x y e (inl h) k = h
    apart x y e h (inl k) = e ∙ k
    apart x y e (inr h) (inr k) = absurd (ne (omega (arith, band_bounds a la, band_bounds b lb)))
