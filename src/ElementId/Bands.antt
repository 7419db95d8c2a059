-- ===== src/ElementId/Bands.antt =====
-- The peer bands: where they lie, that they share no id, and that together they are the peer range.
use votv_mp.Base.{ℕ, ◌+◌, ◌-◌, ◌*◌, ◌/◌, ◌≤◌, ◌<◌, ◌≡◌, arith}
use votv_mp.ElementId.{
  max_elements, host_range_size, max_peers, slot_band_size, band_base, band_end,
}

-- `id` lies in the band.
abbrev pub InBand : ℕ → ℕ → Type 0
InBand band id = (band_base band ≤ id) × (id < band_end band)

pub band_bounds :
    (band : ℕ)
    → band < max_peers
    → (band_base band ≡ host_range_size + band * slot_band_size)
      × (band_end band ≡ band_base band + slot_band_size)
      × (band_end band ≤ max_elements)
unfolding band_end
band_bounds band h = ground arith

-- An id of the peer range lies in exactly one of the four bands.
pub bands_partition :
    (id : ℕ)
    → host_range_size ≤ id
    → id < max_elements
    → (band : ℕ) × (band < max_peers)
      × InBand band id
      × ((other : ℕ) → other < max_peers → InBand other id → other ≡ band)
bands_partition id lo hi =
    let b : ℕ = (id - host_range_size) / slot_band_size in
    let small : b < max_peers = omega arith in
    (
      b,
      small,
      omega (arith, band_bounds b small),
      λ other lt inside. omega (arith, band_bounds other lt),
    )
