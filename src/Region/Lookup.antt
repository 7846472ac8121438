-- ===== src/Region/Lookup.antt =====
-- What the lookups of region.c find, by index and by file offset.
use opae_intel_fpga_driver.Base.{
  ℕ, ◌+◌, ◌^◌, ◌≤◌, ◌<◌, ◌≡◌, ◌↔◌, some, List, [], ◌∷◌, arith, In, inl, inr, ◌≢◌, All-In, sym,
  Option-cases, ok,
}
use opae_intel_fpga_driver.AfuData.{AfuRegion, Afu}
use opae_intel_fpga_driver.Region.{
  get_region_by_index, afu_get_region_by_index, afu_get_region_by_offset, find_by_offset,
}
use opae_intel_fpga_driver.Region.Layout.{Stacked, IsLaidOut}

get_region_by_index_sound :
    (rs : List AfuRegion) (i : ℕ) (r : AfuRegion)
    → get_region_by_index rs i ≡ some r
    → In r rs × (r.index ≡ i)
unfolding get_region_by_index
get_region_by_index_sound [] i r e = cc
get_region_by_index_sound (x ∷ rs) i r e = ground (arith, e, get_region_by_index_sound rs i r)

get_region_by_index_complete :
    (top : ℕ) (rs : List AfuRegion) (r : AfuRegion)
    → Stacked top rs
    → In r rs
    → get_region_by_index rs r.index ≡ some r
unfolding get_region_by_index
get_region_by_index_complete top [] r h m = absurd m
get_region_by_index_complete top (x ∷ rs) r h (inl e) = ground (arith, e)
get_region_by_index_complete top (x ∷ rs) r h (inr m) = ground (
  arith,
  All-In (λ (s : AfuRegion). s.index ≢ x.index) rs r h.3 m,
  get_region_by_index_complete x.offset rs r h.4 m,
)

-- Over a laid-out list, the lookup by index succeeds with a region exactly when that region is in the
-- list and has the index: no older region is hidden by a newer one.
pub afu_get_region_by_index_iff :
    (afu : Afu) (i : ℕ) (pregion r : AfuRegion)
    → IsLaidOut afu
    → (afu_get_region_by_index afu i pregion ≡ (ok, r)) ↔ (In r afu.regions × (r.index ≡ i))
unfolding afu_get_region_by_index
afu_get_region_by_index_iff afu i pregion r v = (
  λ e. elim (Option-cases (get_region_by_index afu.regions i)) [
    | inl missing ↦ absurd (ground (arith, missing, e))
    | inr (x, found) ↦ ground (arith, e, found, get_region_by_index_sound afu.regions i x found)
  ],
  λ (m, same). rw (
    sym same,
    get_region_by_index_complete afu.region_cur_offset afu.regions r v.stacked m,
    afu_get_region_by_index,
  ),
)

-- The byte range lies in the region.
abbrev pub Contains : AfuRegion → ℕ → ℕ → Type 0
Contains r offset size = (r.offset ≤ offset) × (offset + size ≤ r.offset + r.size)

In-below :
    (r : AfuRegion) (top : ℕ) (rs : List AfuRegion)
    → Stacked top rs
    → In r rs
    → r.offset + r.size ≤ top
In-below r top [] h m = absurd m
In-below r top (x ∷ rs) h (inl e) = ground arith
In-below r top (x ∷ rs) h (inr m) = omega (arith, In-below r x.offset rs h.4 m)

module _ (offset size : ℕ) (nonempty : 0 < size) (fits : offset + size < 2 ^ 64) where
  find_by_offset_sound :
      (top : ℕ) (rs : List AfuRegion) (r : AfuRegion)
      → Stacked top rs
      → top < 2 ^ 64
      → find_by_offset rs offset size ≡ some r
      → In r rs × Contains r offset size
  unfolding find_by_offset
  find_by_offset_sound top [] r h t e = cc
  find_by_offset_sound top (x ∷ rs) r h t e = ground (arith, find_by_offset_sound x.offset rs r h.4)

  find_by_offset_complete :
      (top : ℕ) (rs : List AfuRegion) (r : AfuRegion)
      → Stacked top rs
      → top < 2 ^ 64
      → In r rs
      → Contains r offset size
      → find_by_offset rs offset size ≡ some r
  unfolding find_by_offset
  find_by_offset_complete top [] r h t m c = absurd m
  find_by_offset_complete top (x ∷ rs) r h t (inl e) c = ground arith
  find_by_offset_complete top (x ∷ rs) r h t (inr m) c =
      ground (arith, find_by_offset_complete x.offset rs r h.4, In-below r x.offset rs h.4 m)

-- Over a laid-out list, a non-empty byte range whose end lies below 2^64 is found in a region exactly
-- when that region is in the list and contains the range. A range that ends at 2^64 itself is left
-- out: there the end wraps to 0.
pub afu_get_region_by_offset_iff :
    (afu : Afu) (offset size : ℕ) (pregion r : AfuRegion)
    → IsLaidOut afu
    → 0 < size
    → offset + size < 2 ^ 64
    → (afu_get_region_by_offset afu offset size pregion ≡ (ok, r))
      ↔ (In r afu.regions × (r.offset ≤ offset) × (offset + size ≤ r.offset + r.size))
unfolding afu_get_region_by_offset
afu_get_region_by_offset_iff afu offset size pregion r v n f = (
  λ e.
      ground
        (arith, find_by_offset_sound offset size n f afu.region_cur_offset afu.regions r v.stacked),
  λ m. rw (
    find_by_offset_complete offset size n f afu.region_cur_offset afu.regions r v.stacked v.in_range
        m.0 (m.1, m.2),
    afu_get_region_by_offset,
  ),
)
