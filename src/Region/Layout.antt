-- ===== src/Region/Layout.antt =====
-- Where region.c puts the regions: page-aligned, one after the other, under distinct indices.
use opae_intel_fpga_driver.Base.{
  ℕ, ◌+◌, ◌-◌, ◌%◌, ◌^◌, ◌≤◌, ◌<◌, ◌≡◌, ◌≢◌, Bool, true, false, none, List, [], ◌∷◌, arith, length,
  All, inl, inr, Option-cases, page_align, page_size,
}
use opae_intel_fpga_driver.AfuData.{AfuRegion, Afu}
use opae_intel_fpga_driver.Region.{get_region_by_index, afu_region_add}

abbrev pub end_of : AfuRegion → ℕ
end_of r = r.offset + page_align r.size

-- The list from the newest region down: each starts on a page, its size does not wrap when it is
-- rounded up, and it ends where the next newer one starts, the newest at `top`.
abbrev pub Stacked : ℕ → List AfuRegion → Type 0
Stacked top [] = top ≡ 0
Stacked top (r ∷ rs) =
    (r.offset % page_size ≡ 0)
    × (r.size + (page_size - 1) < 2 ^ 64)
    × (end_of r ≡ top)
    × All (λ (s : AfuRegion). s.index ≢ r.index) rs
    × Stacked r.offset rs

pub record IsLaidOut (afu : Afu) : Type 0 where
  pub stacked : Stacked afu.region_cur_offset afu.regions
  pub counted : afu.num_regions ≡ length afu.regions
  pub in_range : afu.region_cur_offset < 2 ^ 64

-- `none` from the index lookup means that no entry has the index.
pub get_region_by_index-none :
    (rs : List AfuRegion) (i : ℕ)
    → get_region_by_index rs i ≡ none
    → All (λ (s : AfuRegion). s.index ≢ i) rs
unfolding get_region_by_index
get_region_by_index-none [] i h = tt
get_region_by_index-none (r ∷ rs) i h = ground (arith, get_region_by_index-none rs i)

Stacked-aligned : (top : ℕ) (rs : List AfuRegion) → Stacked top rs → top % page_size ≡ 0
Stacked-aligned top [] h = omega arith
Stacked-aligned top (r ∷ rs) h = omega arith

-- Adding a region that still fits the 64-bit offset space keeps the layout, whether or not the
-- call succeeds.
pub afu_region_add-IsLaidOut :
    (allocated : Bool) (afu : Afu) (index size phys flags : ℕ)
    → afu.region_cur_offset + size + page_size ≤ 2 ^ 64
    → IsLaidOut afu
    → IsLaidOut (afu_region_add allocated afu index size phys flags).1
unfolding afu_region_add
afu_region_add-IsLaidOut false afu index size phys flags fits v = v
afu_region_add-IsLaidOut true afu index size phys flags fits v =
    elim (Option-cases (get_region_by_index afu.regions index)) [
      | inr (_, e) ↦ rw (e, afu_region_add) v
      | inl e ↦
          rw (e, afu_region_add)
            (record {
              stacked = (
                Stacked-aligned afu.region_cur_offset afu.regions v.stacked,
                omega arith,
                omega arith,
                get_region_by_index-none afu.regions index e,
                v.stacked,
              );
              counted = omega (arith, v.counted);
              in_range = omega arith;
            })
    ]
