-- ===== src/Region/Tests.antt =====
-- Runs of region.c on two regions, and the theorems at them.
use opae_intel_fpga_driver.Base.{◌+◌, ◌≤◌, ◌≡◌, ◌↔◌, refl, true, [], ◌∷◌, arith, In, ok}
use opae_intel_fpga_driver.AfuData.{AfuRegion, Afu, leaf}
use opae_intel_fpga_driver.Region.{
  afu_region_add, get_region_by_index, afu_get_region_by_index, afu_get_region_by_offset,
}
use opae_intel_fpga_driver.Region.Layout.{IsLaidOut, afu_region_add-IsLaidOut}
use opae_intel_fpga_driver.Region.Lookup.{afu_get_region_by_index_iff, afu_get_region_by_offset_iff}

abbrev uafu : AfuRegion
uafu = record { index = 0; flags = 7; size = 0x40000; offset = 0; phys = 0x9000_0000 }

abbrev stp : AfuRegion
stp = record { index = 1; flags = 7; size = 0x18c; offset = 0x40000; phys = 0x9004_0000 }

abbrev one_region : Afu
one_region = record {
  region_cur_offset = 0x40000;
  capability = 0;
  num_regions = 1;
  num_umsgs = 8;
  num_uafu_irqs = 0;
  regions = uafu ∷ [];
  dma_regions = leaf;
}

abbrev two_regions : Afu
two_regions = record one_region {
  region_cur_offset = 0x41000;
  num_regions = 2;
  regions = stp ∷ uafu ∷ [];
}

add_stp : afu_region_add true one_region 1 0x18c 0x9004_0000 7 ≡ (ok, two_regions)
unfolding afu_region_add get_region_by_index
add_stp = refl

one_region-IsLaidOut : IsLaidOut one_region
one_region-IsLaidOut = omega arith

two_regions-IsLaidOut : IsLaidOut two_regions
two_regions-IsLaidOut = omega arith

afu_region_add-IsLaidOut_example :
    IsLaidOut (afu_region_add true one_region 1 0x18c 0x9004_0000 7).1
afu_region_add-IsLaidOut_example =
    afu_region_add-IsLaidOut true one_region 1 0x18c 0x9004_0000 7 (omega arith)
      one_region-IsLaidOut

-- The older region is found under its index.
afu_get_region_by_index_iff_example :
    (afu_get_region_by_index two_regions 0 stp ≡ (ok, uafu))
    ↔ (In uafu two_regions.regions × (uafu.index ≡ 0))
afu_get_region_by_index_iff_example =
    afu_get_region_by_index_iff two_regions 0 stp uafu two_regions-IsLaidOut

-- A page inside the first region is found there, although the newer one comes first.
afu_get_region_by_offset_iff_example :
    (afu_get_region_by_offset two_regions 0x3000 0x1000 stp ≡ (ok, uafu))
    ↔ (In uafu two_regions.regions × (0 ≤ 0x3000) × (0x3000 + 0x1000 ≤ 0 + 0x40000))
afu_get_region_by_offset_iff_example =
    afu_get_region_by_offset_iff two_regions 0x3000 0x1000 stp uafu two_regions-IsLaidOut
      (omega arith) (omega arith)
