-- ===== src/Region.antt =====
-- drivers/fpga/intel/region.c: the MMIO regions of a port, kept newest first.
-- The mutex is held throughout each function, so a call is one step. An out parameter is an
-- argument and a component of the result.
pub mod Layout
pub mod Lookup
mod Tests
use opae_intel_fpga_driver.Base.{
  ℕ, ◌+◌, Bool, true, false, ◌&&◌, Option, none, some, List, [], ◌∷◌, if◌then◌else◌, ◌==◌, leb, u64,
  page_align, Status, ok, err, enomem, eexist, einval,
}
use opae_intel_fpga_driver.AfuData.{AfuRegion, Afu}

pub afu_region_init : Afu → Afu
afu_region_init afu = record afu { regions = [] }

-- `for_each_region` that stops at the first hit.
pub get_region_by_index : List AfuRegion → ℕ → Option AfuRegion
get_region_by_index [] region_index = none
get_region_by_index (region ∷ rest) region_index =
    if region.index == region_index then some region else get_region_by_index rest region_index

-- `list_add` with the two counters that go with it.
link_region : Afu → AfuRegion → Afu
link_region afu region = record afu {
  region_cur_offset = u64 (afu.region_cur_offset + page_align region.size);
  num_regions = afu.num_regions + 1;
  regions = region ∷ afu.regions;
}

-- `allocated` says whether `devm_kzalloc` succeeds.
pub afu_region_add : Bool → Afu → ℕ → ℕ → ℕ → ℕ → Status × Afu
unfolding link_region
afu_region_add false afu region_index region_size phys flags = (err enomem, afu)
afu_region_add true afu region_index region_size phys flags =
    elim (get_region_by_index afu.regions region_index) [
      | some _ ↦ (err eexist, afu)
      | none ↦ (
        ok,
        link_region afu (record {
          index = region_index;
          flags = flags;
          size = region_size;
          offset = afu.region_cur_offset;
          phys = phys;
        }),
      )
    ]

-- Unlinks and frees every entry; the counters stay.
unlink_all : List AfuRegion → List AfuRegion
unlink_all [] = []
unlink_all (region ∷ rest) = unlink_all rest

pub afu_region_destroy : Afu → Afu
unfolding unlink_all
afu_region_destroy afu = record afu { regions = unlink_all afu.regions }

pub afu_get_region_by_index : Afu → ℕ → AfuRegion → Status × AfuRegion
afu_get_region_by_index afu region_index pregion =
    elim (get_region_by_index afu.regions region_index) [
      | some region ↦ (ok, region)
      | none ↦ (err einval, pregion)
    ]

-- The test of the loop, in u64 arithmetic.
unfoldable pub covers : AfuRegion → ℕ → ℕ → Bool
covers region offset size =
    leb region.offset offset && leb (u64 (offset + size)) (u64 (region.offset + region.size))

unfoldable pub find_by_offset : List AfuRegion → ℕ → ℕ → Option AfuRegion
unfolding covers
find_by_offset [] offset size = none
find_by_offset (region ∷ rest) offset size =
    if covers region offset size then some region else find_by_offset rest offset size

unfoldable pub afu_get_region_by_offset : Afu → ℕ → ℕ → AfuRegion → Status × AfuRegion
unfolding find_by_offset
afu_get_region_by_offset afu offset size pregion = elim (find_by_offset afu.regions offset size) [
  | some region ↦ (ok, region)
  | none ↦ (err einval, pregion)
]
