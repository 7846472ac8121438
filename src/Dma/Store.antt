-- ===== src/Dma/Store.antt =====
-- dma-region.c, the tree of regions: `dma_region_check_iova`, insertion, removal and lookup.
pub mod Order
pub mod Insert
pub mod Find
use mathlib.Core.Option
use opae_intel_fpga_driver.Base.{
  ℕ, zero, ◌+◌, Bool, true, false, not, ◌&&◌, Option, none, some, if◌then◌else◌, ◌==◌, ltb, leb,
  u64, Status, ok, err, eexist,
}
use opae_intel_fpga_driver.AfuData.{DmaRegion, Tree, leaf, node}
use opae_intel_fpga_driver.Dma.Kernel.{RbLib}

unfoldable pub dma_region_check_iova : DmaRegion → ℕ → ℕ → Bool
dma_region_check_iova region iova size =
    if size == 0 && not (region.iova == iova)
    then false
    else leb region.iova iova && leb (u64 (iova + size)) (u64 (region.length + region.iova))

-- The walk to the link under which the region goes, and `rb_link_node`; `none` is -EEXIST.
unfoldable pub link : Tree → DmaRegion → Option Tree
link leaf region = some (node leaf region leaf)
link (node left this right) region =
    let on_left = Option.map (λ t. node t this right) (link left region) in
    let on_right = Option.map (λ t. node left this t) (link right region) in
    if dma_region_check_iova this region.iova region.length
    then none
    else if ltb region.iova this.iova
    then on_left
    else if ltb this.iova region.iova
    then on_right
    else none

unfoldable pub afu_dma_region_find : Tree → ℕ → ℕ → Option DmaRegion
afu_dma_region_find leaf iova size = none
afu_dma_region_find (node left region right) iova size =
    let on_left = afu_dma_region_find left iova size in
    let on_right = afu_dma_region_find right iova size in
    if dma_region_check_iova region iova size
    then some region
    else if ltb iova region.iova
    then on_left
    else if ltb region.iova iova
    then on_right
    else none

unfoldable pub afu_dma_region_find_iova : Tree → ℕ → Option DmaRegion
afu_dma_region_find_iova t iova = afu_dma_region_find t iova 0

module _ (lib : RbLib) where
  unfoldable pub afu_dma_region_add : Tree → DmaRegion → Status × Tree
  afu_dma_region_add t region = elim (link t region) [
    | none ↦ (err eexist, t)
    | some t' ↦ (ok, lib.rb_insert_color region t')
  ]

  unfoldable pub afu_dma_region_remove : Tree → DmaRegion → Tree
  afu_dma_region_remove t region = lib.rb_erase region t

-- `dma_region->in_use = mark` through a pointer that a lookup returned; the node is known by its
-- address.
unfoldable pub mark_in_use : ℕ → Bool → Tree → Tree
mark_in_use k mark leaf = leaf
mark_in_use k mark (node left region right) =
    node (mark_in_use k mark left)
      (if region.iova == k then record region { in_use = mark } else region)
      (mark_in_use k mark right)
