-- ===== src/Dma/Session/Tests.antt =====
-- Runs of dma-region.c, and the theorems at them.
use opae_intel_fpga_driver.Base.{
  ℕ, ◌+◌, ◌≤◌, ◌≡◌, ◌≢◌, ◌↔◌, ◌⊎◌, refl, true, false, some, [], In, inl, inr, arith, ok, err,
  einval, ebusy, efault,
}
use opae_intel_fpga_driver.Dma.Kernel.{get_pages}
use opae_intel_fpga_driver.Dma.Map.Destroy.{release_all, afu_dma_region_destroy_lem}
use opae_intel_fpga_driver.AfuData.{DmaRegion, inorder}
use opae_intel_fpga_driver.Dma.Kernel.{dma_unmap_page, without}
use opae_intel_fpga_driver.Dma.Pin.{
  afu_dma_pin_pages, afu_dma_unpin_pages, pin_into_array, afu_dma_adjust_locked_vm, adjust,
}
use opae_intel_fpga_driver.Dma.Pin.Outcome.{Ends, afu_dma_pin_pages-Ends}
use opae_intel_fpga_driver.Dma.Store.{
  afu_dma_region_find, afu_dma_region_find_iova, afu_dma_region_add,
}
use opae_intel_fpga_driver.Dma.Store.Insert.{Blocks, afu_dma_region_add_lem}
use opae_intel_fpga_driver.Dma.Store.Order.{Ascending, insert_by_iova}
use opae_intel_fpga_driver.Dma.Store.Find.{
  InSpace, Separated, afu_dma_region_find_iff, afu_dma_region_find_iova_iff,
}
use opae_intel_fpga_driver.Dma.Map.{
  after_pin, Dma, afu_dma_map_region, afu_dma_unmap_region, afu_dma_region_destroy, new_region,
}
use opae_intel_fpga_driver.Dma.Map.Outcome.{MapEnds, afu_dma_map_region-MapEnds}
use opae_intel_fpga_driver.Dma.Map.Unmap.{afu_dma_unmap_region_lem}
use opae_intel_fpga_driver.Dma.Session.Invariant.{IsSound}
use opae_intel_fpga_driver.Dma.Session.Settle.{Reach-IsSound, afu_dma_region_destroy-Reach}
use opae_intel_fpga_driver.Dma.Session.Served.{idle, one_mapped, one_mapped-Reach}
use opae_intel_fpga_driver.Dma.Examples.{
  chains, serving, short_of_memory, fresh_world, region_at, three_regions,
}

abbrev busy : Dma
busy = record { regions = three_regions; world = fresh_world }

three-Ascending : Ascending (inorder three_regions)
three-Ascending = omega arith

three-InSpace : InSpace (inorder three_regions)
three-InSpace = omega arith

three-Separated : Separated (inorder three_regions)
three-Separated = omega arith

abbrev held_region : DmaRegion
held_region = region_at 0x4000 0x3000 true

three-In : In held_region (inorder three_regions)
three-In = inr (inl refl)

afu_dma_region_add_lem_example :
    let r = region_at 0x8000 0x1000 false in
    let (status, t') = afu_dma_region_add chains three_regions r in
    ((status ≡ ok)
      × (¬ Blocks r (inorder three_regions))
      × (inorder t' ≡ insert_by_iova r (inorder three_regions))
      × Ascending (inorder t'))
    ⊎ ((status ≡ err 17) × (t' ≡ three_regions) × Blocks r (inorder three_regions))
afu_dma_region_add_lem_example =
    afu_dma_region_add_lem chains three_regions (region_at 0x8000 0x1000 false) three-Ascending
      three-InSpace three-Separated (omega arith) (omega arith)

afu_dma_region_find_iff_example :
    (afu_dma_region_find three_regions 0x5000 0x2000 ≡ some held_region) ↔ (
      In held_region (inorder three_regions)
      × (0x4000 ≤ 0x5000)
      × (0x5000 + 0x2000 ≤ 0x4000 + 0x3000))
afu_dma_region_find_iff_example =
    afu_dma_region_find_iff three_regions 0x5000 0x2000 held_region three-Ascending three-InSpace
      three-Separated (omega arith) (omega arith)

afu_dma_region_find_iova_iff_example :
    (afu_dma_region_find_iova three_regions 0x4000 ≡ some held_region)
    ↔ (In held_region (inorder three_regions) × (◌≡◌ {A = ℕ} 0x4000 0x4000))
afu_dma_region_find_iova_iff_example =
    afu_dma_region_find_iova_iff three_regions 0x4000 held_region three-Ascending three-InSpace
      (omega arith)

afu_dma_pin_pages-Ends_example :
    Ends short_of_memory
      (new_region chains short_of_memory 0 0x2000)
      fresh_world
      (afu_dma_pin_pages short_of_memory (new_region chains short_of_memory 0 0x2000) fresh_world)
afu_dma_pin_pages-Ends_example =
    afu_dma_pin_pages-Ends short_of_memory (new_region chains short_of_memory 0 0x2000) fresh_world
      (omega arith)

afu_dma_map_region-MapEnds_example :
    MapEnds serving idle 0 0x2000 (afu_dma_map_region chains serving idle 0 0x2000 7)
afu_dma_map_region-MapEnds_example =
    afu_dma_map_region-MapEnds chains serving idle 0 0x2000 7 (λ h. omega arith) tt (omega arith)

afu_dma_unmap_region_lem_example :
    let (status, d') = afu_dma_unmap_region chains serving busy 0x4000 in
    (((r : DmaRegion) → In r (inorder busy.regions) → r.iova ≢ 0x4000)
      × (status ≡ err einval)
      × (d' ≡ busy))
    ⊎ ((r : DmaRegion) × In r (inorder busy.regions)
        × (r.iova ≡ 0x4000)
        × (((r.in_use ≡ true) × (status ≡ err ebusy) × (d' ≡ busy))
            ⊎ ((r.in_use ≡ false)
                × (status ≡ ok)
                × (inorder d'.regions ≡ without 0x4000 (inorder busy.regions))
                × (d'.world
                    ≡ afu_dma_unpin_pages serving r (dma_unmap_page 0x4000 r.length busy.world)))))
afu_dma_unmap_region_lem_example =
    afu_dma_unmap_region_lem chains serving busy 0x4000 three-Ascending three-InSpace (omega arith)

-- A short pin fails, and its page keeps a reference.
short_pin :
    let r = afu_dma_map_region chains short_of_memory idle 0 0x2000 7 in
    (r.status ≡ err efault) × (r.state.world.page_refs 0x80 ≡ 1)
unfolding afu_dma_map_region afu_dma_pin_pages pin_into_array get_pages afu_dma_adjust_locked_vm
    after_pin adjust
short_pin = (refl, refl)

afu_dma_region_destroy_lem_example :
    let d' = afu_dma_region_destroy chains serving busy in
    (inorder d'.regions ≡ [])
    × (d'.world ≡ release_all chains serving (inorder three_regions) fresh_world)
afu_dma_region_destroy_lem_example = afu_dma_region_destroy_lem chains serving busy

Reach-IsSound_example : IsSound fresh_world one_mapped
Reach-IsSound_example = Reach-IsSound chains fresh_world one_mapped one_mapped-Reach

afu_dma_region_destroy-Reach_example :
    let d' = afu_dma_region_destroy chains serving one_mapped in
    (inorder d'.regions ≡ []) × ((q : ℕ) → d'.world.page_refs q ≡ 0) × (d'.world.locked_vm ≡ some 2)
afu_dma_region_destroy-Reach_example =
    afu_dma_region_destroy-Reach chains serving fresh_world one_mapped one_mapped-Reach
