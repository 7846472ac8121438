-- ===== src/Dma/Map/Destroy.antt =====
-- `afu_dma_region_destroy` visits every region of the tree once, in order, and empties the tree.
use opae_intel_fpga_driver.Base.{
  ℕ, zero, suc, ◌<◌, ◌≡◌, refl, ◌∙◌, ap, arith, List, [], ◌∷◌, length, In, inl,
}
use opae_intel_fpga_driver.AfuData.{DmaRegion, inorder}
use opae_intel_fpga_driver.Dma.Kernel.{World, Env, RbLib, without, head?}
use opae_intel_fpga_driver.Dma.Map.{Dma, release_region, destroy_from, afu_dma_region_destroy}

module _ (lib : RbLib) (env : Env) where
  -- The regions of a list released one after the other.
  abbrev pub release_all : List DmaRegion → World → World
  release_all [] w = w
  release_all (r ∷ rs) w = release_all rs (release_region lib env r w)

  destroy_from_lem :
      (xs : List DmaRegion) (fuel : ℕ) (d : Dma)
      → inorder d.regions ≡ xs
      → length xs < fuel
      → let d' = destroy_from lib env fuel (head? xs) d in
        (inorder d'.regions ≡ []) × (d'.world ≡ release_all xs d.world)
  unfolding destroy_from
  destroy_from_lem [] zero d e h = absurd (omega arith)
  destroy_from_lem [] (suc fuel) d e h = (e, refl)
  destroy_from_lem (r ∷ rs) zero d e h = absurd (omega arith)
  destroy_from_lem (r ∷ rs) (suc fuel) d e h =
      let member : In r (inorder d.regions) = rw e (inl refl) in
      let rest : inorder (lib.rb_erase r d.regions) ≡ rs =
        lib.inorder-rb_erase r d.regions member ∙ ap (without r.iova) e ∙ ground arith in
      rw (lib.rb_next_lem d.regions r rs e) (
        destroy_from_lem rs fuel
          (record { regions = lib.rb_erase r d.regions; world = release_region lib env r d.world })
          rest (omega arith))

  -- The loop that destroys the regions ends within as many rounds as there are regions: the tree is
  -- empty and every region was released exactly once, in the order of addresses.
  pub afu_dma_region_destroy_lem :
      (d : Dma)
      → let d' = afu_dma_region_destroy lib env d in
        (inorder d'.regions ≡ []) × (d'.world ≡ release_all (inorder d.regions) d.world)
  unfolding afu_dma_region_destroy
  afu_dma_region_destroy_lem d =
      rw (lib.rb_first_lem d.regions) (
        destroy_from_lem (inorder d.regions) (suc (length (inorder d.regions))) d refl
          (omega arith))
