-- ===== src/Dma/Map/Unmap.antt =====
-- What `afu_dma_unmap_region` does, and that it undoes a successful `afu_dma_map_region`.
use opae_intel_fpga_driver.Base.{
  ℕ, ◌+◌, ◌/◌, page_size, ◌^◌, ◌<◌, ◌≡◌, ◌≢◌, refl, ◌∙◌, ap, ◌⊎◌, inl, inr, arith, true, false, ok,
  err, ebusy, einval, Option-cases, Bool-cases, List, In,
}
use opae_intel_fpga_driver.AfuData.{DmaRegion, inorder}
use opae_intel_fpga_driver.Dma.Kernel.{Env, RbLib, without, dma_unmap_page}
use opae_intel_fpga_driver.Dma.Pin.{afu_dma_unpin_pages}
use opae_intel_fpga_driver.Dma.Pin.Account.{Room}
use opae_intel_fpga_driver.Dma.Pin.Outcome.{afu_dma_unpin_pages_lem}
use opae_intel_fpga_driver.Dma.Store.{afu_dma_region_find_iova, afu_dma_region_remove}
use opae_intel_fpga_driver.Dma.Store.Order.{
  Ascending, insert_by_iova-Ascending, without-insert_by_iova, All-insert_by_iova,
  In-insert_by_iova,
}
use opae_intel_fpga_driver.Dma.Store.Find.{InSpace, Fits, afu_dma_region_find_iova_iff}
use opae_intel_fpga_driver.Dma.Map.{Dma, Mapped, afu_dma_map_region, afu_dma_unmap_region}
use opae_intel_fpga_driver.Dma.Map.Outcome.{
  Maps, mapped_region, afu_dma_map_region-MapEnds, dma_unmap_page-add_mapping,
}

module _ (lib : RbLib) (env : Env) (d : Dma) (iova : ℕ) (ordered : Ascending (inorder d.regions))
    (fits : InSpace (inorder d.regions)) (below : iova < 2 ^ 64) where
  -- Unmapping the address of a region of an ordered tree within the address space: while the region
  -- is in use the call fails with -EBUSY and changes nothing; otherwise the region leaves the tree,
  -- its mapping is dropped and its pages are unpinned.
  pub afu_dma_unmap_region-present :
      (r : DmaRegion)
      → In r (inorder d.regions)
      → r.iova ≡ iova
      → let (status, d') = afu_dma_unmap_region lib env d iova in
        ((r.in_use ≡ true) × (status ≡ err ebusy) × (d' ≡ d))
        ⊎ ((r.in_use ≡ false)
            × (status ≡ ok)
            × (inorder d'.regions ≡ without iova (inorder d.regions))
            × (d'.world ≡ afu_dma_unpin_pages env r (dma_unmap_page iova r.length d.world)))
  unfolding afu_dma_unmap_region afu_dma_region_remove
  afu_dma_unmap_region-present r m e =
      let found = (afu_dma_region_find_iova_iff d.regions iova r ordered fits below).1 (m, e) in
      let left = lib.inorder-rb_erase r d.regions m in
      rw (found, afu_dma_unmap_region)
        (elim (Bool-cases r.in_use) [
          | inl busy ↦ inl (busy, ground (arith, busy), ground (arith, busy))
          | inr free ↦
              inr
                (free, ground (arith, free), ground (arith, free, left, e), ground (arith, free, e))
        ])

  -- An address where no region starts is refused with -EINVAL and nothing changes.
  pub afu_dma_unmap_region-absent :
      ((r : DmaRegion) → In r (inorder d.regions) → r.iova ≢ iova)
      → afu_dma_unmap_region lib env d iova ≡ (err einval, d)
  unfolding afu_dma_unmap_region
  afu_dma_unmap_region-absent none_there =
      elim (Option-cases (afu_dma_region_find_iova d.regions iova)) [
        | inl e ↦ rw (e, afu_dma_unmap_region)
        | inr (r, e) ↦
            let hit = (afu_dma_region_find_iova_iff d.regions iova r ordered fits below).0 e in
            absurd (none_there r hit.0 hit.1)
      ]

  -- Unmapping an address in an ordered tree within the address space. Either no region starts there,
  -- and the call fails with -EINVAL and changes nothing; or a region starts there. While that one is
  -- in use the call fails with -EBUSY and changes nothing; otherwise the region leaves the tree, its
  -- mapping is dropped and its pages are unpinned.
  pub afu_dma_unmap_region_lem :
      let (status, d') = afu_dma_unmap_region lib env d iova in
      (((r : DmaRegion) → In r (inorder d.regions) → r.iova ≢ iova)
        × (status ≡ err einval)
        × (d' ≡ d))
      ⊎ ((r : DmaRegion) × In r (inorder d.regions)
          × (r.iova ≡ iova)
          × (((r.in_use ≡ true) × (status ≡ err ebusy) × (d' ≡ d))
              ⊎ ((r.in_use ≡ false)
                  × (status ≡ ok)
                  × (inorder d'.regions ≡ without iova (inorder d.regions))
                  × (d'.world ≡ afu_dma_unpin_pages env r (dma_unmap_page iova r.length d.world)))))
  afu_dma_unmap_region_lem = elim (Option-cases (afu_dma_region_find_iova d.regions iova)) [
    | inl e ↦
        let none_there : (r : DmaRegion) → In r (inorder d.regions) → r.iova ≢ iova = λ r m at.
          absurd (
            cc (e, (afu_dma_region_find_iova_iff d.regions iova r ordered fits below).1 (m, at))) in
        let refused = afu_dma_unmap_region-absent none_there in
        inl (none_there, ap (λ x. x.0) refused, ap (λ x. x.1) refused)
    | inr (r, e) ↦
        let (m, at) = (afu_dma_region_find_iova_iff d.regions iova r ordered fits below).0 e in
        inr (r, m, at, afu_dma_unmap_region-present r m at)
  ]

module _ (lib : RbLib) (env : Env) (d : Dma) (user_addr len iova : ℕ)
    (small : env.kcalloc (len / page_size) ≡ true → len / page_size < 2 ^ 31)
    (ordered : Ascending (inorder d.regions)) (fits : InSpace (inorder d.regions)) where
  undo :
      (r : Mapped) (ps : List ℕ)
      → Maps env d user_addr len ps r
      → r.out_iova + len < 2 ^ 64
      → let (status, d') = afu_dma_unmap_region lib env r.state r.out_iova in
        (status ≡ ok) × (inorder d'.regions ≡ inorder d.regions) × (d'.world ≡ d.world)
  undo r ps (asked, all, short, fine, order, fresh, world) room =
      let region = mapped_region user_addr len r.out_iova ps in
      let xs = inorder d.regions in
      let ordered' : Ascending (inorder r.state.regions) =
        rw order (insert_by_iova-Ascending region xs ordered fresh) in
      let fits' : InSpace (inorder r.state.regions) =
        rw order (All-insert_by_iova Fits region xs room fits) in
      let member : In region (inorder r.state.regions) = rw order (In-insert_by_iova region xs) in
      elim (afu_dma_unmap_region-present lib env r.state r.out_iova ordered' fits' (omega arith)
        region member refl) [
          | inl (busy, e, same) ↦ cc
          | inr (free, e, left, w) ↦ (
            e,
            left ∙ ap (without r.out_iova) order ∙ without-insert_by_iova region xs fresh,
            w
                ∙ ap (λ v. afu_dma_unpin_pages env region (dma_unmap_page r.out_iova len v)) world
                ∙ ap (afu_dma_unpin_pages env region) (dma_unmap_page-add_mapping r.out_iova len _)
                ∙ afu_dma_unpin_pages_lem env region d.world ps refl all short,
          )
        ]

  pub afu_dma_unmap_region-afu_dma_map_region :
      Room d.world.locked_vm (len / page_size)
      → let r = afu_dma_map_region lib env d user_addr len iova in
        r.status ≡ ok
        → r.out_iova + len < 2 ^ 64
        → let (status, d') = afu_dma_unmap_region lib env r.state r.out_iova in
          (status ≡ ok) × (inorder d'.regions ≡ inorder d.regions) × (d'.world ≡ d.world)
  afu_dma_unmap_region-afu_dma_map_region room fine in_space =
      elim (afu_dma_map_region-MapEnds lib env d user_addr len iova small ordered room) [
        | inl (ps, m) ↦ undo _ ps m in_space
        | inr (inl (e, fails, same)) ↦ cc
        | inr (inr (ps, asked, short, fails, kept)) ↦ cc
      ]
