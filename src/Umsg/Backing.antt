-- ===== src/Umsg/Backing.antt =====
-- The operations of the DMA regions against what backs an address.
use mathlib.Core.Path.{subst}
use opae_intel_fpga_driver.Base.{
  ℕ, ◌^◌, ◌<◌, ◌≢◌, sym, arith, In, inl, inr, List, [], ◌∷◌, Bool-cases, Option-cases, ◌==◌, ==_iff,
}
use opae_intel_fpga_driver.AfuData.{DmaRegion, inorder}
use opae_intel_fpga_driver.Dma.Kernel.{World, Env, RbLib, without}
use opae_intel_fpga_driver.Dma.Map.{Dma, afu_dma_map_region, afu_dma_unmap_region}
use opae_intel_fpga_driver.Dma.Map.Outcome.{afu_dma_map_region-MapEnds}
use opae_intel_fpga_driver.Dma.Map.Unmap.{afu_dma_unmap_region-present}
use opae_intel_fpga_driver.Dma.Store.{afu_dma_region_find_iova}
use opae_intel_fpga_driver.Dma.Store.Order.{insert_by_iova}
use opae_intel_fpga_driver.Dma.Store.Find.{afu_dma_region_find_iova_iff}
use opae_intel_fpga_driver.Dma.Session.{IsServed}
use opae_intel_fpga_driver.Dma.Session.Invariant.{IsSound}
use opae_intel_fpga_driver.Umsg.Guard.{Backs}

In-insert : (s r : DmaRegion) (rs : List DmaRegion) → In s rs → In s (insert_by_iova r rs)
In-insert s r [] m = absurd m
In-insert s r (x ∷ rs) m = ground (arith, In-insert s r rs)

In-without :
    (s : DmaRegion) (k : ℕ) (rs : List DmaRegion) → In s rs → s.iova ≢ k → In s (without k rs)
In-without s k [] m n = absurd m
In-without s k (r ∷ rs) (inl e) n = ground (arith, e, n)
In-without s k (r ∷ rs) (inr m) n = ground (arith, In-without s k rs m n)

module _ (lib : RbLib) (env : Env) (v : World) (d : Dma) (sound : IsSound v d) (addr size : ℕ) where
  -- Mapping more memory keeps what backs an address.
  pub map-Backs :
      (user_addr len iova : ℕ)
      → IsServed lib env d user_addr len iova
      → Backs (inorder d.regions) addr size
      → Backs (inorder (afu_dma_map_region lib env d user_addr len iova).state.regions) addr size
  map-Backs user_addr len iova fine (s, m, used, lo, hi) =
      elim (afu_dma_map_region-MapEnds lib env d user_addr len iova fine.small sound.ordered
        fine.room) [
          | inl (ps, (_, _, _, _, order, _, _)) ↦ (s, rw order (In-insert s _ _ m), used, lo, hi)
          | inr (inl (e, fails, same)) ↦
              (s, subst (λ (x : Dma). In s (inorder x.regions)) (sym same) m, used, lo, hi)
          | inr (inr (ps, asked, short, fails, kept)) ↦ absurd (short (fine.pins_all ps asked))
        ]

  -- Unmapping keeps what backs an address: a region in use is not unmapped.
  pub unmap-Backs :
      (iova : ℕ)
      → iova < 2 ^ 64
      → Backs (inorder d.regions) addr size
      → Backs (inorder (afu_dma_unmap_region lib env d iova).1.regions) addr size
  unfolding afu_dma_unmap_region
  unmap-Backs iova below (s, m, used, lo, hi) =
      elim (Option-cases (afu_dma_region_find_iova d.regions iova)) [
        | inl e ↦ rw (e, afu_dma_unmap_region) (s, m, used, lo, hi)
        | inr (r, e) ↦
            let hit =
              (afu_dma_region_find_iova_iff d.regions iova r sound.ordered sound.fits below).0 e in
            let present =
              afu_dma_unmap_region-present lib env d iova sound.ordered sound.fits below in
            elim (present r hit.0 hit.1) [
              | inl (busy, fails, same) ↦
                  (s, subst (λ (x : Dma). In s (inorder x.regions)) (sym same) m, used, lo, hi)
              | inr (free, fine, left, world) ↦ elim (Bool-cases (s.iova == iova)) [
                | inl e ↦ elim (present s m ((==_iff _ _).0 e)) [
                  | inl (busy, fails, same) ↦ absurd (ground (arith, fine, fails))
                  | inr (unused, _, _, _) ↦ absurd (ground (arith, used, unused))
                ]
                | inr n ↦
                    (s, rw left (In-without s iova _ m (λ q. ground (arith, n, q))), used, lo, hi)
              ]
            ]
      ]
