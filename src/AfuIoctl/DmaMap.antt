-- ===== src/AfuIoctl/DmaMap.antt =====
-- How the ioctl that maps memory ends, error paths included.
use opae_intel_fpga_driver.Base.{
  ℕ, ◌≡◌, ◌≢◌, ap, refl, Bool, true, false, not, ◌||◌, some, ◌==◌, ltb, Status, ok, err, Bool-cases,
  inl, inr, ◌+◌, ◌/◌, ◌^◌, ◌<◌, page_size,
}
use opae_intel_fpga_driver.AfuData.{inorder}
use opae_intel_fpga_driver.Dma.Kernel.{RbLib, Env, World}
use opae_intel_fpga_driver.Dma.Map.{Dma, afu_dma_map_region, afu_dma_unmap_region}
use opae_intel_fpga_driver.Dma.Map.Outcome.{afu_dma_map_region-MapEnds}
use opae_intel_fpga_driver.Dma.Map.Unmap.{afu_dma_unmap_region-afu_dma_map_region}
use opae_intel_fpga_driver.Dma.Session.{PinsAll}
use opae_intel_fpga_driver.Dma.Pin.Account.{Room}
use opae_intel_fpga_driver.Dma.Session.Invariant.{IsSound}
use opae_intel_fpga_driver.AfuIoctl.{DmaMapArg, after_map, afu_ioctl_dma_map}

-- The regions in their order, and the accounts, are those of another state.
abbrev pub Restores : Dma → Dma → Type 0
Restores d d' = (inorder d'.regions ≡ inorder d.regions) × (d'.world ≡ d.world)

module _ (lib : RbLib) (env : Env) (v : World) (d : Dma) (sound : IsSound v d) where
  -- What the last steps of the ioctl make of the result of the mapping.
  after_map-Restores :
      (copied : Bool) (s : Status) (iova : ℕ) (d' : Dma)
      → (s ≢ ok → d' ≡ d)
      → (s ≡ ok → Restores d (afu_dma_unmap_region lib env d' iova).1)
      → let (ret, out, end) = after_map lib env copied s iova d' in (ret ≢ ok → Restores d end)
  unfolding after_map
  after_map-Restores copied (err e) iova d' failed undone n =
      let same = failed n in
      (ap (λ (x : Dma). inorder x.regions) same, ap (λ (x : Dma). x.world) same)
  after_map-Restores true ok iova d' failed undone n = absurd (n refl)
  after_map-Restores false ok iova d' failed undone n = undone refl

  -- From a sound state, when the account of locked memory has room for the pages without wrapping,
  -- `kcalloc` refuses arrays of 2 ^ 31 entries and more, no pin is short, and an address that the
  -- mapping succeeds with keeps its range below 2 ^ 64: when the ioctl that maps memory fails, be it
  -- for its arguments, in the mapping, or when the address cannot be written back to the user, the
  -- regions and the accounts are afterwards what they were.
  pub afu_ioctl_dma_map-Restores :
      (copied : Bool) (map : DmaMapArg)
      → Room d.world.locked_vm (map.length / page_size)
      → (env.kcalloc (map.length / page_size) ≡ true → map.length / page_size < 2 ^ 31)
      → PinsAll env map.user_addr map.length
      → (let r = afu_dma_map_region lib env d map.user_addr map.length map.iova in
          (r.status ≡ ok → r.out_iova + map.length < 2 ^ 64))
      → (afu_ioctl_dma_map lib env copied (some map) d).0 ≢ ok
      → Restores d (afu_ioctl_dma_map lib env copied (some map) d).2
  unfolding afu_ioctl_dma_map
  afu_ioctl_dma_map-Restores copied map room small pins_all in_space =
      let r = afu_dma_map_region lib env d map.user_addr map.length map.iova in
      let failed : r.status ≢ ok → r.state ≡ d = λ n.
        elim (afu_dma_map_region-MapEnds lib env d map.user_addr map.length map.iova small
          sound.ordered room) [
            | inl (ps, (_, _, _, well, _, _, _)) ↦ absurd (n well)
            | inr (inl (e, fails, same)) ↦ same
            | inr (inr (ps, asked, short, fails, kept)) ↦ absurd (short (pins_all ps asked))
          ] in
      let undone : r.status ≡ ok → Restores d (afu_dma_unmap_region lib env r.state r.out_iova).1 =
        λ well.
          let (_, same, world) =
            afu_dma_unmap_region-afu_dma_map_region lib env d map.user_addr map.length map.iova
              small sound.ordered sound.fits room well (in_space well) in
          (same, world) in
      elim (Bool-cases (ltb map.argsz 32 || not (map.flags == 0))) [
        | inl bad ↦ rw bad (λ n. (refl, refl))
        | inr good ↦ rw good (after_map-Restores copied r.status r.out_iova r.state failed undone)
      ]
