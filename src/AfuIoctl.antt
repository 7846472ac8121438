-- ===== src/AfuIoctl.antt =====
-- drivers/fpga/intel/afu.c, the ioctls that map and unmap memory for the device. A structure that
-- `copy_from_user` cannot read is `none`.
pub mod DmaMap
pub mod Info
mod Tests
use opae_intel_fpga_driver.Base.{
  ℕ, Bool, true, false, not, ◌||◌, Option, none, some, if◌then◌else◌, ◌==◌, ltb, Status, ok, err,
  einval, efault,
}
use opae_intel_fpga_driver.Dma.Kernel.{RbLib, Env}
use opae_intel_fpga_driver.Dma.Map.{Dma, Mapped, afu_dma_map_region, afu_dma_unmap_region}

-- `struct fpga_port_dma_map`
pub record DmaMapArg : Type 0 where
  pub argsz : ℕ
  pub flags : ℕ
  pub user_addr : ℕ
  pub length : ℕ
  pub iova : ℕ

-- `struct fpga_port_dma_unmap`
pub record DmaUnmapArg : Type 0 where
  pub argsz : ℕ
  pub flags : ℕ
  pub iova : ℕ

module _ (lib : RbLib) (env : Env) where
  -- What follows `afu_dma_map_region`: the structure goes back to the user, and the mapping is
  -- undone if `copy_to_user` fails, which is `copied` false. Gives the address written back as well.
  unfoldable pub after_map : Bool → Status → ℕ → Dma → Status × ℕ × Dma
  after_map copied (err e) iova d = (err e, iova, d)
  after_map copied ok iova d =
      if copied then (ok, iova, d) else (err efault, iova, (afu_dma_unmap_region lib env d iova).1)

  unfoldable pub afu_ioctl_dma_map : Bool → Option DmaMapArg → Dma → Status × ℕ × Dma
  afu_ioctl_dma_map copied none d = (err efault, 0, d)
  afu_ioctl_dma_map copied (some map) d =
      let r = afu_dma_map_region lib env d map.user_addr map.length map.iova in
      let done = after_map copied r.status r.out_iova r.state in
      if ltb map.argsz 32 || not (map.flags == 0) then (err einval, map.iova, d) else done

  unfoldable pub afu_ioctl_dma_unmap : Option DmaUnmapArg → Dma → Status × Dma
  afu_ioctl_dma_unmap none d = (err efault, d)
  afu_ioctl_dma_unmap (some unmap) d =
      if ltb unmap.argsz 16 || not (unmap.flags == 0)
      then (err einval, d)
      else afu_dma_unmap_region lib env d unmap.iova
