-- ===== src/AfuFile.antt =====
-- drivers/fpga/intel/afu.c, the device file of a port: open, release, ioctl and mmap, over the counts
-- of opens, the interrupts, the user messages, the reset, and the memory of the port; also the ioctls
-- of afu-error.c. The mutex is held where the state changes, so an operation is one step.
pub mod Mmap
pub mod Release
pub mod Life
mod Tests
use opae_intel_fpga_driver.Base.{
  ℕ, ◌+◌, ◌-◌, ◌*◌, ◌/◌, ◌%◌, ◌^◌, Bool, true, false, not, ◌||◌, ◌&&◌, Option, none, some, List, [],
  ◌∷◌, if◌then◌else◌, ◌==◌, ltb, u32, u64, length, page_size, Status, ok, err, einval, enodev,
  efault, eperm,
}
use opae_intel_fpga_driver.AfuData.{Afu, AfuRegion}
use opae_intel_fpga_driver.Mmio.{Bus}
use opae_intel_fpga_driver.Region.{afu_get_region_by_offset}
use opae_intel_fpga_driver.Dma.Kernel.{RbLib, Env}
use opae_intel_fpga_driver.Dma.Map.{Dma, afu_dma_region_destroy}
use opae_intel_fpga_driver.FeatureDev.OpenCount.{
  Opens, feature_dev_use_excl_begin, feature_dev_use_begin, feature_dev_use_end,
}
use opae_intel_fpga_driver.FeatureDev.Msix.{Feature, Kernel, fpga_msix_set_block}
use opae_intel_fpga_driver.FeatureDev.PortReset.{PortDev, fpga_port_reset}
use opae_intel_fpga_driver.Umsg.{Port, UmsgCmd, afu_port_umsg_halt, port_umsg_ioctl}
use opae_intel_fpga_driver.AfuIoctl.{DmaMapArg, DmaUnmapArg, afu_ioctl_dma_map, afu_ioctl_dma_unmap}
use opae_intel_fpga_driver.AfuIoctl.Info.{
  PortInfo, RegionInfo, afu_ioctl_get_info, afu_ioctl_get_region_info,
}

-- What a device file reaches: the counts of opens, the features for port errors, for user interrupts
-- and for user messages, the latter with the device, the DMA regions and whether the feature is
-- there, the disable count, and the regions and capabilities of the port.
pub record PortFile (H : Type 0) : Type 0 where
  pub opens : Opens
  pub err_irqs : Feature
  pub uint_irqs : Feature
  pub umsg_present : Bool
  pub port : Port H
  pub disable_count : ℕ
  pub afu : Afu

-- FPGA_PORT_CAP_ERR_IRQ and FPGA_PORT_CAP_UAFU_IRQ in `afu->capability`
abbrev pub has_err_irq : ℕ → Bool
has_err_irq capability = capability % 2 == 1

abbrev pub has_uafu_irq : ℕ → Bool
has_uafu_irq capability = capability / 2 % 2 == 1

-- FPGA_REGION_READ, FPGA_REGION_WRITE and FPGA_REGION_MMAP
abbrev pub can_read : AfuRegion → Bool
can_read region = region.flags % 2 == 1

abbrev pub can_write : AfuRegion → Bool
can_write region = region.flags / 2 % 2 == 1

abbrev pub can_mmap : AfuRegion → Bool
can_mmap region = region.flags / 4 % 2 == 1

-- `struct vm_area_struct`
pub record Vma : Type 0 where
  pub vm_start : ℕ
  pub vm_end : ℕ
  pub vm_pgoff : ℕ
  pub shared : Bool
  pub readable : Bool
  pub writable : Bool

-- What `remap_pfn_range` is asked for: the first page frame and the size.
abbrev pub Remap : Type 0
Remap = ℕ × ℕ

-- After the lookup of the region.
unfoldable pub map_region : Vma → ℕ → ℕ → Status × AfuRegion → Status × Option Remap
map_region vma offset size (err e, region) = (err e, none)
map_region vma offset size (ok, region) =
    if not (can_mmap region)
    then (err einval, none)
    else if vma.readable && not (can_read region)
    then (err eperm, none)
    else if vma.writable && not (can_write region)
    then (err eperm, none)
    else (ok, some (u64 (region.phys + (u64 (offset + 2 ^ 64 - region.offset))) / page_size, size))

-- The range that is remapped, if the request is accepted; the result of `remap_pfn_range` follows.
unfoldable pub afu_mmap : AfuRegion → Afu → Vma → Status × Option Remap
unfolding map_region
afu_mmap blank afu vma =
    let size = u64 (vma.vm_end + 2 ^ 64 - vma.vm_start) in
    let offset = u64 (vma.vm_pgoff * page_size) in
    if not vma.shared && vma.writable
    then (err einval, none)
    else map_region vma offset size (afu_get_region_by_offset afu offset size blank)

-- `struct fpga_port_err_irq_set` and `struct fpga_port_uafu_irq_set`; a negative descriptor is `none`.
pub record ErrIrqSet : Type 0 where
  pub argsz : ℕ
  pub flags : ℕ
  pub evtfd : Option ℕ

-- `evtfds` is what `memdup_user` gives: the descriptors or an error.
pub record UafuIrqSet : Type 0 where
  pub argsz : ℕ
  pub flags : ℕ
  pub start : ℕ
  pub count : ℕ
  pub memdup_user : Status
  pub evtfds : List (Option ℕ)

-- The commands of `afu_ioctl` with their arguments; a structure that `copy_from_user` cannot read is
-- `none`, and `copy_to_user` succeeds or not.
pub data Cmd : Type 0 where
  get_api_version check_extension : Cmd
  get_info : Bool → Option PortInfo → Cmd
  get_region_info : Bool → AfuRegion → Option RegionInfo → Cmd
  dma_map : Bool → Option DmaMapArg → Cmd
  dma_unmap : Option DmaUnmapArg → Cmd
  port_reset : ℕ → Cmd
  err_set_irq : Option ErrIrqSet → Cmd
  uafu_set_irq : Option UafuIrqSet → Cmd
  umsg : UmsgCmd → Cmd

-- The loop over the features: a command that no feature handles, or that its feature answers with
-- -ENODEV, ends with -EINVAL.
abbrev pub fall_through : Status → Status
fall_through ok = ok
fall_through (err e) = if e == enodev then err einval else err e

module _ (k : Kernel) {H : Type 0} where
  unfoldable pub port_err_set_irq : Option ErrIrqSet → PortFile H → Status × Feature
  port_err_set_irq none s = (err efault, s.err_irqs)
  port_err_set_irq (some hdr) s =
      if ltb hdr.argsz 12 || not (hdr.flags == 0)
      then (err einval, s.err_irqs)
      else if not (has_err_irq s.afu.capability)
      then (err enodev, s.err_irqs)
      else fpga_msix_set_block k 0 1 (some (hdr.evtfd ∷ [])) s.err_irqs

  -- What follows `memdup_user`.
  unfoldable pub set_uafu_irqs : Status → UafuIrqSet → PortFile H → Status × Feature
  set_uafu_irqs (err e) hdr s = (err e, s.uint_irqs)
  set_uafu_irqs ok hdr s =
      if not (has_uafu_irq s.afu.capability)
      then (err enodev, s.uint_irqs)
      else fpga_msix_set_block k hdr.start hdr.count (some hdr.evtfds) s.uint_irqs

  unfoldable pub port_afu_set_irq : Option UafuIrqSet → PortFile H → Status × Feature
  unfolding set_uafu_irqs
  port_afu_set_irq none s = (err efault, s.uint_irqs)
  port_afu_set_irq (some hdr) s =
      let last = u32 (hdr.start + hdr.count) in
      if ltb hdr.argsz 16 || not (hdr.flags == 0)
      then (err einval, s.uint_irqs)
      else if ltb (length s.uint_irqs.ctx) last || ltb last hdr.start || (hdr.count == 0)
      then (err einval, s.uint_irqs)
      else set_uafu_irqs hdr.memdup_user hdr s

module _ {H : Type 0} (bus : Bus H) (lib : RbLib) (env : Env) (k : Kernel) where
  -- `excl` is O_EXCL.
  unfoldable pub afu_open : Bool → PortFile H → Status × PortFile H
  afu_open true s =
      let (ret, o) = feature_dev_use_excl_begin s.opens in (ret, record s { opens = o })
  afu_open false s = let (ret, o) = feature_dev_use_begin s.opens in (ret, record s { opens = o })

  unfoldable pub reset_port : PortFile H → Status × PortFile H
  reset_port s =
      let (ret, d) =
        fpga_port_reset bus (record { disable_count = s.disable_count; hw = s.port.hw }) in
      (ret, record s { port = record s.port { hw = d.hw }; disable_count = d.disable_count })

  -- What `afu_release` does when no file is open any more.
  unfoldable pub release_last : PortFile H → PortFile H
  release_last s =
      let halted : PortFile H = record s {
        err_irqs = (fpga_msix_set_block k 0 (length s.err_irqs.ctx) none s.err_irqs).1;
        uint_irqs = (fpga_msix_set_block k 0 (length s.uint_irqs.ctx) none s.uint_irqs).1;
        port = afu_port_umsg_halt bus s.umsg_present s.port;
      } in
      let r = (reset_port halted).1 in
      record r { port = record r.port { dma = afu_dma_region_destroy lib env r.port.dma } }

  unfoldable pub afu_release : PortFile H → PortFile H
  afu_release s =
      let closed : PortFile H = record s { opens = feature_dev_use_end s.opens } in
      if closed.opens.open_count == 0 then release_last closed else closed

  -- `port_hdr_ioctl` with FPGA_PORT_RESET
  unfoldable pub port_hdr_ioctl : ℕ → PortFile H → Status × PortFile H
  port_hdr_ioctl arg s = if arg == 0 then reset_port s else (err einval, s)

  unfoldable pub afu_ioctl : Cmd → PortFile H → Status × PortFile H
  afu_ioctl get_api_version s = (ok, s)
  afu_ioctl check_extension s = (ok, s)
  afu_ioctl (get_info copied arg) s = ((afu_ioctl_get_info copied arg s.afu).0, s)
  afu_ioctl (get_region_info copied blank arg) s =
      ((afu_ioctl_get_region_info copied blank arg s.afu).0, s)
  afu_ioctl (dma_map copied arg) s =
      let r = afu_ioctl_dma_map lib env copied arg s.port.dma in
      (r.0, record s { port = record s.port { dma = r.2 } })
  afu_ioctl (dma_unmap arg) s =
      let r = afu_ioctl_dma_unmap lib env arg s.port.dma in
      (r.0, record s { port = record s.port { dma = r.1 } })
  afu_ioctl (port_reset arg) s = let r = port_hdr_ioctl arg s in (fall_through r.0, r.1)
  afu_ioctl (err_set_irq arg) s =
      let r = port_err_set_irq k arg s in (fall_through r.0, record s { err_irqs = r.1 })
  afu_ioctl (uafu_set_irq arg) s =
      let r = port_afu_set_irq k arg s in (fall_through r.0, record s { uint_irqs = r.1 })
  afu_ioctl (umsg cmd) s =
      let r = port_umsg_ioctl bus cmd s.port in
      if s.umsg_present then (fall_through r.0, record s { port = r.1 }) else (err einval, s)
