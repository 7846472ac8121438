-- ===== src/Umsg.antt =====
-- drivers/fpga/intel/afu.c, the user messages (UMsg) of a port: the engine, its hint mode and its
-- base address, which a DMA region of the port backs. Each ioctl takes the mutex around the
-- operation, so an operation is one step.
pub mod Device
pub mod Guard
pub mod Backing
pub mod Session
mod Tests
use opae_intel_fpga_driver.Base.{
  ℕ, ◌%◌, ◌+◌, ◌*◌, ◌/◌, ◌^◌, Bool, true, false, not, ◌||◌, ◌&&◌, Option, none, some, if◌then◌else◌,
  ◌==◌, ltb, u8, u32, u64, page_size, page_aligned, Status, ok, err, eio, einval, enodev, etimedout,
  efault,
}
use opae_intel_fpga_driver.AfuData.{DmaRegion}
use opae_intel_fpga_driver.Csr.{
  get_field, set_field, umsg_allocated, umsg_enable, umsg_init_complete, base_addr,
  umsg_hint_enable,
}
use opae_intel_fpga_driver.Mmio.{
  Bus, port_umsg_capability, port_umsg_baseaddr, port_umsg_mode, fpga_wait_register_field,
}
use opae_intel_fpga_driver.Dma.Store.{afu_dma_region_find, mark_in_use}
use opae_intel_fpga_driver.Dma.Map.{Dma}

-- What the operations touch of a port: the device, the DMA regions and `afu->num_umsgs`.
pub record Port (H : Type 0) : Type 0 where
  pub hw : H
  pub dma : Dma
  pub num_umsgs : ℕ

-- A `bool` assigned to a bit-field.
abbrev pub bit : Bool → ℕ
bit true = 1
bit false = 0

abbrev pub umsg_en_poll_invl : ℕ
umsg_en_poll_invl = 10

abbrev pub umsg_en_poll_timeout : ℕ
umsg_en_poll_timeout = 1000

abbrev pub umsg_size : {H : Type 0} → Port H → ℕ
umsg_size p = p.num_umsgs * page_size

-- The commands of `port_umsg_ioctl`, each with its argument; a structure that `copy_from_user`
-- cannot read is `none`.
pub data UmsgCmd : Type 0 where
  umsg_enable_cmd : ℕ → UmsgCmd
  umsg_disable_cmd : ℕ → UmsgCmd
  umsg_set_mode_cmd : Option (ℕ × ℕ × ℕ) → UmsgCmd
  umsg_set_base_addr_cmd : Option (ℕ × ℕ × ℕ) → UmsgCmd
  other_cmd : UmsgCmd

module _ {H : Type 0} (bus : Bus H) where
  unfoldable pub port_umsg_get_num : H → ℕ × H
  port_umsg_get_num h =
      let (csr, h') = bus.readq port_umsg_capability h in (get_field umsg_allocated csr, h')

  -- What `port_umsg_enable` makes of the result of the wait.
  unfoldable pub waited : Status × H → Status × H
  waited (ok, h) = (ok, h)
  waited (err e, h) = (err etimedout, h)

  -- `port_umsg_enable` from the assignment of `umsg_enable` on.
  unfoldable pub switch_engine : Bool → ℕ → H → Status × H
  switch_engine enable csr h =
      let csr' = set_field umsg_enable (bit enable) csr in
      let expect = get_field umsg_init_complete (set_field umsg_init_complete (bit enable) csr') in
      waited (
        fpga_wait_register_field bus umsg_init_complete port_umsg_capability expect
          umsg_en_poll_timeout umsg_en_poll_invl (bus.writeq port_umsg_capability csr' h))

  unfoldable pub port_umsg_enable : Bool → H → Status × H
  port_umsg_enable enable h =
      let (csr, h') = bus.readq port_umsg_capability h in
      let enabled = get_field umsg_enable csr == 1 in
      if (enable && enabled) || not (enable || enabled)
      then (ok, h')
      else switch_engine enable csr h'

  unfoldable pub port_umsg_is_enabled : H → Bool × H
  port_umsg_is_enabled h =
      let (csr, h') = bus.readq port_umsg_capability h in (get_field umsg_enable csr == 1, h')

  unfoldable pub port_umsg_set_mode : ℕ → H → H
  port_umsg_set_mode mode h =
      let (csr, h') = bus.readq port_umsg_mode h in
      bus.writeq port_umsg_mode (set_field umsg_hint_enable mode csr) h'

  unfoldable pub port_umsg_get_addr : H → ℕ × H
  port_umsg_get_addr h =
      let (csr, h') = bus.readq port_umsg_baseaddr h in (get_field base_addr csr, h')

  unfoldable pub port_umsg_set_addr : ℕ → H → H
  port_umsg_set_addr iova h =
      let (csr, h') = bus.readq port_umsg_baseaddr h in
      bus.writeq port_umsg_baseaddr (set_field base_addr iova csr) h'

  -- The base address is read only when `enable` is set.
  unfoldable pub afu_port_umsg_enable : Bool → Port H → Status × Port H
  afu_port_umsg_enable true p =
      let (addr, h) = port_umsg_get_addr p.hw in
      let (ret, h') = port_umsg_enable true h in
      if addr == 0 then (err eio, record p { hw = h }) else (ret, record p { hw = h' })
  afu_port_umsg_enable false p =
      let (ret, h) = port_umsg_enable false p.hw in (ret, record p { hw = h })

  -- `port_umsg_set_addr(dev, iova)`, and `in_use` of the region that was found; `missing` is the
  -- error when none was.
  unfoldable pub move_base : ℕ → Bool → ℕ → Option DmaRegion → Port H → Status × Port H
  move_base iova mark missing none p = (err missing, p)
  move_base iova mark missing (some region) p = (
    ok,
    record p {
      hw = port_umsg_set_addr iova p.hw;
      dma = record p.dma { regions = mark_in_use region.iova mark p.dma.regions };
    },
  )

  -- The branch of `afu_port_umsg_set_addr` for a nonzero address.
  unfoldable pub config_addr : ℕ → Port H → Status × Port H
  config_addr iova p =
      if not (page_aligned iova)
      then (err einval, p)
      else if ltb (u64 (iova + umsg_size p)) iova
      then (err einval, p)
      else move_base iova true einval (afu_dma_region_find p.dma.regions iova (umsg_size p)) p

  -- The branch for address 0, which gives the current region back; `iova` is the address read.
  unfoldable pub clear_addr : ℕ → Port H → Status × Port H
  clear_addr iova p =
      if iova == 0
      then (ok, p)
      else if ltb (u64 (iova + umsg_size p)) iova
      then (err einval, p)
      else move_base 0 false enodev (afu_dma_region_find p.dma.regions iova (umsg_size p)) p

  unfoldable pub afu_port_umsg_set_addr : ℕ → Port H → Status × Port H
  afu_port_umsg_set_addr iova p =
      let (enabled, h) = port_umsg_is_enabled p.hw in
      let (current, h') = port_umsg_get_addr h in
      let configured = config_addr iova (record p { hw = h }) in
      let cleared = clear_addr current (record p { hw = h' }) in
      if enabled then (err eio, record p { hw = h }) else if iova == 0 then cleared else configured

  -- `mode >> afu->num_umsgs`, as x86 shifts a u32: by the lowest five bits of the number. C defines it
  -- for fewer than 32 messages only.
  unfoldable pub afu_port_umsg_set_mode : ℕ → Port H → Status × Port H
  afu_port_umsg_set_mode mode p =
      if mode / 2 ^ (p.num_umsgs % 32) == 0
      then (ok, record p { hw = port_umsg_set_mode mode p.hw })
      else (err einval, p)

  -- `present` is `is_feature_present(dev, PORT_FEATURE_ID_UMSG)`.
  unfoldable pub afu_port_umsg_halt : Bool → Port H → Port H
  afu_port_umsg_halt true p =
      let p' = (afu_port_umsg_enable false p).1 in
      let p'' = (afu_port_umsg_set_addr 0 p').1 in (afu_port_umsg_set_mode 0 p'').1
  afu_port_umsg_halt false p = p

  -- `port_umsg_init`; the two `WARN_ON` do not stop it.
  unfoldable pub port_umsg_init : Port H → Port H
  port_umsg_init p =
      let (num, h) = port_umsg_get_num p.hw in record p { hw = h; num_umsgs = u8 num }

  unfoldable pub afu_umsg_ioctl_enable : Bool → ℕ → Port H → Status × Port H
  afu_umsg_ioctl_enable enable arg p =
      if arg == 0 then afu_port_umsg_enable enable p else (err einval, p)

  -- `struct fpga_port_umsg_cfg` and `struct fpga_port_umsg_base_addr`: two u32, then the value.
  unfoldable pub afu_umsg_ioctl_set_mode : Option (ℕ × ℕ × ℕ) → Port H → Status × Port H
  afu_umsg_ioctl_set_mode none p = (err efault, p)
  afu_umsg_ioctl_set_mode (some (argsz, flags, hint_bitmap)) p =
      if ltb argsz 12 || not (flags == 0)
      then (err einval, p)
      else afu_port_umsg_set_mode hint_bitmap p

  unfoldable pub afu_umsg_ioctl_set_base_addr : Option (ℕ × ℕ × ℕ) → Port H → Status × Port H
  afu_umsg_ioctl_set_base_addr none p = (err efault, p)
  afu_umsg_ioctl_set_base_addr (some (argsz, flags, iova)) p =
      if ltb argsz 16 || not (flags == 0) then (err einval, p) else afu_port_umsg_set_addr iova p

  unfoldable pub port_umsg_ioctl : UmsgCmd → Port H → Status × Port H
  port_umsg_ioctl (umsg_enable_cmd arg) p = afu_umsg_ioctl_enable true arg p
  port_umsg_ioctl (umsg_disable_cmd arg) p = afu_umsg_ioctl_enable false arg p
  port_umsg_ioctl (umsg_set_mode_cmd arg) p = afu_umsg_ioctl_set_mode arg p
  port_umsg_ioctl (umsg_set_base_addr_cmd arg) p = afu_umsg_ioctl_set_base_addr arg p
  port_umsg_ioctl other_cmd p = (err enodev, p)
