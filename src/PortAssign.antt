-- ===== src/PortAssign.antt =====
-- The assignment of ports to virtual functions: releasing a port from the driver and taking it back
-- (the ioctls of fme-main.c, attach_port_dev and detach_port_dev of pcie.c), and
-- cci_pci_sriov_configure of pcie.c.
pub mod Loops
pub mod Entries
pub mod Enable
pub mod Consistent
pub mod History
mod Tests
use opae_intel_fpga_driver.Base.{
  ℕ, zero, suc, ◌+◌, ◌-◌, ◌^◌, Bool, true, false, not, ◌||◌, Option, none, some, List, [], ◌∷◌,
  if◌then◌else◌, ◌==◌, ltb, leb, u32, Status, ok, err, einval, ebusy, efault,
}
use opae_intel_fpga_driver.Csr.{
  get_field, set_field, num_ports, afu_access_control, port_implemented,
}
use opae_intel_fpga_driver.FeatureDev.OpenCount.{
  Opens, feature_dev_use_excl_begin, feature_dev_use_end,
}

-- An entry of `port_dev_list`: the number that the port reports, whether its platform device is
-- registered, and who has it open.
pub record PortNode : Type 0 where
  pub number : ℕ
  pub registered : Bool
  pub opens : Opens

-- The share of `struct cci_drvdata` that the assignment uses, and the device. `released_port_num` is
-- an int, as its bit pattern.
pub record DrvData (H : Type 0) : Type 0 where
  pub ports : List PortNode
  pub released_port_num : ℕ
  pub hw : H

-- The registers of the FME's header, `port[i]` by the index, and the answers of the kernel.
pub record FmeHdr (H : Type 0) : Type 0 where
  pub read_capability : H → ℕ × H
  pub read_port : ℕ → H → ℕ × H
  pub write_port : ℕ → ℕ → H → H
  pub platform_device_add : ℕ → Status
  pub pci_enable_sriov : ℕ → Status

-- FME_AFU_ACCESS_PF and FME_AFU_ACCESS_VF
abbrev pub access_pf : ℕ
access_pf = 0

abbrev pub access_vf : ℕ
access_vf = 1

-- `fpga_port_check_id` compares the number that the port reports.
abbrev pub cci_pci_lookup_port_by_id : ℕ → List PortNode → Option PortNode
cci_pci_lookup_port_by_id id [] = none
cci_pci_lookup_port_by_id id (p ∷ ps) =
    if p.number == id then some p else cci_pci_lookup_port_by_id id ps

-- The entry that the lookup finds is a pointer into the list; this is a write through it.
abbrev pub write_back : ℕ → PortNode → List PortNode → List PortNode
write_back id q [] = []
write_back id q (p ∷ ps) = if p.number == id then q ∷ ps else p ∷ write_back id q ps

module _ {H : Type 0} (fme : FmeHdr H) where
  -- From `platform_device_add` on.
  unfoldable pub after_add_dev : Status → PortNode → DrvData H → Status × DrvData H
  after_add_dev (err e) p d = (err e, d)
  after_add_dev ok p d =
      let q : PortNode = record {
        number = p.number;
        registered = true;
        opens = feature_dev_use_end p.opens;
      } in
      (
        ok,
        record d {
          ports = write_back p.number q d.ports;
          released_port_num = u32 (d.released_port_num + (2 ^ 32 - 1));
        },
      )

  unfoldable pub attach_found : Option PortNode → DrvData H → Status × DrvData H
  unfolding after_add_dev
  attach_found none d = (err einval, d)
  attach_found (some p) d =
      if p.registered then (err ebusy, d) else after_add_dev (fme.platform_device_add p.number) p d

  unfoldable pub attach_port_dev : ℕ → DrvData H → Status × DrvData H
  unfolding attach_found
  attach_port_dev id d =
      let (csr, h) = fme.read_port id d.hw in
      let d' : DrvData H = record d { hw = h } in
      let found = attach_found (cci_pci_lookup_port_by_id id d.ports) d' in
      if get_field afu_access_control csr == access_vf then (err ebusy, d') else found

  -- Given the result of `feature_dev_use_excl_begin`.
  unfoldable pub after_excl : Status × Opens → PortNode → DrvData H → Status × DrvData H
  after_excl (err e, opens) p d = (err e, d)
  after_excl (ok, opens) p d =
      let q : PortNode = record { number = p.number; registered = false; opens = opens } in
      (
        ok,
        record d {
          ports = write_back p.number q d.ports;
          released_port_num = u32 (d.released_port_num + 1);
        },
      )

  unfoldable pub detach_found : Option PortNode → DrvData H → Status × DrvData H
  unfolding after_excl
  detach_found none d = (err einval, d)
  detach_found (some p) d =
      if p.registered then after_excl (feature_dev_use_excl_begin p.opens) p d else (err ebusy, d)

  unfoldable pub detach_port_dev : ℕ → DrvData H → Status × DrvData H
  unfolding detach_found
  detach_port_dev id d = detach_found (cci_pci_lookup_port_by_id id d.ports) d

  unfoldable pub config_port : ℕ → Bool → DrvData H → Status × DrvData H
  config_port id release d = if release then detach_port_dev id d else attach_port_dev id d

  unfoldable pub fme_ioctl_config_port : ℕ → ℕ → Bool → DrvData H → Status × DrvData H
  fme_ioctl_config_port id flags is_release d =
      let (csr, h) = fme.read_capability d.hw in
      let d' : DrvData H = record d { hw = h } in
      if not (flags == 0)
      then (err einval, d)
      else if leb (get_field num_ports csr) id
      then (err einval, d')
      else config_port id is_release d'

  -- The argument is `none` when it cannot be copied from the user.
  unfoldable pub fme_ioctl_release_port : Option (ℕ × ℕ × ℕ) → DrvData H → Status × DrvData H
  fme_ioctl_release_port none d = (err efault, d)
  fme_ioctl_release_port (some (argsz, flags, id)) d =
      if ltb argsz 12 then (err einval, d) else fme_ioctl_config_port id flags true d

  unfoldable pub fme_ioctl_assign_port : Option (ℕ × ℕ × ℕ) → DrvData H → Status × DrvData H
  fme_ioctl_assign_port none d = (err efault, d)
  fme_ioctl_assign_port (some (argsz, flags, id)) d =
      if ltb argsz 12 then (err einval, d) else fme_ioctl_config_port id flags false d

  unfoldable pub port_config_vf : ℕ → ℕ → H → H
  port_config_vf id type h =
      let (csr, h') = fme.read_port id h in
      fme.write_port id (set_field afu_access_control type csr) h'

  -- The loops that turn every released port to the physical function.
  unfoldable pub all_to_pf : List PortNode → H → H
  all_to_pf [] h = h
  all_to_pf (p ∷ ps) h =
      if p.registered then all_to_pf ps h else all_to_pf ps (port_config_vf p.number access_pf h)

  -- The loop that turns released ports to virtual functions, with `n` to go, at least one.
  unfoldable pub some_to_vf : ℕ → List PortNode → H → H
  some_to_vf n [] h = h
  some_to_vf n (p ∷ ps) h =
      let turned = port_config_vf p.number access_vf h in
      if p.registered
      then some_to_vf n ps h
      else if n == 1
      then turned
      else some_to_vf (n - 1) ps turned

  -- From `pci_enable_sriov` on.
  unfoldable pub after_enable : Status → DrvData H → Status × DrvData H
  after_enable ok d = (ok, d)
  after_enable (err e) d = (err e, record d { hw = all_to_pf d.ports d.hw })

  -- `ok` stands for the result `num_vfs`; the driver's `fme_dev` is there.
  unfoldable pub cci_pci_sriov_configure : ℕ → DrvData H → Status × DrvData H
  unfolding after_enable
  cci_pci_sriov_configure num_vfs d =
      let to_pf : DrvData H = record d { hw = all_to_pf d.ports d.hw } in
      let to_vf : DrvData H = record d { hw = some_to_vf num_vfs d.ports d.hw } in
      if ltb d.released_port_num num_vfs
      then (err ebusy, d)
      else if num_vfs == 0
      then (ok, to_pf)
      else after_enable (fme.pci_enable_sriov num_vfs) to_vf
