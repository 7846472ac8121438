-- ===== src/PortAssign/Tests.antt =====
-- A device with two ports, one of which goes to a virtual function.
use opae_intel_fpga_driver.Base.{
  ℕ, ◌+◌, ◌*◌, ◌^◌, ◌≡◌, refl, true, some, [], ◌∷◌, arith, All, ◌==◌, if◌then◌else◌, ==_refl,
  ==_iff, length, inl, inr, Bool-cases, ok, err, ebusy,
}
use opae_intel_fpga_driver.Csr.{get_field, set_field}
use opae_intel_fpga_driver.FeatureDev.OpenCount.{feature_dev_use_excl_begin}
use opae_intel_fpga_driver.PortAssign.{
  PortNode, DrvData, FmeHdr, fme_ioctl_release_port, fme_ioctl_assign_port, cci_pci_sriov_configure,
  fme_ioctl_config_port, config_port, detach_port_dev, detach_found, after_excl, attach_port_dev,
  attach_found, after_add_dev, some_to_vf, port_config_vf, after_enable,
}
use opae_intel_fpga_driver.PortAssign.Loops.{Memory, released}
use opae_intel_fpga_driver.PortAssign.Enable.{Configured, cci_pci_sriov_configure-Configured}
use opae_intel_fpga_driver.PortAssign.Consistent.{Held, Own}
use opae_intel_fpga_driver.PortAssign.History.{Reach, start, release, sriov, Reach-Own}

-- The registers are a function, and the capability register says two ports.
abbrev header : FmeHdr (ℕ → ℕ)
header = record {
  read_capability = λ h. (2 * 2 ^ 17, h);
  read_port = λ i h. (h i, h);
  write_port = λ i v h j. if i == j then v else h j;
  platform_device_add = λ _. ok;
  pci_enable_sriov = λ _. ok;
}

memory : Memory header
memory = record {
  held = λ h. h;
  read_value = λ i h. refl;
  read_keeps = λ i j h. refl;
  capability_keeps = λ j h. refl;
  write_self = λ i v h. rw (==_refl i) refl;
  write_other = λ i j v h ne. elim (Bool-cases (i == j)) [
    | inl e ↦ absurd (ne ((==_iff i j).0 e))
    | inr e ↦ rw e refl
  ];
}

abbrev closed_port : ℕ → PortNode
closed_port i = record {
  number = i;
  registered = true;
  opens = record { excl_open = 0; open_count = 0 };
}

abbrev fresh : DrvData (ℕ → ℕ)
fresh = record {
  ports = closed_port 1 ∷ closed_port 0 ∷ [];
  released_port_num = 0;
  hw = λ _. 2 ^ 60;
}

abbrev one_released : DrvData (ℕ → ℕ)
one_released = (fme_ioctl_release_port header (some (12, 0, 1)) fresh).1

abbrev one_vf : DrvData (ℕ → ℕ)
one_vf = (cci_pci_sriov_configure header 1 one_released).1

released_run :
    (released one_vf.ports ≡ 1 ∷ []) × (one_vf.hw 1 ≡ 2 ^ 60 + 2 ^ 55) × (one_vf.hw 0 ≡ 2 ^ 60)
unfolding fme_ioctl_release_port fme_ioctl_config_port config_port detach_port_dev detach_found
    after_excl feature_dev_use_excl_begin cci_pci_sriov_configure some_to_vf port_config_vf
    after_enable get_field set_field
released_run = (refl, refl, refl)

-- The port cannot be taken back while the virtual function has it.
assign_refused : (fme_ioctl_assign_port header (some (12, 0, 1)) one_vf).0 ≡ err ebusy
unfolding fme_ioctl_release_port fme_ioctl_assign_port fme_ioctl_config_port config_port
    detach_port_dev detach_found after_excl attach_port_dev attach_found after_add_dev
    feature_dev_use_excl_begin cci_pci_sriov_configure some_to_vf port_config_vf after_enable
    get_field set_field
assign_refused = refl

reached : Reach header memory one_vf
unfolding memory get_field
reached = sriov one_released 1 (
    release fresh (some (12, 0, 1)) (
      start fresh refl (omega arith) ((λ e. absurd (omega (arith, e)), tt), (tt, tt))
        ((refl, refl, refl), ((refl, refl, refl), tt))
        (λ e. absurd (omega (arith, e)), (λ e. absurd (omega (arith, e)), tt))))

Reach-Own_example :
    (one_vf.released_port_num ≡ length (released one_vf.ports))
    × All Held one_vf.ports
    × All (Own header memory one_vf.hw) one_vf.ports
Reach-Own_example = Reach-Own header memory one_vf reached

-- The count is right after the release.
count_right : one_released.released_port_num ≡ length (released one_released.ports)
unfolding fme_ioctl_release_port fme_ioctl_config_port config_port detach_port_dev detach_found
    after_excl feature_dev_use_excl_begin get_field
count_right = refl

cci_pci_sriov_configure-Configured_example :
    Configured header memory 1 one_released (cci_pci_sriov_configure header 1 one_released)
cci_pci_sriov_configure-Configured_example =
    cci_pci_sriov_configure-Configured header memory 1 one_released count_right
