-- ===== src/Errors.antt =====
-- The error registers of the FME, drivers/fpga/intel/fme-error.c, and those of a port,
-- drivers/fpga/intel/afu-error.c.
pub mod Clear
mod Tests
use opae_intel_fpga_driver.Base.{
  ℕ, ◌%◌, ◌^◌, Bool, true, false, Option, none, some, if◌then◌else◌, ◌==◌, leb, Status, ok, err,
  einval, ebusy,
}
use opae_intel_fpga_driver.Csr.{get_field, err_reg_status, revision, power_state}
use opae_intel_fpga_driver.Mmio.{
  Bus, fme_err_mask, fme_err, fme_first_err, fme_next_err, pcie0_err_mask, pcie0_err,
  pcie1_err_mask, pcie1_err, ras_nonfat_mask, ras_nonfaterr, ras_catfat_mask, ras_catfaterr,
  ras_error_inj, port_error_mask, port_error, port_first_error, port_malreq0, port_malreq1,
  port_status,
}
use opae_intel_fpga_driver.FeatureDev.PortReset.{PortDev, fpga_port_disable, fpga_port_enable}

-- FME_ERROR0_MASK, FME_PCIE0_ERROR_MASK and FME_PCIE1_ERROR_MASK are 2^8 - 1, FME_FIRST_ERROR_MASK
-- and FME_NEXT_ERROR_MASK 2^60 - 1: `& MASK` is the remainder by the power.
abbrev pub fme_error0_mask : ℕ
fme_error0_mask = 0xFF

abbrev pub fme_error0_mask_default : ℕ
fme_error0_mask_default = 0x40

abbrev pub fme_pcie_error_mask : ℕ
fme_pcie_error_mask = 0xFF

abbrev pub fme_ras_error_inj_mask : ℕ
fme_ras_error_inj_mask = 7

abbrev pub port_err_mask_all : ℕ
port_err_mask_all = 0xfff0703ff001f

abbrev pub power_state_ap6 : ℕ
power_state_ap6 = 6

module _ {H : Type 0} (bus : Bus H) where
  unfoldable pub errors_show : H → ℕ × H
  errors_show h = bus.readq fme_err h

  unfoldable pub first_error_show : H → ℕ × H
  first_error_show h =
      let (csr, h') = bus.readq fme_first_err h in (get_field err_reg_status csr, h')

  unfoldable pub next_error_show : H → ℕ × H
  next_error_show h = let (csr, h') = bus.readq fme_next_err h in (get_field err_reg_status csr, h')

  unfoldable pub pcie0_errors_show : H → ℕ × H
  pcie0_errors_show h = bus.readq pcie0_err h

  unfoldable pub pcie1_errors_show : H → ℕ × H
  pcie1_errors_show h = bus.readq pcie1_err h

  unfoldable pub nonfatal_errors_show : H → ℕ × H
  nonfatal_errors_show h = bus.readq ras_nonfaterr h

  unfoldable pub catfatal_errors_show : H → ℕ × H
  catfatal_errors_show h = bus.readq ras_catfaterr h

  unfoldable pub inject_error_show : H → ℕ × H
  inject_error_show h = let (csr, h') = bus.readq ras_error_inj h in (csr % 2 ^ 3, h')

  -- The result of `kstrtou8` is an error or a number.
  unfoldable pub inject_error_store : Status × ℕ → H → Status × H
  inject_error_store (err e, number) h = (err e, (bus.readq ras_error_inj h).1)
  inject_error_store (ok, number) h =
      let h' = (bus.readq ras_error_inj h).1 in
      if leb number fme_ras_error_inj_mask
      then (ok, bus.writeq ras_error_inj number h')
      else (err einval, h')

  -- The registers after `val` was found to be the content of the error register.
  unfoldable pub clear_all_three : ℕ → H → H
  clear_all_three csr h =
      let (first, h1) = bus.readq fme_first_err h in
      let (next, h2) = bus.readq fme_next_err h1 in
      bus.writeq fme_next_err (next % 2 ^ 60)
        (bus.writeq fme_first_err (first % 2 ^ 60) (bus.writeq fme_err (csr % 2 ^ 8) h2))

  -- `none` is a text that is no number. `ok` stands for the result `count`.
  unfoldable pub clear_store : Option ℕ → H → Status × H
  unfolding clear_all_three
  clear_store none h = (err einval, h)
  clear_store (some val) h =
      let h1 = bus.writeq fme_err_mask fme_error0_mask h in
      let (csr, h2) = bus.readq fme_err h1 in
      if val == csr
      then (ok, bus.writeq fme_err_mask fme_error0_mask_default (clear_all_three csr h2))
      else (err ebusy, bus.writeq fme_err_mask fme_error0_mask_default h2)

  unfoldable pub pcie0_errors_store : Option ℕ → H → Status × H
  pcie0_errors_store none h = (err einval, h)
  pcie0_errors_store (some val) h =
      let h1 = bus.writeq pcie0_err_mask fme_pcie_error_mask h in
      let (csr, h2) = bus.readq pcie0_err h1 in
      if val == csr
      then (ok, bus.writeq pcie0_err_mask 0 (bus.writeq pcie0_err (csr % 2 ^ 8) h2))
      else (err ebusy, bus.writeq pcie0_err_mask 0 h2)

  unfoldable pub pcie1_errors_store : Option ℕ → H → Status × H
  pcie1_errors_store none h = (err einval, h)
  pcie1_errors_store (some val) h =
      let h1 = bus.writeq pcie1_err_mask fme_pcie_error_mask h in
      let (csr, h2) = bus.readq pcie1_err h1 in
      if val == csr
      then (ok, bus.writeq pcie1_err_mask 0 (bus.writeq pcie1_err (csr % 2 ^ 8) h2))
      else (err ebusy, bus.writeq pcie1_err_mask 0 h2)

  unfoldable pub fme_error_enable : H → H
  fme_error_enable h = bus.writeq ras_catfat_mask 0 (
      bus.writeq ras_nonfat_mask 0 (
        bus.writeq pcie1_err_mask 0
          (bus.writeq pcie0_err_mask 0 (bus.writeq fme_err_mask fme_error0_mask_default h))))

  unfoldable pub port_err_mask : Bool → H → H
  port_err_mask true h = bus.writeq port_error_mask port_err_mask_all h
  port_err_mask false h = bus.writeq port_error_mask 0 h

  -- The two registers after `err` was found to be the content of the error register.
  unfoldable pub clear_both : ℕ → H → H
  clear_both csr h =
      let (first, h1) = bus.readq port_first_error (bus.writeq port_error csr h) in
      bus.writeq port_first_error first h1

  -- From the masking of the errors to that of the unmasking.
  unfoldable pub clear_matching : ℕ → H → Status × H
  unfolding port_err_mask clear_both
  clear_matching value h =
      let (csr, h1) = bus.readq port_error (port_err_mask true h) in
      if csr == value
      then (ok, port_err_mask false (clear_both csr h1))
      else (err ebusy, port_err_mask false h1)

  -- Given the result of the disabling.
  unfoldable pub after_halt : ℕ → Status × PortDev H → Status × PortDev H
  unfolding clear_matching
  after_halt value (err e, s) = (err e, s)
  after_halt value (ok, s) =
      let (ret, h) = clear_matching value s.hw in
      (ret, fpga_port_enable bus (record { disable_count = s.disable_count; hw = h }))

  unfoldable pub port_err_clear : ℕ → PortDev H → Status × PortDev H
  unfolding after_halt
  port_err_clear value s =
      let (status, h) = bus.readq port_status s.hw in
      let s' : PortDev H = record { disable_count = s.disable_count; hw = h } in
      let halted = after_halt value (fpga_port_disable bus s') in
      if get_field power_state status == power_state_ap6 then (err ebusy, s') else halted

  -- The store function of a port's file `clear`.
  unfoldable pub port_clear_store : Option ℕ → PortDev H → Status × PortDev H
  port_clear_store none s = (err einval, s)
  port_clear_store (some value) s = port_err_clear value s
