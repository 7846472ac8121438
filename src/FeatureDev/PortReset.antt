-- ===== src/FeatureDev/PortReset.antt =====
-- feature-dev.c, the soft reset of a port: it is held while `disable_count` is positive. The
-- functions without a leading underscore of feature-dev.h take the mutex and call these.
pub mod Outcome
pub mod Holds
use opae_intel_fpga_driver.Base.{ℕ, ◌+◌, ◌-◌, ◌^◌, if◌then◌else◌, ◌==◌, u32, Status, ok, err}
use opae_intel_fpga_driver.Csr.{get_field, set_field, port_number, port_sftrst, port_sftrst_ack}
use opae_intel_fpga_driver.Mmio.{Bus, port_capability, port_control, fpga_wait_register_field}

-- The port's share of `struct feature_platform_data`, and the device.
pub record PortDev (H : Type 0) : Type 0 where
  pub disable_count : ℕ
  pub hw : H

abbrev pub rst_poll_invl : ℕ
rst_poll_invl = 10

abbrev pub rst_poll_timeout : ℕ
rst_poll_timeout = 1000

module _ {H : Type 0} (bus : Bus H) where
  unfoldable pub fpga_port_id : H → ℕ × H
  fpga_port_id h = let (csr, h') = bus.readq port_capability h in (get_field port_number csr, h')

  -- Reads the control register, assigns `port_sftrst` and writes it back; gives the value written.
  unfoldable pub write_sftrst : ℕ → H → ℕ × H
  write_sftrst v h =
      let (csr, h') = bus.readq port_control h in
      (set_field port_sftrst v csr, bus.writeq port_control (set_field port_sftrst v csr) h')

  -- `--disable_count` is an unsigned decrement.
  unfoldable pub fpga_port_enable : PortDev H → PortDev H
  fpga_port_enable s =
      let count = u32 (s.disable_count + (2 ^ 32 - 1)) in
      let released = (write_sftrst 0 s.hw).1 in
      if count == 0
      then record { disable_count = count; hw = released }
      else record { disable_count = count; hw = s.hw }

  -- From `control.port_sftrst_ack = 1` on: `control` still holds the value written.
  unfoldable pub wait_sftrst_ack : ℕ × H → Status × H
  wait_sftrst_ack (csr, h) =
      fpga_wait_register_field bus port_sftrst_ack port_control
        (get_field port_sftrst_ack (set_field port_sftrst_ack 1 csr)) rst_poll_timeout rst_poll_invl
        h

  unfoldable pub fpga_port_disable : PortDev H → Status × PortDev H
  fpga_port_disable s =
      let count = u32 (s.disable_count + 1) in
      let (ret, h) = wait_sftrst_ack (write_sftrst 1 s.hw) in
      if s.disable_count == 0
      then (ret, record { disable_count = count; hw = h })
      else (ok, record { disable_count = count; hw = s.hw })

  -- The result of the disabling decides.
  unfoldable pub after_disable : Status × PortDev H → Status × PortDev H
  after_disable (ok, s) = (ok, fpga_port_enable s)
  after_disable (err e, s) = (err e, s)

  unfoldable pub fpga_port_reset : PortDev H → Status × PortDev H
  unfolding after_disable
  fpga_port_reset s = after_disable (fpga_port_disable s)
