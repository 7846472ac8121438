-- ===== src/Mmio.antt =====
-- Registers reached through `readq` and `writeq`, and `fpga_wait_register_field` of
-- include/intel/feature-dev.h.
pub mod Poll
pub mod Plain
use opae_intel_fpga_driver.Base.{
  ℕ, zero, suc, ◌+◌, true, false, ◌==◌, leb, Status, ok, err, etimedout,
}
use opae_intel_fpga_driver.Csr.{Field, get_field}

-- The registers that the driver touches, by the structure and the member.
pub data Reg : Type 0 where
  port_capability port_control port_status : Reg
  port_user_clk_freq_cmd0 port_user_clk_freq_cmd1 : Reg
  port_user_clk_freq_sts0 port_user_clk_freq_sts1 : Reg
  port_error_mask port_error port_first_error port_malreq0 port_malreq1 : Reg
  port_umsg_capability port_umsg_baseaddr port_umsg_mode : Reg
  fme_capability fme_pr_header : Reg
  ccip_fme_pr_control ccip_fme_pr_status ccip_fme_pr_data fme_pr_data1 ccip_fme_pr_err : Reg
  fme_err_header fme_err_mask fme_err fme_first_err fme_next_err : Reg
  pcie0_err_mask pcie0_err pcie1_err_mask pcie1_err : Reg
  ras_nonfat_mask ras_nonfaterr ras_catfat_mask ras_catfaterr ras_error_inj : Reg
  port_err_header : Reg
  thermal_header thermal_threshold thermal_rdsensor_fm1 : Reg
  power_header power_status power_threshold power_xeon_limit : Reg
  iperf_header iperf_clk iperf_ch_ctl iperf_ch_ctr0 iperf_ch_ctr1 : Reg
  iperf_vtd_ctl iperf_vtd_ctr iperf_vtd_sip_ctl iperf_vtd_sip_ctr iperf_fab_ctl iperf_fab_ctr : Reg

-- The device, in a state `H`: reading a register may change it, and time passes in `udelay`.
pub record Bus (H : Type 0) : Type 0 where
  pub readq : Reg → H → ℕ × H
  pub writeq : Reg → ℕ → H → H
  pub udelay : ℕ → H → H

module _ {H : Type 0} (bus : Bus H) where
  module _ (field : Field) (reg : Reg) (expect timeout invl : ℕ) where
    -- The loop at `wait`, with `fuel` rounds at most.
    unfoldable pub poll : ℕ → ℕ → H → Status × H
    poll zero wait h = (err etimedout, h)
    poll (suc fuel) wait h = elim (leb wait timeout) [
      | false ↦ (err etimedout, h)
      | true ↦
          let (value, h') = bus.readq reg h in
          elim (get_field field value == expect) [
            | true ↦ (ok, h')
            | false ↦ poll fuel (wait + invl) (bus.udelay invl h')
          ]
    ]

    -- `fpga_wait_register_field`: every round adds at least 1 to `wait`, so `timeout + 1` rounds
    -- are enough.
    unfoldable pub fpga_wait_register_field : H → Status × H
    fpga_wait_register_field h = poll (suc timeout) 0 h
