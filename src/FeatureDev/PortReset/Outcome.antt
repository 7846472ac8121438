-- ===== src/FeatureDev/PortReset/Outcome.antt =====
-- How a reset of a port ends, and what a reset that timed out does to the later ones.
use opae_intel_fpga_driver.Base.{
  ℕ, ◌+◌, ◌^◌, ◌*◌, ◌≤◌, ◌<◌, ◌≡◌, ◌∙◌, sym, ap, refl, arith, ◌⊎◌, inl, inr, Status, ok, err,
  etimedout, Bool, true, false,
}
use opae_intel_fpga_driver.Csr.{get_field, set_field, port_sftrst_ack}
use opae_intel_fpga_driver.Csr.Fields.{get_field-set_field}
use opae_intel_fpga_driver.Mmio.{Bus, port_control}
use opae_intel_fpga_driver.Mmio.Poll.{seen, fpga_wait_register_field_lem}
use opae_intel_fpga_driver.FeatureDev.PortReset.{
  PortDev, write_sftrst, fpga_port_enable, wait_sftrst_ack, fpga_port_disable, after_disable,
  fpga_port_reset, rst_poll_timeout, rst_poll_invl,
}
use opae_intel_fpga_driver.FeatureDev.PortReset.Holds.{
  Latches, write_sftrst-in_reset, wait-in_reset,
}

module _ {H : Type 0} (bus : Bus H) where
  -- The acknowledge bit after `k` rounds of polling, once the reset bit was written.
  abbrev pub ack : ℕ → H → ℕ
  ack k h = seen bus port_sftrst_ack port_control rst_poll_invl k (write_sftrst bus 1 h).1

  -- While the port is disabled already, a reset returns 0 and touches nothing.
  fpga_port_reset_held :
      (s : PortDev H)
      → 0 < s.disable_count
      → s.disable_count + 1 < 2 ^ 32
      → fpga_port_reset bus s ≡ (ok, s)
  unfolding fpga_port_reset fpga_port_disable fpga_port_enable after_disable
  fpga_port_reset_held s pos small = ground arith

  -- What polling for the acknowledge bit amounts to.
  abbrev pub Acknowledged : ℕ → PortDev H → Type 0
  Acknowledged k s = (k * rst_poll_invl ≤ rst_poll_timeout) × (ack k s.hw ≡ 1)

  -- The wait of the reset ends well when the device acknowledged in some round, and only then.
  wait_sftrst_ack_lem :
      (s : PortDev H)
      → let r = wait_sftrst_ack bus (write_sftrst bus 1 s.hw) in
        ((k : ℕ) × Acknowledged k s × (r.0 ≡ ok))
        ⊎ (((k : ℕ) → ¬ Acknowledged k s) × (r.0 ≡ err etimedout))
  unfolding wait_sftrst_ack
  wait_sftrst_ack_lem s =
      let (csr, h) = write_sftrst bus 1 s.hw in
      let written = get_field-set_field port_sftrst_ack 1 csr in
      elim (fpga_wait_register_field_lem bus port_sftrst_ack port_control rst_poll_invl
        (get_field port_sftrst_ack (set_field port_sftrst_ack 1 csr)) rst_poll_timeout h
        (omega arith)) [
          | inl (k, in_time, before, hit, e) ↦
              inl (k, (omega (arith, in_time), hit ∙ written), ap (λ r. r.0) e)
          | inr (never, e) ↦
              inr
                ((λ k (in_time, acked). never k (omega (arith, in_time)) (acked ∙ sym written)), e)
        ]

  -- What a reset makes of the result of the wait.
  abbrev ends : Status × H → Status × PortDev H
  ends r = after_disable bus (r.0, record { disable_count = 1; hw = r.1 })

  enabled-ends :
      (s : PortDev H)
      → s.disable_count ≡ 0
      → fpga_port_reset bus s ≡ ends (wait_sftrst_ack bus (write_sftrst bus 1 s.hw))
  unfolding fpga_port_reset fpga_port_disable
  enabled-ends s off = rw off refl

  ends_ok :
      (r : Status × H)
      → r.0 ≡ ok
      → ((ends r).0 ≡ ok)
        × ((ends r).1.disable_count ≡ 0)
        × ((ends r).1.hw ≡ (write_sftrst bus 0 r.1).1)
  unfolding after_disable fpga_port_enable
  ends_ok (ok, h) e = (refl, refl, refl)
  ends_ok (err c, h) e = absurd (ground (arith, e))

  ends_err :
      (r : Status × H) (c : ℕ)
      → r.0 ≡ err c
      → ends r ≡ (err c, record { disable_count = 1; hw = r.1 })
  unfolding after_disable
  ends_err (ok, h) c e = absurd (ground (arith, e))
  ends_err (err d, h) c e = rw e refl

  -- Both ends of a reset of an enabled port: the status, the count and the device.
  fpga_port_reset_cases :
      (s : PortDev H)
      → s.disable_count ≡ 0
      → let r = fpga_port_reset bus s in
        let h = (wait_sftrst_ack bus (write_sftrst bus 1 s.hw)).1 in
        ((k : ℕ) × Acknowledged k s
          × (r.0 ≡ ok)
          × (r.1.disable_count ≡ 0)
          × (r.1.hw ≡ (write_sftrst bus 0 h).1))
        ⊎ (((k : ℕ) → ¬ Acknowledged k s)
            × (r.0 ≡ err etimedout)
            × (r.1.disable_count ≡ 1)
            × (r.1.hw ≡ h))
  fpga_port_reset_cases s off =
      let r = wait_sftrst_ack bus (write_sftrst bus 1 s.hw) in
      rw (enabled-ends s off) (elim (wait_sftrst_ack_lem s) [
        | inl (k, acked, e) ↦ let (a, b, c) = ends_ok r e in inl (k, acked, a, b, c)
        | inr (never, e) ↦
            let q = ends_err r etimedout e in
            inr (never, ap (λ z. z.0) q, ap (λ z. z.1.disable_count) q, ap (λ z. z.1.hw) q)
      ])

  -- On a device where the last write to the control register decides on the reset bit: a reset of
  -- an enabled port returns 0 exactly when the device acknowledges within the timeout, and then the
  -- count is 0 and the device is out of reset; otherwise it returns -ETIMEDOUT, the count is 1 and
  -- the device is held in reset.
  pub fpga_port_reset_lem :
      (in_reset : H → Bool) (laws : Latches bus in_reset) (s : PortDev H)
      → s.disable_count ≡ 0
      → let r = fpga_port_reset bus s in
        ((k : ℕ) × Acknowledged k s
          × (r.0 ≡ ok)
          × (r.1.disable_count ≡ 0)
          × (in_reset r.1.hw ≡ false))
        ⊎ (((k : ℕ) → ¬ Acknowledged k s)
            × (r.0 ≡ err etimedout)
            × (r.1.disable_count ≡ 1)
            × (in_reset r.1.hw ≡ true))
  fpga_port_reset_lem in_reset laws s off =
      let w = write_sftrst bus 1 s.hw in
      let h = (wait_sftrst_ack bus w).1 in
      elim (fpga_port_reset_cases s off) [
        | inl (k, acked, e, n, hw) ↦ inl (
          k,
          acked,
          e,
          n,
          ap in_reset hw ∙ write_sftrst-in_reset bus in_reset laws 0 h ∙ ground arith,
        )
        | inr (never, e, n, hw) ↦ inr (
          never,
          e,
          n,
          ap in_reset hw
              ∙ wait-in_reset bus in_reset laws w
              ∙ write_sftrst-in_reset bus in_reset laws 1 s.hw
              ∙ ground arith,
        )
      ]

  -- After a reset of an enabled port that the device did not acknowledge in time, a further reset
  -- returns 0 and leaves the device and the count as they are.
  pub fpga_port_reset-timed_out :
      (s : PortDev H)
      → s.disable_count ≡ 0
      → ((k : ℕ) → ¬ Acknowledged k s)
      → let s' = (fpga_port_reset bus s).1 in fpga_port_reset bus s' ≡ (ok, s')
  fpga_port_reset-timed_out s off never = elim (fpga_port_reset_cases s off) [
    | inl (k, acked, _, _, _) ↦ absurd (never k acked)
    | inr (_, _, one, _) ↦
        fpga_port_reset_held (fpga_port_reset bus s).1 (rw one (omega arith)) (rw one (omega arith))
  ]
