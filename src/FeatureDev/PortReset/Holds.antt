-- ===== src/FeatureDev/PortReset/Holds.antt =====
-- When a port is held in reset.
use opae_intel_fpga_driver.Base.{
  ℕ, zero, suc, ◌+◌, ◌^◌, ◌<◌, ◌≡◌, ◌∙◌, refl, arith, ok, err, ◌==◌, Bool, false, ltb, Status, leb,
  ap, Bool-cases, inl, inr, ◌%◌,
}
use opae_intel_fpga_driver.Csr.{Field, get_field, set_field, port_sftrst, port_sftrst_ack}
use opae_intel_fpga_driver.Csr.Fields.{get_field-set_field}
use opae_intel_fpga_driver.Mmio.{Bus, port_control, poll, fpga_wait_register_field}
use opae_intel_fpga_driver.FeatureDev.PortReset.{
  PortDev, write_sftrst, wait_sftrst_ack, fpga_port_enable, fpga_port_disable, fpga_port_reset,
  after_disable,
}

-- What the device does with the reset bit: the last write to the control register decides, and
-- neither reading it nor waiting changes it.
pub record Latches {H : Type 0} (bus : Bus H) (in_reset : H → Bool) : Type 0 where
  pub latch_write :
      (v : ℕ) (h : H) → in_reset (bus.writeq port_control v h) ≡ (get_field port_sftrst v == 1)
  pub keep_read : (h : H) → in_reset (bus.readq port_control h).1 ≡ in_reset h
  pub keep_delay : (t : ℕ) (h : H) → in_reset (bus.udelay t h) ≡ in_reset h

module _ {H : Type 0} (bus : Bus H) (in_reset : H → Bool) (laws : Latches bus in_reset) where
  -- Polling the control register keeps the reset bit.
  poll-in_reset :
      (field : Field) (expect timeout invl fuel wait : ℕ) (h : H)
      → in_reset (poll bus field port_control expect timeout invl fuel wait h).1 ≡ in_reset h
  unfolding poll
  poll-in_reset field expect timeout invl zero wait h = refl
  poll-in_reset field expect timeout invl (suc fuel) wait h = elim (Bool-cases (leb wait timeout)) [
    | inr late ↦ rw (late, poll) refl
    | inl in_time ↦ elim (Bool-cases (get_field field (bus.readq port_control h).0 == expect)) [
      | inl hit ↦ rw (in_time, hit, poll) (laws.keep_read h)
      | inr miss ↦
          rw (in_time, miss, poll)
            (poll-in_reset field expect timeout invl fuel (wait + invl)
                (bus.udelay invl (bus.readq port_control h).1)
              ∙ laws.keep_delay invl (bus.readq port_control h).1
              ∙ laws.keep_read h)
    ]
  ]

  pub write_sftrst-in_reset : (v : ℕ) (h : H) → in_reset (write_sftrst bus v h).1 ≡ (v % 2 == 1)
  unfolding write_sftrst
  write_sftrst-in_reset v h =
      let (csr, h') = bus.readq port_control h in
      laws.latch_write (set_field port_sftrst v csr) h'
      ∙ ap (λ x. x == 1) (get_field-set_field port_sftrst v csr)

  pub wait-in_reset : (r : ℕ × H) → in_reset (wait_sftrst_ack bus r).1 ≡ in_reset r.1
  unfolding wait_sftrst_ack fpga_wait_register_field
  wait-in_reset (csr, h) = poll-in_reset port_sftrst_ack _ _ _ _ 0 h

  -- `Holders n s`: enables, disables and resets have led to `s`, where `n` disables have not been
  -- followed by their enable yet.
  pub data Holders : ℕ → PortDev H → Type 0 where
    running : (h : H) → in_reset h ≡ false → Holders 0 (record { disable_count = 0; hw = h })
    disabled :
        {n : ℕ} {s : PortDev H}
        → Holders n s
        → suc n < 2 ^ 32
        → Holders (suc n) (fpga_port_disable bus s).1
    enabled : {n : ℕ} {s : PortDev H} → Holders (suc n) s → Holders n (fpga_port_enable bus s)
    reset :
        {n : ℕ} {s : PortDev H}
        → Holders n s
        → suc n < 2 ^ 32
        → (fpga_port_reset bus s).0 ≡ ok
        → Holders n (fpga_port_reset bus s).1

  -- The count is the number of holders, and the device is in reset as long as there is one.
  abbrev pub Tracks : ℕ → PortDev H → Type 0
  Tracks n s = (s.disable_count ≡ n) × (n < 2 ^ 32) × (in_reset s.hw ≡ ltb 0 n)

  disable-Tracks :
      (n : ℕ) (s : PortDev H)
      → Tracks n s
      → suc n < 2 ^ 32
      → Tracks (suc n) (fpga_port_disable bus s).1
  unfolding fpga_port_disable
  disable-Tracks n s (a, b, c) small =
      let w = write_sftrst bus 1 s.hw in
      ground (arith, wait-in_reset w, write_sftrst-in_reset 1 s.hw)

  enable-Tracks : (n : ℕ) (s : PortDev H) → Tracks (suc n) s → Tracks n (fpga_port_enable bus s)
  unfolding fpga_port_enable
  enable-Tracks n s (a, b, c) = ground (arith, write_sftrst-in_reset 0 s.hw)

  after-Tracks :
      (n : ℕ) (r : Status × PortDev H)
      → Tracks (suc n) r.1
      → (after_disable bus r).0 ≡ ok
      → Tracks n (after_disable bus r).1
  unfolding after_disable
  after-Tracks n (ok, s) t e = enable-Tracks n s t
  after-Tracks n (err c, s) t e = absurd (ground (arith, e))

  reset-Tracks :
      (n : ℕ) (s : PortDev H)
      → Tracks n s
      → suc n < 2 ^ 32
      → (fpga_port_reset bus s).0 ≡ ok
      → Tracks n (fpga_port_reset bus s).1
  unfolding fpga_port_reset
  reset-Tracks n s t small e =
      after-Tracks n (fpga_port_disable bus s) (disable-Tracks n s t small) e

  -- On a device where the last write to the control register decides on the reset bit: after any
  -- history of disables, each followed at most once by its enable, and of successful resets, from a
  -- running port on and with fewer than 2^32 disables at a time, the count is the number of disables
  -- not yet followed by their enable, and the port is held in reset exactly while that number is
  -- positive.
  pub Holders-Tracks : {n : ℕ} {s : PortDev H} → Holders n s → Tracks n s
  Holders-Tracks (running h off) = (refl, omega arith, off ∙ ground arith)
  Holders-Tracks (disabled p small) = disable-Tracks _ _ (Holders-Tracks p) small
  Holders-Tracks (enabled p) = enable-Tracks _ _ (Holders-Tracks p)
  Holders-Tracks (reset p small e) = reset-Tracks _ _ (Holders-Tracks p) small e
