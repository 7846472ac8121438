-- ===== src/Umsg/Device.antt =====
-- What the device makes of the operations of the UMsg engine.
use opae_intel_fpga_driver.Base.{
  ℕ, zero, suc, ◌+◌, ◌%◌, ◌^◌, ◌≡◌, ◌∙◌, ap, refl, arith, Bool, true, false, ◌==◌, leb, Status, ok,
  err, inl, inr, Bool-cases,
}
use opae_intel_fpga_driver.Csr.{Field, get_field, set_field, umsg_enable, base_addr}
use opae_intel_fpga_driver.Csr.Fields.{get_field-set_field}
use opae_intel_fpga_driver.Mmio.{
  Reg, Bus, port_umsg_capability, port_umsg_baseaddr, port_umsg_mode, poll,
  fpga_wait_register_field,
}
use opae_intel_fpga_driver.Umsg.{bit, waited, switch_engine, port_umsg_enable}

-- What the device does with the UMsg registers: `base` is the base address register and `on` the
-- enable bit. A register holds what was written to it, and neither reading nor waiting changes it.
pub record UmsgDevice {H : Type 0} (bus : Bus H) (base : H → ℕ) (on : H → Bool) : Type 0 where
  pub read_base : (h : H) → (bus.readq port_umsg_baseaddr h).0 ≡ base h
  pub read_on : (h : H) → (get_field umsg_enable (bus.readq port_umsg_capability h).0 == 1) ≡ on h
  pub base-readq : (r : Reg) (h : H) → base (bus.readq r h).1 ≡ base h
  pub on-readq : (r : Reg) (h : H) → on (bus.readq r h).1 ≡ on h
  pub base-udelay : (t : ℕ) (h : H) → base (bus.udelay t h) ≡ base h
  pub on-udelay : (t : ℕ) (h : H) → on (bus.udelay t h) ≡ on h
  pub base-write_base : (v : ℕ) (h : H) → base (bus.writeq port_umsg_baseaddr v h) ≡ v
  pub on-write_base : (v : ℕ) (h : H) → on (bus.writeq port_umsg_baseaddr v h) ≡ on h
  pub base-write_on : (v : ℕ) (h : H) → base (bus.writeq port_umsg_capability v h) ≡ base h
  pub on-write_on :
      (v : ℕ) (h : H) → on (bus.writeq port_umsg_capability v h) ≡ (get_field umsg_enable v == 1)
  pub base-write_mode : (v : ℕ) (h : H) → base (bus.writeq port_umsg_mode v h) ≡ base h
  pub on-write_mode : (v : ℕ) (h : H) → on (bus.writeq port_umsg_mode v h) ≡ on h

module _ {H : Type 0} (bus : Bus H) (base : H → ℕ) (on : H → Bool)
    (laws : UmsgDevice bus base on) where
  abbrev pub base_of : H → ℕ
  base_of h = get_field base_addr (base h)

  -- Two states with the same UMsg base address and enable bit.
  abbrev pub Same : H → H → Type 0
  Same h h' = (base h ≡ base h') × (on h ≡ on h')

  pub readq-Same : (r : Reg) (h : H) → Same (bus.readq r h).1 h
  readq-Same r h = (laws.base-readq r h, laws.on-readq r h)

  pub poll-Same :
      (field : Field) (expect timeout invl fuel wait : ℕ) (h : H)
      → Same (poll bus field port_umsg_capability expect timeout invl fuel wait h).1 h
  unfolding poll
  poll-Same field expect timeout invl zero wait h = (refl, refl)
  poll-Same field expect timeout invl (suc fuel) wait h =
      let (value, h') = bus.readq port_umsg_capability h in
      let read = readq-Same port_umsg_capability h in
      elim (Bool-cases (leb wait timeout)) [
        | inr late ↦ rw (late, poll) (refl, refl)
        | inl in_time ↦ elim (Bool-cases (get_field field value == expect)) [
          | inl hit ↦ rw (in_time, hit, poll) read
          | inr miss ↦
              let rest =
                poll-Same field expect timeout invl fuel (wait + invl) (bus.udelay invl h') in
              rw (in_time, miss, poll)
                (
                  rest.0 ∙ laws.base-udelay invl h' ∙ read.0,
                  rest.1 ∙ laws.on-udelay invl h' ∙ read.1,
                )
        ]
      ]

  waited-Same : (h : H) (r : Status × H) → Same r.1 h → Same (waited bus r).1 h
  unfolding waited
  waited-Same h (ok, h') s = s
  waited-Same h (err e, h') s = s

  bit_lem : (b : Bool) → (bit b % 2 ^ 1 == 1) ≡ b
  bit_lem true = refl
  bit_lem false = refl

  -- Switching sets the enable bit and keeps the base address, whether the wait ends well or not.
  switch_engine_lem :
      (enable : Bool) (csr : ℕ) (h : H)
      → let h' = (switch_engine bus enable csr h).1 in (base h' ≡ base h) × (on h' ≡ enable)
  unfolding switch_engine fpga_wait_register_field
  switch_engine_lem enable csr h =
      let csr' = set_field umsg_enable (bit enable) csr in
      let h' = bus.writeq port_umsg_capability csr' h in
      let s = waited-Same h' _ (poll-Same _ _ _ _ _ 0 h') in
      (
        s.0 ∙ laws.base-write_on csr' h,
        s.1
            ∙ laws.on-write_on csr' h
            ∙ ap (λ x. x == 1) (get_field-set_field umsg_enable (bit enable) csr)
            ∙ bit_lem enable,
      )

  pub port_umsg_enable_lem :
      (enable : Bool) (h : H)
      → let h' = (port_umsg_enable bus enable h).1 in (base h' ≡ base h) × (on h' ≡ enable)
  unfolding port_umsg_enable
  port_umsg_enable_lem true h =
      let (csr, h') = bus.readq port_umsg_capability h in
      let read = readq-Same port_umsg_capability h in
      let switched = switch_engine_lem true csr h' in
      elim (Bool-cases (get_field umsg_enable csr == 1)) [
        | inl e ↦ ground (arith, e, read.0, read.1, laws.read_on h)
        | inr e ↦ ground (arith, e, read.0, switched.0, switched.1)
      ]
  port_umsg_enable_lem false h =
      let (csr, h') = bus.readq port_umsg_capability h in
      let read = readq-Same port_umsg_capability h in
      let switched = switch_engine_lem false csr h' in
      elim (Bool-cases (get_field umsg_enable csr == 1)) [
        | inl e ↦ ground (arith, e, read.0, switched.0, switched.1)
        | inr e ↦ ground (arith, e, read.0, read.1, laws.read_on h)
      ]
