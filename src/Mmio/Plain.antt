-- ===== src/Mmio/Plain.antt =====
-- Bit-fields of registers that hold what the driver writes to them.
use opae_intel_fpga_driver.Base.{
  ℕ, zero, suc, ◌+◌, ◌≡◌, ◌≢◌, refl, ◌∙◌, ◌==◌, leb, Bool-cases, inl, inr,
}
use opae_intel_fpga_driver.Csr.{Field, get_field}
use opae_intel_fpga_driver.Mmio.{Reg, Bus, poll, fpga_wait_register_field}

-- In the device, the bit-field `f` of `reg` shows what was written to it last.
pub record Plain {H : Type 0} (bus : Bus H) (reg : Reg) (f : Field) : Type 0 where
  pub shows : H → ℕ
  pub read : (h : H) → get_field f (bus.readq reg h).0 ≡ shows h
  pub readq_keeps : (r : Reg) (h : H) → shows (bus.readq r h).1 ≡ shows h
  pub udelay_keeps : (t : ℕ) (h : H) → shows (bus.udelay t h) ≡ shows h
  pub writeq_self : (v : ℕ) (h : H) → shows (bus.writeq reg v h) ≡ get_field f v
  pub writeq_other : (r : Reg) (v : ℕ) (h : H) → r ≢ reg → shows (bus.writeq r v h) ≡ shows h

-- The bit-field `f` of `reg` shows the same at all times.
pub record Fixed {H : Type 0} (bus : Bus H) (reg : Reg) (f : Field) (value : ℕ) : Type 0 where
  pub read : (h : H) → get_field f (bus.readq reg h).0 ≡ value

-- A wait for a register shows the same bit-fields after it.
module _ {H : Type 0} (bus : Bus H) {q : Reg} {f : Field} (p : Plain bus q f) where
  module _ (field : Field) (reg : Reg) (expect timeout invl : ℕ) where
    poll_keeps :
        (fuel wait : ℕ) (h : H)
        → p.shows (poll bus field reg expect timeout invl fuel wait h).1 ≡ p.shows h
    unfolding poll
    poll_keeps zero wait h = refl
    poll_keeps (suc fuel) wait h = elim (Bool-cases (leb wait timeout)) [
      | inr late ↦ rw (late, poll) refl
      | inl in_time ↦
          let h' = (bus.readq reg h).1 in
          elim (Bool-cases (get_field field (bus.readq reg h).0 == expect)) [
            | inl hit ↦ rw (in_time, hit, poll) (p.readq_keeps reg h)
            | inr miss ↦
                rw (in_time, miss, poll)
                  (poll_keeps fuel (wait + invl) (bus.udelay invl h')
                    ∙ p.udelay_keeps invl h'
                    ∙ p.readq_keeps reg h)
          ]
    ]

    pub fpga_wait_register_field_keeps :
        (h : H)
        → p.shows (fpga_wait_register_field bus field reg expect timeout invl h).1 ≡ p.shows h
    unfolding fpga_wait_register_field
    fpga_wait_register_field_keeps h = poll_keeps (suc timeout) 0 h
