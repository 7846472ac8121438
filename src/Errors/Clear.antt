-- ===== src/Errors/Clear.antt =====
-- What clearing errors clears, on registers whose bits are cleared by writing ones.
use opae_intel_fpga_driver.Base.{
  ℕ, ◌≡◌, ◌≢◌, ◌⊎◌, Bool, false, not, ◌&&◌, Option, none, some, ◌==◌, Status, ok, err, einval,
  ebusy,
}
use opae_intel_fpga_driver.Csr.{get_field, power_state}
use opae_intel_fpga_driver.Mmio.{Reg, Bus, port_error_mask, port_error, port_status}
use opae_intel_fpga_driver.FeatureDev.PortReset.{PortDev, fpga_port_disable, fpga_port_enable}
use opae_intel_fpga_driver.Errors.{port_err_mask_all, power_state_ap6}

-- Bit `i` of a register.
abbrev pub bit : ℕ → ℕ → Bool
bit i csr = get_field (record { low = i; width = 1 }) csr == 1

-- The error register `r` with the mask register `m`: a bit shows a pending error, and writing a one
-- clears it. While all of `full` is masked, no error comes to the pending ones.
pub record ErrorReg {H : Type 0} (bus : Bus H) (r m : Reg) (full : ℕ) : Type 0 where
  pub pending : ℕ → H → Bool
  pub mask : H → ℕ
  pub read : (i : ℕ) (h : H) → bit i (bus.readq r h).0 ≡ pending i h
  pub mask_self : (v : ℕ) (h : H) → mask (bus.writeq m v h) ≡ v
  pub mask_readq : (q : Reg) (h : H) → mask (bus.readq q h).1 ≡ mask h
  pub mask_writeq : (q : Reg) (v : ℕ) (h : H) → q ≢ m → mask (bus.writeq q v h) ≡ mask h
  pub quiet_readq :
      (q : Reg) (i : ℕ) (h : H) → mask h ≡ full → pending i (bus.readq q h).1 ≡ pending i h
  pub quiet_writeq :
      (q : Reg) (v i : ℕ) (h : H)
      → mask h ≡ full
      → q ≢ r
      → q ≢ m
      → pending i (bus.writeq q v h) ≡ pending i h
  pub clears :
      (v i : ℕ) (h : H)
      → mask h ≡ full
      → pending i (bus.writeq r v h) ≡ (pending i h && not (bit i v))

module _ {H : Type 0} (bus : Bus H) where
  module _ {r m : Reg} {full : ℕ} (reg : ErrorReg bus r m full) (i : ℕ) where
    -- All is masked, and bit `i` is pending or not as it says.
    abbrev Quiet : Bool → H → Type 0
    Quiet p h = (reg.mask h ≡ full) × (reg.pending i h ≡ p)

    -- A text that is no number changes nothing. Otherwise the errors are masked, and in the state
    -- `g` in which the mask is given its value `rest` again, either bit `i` is no longer pending,
    -- and it is in `val` exactly when it was pending; or the errors were not `val`, and bit `i` is
    -- pending as it was.
    abbrev pub ClearEnds : ℕ → Option ℕ → H → Status × H → Type 0
    ClearEnds rest none h out = out ≡ (err einval, h)
    ClearEnds rest (some val) h out =
        let masked = bus.writeq m full h in
        (g : H) × (reg.mask g ≡ full)
        × (out.1 ≡ bus.writeq m rest g)
        × (((out.0 ≡ ok) × (bit i val ≡ reg.pending i masked) × (reg.pending i g ≡ false))
            ⊎ ((out.0 ≡ err ebusy)
                × (val ≢ (bus.readq r masked).0)
                × (reg.pending i g ≡ reg.pending i masked)))

  -- A port that is in state AP6, or that cannot be disabled, keeps its errors; another one is
  -- disabled, its errors are cleared, and it is enabled again.
  abbrev pub PortEnds :
      ErrorReg bus port_error port_error_mask port_err_mask_all
      → ℕ
      → ℕ
      → PortDev H
      → Status × PortDev H
      → Type 0
  PortEnds reg i value s out =
      let (status, h) = bus.readq port_status s.hw in
      let s' : PortDev H = record { disable_count = s.disable_count; hw = h } in
      let (halt, d) = fpga_port_disable bus s' in
      ((get_field power_state status ≡ power_state_ap6) × (out ≡ (err ebusy, s')))
      ⊎ ((get_field power_state status ≢ power_state_ap6)
          × (((e : ℕ) × (halt ≡ err e) × (out ≡ (err e, d)))
              ⊎ ((halt ≡ ok)
                  × (ret : Status) × (hw : H) × ClearEnds reg i 0 (some value) d.hw (ret, hw)
                  × (out ≡ (
                    ret,
                    fpga_port_enable bus (record { disable_count = d.disable_count; hw = hw }),
                  )))))
