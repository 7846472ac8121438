-- ===== src/FmeMgmt/Shown.antt =====
-- What a threshold file shows after a store.
use opae_intel_fpga_driver.Base.{
  ℕ, ◌^◌, ◌<◌, ◌≡◌, ◌≢◌, ◌⊎◌, refl, ◌∙◌, arith, inl, inr, Bool-cases, ◌==◌, leb, Status, ok, err,
  err-ne-ok, einval,
}
use mathlib.Core.Path.{subst}
use native.Mathlib.Nat.{mod-eq_of_lt}
use opae_intel_fpga_driver.Csr.{
  Field, set_field, tmp_thshold1, tmp_thshold1_enable, tmp_thshold2, tmp_thshold2_enable,
  thshold_policy, threshold1, threshold2,
}
use opae_intel_fpga_driver.Csr.Fields.{get_field-set_field}
use opae_intel_fpga_driver.Mmio.{Bus, thermal_threshold, power_threshold}
use opae_intel_fpga_driver.Mmio.Plain.{Plain}
use opae_intel_fpga_driver.FmeMgmt.{
  Parsed, refused, number, pwr_threshold_max, show_field, thermal_threshold1_store,
  thermal_threshold2_store, thermal_threshold1_policy_store, power_store, pwr_threshold1_store,
  pwr_threshold2_store, thermal_threshold1_show, thermal_threshold2_show,
  thermal_threshold1_policy_show, pwr_threshold1_show, pwr_threshold2_show,
}
use opae_intel_fpga_driver.FmeMgmt.Stores.{threshold_store-StoreEnds, StoreEnds}
use opae_intel_fpga_driver.FmeMgmt.History.{Thresholds}

module _ {H : Type 0} (bus : Bus H) where
  -- A store that is accepted was given a number, and the file shows it from then on.
  abbrev Echoes : (Parsed → H → Status × H) → (H → ℕ × H) → Type 0
  Echoes store show =
      (p : Parsed) (h : H)
      → (store p h).0 ≡ ok
      → (v : ℕ) × (p ≡ number v) × ((show (store p h).1).0 ≡ v)

  ends_shown :
      (t e : Field) (pt : Plain bus thermal_threshold t) (pe : Plain bus thermal_threshold e)
      (bits : Thresholds bus) (p : Parsed) (h : H) (r : Status × H)
      → StoreEnds bus t e pt pe bits.locked bits.lock p h r
      → r.0 ≡ ok
      → (v : ℕ) × (p ≡ number v) × ((show_field bus thermal_threshold t r.1).0 ≡ v)
  unfolding show_field
  ends_shown t e pt pe bits (refused c) h r (fails, _, _) accepted = absurd (fails accepted)
  ends_shown t e pt pe bits (number v) h r (inl (fails, _, _)) accepted = absurd (fails accepted)
  ends_shown t e pt pe bits (number v) h r (inr (_, _, set, _)) accepted =
      (v, refl, pt.read r.1 ∙ set)

  policy_shown :
      (policy : Plain bus thermal_threshold thshold_policy)
      → Echoes (thermal_threshold1_policy_store bus) (thermal_threshold1_policy_show bus)
  unfolding thermal_threshold1_policy_store thermal_threshold1_policy_show show_field
  policy_shown policy (refused c) h accepted = absurd (err-ne-ok c accepted)
  policy_shown policy (number v) h accepted =
      let (csr, h1) = bus.readq thermal_threshold h in
      let set : (x : ℕ)
          → x < 2
          → policy.shows (bus.writeq thermal_threshold (set_field thshold_policy x csr) h1) ≡ x =
        λ x small.
          policy.writeq_self (set_field thshold_policy x csr) h1
          ∙ get_field-set_field thshold_policy x csr
          ∙ omega (arith, small) in
      elim (Bool-cases (v == 0)) [
        | inl a ↦ rw a (v, refl, policy.read _ ∙ set 0 (omega arith) ∙ ground (arith, a))
        | inr a ↦ elim (Bool-cases (v == 1)) [
          | inl b ↦ rw (a, b) (v, refl, policy.read _ ∙ set 1 (omega arith) ∙ ground (arith, b))
          | inr b ↦ absurd (err-ne-ok einval (rw (a, b) at accepted))
        ]
      ]

  power_shown :
      (t : Field) (pt : Plain bus power_threshold t)
      → 7 ≡ t.width
      → Echoes (power_store bus t) (show_field bus power_threshold t)
  unfolding power_store show_field
  power_shown t pt width (refused c) h accepted = absurd (err-ne-ok c accepted)
  power_shown t pt width (number v) h accepted =
      let (csr, h1) = bus.readq power_threshold h in
      elim (Bool-cases (leb v pwr_threshold_max)) [
        | inl a ↦
            let small : v < 2 ^ 7 = ground (arith, a) in
            rw a (
              v,
              refl,
              pt.read _
                  ∙ pt.writeq_self (set_field t v csr) h1
                  ∙ get_field-set_field t v csr
                  ∙ mod-eq_of_lt (subst (λ w. v < 2 ^ w) width small),
            )
        | inr a ↦ absurd (err-ne-ok einval (rw a at accepted))
      ]

  -- The store is refused, or it was given a number and the file shows it from then on.
  abbrev pub Shows : (Parsed → H → Status × H) → (H → ℕ × H) → Parsed → H → Type 0
  Shows store show p h =
      ((store p h).0 ≢ ok) ⊎ ((v : ℕ) × (p ≡ number v) × ((show (store p h).1).0 ≡ v))

  ok_or_not : (s : Status) → (s ≡ ok) ⊎ (s ≢ ok)
  ok_or_not ok = inl refl
  ok_or_not (err e) = inr (err-ne-ok e)

  Echoes-Shows :
      (store : Parsed → H → Status × H) (show : H → ℕ × H) (p : Parsed) (h : H)
      → Echoes store show
      → Shows store show p h
  Echoes-Shows store show p h echoes = elim (ok_or_not (store p h).0) [
    | inl e ↦ inr (echoes p h e)
    | inr n ↦ inl n
  ]

  -- When the threshold registers hold what is written and the lock bit does not change: a store to
  -- the file of a temperature threshold, of the policy or of a power threshold is refused, or it was
  -- given a number and the file shows this number after it.
  pub store-Shows :
      (bits : Thresholds bus) (p : Parsed) (h : H)
      → Shows (thermal_threshold1_store bus) (thermal_threshold1_show bus) p h
        × Shows (thermal_threshold2_store bus) (thermal_threshold2_show bus) p h
        × Shows (thermal_threshold1_policy_store bus) (thermal_threshold1_policy_show bus) p h
        × Shows (pwr_threshold1_store bus) (pwr_threshold1_show bus) p h
        × Shows (pwr_threshold2_store bus) (pwr_threshold2_show bus) p h
  unfolding thermal_threshold1_store thermal_threshold2_store thermal_threshold1_show
      thermal_threshold2_show pwr_threshold1_store pwr_threshold2_store pwr_threshold1_show
      pwr_threshold2_show
  store-Shows bits p h = (
    Echoes-Shows (thermal_threshold1_store bus) (thermal_threshold1_show bus) p h (λ p h.
        ends_shown tmp_thshold1 tmp_thshold1_enable bits.value1 bits.enable1 bits p h
          (thermal_threshold1_store bus p h)
          (threshold_store-StoreEnds bus tmp_thshold1 tmp_thshold1_enable bits.value1 bits.enable1
            bits.locked bits.lock (inr (omega arith)) (refl, refl) p h)),
    Echoes-Shows (thermal_threshold2_store bus) (thermal_threshold2_show bus) p h (λ p h.
        ends_shown tmp_thshold2 tmp_thshold2_enable bits.value2 bits.enable2 bits p h
          (thermal_threshold2_store bus p h)
          (threshold_store-StoreEnds bus tmp_thshold2 tmp_thshold2_enable bits.value2 bits.enable2
            bits.locked bits.lock (inr (omega arith)) (refl, refl) p h)),
    Echoes-Shows (thermal_threshold1_policy_store bus) (thermal_threshold1_policy_show bus) p h
        (policy_shown bits.policy),
    Echoes-Shows (pwr_threshold1_store bus) (pwr_threshold1_show bus) p h
        (power_shown threshold1 bits.power1 refl),
    Echoes-Shows (pwr_threshold2_store bus) (pwr_threshold2_show bus) p h
        (power_shown threshold2 bits.power2 refl),
  )
