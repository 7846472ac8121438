-- ===== src/FmeMgmt/History.antt =====
-- Histories of stores to the threshold files.
use opae_intel_fpga_driver.Base.{ℕ, ◌≡◌, ◌≢◌, refl, ◌∙◌, arith, ◌⊎◌, inl, inr, Status}
use opae_intel_fpga_driver.Csr.{
  Field, lock_bit, tmp_thshold1, tmp_thshold1_enable, tmp_thshold2, tmp_thshold2_enable,
  thshold_policy, threshold1, threshold2,
}
use opae_intel_fpga_driver.Mmio.{Reg, Bus, fme_capability, thermal_threshold, power_threshold}
use opae_intel_fpga_driver.Mmio.Plain.{Plain, Fixed}
use opae_intel_fpga_driver.FmeMgmt.{
  Parsed, refused, number, thermal_threshold1_store, thermal_threshold2_store,
  thermal_threshold1_policy_store, pwr_threshold1_store, pwr_threshold2_store, power_store,
}
use opae_intel_fpga_driver.FmeMgmt.Stores.{
  Sane, StoreEnds, threshold_store-StoreEnds, threshold_store_keeps, policy_store_keeps,
  power_store_keeps, elsewhere, beside, beside_both,
}

-- The threshold registers hold what the driver writes, and the lock bit does not change.
pub record Thresholds {H : Type 0} (bus : Bus H) : Type 0 where
  pub value1 : Plain bus thermal_threshold tmp_thshold1
  pub enable1 : Plain bus thermal_threshold tmp_thshold1_enable
  pub value2 : Plain bus thermal_threshold tmp_thshold2
  pub enable2 : Plain bus thermal_threshold tmp_thshold2_enable
  pub policy : Plain bus thermal_threshold thshold_policy
  pub power1 : Plain bus power_threshold threshold1
  pub power2 : Plain bus power_threshold threshold2
  pub locked : ℕ
  pub lock : Fixed bus fme_capability lock_bit locked

module _ {H : Type 0} (bus : Bus H) (start : H) where
  -- `Reach h`: the device can be in the state `h` after stores and reads, from `start`.
  pub data Reach : H → Type 0 where
    begin : Reach start
    reads : (r : Reg) (h : H) → Reach h → Reach (bus.readq r h).1
    thermal1 : (p : Parsed) (h : H) → Reach h → Reach (thermal_threshold1_store bus p h).1
    thermal2 : (p : Parsed) (h : H) → Reach h → Reach (thermal_threshold2_store bus p h).1
    thermal_policy :
        (p : Parsed) (h : H) → Reach h → Reach (thermal_threshold1_policy_store bus p h).1
    pwr1 : (p : Parsed) (h : H) → Reach h → Reach (pwr_threshold1_store bus p h).1
    pwr2 : (p : Parsed) (h : H) → Reach h → Reach (pwr_threshold2_store bus p h).1

  module _ (bits : Thresholds bus) where
    -- A threshold as it was at the start, or set to a sane value while not locked.
    abbrev pub Traced : (H → ℕ) → (H → ℕ) → H → Type 0
    Traced value enable h =
        ((value h ≡ value start) × (enable h ≡ enable start))
        ⊎ ((bits.locked ≢ 1) × Sane (value h) (enable h))

    abbrev pub Both : H → Type 0
    Both h =
        Traced bits.value1.shows bits.enable1.shows h
        × Traced bits.value2.shows bits.enable2.shows h

    same-Traced :
        (value enable : H → ℕ) (g h : H)
        → value g ≡ value h
        → enable g ≡ enable h
        → Traced value enable h
        → Traced value enable g
    same-Traced value enable g h ev ee (inl (a, b)) = inl (ev ∙ a, ee ∙ b)
    same-Traced value enable g h ev ee (inr t) = inr (rw (ev, ee) t)

    ends-Traced :
        (t e : Field) (pt : Plain bus thermal_threshold t) (pe : Plain bus thermal_threshold e)
        (p : Parsed) (h : H) (r : Status × H)
        → StoreEnds bus t e pt pe bits.locked bits.lock p h r
        → Traced pt.shows pe.shows h
        → Traced pt.shows pe.shows r.1
    ends-Traced t e pt pe (refused _) h r (_, a, b) before =
        same-Traced pt.shows pe.shows r.1 h a b before
    ends-Traced t e pt pe (number v) h r (inl (_, a, b)) before =
        same-Traced pt.shows pe.shows r.1 h a b before
    ends-Traced t e pt pe (number v) h r (inr (_, free, _, sane)) before = inr (free, sane)

    -- When all four bit-fields stay, so do the traces.
    kept-Both :
        (g h : H)
        → bits.value1.shows g ≡ bits.value1.shows h
        → bits.enable1.shows g ≡ bits.enable1.shows h
        → bits.value2.shows g ≡ bits.value2.shows h
        → bits.enable2.shows g ≡ bits.enable2.shows h
        → Both h
        → Both g
    kept-Both g h a b c d (one, two) = (
      same-Traced bits.value1.shows bits.enable1.shows g h a b one,
      same-Traced bits.value2.shows bits.enable2.shows g h c d two,
    )

    thermal1-Both : (p : Parsed) (h : H) → Both h → Both (thermal_threshold1_store bus p h).1
    unfolding thermal_threshold1_store
    thermal1-Both p h (one, two) =
        let t = tmp_thshold1 in
        let e = tmp_thshold1_enable in
        (
          ends-Traced t e bits.value1 bits.enable1 p h (thermal_threshold1_store bus p h)
              (threshold_store-StoreEnds bus t e bits.value1 bits.enable1 bits.locked bits.lock
                (inr (omega arith)) (refl, refl) p h)
              one,
          same-Traced bits.value2.shows bits.enable2.shows (thermal_threshold1_store bus p h).1 h
              (threshold_store_keeps bus bits.value2 h t e p (λ v b.
                beside_both bus bits.value2 h t e v b (inr (omega arith)) (inr (omega arith))))
              (threshold_store_keeps bus bits.enable2 h t e p (λ v b.
                beside_both bus bits.enable2 h t e v b (inr (omega arith)) (inr (omega arith))))
              two,
        )

    thermal2-Both : (p : Parsed) (h : H) → Both h → Both (thermal_threshold2_store bus p h).1
    unfolding thermal_threshold2_store
    thermal2-Both p h (one, two) =
        let t = tmp_thshold2 in
        let e = tmp_thshold2_enable in
        (
          same-Traced bits.value1.shows bits.enable1.shows (thermal_threshold2_store bus p h).1 h
              (threshold_store_keeps bus bits.value1 h t e p (λ v b.
                beside_both bus bits.value1 h t e v b (inl (omega arith)) (inl (omega arith))))
              (threshold_store_keeps bus bits.enable1 h t e p (λ v b.
                beside_both bus bits.enable1 h t e v b (inl (omega arith)) (inl (omega arith))))
              one,
          ends-Traced t e bits.value2 bits.enable2 p h (thermal_threshold2_store bus p h)
              (threshold_store-StoreEnds bus t e bits.value2 bits.enable2 bits.locked bits.lock
                (inr (omega arith)) (refl, refl) p h)
              two,
        )

    policy-Both : (p : Parsed) (h : H) → Both h → Both (thermal_threshold1_policy_store bus p h).1
    policy-Both p h =
        kept-Both (thermal_threshold1_policy_store bus p h).1 h
          (policy_store_keeps bus bits.value1 h p
            (λ v. beside bus bits.value1 h thshold_policy v (inl (omega arith))))
          (policy_store_keeps bus bits.enable1 h p
            (λ v. beside bus bits.enable1 h thshold_policy v (inl (omega arith))))
          (policy_store_keeps bus bits.value2 h p
            (λ v. beside bus bits.value2 h thshold_policy v (inl (omega arith))))
          (policy_store_keeps bus bits.enable2 h p
            (λ v. beside bus bits.enable2 h thshold_policy v (inl (omega arith))))

    power-Both : (t : Field) (p : Parsed) (h : H) → Both h → Both (power_store bus t p h).1
    power-Both t p h =
        kept-Both (power_store bus t p h).1 h
          (power_store_keeps bus bits.value1 h t p
            (λ v. elsewhere bus bits.value1 h power_threshold _ (λ k. cc)))
          (power_store_keeps bus bits.enable1 h t p
            (λ v. elsewhere bus bits.enable1 h power_threshold _ (λ k. cc)))
          (power_store_keeps bus bits.value2 h t p
            (λ v. elsewhere bus bits.value2 h power_threshold _ (λ k. cc)))
          (power_store_keeps bus bits.enable2 h t p
            (λ v. elsewhere bus bits.enable2 h power_threshold _ (λ k. cc)))

    -- When the threshold registers hold what is written and the lock bit does not change: after any
    -- history of stores to the threshold, policy and power files and of reads, each of the two
    -- temperature thresholds is as it was at the start, or it was set while the lock bit was clear
    -- and is at most 100 degrees, and enabled exactly when it is not 0.
    pub Reach-Both : (h : H) → Reach h → Both h
    unfolding pwr_threshold1_store pwr_threshold2_store
    Reach-Both _ begin = (inl (refl, refl), inl (refl, refl))
    Reach-Both _ (reads r h more) =
        kept-Both (bus.readq r h).1 h (bits.value1.readq_keeps r h) (bits.enable1.readq_keeps r h)
          (bits.value2.readq_keeps r h) (bits.enable2.readq_keeps r h) (Reach-Both h more)
    Reach-Both _ (thermal1 p h more) = thermal1-Both p h (Reach-Both h more)
    Reach-Both _ (thermal2 p h more) = thermal2-Both p h (Reach-Both h more)
    Reach-Both _ (thermal_policy p h more) = policy-Both p h (Reach-Both h more)
    Reach-Both _ (pwr1 p h more) = power-Both threshold1 p h (Reach-Both h more)
    Reach-Both _ (pwr2 p h more) = power-Both threshold2 p h (Reach-Both h more)
