-- ===== src/FmeMgmt/Stores.antt =====
-- What a store does to each bit-field of the threshold registers.
use opae_intel_fpga_driver.Base.{
  ℕ, ◌^◌, ◌≤◌, ◌<◌, ◌≡◌, ◌≢◌, refl, ◌∙◌, arith, ◌⊎◌, inl, inr, Bool-cases, ◌==◌, ltb, leb, Status,
  ok, err-ne-ok, ebusy, einval,
}
use opae_intel_fpga_driver.Csr.{Field, get_field, set_field, lock_bit, thshold_policy}
use opae_intel_fpga_driver.Csr.Fields.{get_field-set_field, set_field_other, Disjoint}
use opae_intel_fpga_driver.Mmio.{Reg, Bus, fme_capability, thermal_threshold, power_threshold}
use opae_intel_fpga_driver.Mmio.Plain.{Plain, Fixed}
use mathlib.Core.Path.{subst}
use native.Mathlib.Nat.{mod-eq_of_lt}
use opae_intel_fpga_driver.FmeMgmt.{
  Parsed, refused, number, max_temperature, pwr_threshold_max, threshold_store,
  thermal_threshold1_policy_store, power_store,
}

-- A threshold that was set through its file: enabled exactly when it is not 0, and at most 100.
abbrev pub Sane : ℕ → ℕ → Type 0
Sane value enable =
    (value ≤ max_temperature) × (((value ≡ 0) × (enable ≡ 0)) ⊎ ((1 ≤ value) × (enable ≡ 1)))

module _ {H : Type 0} (bus : Bus H) where
  module _ (t e : Field) (pt : Plain bus thermal_threshold t) (pe : Plain bus thermal_threshold e)
      (locked : ℕ) (lock : Fixed bus fme_capability lock_bit locked) where
    -- Nothing was written.
    abbrev pub Kept : H → Status × H → Type 0
    Kept h r = (r.0 ≢ ok) × (pt.shows r.1 ≡ pt.shows h) × (pe.shows r.1 ≡ pe.shows h)

    -- The threshold was set to `v`.
    abbrev pub Set : ℕ → Status × H → Type 0
    Set v r = (r.0 ≡ ok) × (locked ≢ 1) × (pt.shows r.1 ≡ v) × Sane (pt.shows r.1) (pe.shows r.1)

    abbrev pub StoreEnds : Parsed → H → Status × H → Type 0
    StoreEnds (refused _) h r = Kept h r
    StoreEnds (number v) h r = Kept h r ⊎ Set v r

    pub threshold_store-StoreEnds :
        (d : Disjoint e t) (widths : (7 ≡ t.width) × (1 ≡ e.width)) (p : Parsed) (h : H)
        → StoreEnds p h (threshold_store bus t e p h)
    unfolding threshold_store
    threshold_store-StoreEnds d widths (refused c) h =
        (err-ne-ok c, pt.readq_keeps thermal_threshold h, pe.readq_keeps thermal_threshold h)
    threshold_store-StoreEnds d widths (number v) h =
        let (csr, h1) = bus.readq thermal_threshold h in
        let (capability, h2) = bus.readq fme_capability h1 in
        let kept_t : pt.shows h2 ≡ pt.shows h =
          pt.readq_keeps fme_capability h1 ∙ pt.readq_keeps thermal_threshold h in
        let kept_e : pe.shows h2 ≡ pe.shows h =
          pe.readq_keeps fme_capability h1 ∙ pe.readq_keeps thermal_threshold h in
        let set : (b : ℕ)
            → b < 2
            → v < 2 ^ 7
            → let new = bus.writeq thermal_threshold (set_field t v (set_field e b csr)) h2 in
              (pt.shows new ≡ v) × (pe.shows new ≡ b) =
          λ b b2 v7. (
            pt.writeq_self (set_field t v (set_field e b csr)) h2
                ∙ get_field-set_field t v (set_field e b csr)
                ∙ mod-eq_of_lt (subst (λ w. v < 2 ^ w) widths.0 v7),
            pe.writeq_self (set_field t v (set_field e b csr)) h2
                ∙ set_field_other e t v (set_field e b csr) d
                ∙ get_field-set_field e b csr
                ∙ mod-eq_of_lt (subst (λ w. b < 2 ^ w) widths.1 (omega (arith, b2))),
          ) in
        elim (Bool-cases (get_field lock_bit capability == 1)) [
          | inl a ↦ rw a (inl (err-ne-ok ebusy, kept_t, kept_e))
          | inr a ↦ elim (Bool-cases (ltb max_temperature v)) [
            | inl b ↦ rw (a, b) (inl (err-ne-ok einval, kept_t, kept_e))
            | inr b ↦
                let unlocked : locked ≢ 1 = λ k. ground (arith, a, k, lock.read h1) in
                elim (Bool-cases (v == 0)) [
                  | inl c ↦
                      let (st, se) = set 0 (omega arith) (ground (arith, b)) in
                      rw (a, b, c)
                        (inr (
                          refl,
                          unlocked,
                          st,
                          (ground (arith, b, st), inl (ground (arith, c, st), se)),
                        ))
                  | inr c ↦
                      let (st, se) = set 1 (omega arith) (ground (arith, b)) in
                      rw (a, b, c)
                        (inr (
                          refl,
                          unlocked,
                          st,
                          (ground (arith, b, st), inr (ground (arith, c, st), se)),
                        ))
                ]
          ]
        ]

  -- The other bit-fields: what shows the same after the write shows the same after the store.
  module _ {r : Reg} {f : Field} (p : Plain bus r f) (h : H) where
    -- Writing `x` to the register `q` in a state that shows what `h` shows.
    abbrev Rewrites : Reg → ℕ → Type 0
    Rewrites q x = (g : H) → p.shows g ≡ p.shows h → p.shows (bus.writeq q x g) ≡ p.shows h

    pub threshold_store_keeps :
        (t e : Field) (parsed : Parsed)
        → ((v b : ℕ)
            → Rewrites thermal_threshold
                (set_field t v (set_field e b (bus.readq thermal_threshold h).0)))
        → p.shows (threshold_store bus t e parsed h).1 ≡ p.shows h
    unfolding threshold_store
    threshold_store_keeps t e (refused c) w = p.readq_keeps thermal_threshold h
    threshold_store_keeps t e (number v) w =
        let (csr, h1) = bus.readq thermal_threshold h in
        let (capability, h2) = bus.readq fme_capability h1 in
        let kept = p.readq_keeps fme_capability h1 ∙ p.readq_keeps thermal_threshold h in
        elim (Bool-cases (get_field lock_bit capability == 1)) [
          | inl a ↦ rw a kept
          | inr a ↦ elim (Bool-cases (ltb max_temperature v)) [
            | inl b ↦ rw (a, b) kept
            | inr b ↦ elim (Bool-cases (v == 0)) [
              | inl c ↦ rw (a, b, c) (w v 0 h2 kept)
              | inr c ↦ rw (a, b, c) (w v 1 h2 kept)
            ]
          ]
        ]

    pub policy_store_keeps :
        (parsed : Parsed)
        → ((v : ℕ)
            → Rewrites thermal_threshold
                (set_field thshold_policy v (bus.readq thermal_threshold h).0))
        → p.shows (thermal_threshold1_policy_store bus parsed h).1 ≡ p.shows h
    unfolding thermal_threshold1_policy_store
    policy_store_keeps (refused c) w = p.readq_keeps thermal_threshold h
    policy_store_keeps (number v) w =
        let (csr, h1) = bus.readq thermal_threshold h in
        let kept = p.readq_keeps thermal_threshold h in
        elim (Bool-cases (v == 0)) [
          | inl a ↦ rw a (w 0 h1 kept)
          | inr a ↦ elim (Bool-cases (v == 1)) [
            | inl b ↦ rw (a, b) (w 1 h1 kept)
            | inr b ↦ rw (a, b) kept
          ]
        ]

    pub power_store_keeps :
        (t : Field) (parsed : Parsed)
        → ((v : ℕ) → Rewrites power_threshold (set_field t v (bus.readq power_threshold h).0))
        → p.shows (power_store bus t parsed h).1 ≡ p.shows h
    unfolding power_store
    power_store_keeps t (refused c) w = p.readq_keeps power_threshold h
    power_store_keeps t (number v) w =
        let (csr, h1) = bus.readq power_threshold h in
        let kept = p.readq_keeps power_threshold h in
        elim (Bool-cases (leb v pwr_threshold_max)) [
          | inl a ↦ rw a (w v h1 kept)
          | inr a ↦ rw a kept
        ]

    pub elsewhere : (q : Reg) (x : ℕ) → q ≢ r → Rewrites q x
    elsewhere q x ne g k = p.writeq_other q x g ne ∙ k

    -- Writing back the register with one other bit-field changed, or two.
    pub beside : (t : Field) (v : ℕ) → Disjoint f t → Rewrites r (set_field t v (bus.readq r h).0)
    beside t v d g k =
        p.writeq_self (set_field t v (bus.readq r h).0) g
        ∙ set_field_other f t v (bus.readq r h).0 d
        ∙ p.read h

    pub beside_both :
        (t e : Field) (v b : ℕ)
        → Disjoint f t
        → Disjoint f e
        → Rewrites r (set_field t v (set_field e b (bus.readq r h).0))
    beside_both t e v b dt de g k =
        let csr = (bus.readq r h).0 in
        p.writeq_self (set_field t v (set_field e b csr)) g
        ∙ set_field_other f t v (set_field e b csr) dt
        ∙ set_field_other f e b csr de
        ∙ p.read h
