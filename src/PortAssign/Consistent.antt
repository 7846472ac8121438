-- ===== src/PortAssign/Consistent.antt =====
-- What holds of the ports between the operations, and that releasing and taking back keep it.
use opae_intel_fpga_driver.Base.{
  ℕ, ◌+◌, ◌-◌, ◌^◌, ◌≤◌, ◌<◌, ◌≡◌, ◌≢◌, refl, sym, ◌∙◌, true, false, Option, none, some, List, [],
  ◌∷◌, arith, inl, inr, All, All-imp, ◌==◌, if◌then◌else◌, Bool-cases, length, u32, Status, ok, err,
  ebusy,
}
use mathlib.Core.Path.{subst}
use opae_intel_fpga_driver.FeatureDev.OpenCount.{
  Opens, feature_dev_use_excl_begin, feature_dev_use_end,
}
use opae_intel_fpga_driver.PortAssign.{
  PortNode, DrvData, FmeHdr, access_vf, cci_pci_lookup_port_by_id, write_back, after_add_dev,
  attach_found, after_excl, detach_found,
}
use opae_intel_fpga_driver.PortAssign.Loops.{Memory, access, released}
use opae_intel_fpga_driver.PortAssign.Entries.{
  Distinct, lookup-All, write_back-All, length-write_back, write_back-Distinct, released-write_back,
}

abbrev pub with_opens : PortNode → Opens → PortNode
with_opens p o = record { number = p.number; registered = p.registered; opens = o }

-- A released port counts as open by one exclusive user, so that nobody else opens it.
abbrev pub Held : PortNode → Type 0
Held p = (p.registered ≡ false) → (p.opens.excl_open ≡ 1) × (p.opens.open_count ≡ 1)

abbrev pub Calm : PortNode → Type 0
Calm p =
    (p.opens.excl_open ≤ 1)
    × (p.opens.excl_open ≡ 1 → p.opens.open_count ≡ 1)
    × (p.opens.open_count < 2 ^ 32)

abbrev pub Settled : PortNode → Type 0
Settled p = Held p × Calm p

module _ {H : Type 0} (fme : FmeHdr H) (memory : Memory fme) where
  -- A port that the driver has is not given to a virtual function.
  abbrev pub Own : H → PortNode → Type 0
  Own h p = (p.registered ≡ true) → access fme memory h p.number ≢ access_vf

  abbrev pub Consistent : DrvData H → Type 0
  Consistent d =
      (d.released_port_num ≡ length (released d.ports))
      × (length d.ports < 2 ^ 31)
      × Distinct d.ports
      × All Settled d.ports
      × All (Own d.hw) d.ports

  length-released : (ps : List PortNode) → length (released ps) ≤ length ps
  length-released [] = omega arith
  length-released (p ∷ ps) = elim (Bool-cases p.registered) [
    | inl e ↦ rw e (omega (arith, length-released ps))
    | inr e ↦ rw e (omega (arith, length-released ps))
  ]

  -- A port changes, and is as good as before.
  pub put-Consistent :
      (d : DrvData H) (id num : ℕ) (p q : PortNode)
      → Consistent d
      → cci_pci_lookup_port_by_id id d.ports ≡ some p
      → q.number ≡ p.number
      → Settled q
      → Own d.hw q
      → num + (if p.registered then 0 else 1)
        ≡ d.released_port_num + (if q.registered then 0 else 1)
      → Consistent (record d { ports = write_back p.number q d.ports; released_port_num = num })
  put-Consistent d id num p q (count, small, distinct, settled, own) e same s o step =
      let number = (lookup-All Settled id d.ports p e settled).1 in
      let there : cci_pci_lookup_port_by_id p.number d.ports ≡ some p =
        subst (λ i. cci_pci_lookup_port_by_id i d.ports ≡ some p) (sym number) e in
      (
        omega (arith, released-write_back p.number q d.ports p there, count, step),
        subst (λ n. n < 2 ^ 31) (sym (length-write_back p.number q d.ports)) small,
        write_back-Distinct p.number q d.ports same distinct,
        write_back-All Settled p.number q d.ports s settled,
        write_back-All (Own d.hw) p.number q d.ports o own,
      )

  -- The device changes, and all accesses are as before.
  pub hw-Consistent :
      (d : DrvData H) (h : H)
      → Consistent d
      → ((j : ℕ) → access fme memory h j ≡ access fme memory d.hw j)
      → Consistent (record d { hw = h })
  hw-Consistent d h (count, small, distinct, settled, own) same = (
    count,
    small,
    distinct,
    settled,
    All-imp (Own d.hw) (Own h) (λ p o r k. o r (sym (same p.number) ∙ k)) d.ports own,
  )

  pub detach_found-Consistent :
      (id : ℕ) (d : DrvData H) (o : Option PortNode)
      → Consistent d
      → cci_pci_lookup_port_by_id id d.ports ≡ o
      → Consistent (detach_found fme o d).1
  unfolding detach_found after_excl feature_dev_use_excl_begin
  detach_found-Consistent id d none c e = c
  detach_found-Consistent id d (some p) c e =
      let opens : Opens = record { excl_open = 1; open_count = u32 (p.opens.open_count + 1) } in
      let q : PortNode = record { number = p.number; registered = false; opens = opens } in
      let num = u32 (d.released_port_num + 1) in
      elim (Bool-cases p.registered) [
        | inr r ↦ rw r c
        | inl r ↦ elim (Bool-cases (p.opens.open_count == 0)) [
          | inr z ↦ rw (r, z) c
          | inl z ↦
              let one : u32 (p.opens.open_count + 1) ≡ 1 = ground (arith, z) in
              let few = length-released d.ports in
              let step : num + (if p.registered then 0 else 1) ≡ d.released_port_num + 1 =
                subst (λ x. num + (if x then 0 else 1) ≡ d.released_port_num + 1) (sym r)
                  (omega (arith, few, c.0, c.1)) in
              rw (r, z)
                (put-Consistent d id num p q c e refl
                  (λ _. (refl, one), (omega arith, λ _. one, omega (arith, one)))
                  (λ k. absurd (cc k)) step)
        ]
      ]

  pub attach_found-Consistent :
      (id : ℕ) (d : DrvData H) (o : Option PortNode)
      → Consistent d
      → access fme memory d.hw id ≢ access_vf
      → cci_pci_lookup_port_by_id id d.ports ≡ o
      → Consistent (attach_found fme o d).1
  unfolding attach_found after_add_dev feature_dev_use_end
  attach_found-Consistent id d none c ne e = c
  attach_found-Consistent id d (some p) c ne e = elim (Bool-cases p.registered) [
    | inl r ↦ rw r c
    | inr r ↦
        subst
          (λ x.
            Consistent
              (if x
                then (err ebusy, d)
                else after_add_dev fme (fme.platform_device_add p.number) p d).1)
          (sym r) (add (fme.platform_device_add p.number) r)
  ]
    where
      add : (s : Status) → p.registered ≡ false → Consistent (after_add_dev fme s p d).1
      add (err k) r = c
      add ok r =
          let q : PortNode = record {
            number = p.number;
            registered = true;
            opens = feature_dev_use_end p.opens;
          } in
          let num = u32 (d.released_port_num + (2 ^ 32 - 1)) in
          let found = lookup-All Settled id d.ports p e c.3 in
          let held = found.0.0 r in
          let none_open : (q.opens.excl_open ≡ 0) × (q.opens.open_count ≡ 0) =
            (refl, omega (arith, held.1)) in
          let some_released = released-write_back id q d.ports p e in
          let some_released' : length (released (write_back id q d.ports)) + 1
              ≡ length (released d.ports) + 0 =
            rw r at some_released in
          let step : num + (if p.registered then 0 else 1) ≡ d.released_port_num + 0 =
            subst (λ x. num + (if x then 0 else 1) ≡ d.released_port_num + 0) (sym r)
              (omega (arith, some_released', c.0, c.1, length-released d.ports)) in
          put-Consistent d id num p q c e refl
            (
              λ k. absurd (cc k),
              (
                omega (arith, none_open.0),
                λ k. absurd (omega (arith, k, none_open.0)),
                omega (arith, none_open.1),
              ),
            )
            (λ _ k. ne (subst (λ i. access fme memory d.hw i ≡ access_vf) found.1 k)) step
