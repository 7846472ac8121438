-- ===== src/PortAssign/History.antt =====
-- Histories of releases, assignments, opens and closes of ports, and SR-IOV requests.
use opae_intel_fpga_driver.Base.{
  ℕ, ◌+◌, ◌^◌, ◌≤◌, ◌<◌, ◌≡◌, ◌≢◌, refl, sym, ap, ◌∙◌, Bool, true, false, Option, none, some, List,
  [], ◌∷◌, arith, inl, inr, All, All-imp, ltb, leb, ◌==◌, Bool-cases, length, Status,
}
use opae_intel_fpga_driver.Csr.{get_field, num_ports, afu_access_control}
use opae_intel_fpga_driver.FeatureDev.OpenCount.{
  Opens, feature_dev_use_excl_begin, feature_dev_use_begin, feature_dev_use_end,
}
use opae_intel_fpga_driver.PortAssign.{
  PortNode, DrvData, FmeHdr, access_vf, cci_pci_lookup_port_by_id, write_back, attach_port_dev,
  detach_port_dev, config_port, fme_ioctl_config_port, fme_ioctl_release_port,
  fme_ioctl_assign_port, cci_pci_sriov_configure,
}
use opae_intel_fpga_driver.PortAssign.Loops.{Memory, access, released, Unreleased}
use opae_intel_fpga_driver.PortAssign.Entries.{Distinct, lookup-All, All-zip, Distinct-Unreleased}
use opae_intel_fpga_driver.PortAssign.Enable.{
  Spared, Configured, refused, disabled, enabled, failed, cci_pci_sriov_configure-Configured,
}
use opae_intel_fpga_driver.PortAssign.Consistent.{
  with_opens, Held, Settled, Own, Consistent, put-Consistent, hw-Consistent,
  detach_found-Consistent, attach_found-Consistent,
}

module _ {H : Type 0} (fme : FmeHdr H) (memory : Memory fme) where
  -- `Reach d`: the driver and the device can be in the state `d`, from a start with all ports
  -- registered and closed.
  pub data Reach : DrvData H → Type 0 where
    start :
        (d : DrvData H)
        → d.released_port_num ≡ 0
        → length d.ports < 2 ^ 31
        → Distinct d.ports
        → All
            (λ p. (p.registered ≡ true) × (p.opens.excl_open ≡ 0) × (p.opens.open_count ≡ 0))
            d.ports
        → All (λ p. access fme memory d.hw p.number ≢ access_vf) d.ports
        → Reach d
    release :
        (d : DrvData H) (arg : Option (ℕ × ℕ × ℕ))
        → Reach d
        → Reach (fme_ioctl_release_port fme arg d).1
    assign :
        (d : DrvData H) (arg : Option (ℕ × ℕ × ℕ))
        → Reach d
        → Reach (fme_ioctl_assign_port fme arg d).1
    sriov :
        (d : DrvData H) (num_vfs : ℕ) → Reach d → Reach (cci_pci_sriov_configure fme num_vfs d).1
    open_port :
        (d : DrvData H) (id : ℕ) (p : PortNode)
        → Reach d
        → cci_pci_lookup_port_by_id id d.ports ≡ some p
        → p.opens.open_count + 1 < 2 ^ 32
        → Reach (record d {
          ports = write_back p.number (with_opens p (feature_dev_use_begin p.opens).1) d.ports;
        })
    open_excl :
        (d : DrvData H) (id : ℕ) (p : PortNode)
        → Reach d
        → cci_pci_lookup_port_by_id id d.ports ≡ some p
        → Reach (record d {
          ports = write_back p.number (with_opens p (feature_dev_use_excl_begin p.opens).1) d.ports;
        })
    close_port :
        (d : DrvData H) (id : ℕ) (p : PortNode)
        → Reach d
        → cci_pci_lookup_port_by_id id d.ports ≡ some p
        → p.registered ≡ true
        → 1 ≤ p.opens.open_count
        → Reach (record d {
          ports = write_back p.number (with_opens p (feature_dev_use_end p.opens)) d.ports;
        })

  attach_port_dev-Consistent :
      (id : ℕ) (d : DrvData H)
      → Consistent fme memory d
      → Consistent fme memory (attach_port_dev fme id d).1
  unfolding attach_port_dev
  attach_port_dev-Consistent id d c =
      let (csr, h) = fme.read_port id d.hw in
      let d' : DrvData H = record d { hw = h } in
      let kept : (j : ℕ) → access fme memory h j ≡ access fme memory d.hw j =
        λ j. ap (get_field afu_access_control) (memory.read_keeps id j d.hw) in
      let c' = hw-Consistent fme memory d h c kept in
      elim (Bool-cases (get_field afu_access_control csr == access_vf)) [
        | inl e ↦ rw e c'
        | inr e ↦
            let seen : access fme memory h id ≡ get_field afu_access_control csr =
              kept id ∙ ap (get_field afu_access_control) (sym (memory.read_value id d.hw)) in
            rw e (
              attach_found-Consistent fme memory id d' (cci_pci_lookup_port_by_id id d.ports) c'
                (λ k. ground (arith, e, k, seen)) refl)
      ]

  fme_ioctl_config_port-Consistent :
      (id flags : ℕ) (is_release : Bool) (d : DrvData H)
      → Consistent fme memory d
      → Consistent fme memory (fme_ioctl_config_port fme id flags is_release d).1
  unfolding fme_ioctl_config_port config_port detach_port_dev
  fme_ioctl_config_port-Consistent id flags is_release d c =
      let (csr, h) = fme.read_capability d.hw in
      let d' : DrvData H = record d { hw = h } in
      let c' : Consistent fme memory d' =
        hw-Consistent fme memory d h c
          (λ j. ap (get_field afu_access_control) (memory.capability_keeps j d.hw)) in
      elim (Bool-cases (flags == 0)) [
        | inr e ↦ rw e c
        | inl e ↦ elim (Bool-cases (leb (get_field num_ports csr) id)) [
          | inl f ↦ rw (e, f) c'
          | inr f ↦ rw (e, f) (configured is_release d' c')
        ]
      ]
    where
      configured :
          (r : Bool) (d : DrvData H)
          → Consistent fme memory d
          → Consistent fme memory (config_port fme id r d).1
      configured true d c =
          detach_found-Consistent fme memory id d (cci_pci_lookup_port_by_id id d.ports) c refl
      configured false d c = attach_port_dev-Consistent id d c

  release-Consistent :
      (arg : Option (ℕ × ℕ × ℕ)) (d : DrvData H)
      → Consistent fme memory d
      → Consistent fme memory (fme_ioctl_release_port fme arg d).1
  unfolding fme_ioctl_release_port
  release-Consistent none d c = c
  release-Consistent (some (argsz, flags, id)) d c = elim (Bool-cases (ltb argsz 12)) [
    | inl e ↦ rw e c
    | inr e ↦ rw e (fme_ioctl_config_port-Consistent id flags true d c)
  ]

  assign-Consistent :
      (arg : Option (ℕ × ℕ × ℕ)) (d : DrvData H)
      → Consistent fme memory d
      → Consistent fme memory (fme_ioctl_assign_port fme arg d).1
  unfolding fme_ioctl_assign_port
  assign-Consistent none d c = c
  assign-Consistent (some (argsz, flags, id)) d c = elim (Bool-cases (ltb argsz 12)) [
    | inl e ↦ rw e c
    | inr e ↦ rw e (fme_ioctl_config_port-Consistent id flags false d c)
  ]

  Spared-Consistent :
      (d : DrvData H) (h : H)
      → Consistent fme memory d
      → Spared fme memory d h
      → Consistent fme memory (record d { hw = h })
  Spared-Consistent d h (count, small, distinct, settled, own) spared = (
    count,
    small,
    distinct,
    settled,
    All-zip (Own fme memory d.hw)
        (λ p. p.registered ≡ true → Unreleased fme memory p.number d.ports) (Own fme memory h)
        (λ p own clear r k. own r (sym (spared p.number (clear r)) ∙ k)) d.ports own
        (Distinct-Unreleased d.ports distinct),
  )

  Configured-Consistent :
      (n : ℕ) (d : DrvData H) (r : Status × DrvData H)
      → Consistent fme memory d
      → Configured fme memory n d r
      → Consistent fme memory r.1
  Configured-Consistent n d _ c (refused _) = c
  Configured-Consistent n d _ c (disabled h _ spared _) = Spared-Consistent d h c spared
  Configured-Consistent n d _ c (enabled h _ _ spared _ _ _) = Spared-Consistent d h c spared
  Configured-Consistent n d _ c (failed h _ _ spared _) = Spared-Consistent d h c spared

  -- The counts of the opens of a port change, and nothing else.
  opens-Consistent :
      (d : DrvData H) (id : ℕ) (p : PortNode) (o : Opens)
      → Consistent fme memory d
      → cci_pci_lookup_port_by_id id d.ports ≡ some p
      → (Settled p → Settled (with_opens p o))
      → Consistent fme memory (record d { ports = write_back p.number (with_opens p o) d.ports })
  opens-Consistent d id p o c e s =
      let settled = lookup-All Settled id d.ports p e c.3 in
      let own = lookup-All (Own fme memory d.hw) id d.ports p e c.4 in
      put-Consistent fme memory d id d.released_port_num p (with_opens p o) c e refl (s settled.0)
        own.0 refl

  begin-Settled :
      (p : PortNode)
      → p.opens.open_count + 1 < 2 ^ 32
      → Settled p
      → Settled (with_opens p (feature_dev_use_begin p.opens).1)
  unfolding feature_dev_use_begin
  begin-Settled p small (held, (a, b, c)) = elim (Bool-cases (p.opens.excl_open == 0)) [
    | inr e ↦ rw e (held, (a, b, c))
    | inl e ↦
        rw e
          (λ r. absurd (ground (arith, e, (held r).0)), (a, λ k. ground (arith, e, k), omega arith))
  ]

  excl-Settled :
      (p : PortNode) → Settled p → Settled (with_opens p (feature_dev_use_excl_begin p.opens).1)
  unfolding feature_dev_use_excl_begin
  excl-Settled p (held, calm) = elim (Bool-cases (p.opens.open_count == 0)) [
    | inr e ↦ rw e (held, calm)
    | inl e ↦ rw e (
      λ r. absurd (ground (arith, e, (held r).1)),
      (omega arith, λ _. ground (arith, e), ground (arith, e)),
    )
  ]

  end-Settled :
      (p : PortNode)
      → p.registered ≡ true
      → 1 ≤ p.opens.open_count
      → Settled p
      → Settled (with_opens p (feature_dev_use_end p.opens))
  unfolding feature_dev_use_end
  end-Settled p r opened (held, (a, b, c)) = (
    λ k. absurd (cc (r, k)),
    (omega arith, λ k. absurd (omega (arith, k)), omega (arith, c, opened)),
  )

  Reach-Consistent : (d : DrvData H) → Reach d → Consistent fme memory d
  Reach-Consistent _ (start d none_released small distinct closed own) = (
    none_released ∙ sym (all_registered d.ports closed),
    small,
    distinct,
    All-imp (λ p. (p.registered ≡ true) × (p.opens.excl_open ≡ 0) × (p.opens.open_count ≡ 0))
        Settled
        (λ p (r, x, n). (
          λ k. absurd (cc (r, k)),
          (omega (arith, x), λ k. absurd (omega (arith, x, k)), omega (arith, n)),
        ))
        d.ports closed,
    All-imp (λ p. access fme memory d.hw p.number ≢ access_vf) (Own fme memory d.hw) (λ p ne _. ne)
        d.ports own,
  )
    where
      all_registered :
          (ps : List PortNode)
          → All (λ p. (p.registered ≡ true) × (p.opens.excl_open ≡ 0) × (p.opens.open_count ≡ 0)) ps
          → length (released ps) ≡ 0
      all_registered [] h = refl
      all_registered (p ∷ ps) h = rw h.0.0 (all_registered ps h.1)
  Reach-Consistent _ (release d arg r) = release-Consistent arg d (Reach-Consistent d r)
  Reach-Consistent _ (assign d arg r) = assign-Consistent arg d (Reach-Consistent d r)
  Reach-Consistent _ (sriov d n r) =
      let c = Reach-Consistent d r in
      Configured-Consistent n d (cci_pci_sriov_configure fme n d) c
        (cci_pci_sriov_configure-Configured fme memory n d c.0)
  Reach-Consistent _ (open_port d id p r e small) =
      opens-Consistent d id p (feature_dev_use_begin p.opens).1 (Reach-Consistent d r) e
        (begin-Settled p small)
  Reach-Consistent _ (open_excl d id p r e) =
      opens-Consistent d id p (feature_dev_use_excl_begin p.opens).1 (Reach-Consistent d r) e
        (excl-Settled p)
  Reach-Consistent _ (close_port d id p r e reg opened) =
      opens-Consistent d id p (feature_dev_use_end p.opens) (Reach-Consistent d r) e
        (end-Settled p reg opened)

  -- When the port registers hold what is written, and all ports start registered, closed, with
  -- numbers of their own and without access for virtual functions: after any history of port
  -- releases and assignments, SR-IOV requests, opens and closes, the count of released ports is
  -- right, a port that is released is open for one exclusive user only, so that it cannot be opened,
  -- and a port that is not released is not accessed by a virtual function.
  pub Reach-Own :
      (d : DrvData H)
      → Reach d
      → (d.released_port_num ≡ length (released d.ports))
        × All Held d.ports
        × All (Own fme memory d.hw) d.ports
  Reach-Own d r =
      let c = Reach-Consistent d r in (c.0, All-imp Settled Held (λ p s. s.0) d.ports c.3, c.4)
