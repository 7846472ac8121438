-- ===== src/PortAssign/Enable.antt =====
-- How cci_pci_sriov_configure ends.
use opae_intel_fpga_driver.Base.{
  ℕ, ◌≤◌, ◌<◌, ◌≡◌, ◌≢◌, refl, ◌∙◌, arith, inl, inr, ltb, All, ◌==◌, Bool-cases, length, Status, ok,
  err, ebusy,
}
use opae_intel_fpga_driver.PortAssign.{
  DrvData, FmeHdr, access_pf, access_vf, all_to_pf, some_to_vf, after_enable,
  cci_pci_sriov_configure,
}
use opae_intel_fpga_driver.PortAssign.Loops.{
  Memory, access, released, first_released, length-first_released, Unreleased, all_to_pf-Unreleased,
  all_to_pf-released, some_to_vf-Unreleased, some_to_vf-released, some_to_vf-others,
}

module _ {H : Type 0} (fme : FmeHdr H) (memory : Memory fme) where
  -- The registers of the ports that are not released are as before.
  abbrev pub Spared : DrvData H → H → Type 0
  Spared d h =
      (j : ℕ) → Unreleased fme memory j d.ports → access fme memory h j ≡ access fme memory d.hw j

  -- The registers of all ports but the first `n` of the released ones are as before.
  abbrev pub Untouched : ℕ → DrvData H → H → Type 0
  Untouched n d h =
      (j : ℕ)
      → All (λ i. i ≢ j) (first_released n d.ports)
      → access fme memory h j ≡ access fme memory d.hw j

  -- The four ways to end, each with the state after it.
  pub data Configured (num_vfs : ℕ) (d : DrvData H) : Status × DrvData H → Type 0 where
    refused : d.released_port_num < num_vfs → Configured num_vfs d (err ebusy, d)
    disabled :
        (h : H)
        → num_vfs ≡ 0
        → Spared d h
        → All (λ j. access fme memory h j ≡ access_pf) (released d.ports)
        → Configured num_vfs d (ok, record d { hw = h })
    enabled :
        (h : H)
        → 1 ≤ num_vfs
        → fme.pci_enable_sriov num_vfs ≡ ok
        → Spared d h
        → length (first_released num_vfs d.ports) ≡ num_vfs
        → All (λ j. access fme memory h j ≡ access_vf) (first_released num_vfs d.ports)
        → Untouched num_vfs d h
        → Configured num_vfs d (ok, record d { hw = h })
    failed :
        (h : H) (e : ℕ)
        → fme.pci_enable_sriov num_vfs ≡ err e
        → Spared d h
        → All (λ j. access fme memory h j ≡ access_pf) (released d.ports)
        → Configured num_vfs d (err e, record d { hw = h })

  after_enable-Configured :
      (n : ℕ) (d : DrvData H) (s : Status)
      → fme.pci_enable_sriov n ≡ s
      → 1 ≤ n
      → n ≤ length (released d.ports)
      → Configured n d (after_enable fme s (record d { hw = some_to_vf fme n d.ports d.hw }))
  unfolding after_enable
  after_enable-Configured n d ok e low enough =
      enabled (some_to_vf fme n d.ports d.hw) low e
        (λ j u. some_to_vf-Unreleased fme memory n d.ports j d.hw u)
        (length-first_released n d.ports low enough) (some_to_vf-released fme memory n d.ports d.hw)
        (λ j u. some_to_vf-others fme memory n d.ports j d.hw u)
  after_enable-Configured n d (err k) e low enough =
      let h = some_to_vf fme n d.ports d.hw in
      failed (all_to_pf fme d.ports h) k e
        (λ j u.
          all_to_pf-Unreleased fme memory d.ports j h u
          ∙ some_to_vf-Unreleased fme memory n d.ports j d.hw u)
        (all_to_pf-released fme memory d.ports h)

  -- When the count of released ports is right: a request for more functions than there are released
  -- ports changes nothing and gives -EBUSY; a request for none gives all released ports to the
  -- physical function; another request gives as many released ports as are asked for, the first of
  -- the list, to virtual functions and leaves the access of every other port, released or not, as it
  -- was, or, if SR-IOV cannot be enabled, gives all released ports back to the physical function. In
  -- each case the access of every port that is not released stays as it
  -- was.
  pub cci_pci_sriov_configure-Configured :
      (num_vfs : ℕ) (d : DrvData H)
      → d.released_port_num ≡ length (released d.ports)
      → Configured num_vfs d (cci_pci_sriov_configure fme num_vfs d)
  unfolding cci_pci_sriov_configure
  cci_pci_sriov_configure-Configured n d count = elim (Bool-cases (ltb d.released_port_num n)) [
    | inl e ↦ rw e (refused (ground (arith, e)))
    | inr e ↦ elim (Bool-cases (n == 0)) [
      | inl f ↦
          rw (e, f)
            (disabled (all_to_pf fme d.ports d.hw) (ground (arith, f))
              (λ j u. all_to_pf-Unreleased fme memory d.ports j d.hw u)
              (all_to_pf-released fme memory d.ports d.hw))
      | inr f ↦
          rw (e, f)
            (after_enable-Configured n d (fme.pci_enable_sriov n) refl (ground (arith, f))
              (ground (arith, e, count)))
    ]
  ]
