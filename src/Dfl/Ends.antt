-- ===== src/Dfl/Ends.antt =====
-- pcie.c: how each step in the construction of a feature device may end, as rules for properties.
use opae_intel_fpga_driver.Base.{
  ℕ, ◌+◌, ◌-◌, ◌≤◌, ◌≡◌, refl, true, ◌&&◌, Option, none, some, List, ◌∷◌, arith, inl, inr, ◌⊎◌,
  length, ltb, u32, u64, ◌==◌, ◌^◌, Status, ok, err, einval, enomem, Ensures, err-ne-ok, Bool-cases,
}
use opae_intel_fpga_driver.Dfl.{IdType, FeatureDev, FeatureInfo, Slot, BuildInfo, Platform}
use opae_intel_fpga_driver.Dfl.Build.{
  find_region, map_new, known_or_new, cci_pci_ioremap_bar, start_at, parse_start_from,
  commit_result, commit_some, build_info_commit_dev, fill_dev, create_next, put_slot, committed,
  bare, full, add_in, add_to, build_info_add_sub_feature, create_feature_instance,
}

module _ (pf : Platform) (P Q : BuildInfo → Type 0) where
  failed : (e : ℕ) (b : BuildInfo) → P b → Ensures P Q (err e, b)
  failed e b p = (p, λ h. absurd (err-ne-ok e h))

  done : (b : BuildInfo) → P b → Q b → Ensures P Q (ok, b)
  done b p q = (p, λ _. q)

  add_in-Ensures :
      (index : ℕ) (slot : Slot) (dev : FeatureDev) (o : Option (List (Option Slot))) (b : BuildInfo)
      → P b
      → P (record b { faulted = true })
      → ((slots : List (Option Slot))
          → o ≡ some slots
          → P (put_slot index slot dev slots b) × Q (put_slot index slot dev slots b))
      → Ensures P Q (add_in pf index slot dev o b)
  unfolding add_in
  add_in-Ensures index slot dev none b p f put = failed einval (record b { faulted = true }) f
  add_in-Ensures index slot dev (some slots) b p f put =
      let added = done (put_slot index slot dev slots b) (put slots refl).0 (put slots refl).1 in
      elim (Bool-cases (slot.vec_cnt == 0)) [
        | inl e ↦ rw e added
        | inr e ↦
            elim (Bool-cases (ltb pf.pci_msix_vec_count (u32 (slot.vec_start + slot.vec_cnt)))) [
              | inl g ↦ rw (e, g) (failed einval b p)
              | inr g ↦ elim (Bool-cases (pf.ctx_alloc slot.vec_cnt)) [
                | inl k ↦ rw (e, g, k) added
                | inr k ↦ rw (e, g, k) (failed enomem b p)
              ]
            ]
      ]

  add_to-Ensures :
      (index : ℕ) (slot : Slot) (o : Option FeatureDev) (b : BuildInfo)
      → P b
      → P (record b { faulted = true })
      → ((dev : FeatureDev) (slots : List (Option Slot))
          → o ≡ some dev
          → dev.slots ≡ some slots
          → P (put_slot index slot dev slots b) × Q (put_slot index slot dev slots b))
      → Ensures P Q (add_to pf index slot o b)
  unfolding add_to
  add_to-Ensures index slot none b p f put = failed einval (record b { faulted = true }) f
  add_to-Ensures index slot (some dev) b p f put =
      add_in-Ensures index slot dev dev.slots b p f (λ slots e. put dev slots refl e)

  -- The entry is for the place where the feature was found, and fits in what is left of the BAR.
  pub create_feature_instance-Ensures :
      (start : ℕ) (finfo : FeatureInfo) (vec_start vec_cnt : ℕ) (b : BuildInfo)
      → P b
      → P (record b { faulted = true })
      → ((dev : FeatureDev) (slots : List (Option Slot)) (slot : Slot)
          → b.feature_dev ≡ some dev
          → dev.slots ≡ some slots
          → slot.bar ≡ b.current_bar
          → slot.offset ≡ start - b.ioaddr
          → slot.size ≤ u64 (b.ioend + 2 ^ 64 - start)
          → P (put_slot finfo.feature_index slot dev slots b)
            × Q (put_slot finfo.feature_index slot dev slots b))
      → Ensures P Q (create_feature_instance pf start finfo vec_start vec_cnt b)
  unfolding create_feature_instance build_info_add_sub_feature
  create_feature_instance-Ensures start finfo vec_start vec_cnt b p f put =
      let slot : Slot = record {
        bar = b.current_bar;
        offset = start - b.ioaddr;
        size = finfo.resource_size;
        vec_start = vec_start;
        vec_cnt = vec_cnt;
      } in
      elim (Bool-cases (ltb (u64 (b.ioend + 2 ^ 64 - start)) finfo.resource_size)) [
        | inl e ↦ rw e (failed einval b p)
        | inr e ↦ rw e (
            add_to-Ensures finfo.feature_index slot b.feature_dev b p f
              (λ dev slots d s. put dev slots slot d s refl refl (ground (arith, e))))
      ]

  start_at-Ensures :
      (bar : ℕ) (o : Option ℕ) (b : BuildInfo)
      → P (record b { ioaddr = 0 })
      → ((a : ℕ)
          → (P (record b { ioaddr = a; current_bar = bar; ioend = a + pf.pci_resource_len bar })
              × Q (record b {
                ioaddr = a;
                current_bar = bar;
                ioend = a + pf.pci_resource_len bar;
              })))
      → Ensures P Q (start_at pf bar (o, b))
  unfolding start_at
  start_at-Ensures bar none b p q = failed enomem (record b { ioaddr = 0 }) p
  start_at-Ensures bar (some a) b p q =
      done (record b { ioaddr = a; current_bar = bar; ioend = a + pf.pci_resource_len bar }) (q a).0
        (q a).1

  -- A BAR is mapped, with its mapping noted, or not.
  pub parse_start_from-Ensures :
      (bar : ℕ) (b : BuildInfo)
      → ((rs : List (ℕ × ℕ)) → P (record b { ioaddr = 0; regions = rs }))
      → ((rs : List (ℕ × ℕ)) (a : ℕ)
          → (P (record b {
            ioaddr = a;
            current_bar = bar;
            ioend = a + pf.pci_resource_len bar;
            regions = rs;
          })
              × Q (record b {
                ioaddr = a;
                current_bar = bar;
                ioend = a + pf.pci_resource_len bar;
                regions = rs;
              })))
      → Ensures P Q (parse_start_from pf bar b)
  unfolding parse_start_from cci_pci_ioremap_bar map_new known_or_new
  parse_start_from-Ensures bar b p q = known (find_region bar b.regions)
    where
      new : (o : Option ℕ) → Ensures P Q (start_at pf bar (map_new pf bar o b))
      new none = start_at-Ensures bar none b (p b.regions) (λ a. q b.regions a)
      new (some a) =
          let rs = (bar, a) ∷ b.regions in
          start_at-Ensures bar (some a) (record b { regions = rs }) (p rs) (λ a. q rs a)

      known : (o : Option ℕ) → Ensures P Q (start_at pf bar (known_or_new pf bar o b))
      known (some a) = start_at-Ensures bar (some a) b (p b.regions) (λ a. q b.regions a)
      known none = elim (Bool-cases pf.region_alloc) [
        | inl e ↦ rw e (new (pf.pci_ioremap_bar bar))
        | inr e ↦ rw e (start_at-Ensures bar none b (p b.regions) (λ a. q b.regions a))
      ]

  commit_result-Ensures :
      (s : Status) (dev : FeatureDev) (b : BuildInfo)
      → P b
      → P (committed dev b) × Q (committed dev b)
      → Ensures P Q (commit_result pf s dev b)
  unfolding commit_result
  commit_result-Ensures (err e) dev b p c = failed e b p
  commit_result-Ensures ok dev b p c = done (committed dev b) c.0 c.1

  commit_some-Ensures :
      (o : Option FeatureDev) (b : BuildInfo)
      → P b
      → (o ≡ none → Q b)
      → ((dev : FeatureDev) → o ≡ some dev → P (committed dev b) × Q (committed dev b))
      → Ensures P Q (commit_some pf o b)
  unfolding commit_some
  commit_some-Ensures none b p q c = done b p (q refl)
  commit_some-Ensures (some dev) b p q c =
      commit_result-Ensures (pf.platform_device_add (length b.registered)) dev b p (c dev refl)

  -- There is nothing to commit, or the device is registered, or there is an error.
  pub build_info_commit_dev-Ensures :
      (b : BuildInfo)
      → P b
      → (b.feature_dev ≡ none → Q b)
      → ((dev : FeatureDev) → b.feature_dev ≡ some dev → P (committed dev b) × Q (committed dev b))
      → Ensures P Q (build_info_commit_dev pf b)
  unfolding build_info_commit_dev
  build_info_commit_dev-Ensures b p q c = commit_some-Ensures b.feature_dev b p q c

  fill_dev-Ensures :
      (type : IdType) (o : ℕ ⊎ ℕ) (b : BuildInfo)
      → P b
      → ((id : ℕ) → P (record b { feature_dev = some (bare type (some id)) }))
      → ((id : ℕ)
          → P (record b { feature_dev = some (full type id) })
            × Q (record b { feature_dev = some (full type id) }))
      → Ensures P Q (fill_dev pf type o b)
  unfolding fill_dev
  fill_dev-Ensures type (inr e) b p half q = failed e b p
  fill_dev-Ensures type (inl id) b p half q =
      let n = length b.registered in
      elim (Bool-cases (pf.pdata_alloc n && pf.resource_alloc n)) [
        | inl e ↦ rw e (done (record b { feature_dev = some (full type id) }) (q id).0 (q id).1)
        | inr e ↦
            rw e (failed enomem (record b { feature_dev = some (bare type (some id)) }) (half id))
      ]

  -- A new device is under construction; on an error it may be there in part.
  pub create_next-Ensures :
      (type : IdType) (b : BuildInfo)
      → P (record b { feature_dev = none })
      → ((id : Option ℕ) → P (record b { feature_dev = some (bare type id) }))
      → ((id : ℕ)
          → P (record b { feature_dev = some (full type id) })
            × Q (record b { feature_dev = some (full type id) }))
      → Ensures P Q (create_next pf type b)
  unfolding create_next
  create_next-Ensures type b p half q =
      let n = length b.registered in
      let started : BuildInfo = record b { feature_dev = some (bare type none) } in
      elim (Bool-cases (pf.platform_device_alloc n)) [
        | inr e ↦ rw e (failed enomem (record b { feature_dev = none }) p)
        | inl e ↦ rw e (
            fill_dev-Ensures type (pf.alloc_fpga_id n) started (half none) (λ id. half (some id)) q)
      ]
