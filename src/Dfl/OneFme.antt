-- ===== src/Dfl/OneFme.antt =====
-- pcie.c: how many FMEs the enumeration registers.
use opae_intel_fpga_driver.Base.{
  ℕ, ◌+◌, ◌≤◌, ◌≡◌, refl, sym, ap, ◌∙◌, Bool, true, false, ◌||◌, Option, none, some, List, [], ◌∷◌,
  arith, inl, inr, Status, ok, err, einval, and_then-Ensures, Ensures, err-ne-ok, Bool-cases,
  if◌then◌else◌,
}
use mathlib.Core.Path.{subst}
use opae_intel_fpga_driver.Dfl.{
  IdType, FeatureDev, FeatureInfo, BuildInfo, Platform, fme_id, port_id, info, no_irq,
}
use opae_intel_fpga_driver.Dfl.Build.{
  is_fme, parse_start_from, build_info_commit_dev, create_next, build_info_create_dev,
  create_feature_instance,
}
use opae_intel_fpga_driver.Dfl.Parse.{
  parse_feature_fme, parse_feature_port, build_info_free, empty_info, cci_pci_create_feature_devs,
}
use opae_intel_fpga_driver.Dfl.Ends.{
  create_feature_instance-Ensures, parse_start_from-Ensures, build_info_commit_dev-Ensures,
  create_next-Ensures,
}
use opae_intel_fpga_driver.Dfl.Kept.{Window, Kept, create_feature_devs-Kept}

abbrev pub fmes : List FeatureDev → ℕ
fmes [] = 0
fmes (dev ∷ devs) = (if is_fme dev.id_type then 1 else 0) + fmes devs

abbrev AtMostOne : BuildInfo → Type 0
AtMostOne b = fmes b.registered ≤ 1

-- `fme_dev` is set when there is an FME among the registered devices, and there is only one.
abbrev Counted : BuildInfo → Type 0
Counted b = fmes b.registered ≡ (if b.has_fme then 1 else 0)

abbrev building_fme : Option FeatureDev → Bool
building_fme none = false
building_fme (some dev) = is_fme dev.id_type

-- The device under construction may become registered.
abbrev Alone : BuildInfo → Type 0
Alone b = (building_fme b.feature_dev ≡ true) → b.has_fme ≡ false

abbrev Going : BuildInfo → Type 0
Going b = Counted b × Alone b

count_le : (h : Bool) (n : ℕ) → n ≡ (if h then 1 else 0) → n ≤ 1
count_le true n e = omega arith
count_le false n e = omega arith

count_committed :
    (f h : Bool) (n : ℕ)
    → n ≡ (if h then 1 else 0)
    → (f ≡ true → h ≡ false)
    → (if f then 1 else 0) + n ≡ (if h || f then 1 else 0)
count_committed true true n e a = absurd (cc (a refl))
count_committed true false n e a = omega arith
count_committed false true n e a = omega arith
count_committed false false n e a = omega arith

Going-AtMostOne : (b : BuildInfo) → Going b → AtMostOne b
Going-AtMostOne b h = count_le b.has_fme (fmes b.registered) h.0

module _ (pf : Platform) (lo end : ℕ) where
  abbrev InWindow : BuildInfo → Type 0
  InWindow b = Counted b × Window pf lo end b

  commit-Counted :
      (b : BuildInfo)
      → Going b × Window pf lo end b
      → Ensures AtMostOne InWindow (build_info_commit_dev pf b)
  commit-Counted b ((c, a), w) =
      build_info_commit_dev-Ensures pf AtMostOne InWindow b (Going-AtMostOne b (c, a)) (λ _. (c, w))
        (λ dev e.
          let more =
            count_committed (is_fme dev.id_type) b.has_fme (fmes b.registered) c
              (λ h. a (ap building_fme e ∙ h)) in
          (count_le (b.has_fme || is_fme dev.id_type) (fmes (dev ∷ b.registered)) more, (more, w)))

  create_dev-Counted :
      (type : IdType) (b : BuildInfo)
      → Going b × Window pf lo end b
      → Ensures AtMostOne
          (λ b. InWindow b × (building_fme b.feature_dev ≡ is_fme type))
          (build_info_create_dev pf type b)
  unfolding build_info_create_dev
  create_dev-Counted type b h =
      let New : BuildInfo → Type 0 = λ b. InWindow b × (building_fme b.feature_dev ≡ is_fme type) in
      and_then-Ensures AtMostOne InWindow New (build_info_commit_dev pf b) (create_next pf type)
        (commit-Counted b h)
        (λ b (c, w).
          let few = count_le b.has_fme (fmes b.registered) c in
          create_next-Ensures pf AtMostOne New type b few (λ _. few) (λ _. (few, ((c, w), refl))))

  instance-Going :
      (start : ℕ) (finfo : FeatureInfo) (vec_start vec_cnt : ℕ) (b : BuildInfo)
      → Going b × Window pf lo end b
      → Ensures AtMostOne
          (λ b. Going b × Window pf lo end b)
          (create_feature_instance pf start finfo vec_start vec_cnt b)
  instance-Going start finfo vec_start vec_cnt b ((c, a), w) =
      let few = count_le b.has_fme (fmes b.registered) c in
      create_feature_instance-Ensures pf AtMostOne (λ b. Going b × Window pf lo end b) start finfo
        vec_start vec_cnt b few few
        (λ dev slots slot d s _ _ _. (few, ((c, λ h. a (ap building_fme d ∙ h)), w)))

  fme-Going :
      (start : ℕ) (b : BuildInfo)
      → Going b × Window pf lo end b
      → Ensures AtMostOne (λ b. Going b × Window pf lo end b) (parse_feature_fme pf start b)
  unfolding parse_feature_fme
  fme-Going start b h =
      let Now : BuildInfo → Type 0 = λ b. Going b × Window pf lo end b in
      let add : BuildInfo → Status × BuildInfo =
        create_feature_instance pf start (info no_irq 208 0) 0 0 in
      and_then-Ensures AtMostOne (λ b. InWindow b × (building_fme b.feature_dev ≡ true)) Now
        (build_info_create_dev pf fme_id b) (λ b. if b.has_fme then (err einval, b) else add b)
        (create_dev-Counted fme_id b h)
        (λ b ((c, w), _). elim (Bool-cases b.has_fme) [
          | inl e ↦
              subst (λ f. Ensures AtMostOne Now (if f then (err einval, b) else add b)) (sym e)
                (count_le b.has_fme (fmes b.registered) c, λ k. absurd (err-ne-ok einval k))
          | inr e ↦
              subst (λ f. Ensures AtMostOne Now (if f then (err einval, b) else add b)) (sym e)
                (instance-Going start (info no_irq 208 0) 0 0 b ((c, λ _. e), w))
        ])

  port-Going :
      (start : ℕ) (b : BuildInfo)
      → Going b × Window pf lo end b
      → Ensures AtMostOne (λ b. Going b × Window pf lo end b) (parse_feature_port pf start b)
  unfolding parse_feature_port
  port-Going start b h =
      and_then-Ensures AtMostOne (λ b. InWindow b × (building_fme b.feature_dev ≡ false))
        (λ b. Going b × Window pf lo end b) (build_info_create_dev pf port_id b)
        (create_feature_instance pf start (info no_irq 112 0) 0 0) (create_dev-Counted port_id b h)
        (λ b ((c, w), e).
          instance-Going start (info no_irq 112 0) 0 0 b ((c, λ k. absurd (cc (e, k))), w))

module _ (pf : Platform) where
  free-AtMostOne : (r : Status × BuildInfo) → AtMostOne r.1 → AtMostOne (build_info_free pf r).1
  unfolding build_info_free
  free-AtMostOne (ok, b) h = h
  free-AtMostOne (err e, b) h = omega arith

  switch-Going :
      (bar : ℕ) (b : BuildInfo)
      → Going b
      → Ensures AtMostOne (λ b. Going b × Window pf b.ioaddr b.ioend b) (parse_start_from pf bar b)
  switch-Going bar b h =
      let few = Going-AtMostOne b h in
      parse_start_from-Ensures pf AtMostOne (λ b. Going b × Window pf b.ioaddr b.ioend b) bar b
        (λ _. few) (λ rs a. (few, (h, (refl, refl, refl))))

  commit-AtMostOne : (b : BuildInfo) → Going b → AtMostOne (build_info_commit_dev pf b).1
  commit-AtMostOne b (c, a) =
      let few = Going-AtMostOne b (c, a) in
      (build_info_commit_dev-Ensures pf AtMostOne AtMostOne b few (λ _. few)
        (λ dev e.
          let more = count_le (b.has_fme || is_fme dev.id_type) (fmes (dev ∷ b.registered)) (
            count_committed (is_fme dev.id_type) b.has_fme (fmes b.registered) c
              (λ h. a (ap building_fme e ∙ h))) in
          (more, more))).0

  Kept-AtMostOne : Kept pf AtMostOne Going
  Kept-AtMostOne = record {
    always_of = Going-AtMostOne;
    note = λ b hdr h. h;
    note_going = λ b hdr h. h;
    enable = λ b size n f h. h;
    enable_going = λ b size n f h. h;
    fme = λ lo end start b _ _ h. fme-Going pf lo end start b h;
    port = λ lo end start b _ _ h. port-Going pf lo end start b h;
    instance_of = λ lo end start finfo vec_start vec_cnt b _ _ h.
        instance-Going pf lo end start finfo vec_start vec_cnt b h;
    switch = switch-Going;
    commit = commit-AtMostOne;
    free = free-AtMostOne;
  }

  -- Whatever the feature lists hold and whichever calls of the kernel fail, at most one FME is
  -- registered when the enumeration of a device returns.
  pub create_feature_devs-AtMostOne :
      (uafu_size : ℕ)
      → fmes (cci_pci_create_feature_devs pf (empty_info uafu_size)).1.registered ≤ 1
  create_feature_devs-AtMostOne uafu_size =
      create_feature_devs-Kept pf AtMostOne Going Kept-AtMostOne (empty_info uafu_size)
        (refl, λ _. refl)
