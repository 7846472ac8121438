-- ===== src/Dfl/Placed.antt =====
-- pcie.c: where the entries of a feature device lie in the BARs.
use opae_intel_fpga_driver.Base.{
  ℕ, zero, suc, ◌+◌, ◌-◌, ◌^◌, ◌≤◌, ◌<◌, ◌≡◌, refl, ap, ◌∙◌, true, false, Option, none, some, List,
  [], ◌∷◌, arith, length, set, replicate, length-set, u64, All, Status, ok, err, einval,
  and_then-Ensures, Ensures, err-ne-ok, if◌then◌else◌,
}
use mathlib.Core.Path.{subst}
use opae_intel_fpga_driver.Dfl.{
  IdType, FeatureDev, FeatureInfo, Slot, BuildInfo, Platform, fme_id, port_id, info, no_irq,
}
use opae_intel_fpga_driver.Dfl.Build.{
  feature_num, full, committed, build_info_commit_dev, create_next, build_info_create_dev,
  create_feature_instance,
}
use opae_intel_fpga_driver.Dfl.Parse.{
  parse_feature_fme, parse_feature_port, build_info_free, empty_info, cci_pci_create_feature_devs,
}
use opae_intel_fpga_driver.Dfl.Ends.{
  create_feature_instance-Ensures, parse_start_from-Ensures, build_info_commit_dev-Ensures,
  create_next-Ensures,
}
use opae_intel_fpga_driver.Dfl.Kept.{Window, Kept, create_feature_devs-Kept}

module _ {A : Type 0} (P : A → Type 0) where
  All-set : (xs : List A) (i : ℕ) (v : A) → All P xs → P v → All P (set xs i v)
  All-set [] i v h p = h
  All-set (x ∷ xs) zero v h p = (p, h.1)
  All-set (x ∷ xs) (suc i) v h p = (h.0, All-set xs i v h.1 p)

  All-replicate : (n : ℕ) (a : A) → P a → All P (replicate n a)
  All-replicate zero a p = tt
  All-replicate (suc n) a p = (p, All-replicate n a p)

  length-replicate : (n : ℕ) (a : A) → length (replicate n a) ≡ n
  length-replicate zero a = refl
  length-replicate (suc n) a = ap suc (length-replicate n a)

-- What is left of the window, as an unsigned number.
rest_le :
    (lo end start len size : ℕ)
    → lo ≤ start
    → start < end
    → end ≡ lo + len
    → size ≤ u64 (end + 2 ^ 64 - start)
    → start - lo + size ≤ len
rest_le lo end start len size low high e s = omega arith

module _ (pf : Platform) where
  -- The resource of an entry lies in its BAR.
  abbrev pub Fits : Option Slot → Type 0
  Fits none = Unit
  Fits (some slot) = slot.offset + slot.size ≤ pf.pci_resource_len slot.bar

  -- The device has its table of entries, of the size for its type.
  abbrev pub Laid : IdType → Option (List (Option Slot)) → Type 0
  Laid type none = ⊥
  Laid type (some slots) = (length slots ≡ feature_num type) × All Fits slots

  abbrev pub Placed : FeatureDev → Type 0
  Placed dev = Laid dev.id_type dev.slots

  abbrev CurrentPlaced : Option FeatureDev → Type 0
  CurrentPlaced none = Unit
  CurrentPlaced (some dev) = Placed dev

  -- After an error the device under construction may be there in part, and is not registered.
  abbrev Sound : BuildInfo → Type 0
  Sound b = All Placed b.registered

  abbrev Going : BuildInfo → Type 0
  Going b = CurrentPlaced b.feature_dev × Sound b

  full-Placed : (type : IdType) (id : ℕ) → Placed (full type id)
  full-Placed type id =
      let n = feature_num type in
      let empty : Option Slot = none in
      (length-replicate Fits n empty, All-replicate Fits n empty tt)

  put-Placed :
      (index : ℕ) (slot : Slot) (type : IdType) (slots : List (Option Slot))
      → Laid type (some slots)
      → Fits (some slot)
      → Laid type (some (set slots index (some slot)))
  put-Placed index slot type slots (len, fits) fit =
      (length-set slots index (some slot) ∙ len, All-set Fits slots index (some slot) fits fit)

  module _ (lo end : ℕ) where
    abbrev InWindow : BuildInfo → Type 0
    InWindow b = Going b × Window pf lo end b

    commit-Sound :
        (Q : BuildInfo → Type 0) (b : BuildInfo)
        → Going b
        → Q b
        → ((dev : FeatureDev) → Q (committed dev b))
        → Ensures Sound (λ b. Going b × Q b) (build_info_commit_dev pf b)
    commit-Sound Q b h q c =
        build_info_commit_dev-Ensures pf Sound (λ b. Going b × Q b) b h.1 (λ _. (h, q))
          (λ dev e.
            let more : Sound (committed dev b) = (subst CurrentPlaced e h.0, h.1) in
            (more, ((tt, more), c dev)))

    create_dev-Sound :
        (type : IdType) (b : BuildInfo)
        → InWindow b
        → Ensures Sound InWindow (build_info_create_dev pf type b)
    unfolding build_info_create_dev
    create_dev-Sound type b (h, w) =
        and_then-Ensures Sound InWindow InWindow (build_info_commit_dev pf b) (create_next pf type)
          (commit-Sound (Window pf lo end) b h w (λ dev. w))
          (λ b (h, w).
            create_next-Ensures pf Sound InWindow type b h.1 (λ _. h.1)
              (λ id. (h.1, ((full-Placed type id, h.1), w))))

    instance-Sound :
        (start : ℕ) (finfo : FeatureInfo) (vec_start vec_cnt : ℕ) (b : BuildInfo)
        → lo ≤ start
        → start < end
        → InWindow b
        → Ensures Sound InWindow (create_feature_instance pf start finfo vec_start vec_cnt b)
    instance-Sound start finfo vec_start vec_cnt b low high (h, w) =
        create_feature_instance-Ensures pf Sound InWindow start finfo vec_start vec_cnt b h.1 h.1
          (λ dev slots slot d s e_bar e_off e_size.
            let fit : Fits (some slot) = omega (
              arith,
              ap pf.pci_resource_len e_bar,
              rest_le b.ioaddr b.ioend start (pf.pci_resource_len b.current_bar) slot.size
                  (omega arith) (omega arith) (omega arith) e_size,
            ) in
            let laid : Laid dev.id_type (some slots) =
              subst (Laid dev.id_type) s (subst CurrentPlaced d h.0) in
            (h.1, ((put-Placed finfo.feature_index slot dev.id_type slots laid fit, h.1), w)))

    fme-Sound :
        (start : ℕ) (b : BuildInfo)
        → lo ≤ start
        → start < end
        → InWindow b
        → Ensures Sound InWindow (parse_feature_fme pf start b)
    unfolding parse_feature_fme
    fme-Sound start b low high h =
        let add : BuildInfo → Status × BuildInfo =
          create_feature_instance pf start (info no_irq 208 0) 0 0 in
        and_then-Ensures Sound InWindow InWindow (build_info_create_dev pf fme_id b)
          (λ b. if b.has_fme then (err einval, b) else add b) (create_dev-Sound fme_id b h)
          (λ b h.
            elim b.has_fme as (λ f. Ensures Sound InWindow (if f then (err einval, b) else add b)) [
              | true ↦ (h.0.1, λ k. absurd (err-ne-ok einval k))
              | false ↦ instance-Sound start (info no_irq 208 0) 0 0 b low high h
            ])

    port-Sound :
        (start : ℕ) (b : BuildInfo)
        → lo ≤ start
        → start < end
        → InWindow b
        → Ensures Sound InWindow (parse_feature_port pf start b)
    unfolding parse_feature_port
    port-Sound start b low high h =
        and_then-Ensures Sound InWindow InWindow (build_info_create_dev pf port_id b)
          (create_feature_instance pf start (info no_irq 112 0) 0 0) (create_dev-Sound port_id b h)
          (λ b h. instance-Sound start (info no_irq 112 0) 0 0 b low high h)

  free-Sound : (r : Status × BuildInfo) → Sound r.1 → Sound (build_info_free pf r).1
  unfolding build_info_free
  free-Sound (ok, b) h = h
  free-Sound (err e, b) h = tt

  Kept-Sound : Kept pf Sound Going
  Kept-Sound = record {
    always_of = λ b h. h.1;
    note = λ b hdr h. h;
    note_going = λ b hdr h. h;
    enable = λ b size n f h. h;
    enable_going = λ b size n f h. h;
    fme = λ lo end start b low high h. fme-Sound lo end start b low high h;
    port = λ lo end start b low high h. port-Sound lo end start b low high h;
    instance_of = λ lo end start finfo vec_start vec_cnt b low high h.
        instance-Sound lo end start finfo vec_start vec_cnt b low high h;
    switch = λ bar b h.
        parse_start_from-Ensures pf Sound (λ b. Going b × Window pf b.ioaddr b.ioend b) bar b
          (λ _. h.1) (λ rs a. (h.1, (h, (refl, refl, refl))));
    commit = λ b h. (commit-Sound 0 0 (λ _. Unit) b h tt (λ _. tt)).0;
    free = free-Sound;
  }

  -- Whatever the feature lists hold and whichever calls of the kernel fail: every device that the
  -- enumeration leaves registered has a table with as many entries for features as its type asks
  -- for, and every resource in it lies in its BAR.
  pub create_feature_devs-Placed :
      (uafu_size : ℕ)
      → All Placed (cci_pci_create_feature_devs pf (empty_info uafu_size)).1.registered
  create_feature_devs-Placed uafu_size =
      create_feature_devs-Kept pf Sound Going Kept-Sound (empty_info uafu_size) (tt, tt)
