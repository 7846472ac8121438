-- ===== src/Dfl/Build.antt =====
-- pcie.c, the construction of feature devices: mapping a BAR, creating and registering a device, and
-- adding a feature to it.
use opae_intel_fpga_driver.Base.{
  ℕ, ◌+◌, ◌-◌, ◌^◌, Bool, true, false, ◌||◌, ◌&&◌, Option, none, some, List, [], ◌∷◌, if◌then◌else◌,
  ◌==◌, ltb, u32, u64, length, set, replicate, Status, ok, err, einval, enomem, and_then, ◌⊎◌, inl,
  inr,
}
use opae_intel_fpga_driver.Dfl.{
  IdType, fme_id, port_id, FeatureInfo, Slot, FeatureDev, BuildInfo, Platform,
}

abbrev pub is_fme : IdType → Bool
is_fme fme_id = true
is_fme port_id = false

-- `fme_feature_num` and `port_feature_num`
abbrev pub feature_num : IdType → ℕ
feature_num fme_id = 9
feature_num port_id = 6

-- The mapping of a BAR that was mapped before.
abbrev pub find_region : ℕ → List (ℕ × ℕ) → Option ℕ
find_region bar [] = none
find_region bar ((b, ioaddr) ∷ rs) = if b == bar then some ioaddr else find_region bar rs

-- A device without and with its platform data and resources.
abbrev pub bare : IdType → Option ℕ → FeatureDev
bare type id = record { id_type = type; id = id; slots = none }

abbrev pub full : IdType → ℕ → FeatureDev
full type id = record {
  id_type = type;
  id = some id;
  slots = some (replicate (feature_num type) none);
}

-- The device is registered.
abbrev pub committed : FeatureDev → BuildInfo → BuildInfo
committed dev b = record b {
  registered = dev ∷ b.registered;
  has_fme = b.has_fme || is_fme dev.id_type;
  feature_dev = none;
}

-- The entry is written when the interrupts are in order.
abbrev pub put_slot : ℕ → Slot → FeatureDev → List (Option Slot) → BuildInfo → BuildInfo
put_slot index slot dev slots b = record b {
  feature_dev = some (record dev { slots = some (set slots index (some slot)) });
}

module _ (pf : Platform) where
  -- The mapping of a BAR for the first time.
  unfoldable pub map_new : ℕ → Option ℕ → BuildInfo → Option ℕ × BuildInfo
  map_new bar none b = (none, b)
  map_new bar (some ioaddr) b = (some ioaddr, record b { regions = (bar, ioaddr) ∷ b.regions })

  unfoldable pub known_or_new : ℕ → Option ℕ → BuildInfo → Option ℕ × BuildInfo
  known_or_new bar (some ioaddr) b = (some ioaddr, b)
  known_or_new bar none b =
      if pf.region_alloc then map_new bar (pf.pci_ioremap_bar bar) b else (none, b)

  unfoldable pub cci_pci_ioremap_bar : ℕ → BuildInfo → Option ℕ × BuildInfo
  unfolding known_or_new map_new
  cci_pci_ioremap_bar bar b = known_or_new bar (find_region bar b.regions) b

  -- `parse_start_from` after the mapping; on failure `binfo->ioaddr` is NULL.
  unfoldable pub start_at : ℕ → Option ℕ × BuildInfo → Status × BuildInfo
  start_at bar (none, b) = (err enomem, record b { ioaddr = 0 })
  start_at bar (some ioaddr, b) = (
    ok,
    record b { ioaddr = ioaddr; current_bar = bar; ioend = ioaddr + pf.pci_resource_len bar },
  )

  -- Also `parse_start` at BAR 0, and `parse_switch_to`.
  unfoldable pub parse_start_from : ℕ → BuildInfo → Status × BuildInfo
  unfolding start_at cci_pci_ioremap_bar
  parse_start_from bar b = start_at bar (cci_pci_ioremap_bar bar b)

  -- `build_info_commit_dev` for a device, given the result of `platform_device_add`.
  unfoldable pub commit_result : Status → FeatureDev → BuildInfo → Status × BuildInfo
  commit_result (err e) dev b = (err e, b)
  commit_result ok dev b = (ok, committed dev b)

  unfoldable pub commit_some : Option FeatureDev → BuildInfo → Status × BuildInfo
  commit_some none b = (ok, b)
  commit_some (some dev) b = commit_result (pf.platform_device_add (length b.registered)) dev b

  unfoldable pub build_info_commit_dev : BuildInfo → Status × BuildInfo
  unfolding commit_some commit_result
  build_info_commit_dev b = commit_some b.feature_dev b

  -- From `alloc_fpga_id` on.
  unfoldable pub fill_dev : IdType → ℕ ⊎ ℕ → BuildInfo → Status × BuildInfo
  fill_dev type (inr e) b = (err e, b)
  fill_dev type (inl id) b =
      let n = length b.registered in
      if pf.pdata_alloc n && pf.resource_alloc n
      then (ok, record b { feature_dev = some (full type id) })
      else (err enomem, record b { feature_dev = some (bare type (some id)) })

  -- After the commit of the device before.
  unfoldable pub create_next : IdType → BuildInfo → Status × BuildInfo
  create_next type b =
      let n = length b.registered in
      let filled =
        fill_dev type (pf.alloc_fpga_id n) (record b { feature_dev = some (bare type none) }) in
      if pf.platform_device_alloc n then filled else (err enomem, record b { feature_dev = none })

  unfoldable pub build_info_create_dev : IdType → BuildInfo → Status × BuildInfo
  build_info_create_dev type b = and_then (build_info_commit_dev b) (create_next type)

  -- `binfo->feature_dev` has its platform data here; without it the code would fault.
  unfoldable pub add_in :
      ℕ → Slot → FeatureDev → Option (List (Option Slot)) → BuildInfo → Status × BuildInfo
  add_in index slot dev none b = (err einval, record b { faulted = true })
  add_in index slot dev (some slots) b =
      let added : Status × BuildInfo = (ok, put_slot index slot dev slots b) in
      if slot.vec_cnt == 0
      then added
      else if ltb pf.pci_msix_vec_count (u32 (slot.vec_start + slot.vec_cnt))
      then (err einval, b)
      else if pf.ctx_alloc slot.vec_cnt
      then added
      else (err enomem, b)

  unfoldable pub add_to : ℕ → Slot → Option FeatureDev → BuildInfo → Status × BuildInfo
  unfolding add_in
  add_to index slot none b = (err einval, record b { faulted = true })
  add_to index slot (some dev) b = add_in index slot dev dev.slots b

  unfoldable pub build_info_add_sub_feature : ℕ → ℕ → ℕ → ℕ → ℕ → BuildInfo → Status × BuildInfo
  unfolding add_to
  build_info_add_sub_feature index size start vec_start vec_cnt b =
      let slot : Slot = record {
        bar = b.current_bar;
        offset = start - b.ioaddr;
        size = size;
        vec_start = vec_start;
        vec_cnt = vec_cnt;
      } in
      add_to index slot b.feature_dev b

  -- The rest of the BAR is compared as an unsigned number.
  unfoldable pub create_feature_instance : ℕ → FeatureInfo → ℕ → ℕ → BuildInfo → Status × BuildInfo
  create_feature_instance start finfo vec_start vec_cnt b =
      if ltb (u64 (b.ioend + 2 ^ 64 - start)) finfo.resource_size
      then (err einval, b)
      else build_info_add_sub_feature finfo.feature_index finfo.resource_size start vec_start
          vec_cnt b
