-- ===== src/Dfl/Parse.antt =====
-- pcie.c, the walk over the device feature list, `parse_feature_list` and what it calls.
use opae_intel_fpga_driver.Base.{
  ℕ, zero, suc, ◌+◌, ◌-◌, ◌*◌, ◌%◌, Bool, true, false, not, ◌||◌, ◌&&◌, Option, none, some, [], ◌∷◌,
  if◌then◌else◌, ◌==◌, ltb, leb, unless, get_elem?, Status, ok, err, einval, and_then,
}
use opae_intel_fpga_driver.Csr.{
  get_field, feature_id, next_header_offset, eol, feature_type, next_afu, mmio_size, port_offset,
  port_bar, port_implemented, intr_num, first_vec_num, support_intr, intr_vector_num,
}
use opae_intel_fpga_driver.Dfl.{
  IdType, fme_id, port_id, IrqKind, no_irq, uint_irq, port_err_irq, fme_err_irq, FeatureInfo, info,
  fme_features, port_features, FeatureDev, BuildInfo, Platform,
}
use opae_intel_fpga_driver.Dfl.Build.{
  parse_start_from, build_info_commit_dev, build_info_create_dev, create_feature_instance,
}

abbrev pub is_port_dev : Option FeatureDev → Bool
is_port_dev none = false
is_port_dev (some dev) = elim dev.id_type [ fme_id ↦ false | port_id ↦ true ]

-- The port header has been added, so that its registers can be reached.
abbrev pub has_header : Option FeatureDev → Bool
has_header none = false
has_header (some dev) = elim dev.slots [
  | none ↦ false
  | some slots ↦ elim slots [ [] ↦ false | head ∷ _ ↦ elim head [ none ↦ false | some _ ↦ true ] ]
]

-- `kzalloc` clears the fields.
abbrev pub empty_info : ℕ → BuildInfo
empty_info uafu_size = record {
  ioaddr = 0;
  ioend = 0;
  current_bar = 0;
  pfme_hdr = none;
  feature_dev = none;
  regions = [];
  registered = [];
  has_fme = false;
  uafu_size = uafu_size;
  resets = 0;
  faulted = false;
}

module _ (pf : Platform) where
  -- `struct feature_header` at an address, and `next_afu` of the header that follows it, where the
  -- GUID stands before it.
  abbrev pub header_at : ℕ → ℕ
  header_at addr = pf.readq addr

  abbrev pub next_afu_at : ℕ → ℕ
  next_afu_at addr = get_field next_afu (pf.readq (addr + 24))

  -- The first vector and the number of vectors of a feature.
  unfoldable pub parse_feature_irqs : ℕ → IrqKind → ℕ × ℕ
  parse_feature_irqs start no_irq = (0, 0)
  parse_feature_irqs start uint_irq =
      let csr = pf.readq (start + 8) in
      if get_field intr_num csr == 0
      then (0, 0)
      else (get_field first_vec_num csr, get_field intr_num csr)
  parse_feature_irqs start port_err_irq =
      let csr = pf.readq (start + 56) in
      if get_field support_intr csr == 0 then (0, 0) else (get_field intr_vector_num csr, 1)
  parse_feature_irqs start fme_err_irq =
      let csr = pf.readq (start + 112) in
      if get_field support_intr csr == 0 then (0, 0) else (get_field intr_vector_num csr, 1)

  -- `create_feature_instance` after `parse_feature_irqs`; an index past the table is not supported.
  unfoldable pub add_private : ℕ → Option FeatureInfo → BuildInfo → Status × BuildInfo
  add_private hdr none b = (ok, b)
  add_private hdr (some finfo) b =
      let (vec_start, vec_cnt) = parse_feature_irqs hdr finfo.irq_kind in
      create_feature_instance pf hdr finfo vec_start vec_cnt b

  unfoldable pub parse_feature_fme_private : ℕ → BuildInfo → Status × BuildInfo
  unfolding add_private
  parse_feature_fme_private hdr b =
      add_private hdr (get_elem? fme_features (get_field feature_id (header_at hdr))) b

  -- `(header.id & 0x000f) + 1`
  unfoldable pub parse_feature_port_private : ℕ → BuildInfo → Status × BuildInfo
  unfolding add_private
  parse_feature_port_private hdr b =
      add_private hdr
        (get_elem? (port_features b.uafu_size) (get_field feature_id (header_at hdr) % 16 + 1)) b

  unfoldable pub private_by : ℕ → IdType → BuildInfo → Status × BuildInfo
  private_by hdr fme_id b = parse_feature_fme_private hdr b
  private_by hdr port_id b = parse_feature_port_private hdr b

  unfoldable pub private_of : ℕ → Option FeatureDev → BuildInfo → Status × BuildInfo
  private_of hdr none b = (err einval, b)
  private_of hdr (some dev) b = private_by hdr dev.id_type b

  unfoldable pub parse_feature_private : ℕ → BuildInfo → Status × BuildInfo
  unfolding private_of private_by
  parse_feature_private hdr b = private_of hdr b.feature_dev b

  unfoldable pub parse_feature_fme : ℕ → BuildInfo → Status × BuildInfo
  parse_feature_fme start b = and_then (build_info_create_dev pf fme_id b) (λ b.
      if b.has_fme
      then (err einval, b)
      else create_feature_instance pf start (info no_irq 208 0) 0 0 b)

  unfoldable pub parse_feature_port : ℕ → BuildInfo → Status × BuildInfo
  parse_feature_port start b =
      and_then (build_info_create_dev pf port_id b)
        (create_feature_instance pf start (info no_irq 112 0) 0 0)

  -- The size of the user's MMIO space, in KB in the register; the reset of the port goes to the
  -- feature device, whatever became of it.
  unfoldable pub enable_port_uafu : ℕ → BuildInfo → BuildInfo
  enable_port_uafu start b =
      let size = get_field mmio_size (pf.readq (start + 48)) * 1024 in
      record b {
        uafu_size = size;
        resets = if size == 0 then b.resets else b.resets + 1;
        faulted = b.faulted || not (size == 0) && not (has_header b.feature_dev);
      }

  unfoldable pub forget_uafu : Status × BuildInfo → Status × BuildInfo
  forget_uafu (ret, b) = (ret, record b { uafu_size = 0 })

  unfoldable pub parse_feature_port_uafu : ℕ → BuildInfo → Status × BuildInfo
  unfolding forget_uafu
  parse_feature_port_uafu hdr b =
      let added = create_feature_instance pf hdr (info no_irq b.uafu_size 5) 0 0 b in
      if b.uafu_size == 0 then (err einval, b) else forget_uafu added

  -- Whatever the result, the header is noted.
  unfoldable pub note_fme : ℕ → Status × BuildInfo → Status × BuildInfo
  note_fme hdr (ret, b) = (ret, record b { pfme_hdr = some hdr })

  unfoldable pub parse_fme_at : ℕ → BuildInfo → Status × BuildInfo
  unfolding note_fme
  parse_fme_at hdr b = note_fme hdr (parse_feature_fme hdr b)

  -- Whatever the result, the port is enabled.
  unfoldable pub with_uafu : ℕ → Status × BuildInfo → Status × BuildInfo
  with_uafu hdr (ret, b) = (ret, enable_port_uafu hdr b)

  unfoldable pub parse_port_at : ℕ → BuildInfo → Status × BuildInfo
  unfolding with_uafu
  parse_port_at hdr b = with_uafu hdr (parse_feature_port hdr b)

  -- One header of the list of AFUs.
  unfoldable pub parse_afu : ℕ → BuildInfo → Status × BuildInfo
  parse_afu hdr b =
      let guid = pf.guid (hdr + 8) in
      if guid == pf.fme_guid
      then parse_fme_at hdr b
      else if guid == pf.port_guid
      then parse_port_at hdr b
      else if is_port_dev b.feature_dev
      then parse_feature_port_uafu hdr b
      else (ok, b)

  -- The loop, from `start` to `end`, with `fuel`.
  unfoldable pub afus_from : ℕ → ℕ → ℕ → BuildInfo → Status × BuildInfo
  afus_from zero end start b = (err einval, b)
  afus_from (suc fuel) end start b =
      unless (leb end start) (ok, b)
        (λ _.
          unless (ltb (end - start) 32) (err einval, b)
            (λ _. and_then (parse_afu start b) (λ b.
              unless (next_afu_at start == 0) (ok, b)
                (λ _. afus_from fuel end (start + next_afu_at start) b))))

  -- Every round moves on by at least 1.
  unfoldable pub parse_feature_afus : ℕ → BuildInfo → Status × BuildInfo
  parse_feature_afus hdr b = afus_from (suc (b.ioend - hdr)) b.ioend hdr b

  unfoldable pub parse_feature_fiu : ℕ → BuildInfo → Status × BuildInfo
  parse_feature_fiu hdr b =
      let id = get_field feature_id (header_at hdr) in
      let next = next_afu_at hdr in
      if id == 0
      then parse_fme_at hdr b
      else if id == 1
      then and_then (parse_port_at hdr b)
          (λ b. if next == 0 then (ok, b) else parse_feature_afus (hdr + next) b)
      else (ok, b)

  unfoldable pub parse_feature : ℕ → BuildInfo → Status × BuildInfo
  parse_feature hdr b =
      let type = get_field feature_type (header_at hdr) in
      if type == 1
      then parse_feature_afus hdr b
      else if type == 3
      then parse_feature_private hdr b
      else if type == 4
      then parse_feature_fiu hdr b
      else (ok, b)

  -- Whether the list ends with this header.
  abbrev pub is_last : ℕ → Bool
  is_last hdr =
      let csr = header_at hdr in
      not (get_field eol csr == 0) || get_field next_header_offset csr == 0

  -- The loop, from `start` to `end`, with `fuel`.
  unfoldable pub list_from : ℕ → ℕ → ℕ → BuildInfo → Status × BuildInfo
  list_from zero end start b = (err einval, b)
  list_from (suc fuel) end start b =
      unless (leb end start) (ok, b)
        (λ _.
          unless (ltb (end - start) 8) (err einval, b)
            (λ _. and_then (parse_feature start b) (λ b.
              unless (is_last start) (ok, b)
                (λ _.
                  list_from fuel end (start + get_field next_header_offset (header_at start)) b))))

  unfoldable pub parse_feature_list : ℕ → BuildInfo → Status × BuildInfo
  parse_feature_list start b = list_from (suc (b.ioend - start)) b.ioend start b

  -- The loop over the ports that the FME lists, with `n` of them to go.
  unfoldable pub ports_from : ℕ → ℕ → ℕ → BuildInfo → Status × BuildInfo
  ports_from fme_hdr zero i b = (ok, b)
  ports_from fme_hdr (suc n) i b =
      let csr = pf.readq (fme_hdr + 56 + 8 * i) in
      unless (get_field port_implemented csr == 0) (ok, b)
        (λ _. and_then (parse_start_from pf (get_field port_bar csr) b) (λ b.
          and_then (parse_feature_list (b.ioaddr + get_field port_offset csr) b)
            (ports_from fme_hdr n (i + 1))))

  unfoldable pub ports_of : Option ℕ → BuildInfo → Status × BuildInfo
  ports_of none b = (ok, b)
  ports_of (some fme_hdr) b = ports_from fme_hdr 4 0 b

  unfoldable pub parse_ports_from_fme : BuildInfo → Status × BuildInfo
  unfolding ports_of
  parse_ports_from_fme b = ports_of b.pfme_hdr b

  -- What `build_info_free` leaves: after an error all registered devices are removed.
  unfoldable pub build_info_free : Status × BuildInfo → Status × BuildInfo
  build_info_free (ok, b) = (ok, record b { feature_dev = none })
  build_info_free (err e, b) = (err e, record b { feature_dev = none; registered = [] })

  -- `cci_pci_create_feature_devs` once the build info and the parent device are there.
  unfoldable pub cci_pci_create_feature_devs : BuildInfo → Status × BuildInfo
  unfolding build_info_free
  cci_pci_create_feature_devs b = build_info_free (
      and_then (parse_start_from pf 0 b) (λ b.
        and_then (parse_feature_list b.ioaddr b)
          (λ b. and_then (parse_ports_from_fme b) (build_info_commit_dev pf))))
