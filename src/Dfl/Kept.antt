-- ===== src/Dfl/Kept.antt =====
-- A rule for the walk of pcie.c over the device feature list: what the parts keep, the walk keeps.
use opae_intel_fpga_driver.Base.{
  ℕ, zero, suc, ◌+◌, ◌-◌, ◌*◌, ◌%◌, ◌≤◌, ◌<◌, ◌≡◌, Bool, Option, none, some, arith, inl, inr, ◌==◌,
  ltb, get_elem?, Status, ok, err, einval, and_then, and_then-Ensures, Ensures, err-ne-ok,
  Bool-cases, leb, unless, if◌then◌else◌, sym,
}
use mathlib.Core.Path.{subst}
use opae_intel_fpga_driver.Csr.{
  get_field, port_implemented, port_bar, port_offset, next_header_offset, feature_id, feature_type,
}
use opae_intel_fpga_driver.Dfl.{
  IdType, FeatureInfo, FeatureDev, BuildInfo, Platform, fme_id, port_id, fme_features,
  port_features, info, no_irq,
}
use opae_intel_fpga_driver.Dfl.Build.{
  parse_start_from, build_info_commit_dev, create_feature_instance,
}
use opae_intel_fpga_driver.Dfl.Parse.{
  header_at, next_afu_at, is_last, is_port_dev, parse_feature_irqs, add_private,
  parse_feature_fme_private, parse_feature_port_private, private_by, private_of,
  parse_feature_private, parse_feature_fme, parse_feature_port, enable_port_uafu, forget_uafu,
  parse_feature_port_uafu, note_fme, parse_fme_at, with_uafu, parse_port_at, parse_afu, afus_from,
  parse_feature_afus, parse_feature_fiu, parse_feature, list_from, parse_feature_list, ports_from,
  ports_of, parse_ports_from_fme, build_info_free, cci_pci_create_feature_devs,
}

-- The BAR that is mapped last, from `lo` to `end`.
abbrev pub Window : Platform → ℕ → ℕ → BuildInfo → Type 0
Window pf lo end b =
    (b.ioaddr ≡ lo) × (b.ioend ≡ end) × (end ≡ lo + pf.pci_resource_len b.current_bar)

-- `always` holds after every part, and `going` as long as there is no error; the parts may rely on
-- `going` and on an address in the window.
pub record Kept (pf : Platform) (always going : BuildInfo → Type 0) : Type 0 where
  pub always_of : (b : BuildInfo) → going b → always b
  pub note : (b : BuildInfo) (hdr : Option ℕ) → always b → always (record b { pfme_hdr = hdr })
  pub note_going : (b : BuildInfo) (hdr : Option ℕ) → going b → going (record b { pfme_hdr = hdr })
  pub enable :
      (b : BuildInfo) (size n : ℕ) (f : Bool)
      → always b
      → always (record b { uafu_size = size; resets = n; faulted = f })
  pub enable_going :
      (b : BuildInfo) (size n : ℕ) (f : Bool)
      → going b
      → going (record b { uafu_size = size; resets = n; faulted = f })
  pub fme :
      (lo end start : ℕ) (b : BuildInfo)
      → lo ≤ start
      → start < end
      → going b × Window pf lo end b
      → Ensures always (λ b. going b × Window pf lo end b) (parse_feature_fme pf start b)
  pub port :
      (lo end start : ℕ) (b : BuildInfo)
      → lo ≤ start
      → start < end
      → going b × Window pf lo end b
      → Ensures always (λ b. going b × Window pf lo end b) (parse_feature_port pf start b)
  pub instance_of :
      (lo end start : ℕ) (finfo : FeatureInfo) (vec_start vec_cnt : ℕ) (b : BuildInfo)
      → lo ≤ start
      → start < end
      → going b × Window pf lo end b
      → Ensures always
          (λ b. going b × Window pf lo end b)
          (create_feature_instance pf start finfo vec_start vec_cnt b)
  pub switch :
      (bar : ℕ) (b : BuildInfo)
      → going b
      → Ensures always (λ b. going b × Window pf b.ioaddr b.ioend b) (parse_start_from pf bar b)
  pub commit : (b : BuildInfo) → going b → always (build_info_commit_dev pf b).1
  pub free : (r : Status × BuildInfo) → always r.1 → always (build_info_free pf r).1

module _ (pf : Platform) (always going : BuildInfo → Type 0) (kept : Kept pf always going) where
  -- No error, and the window is the same.
  abbrev On : ℕ → ℕ → BuildInfo → Type 0
  On lo end b = going b × Window pf lo end b

  Fine : ℕ → ℕ → Status × BuildInfo → Type 0
  Fine lo end r = Ensures always (On lo end) r

  kept-Fine : (lo end : ℕ) (r : Status × BuildInfo) → Ensures always (On lo end) r → Fine lo end r
  unfolding Fine
  kept-Fine lo end r h = h

  ok-Fine : (lo end : ℕ) (b : BuildInfo) → On lo end b → Fine lo end (ok, b)
  unfolding Fine
  ok-Fine lo end b h = (kept.always_of b h.0, λ _. h)

  err-Fine : (lo end e : ℕ) (b : BuildInfo) → going b → Fine lo end (err e, b)
  unfolding Fine
  err-Fine lo end e b h = (kept.always_of b h, λ k. absurd (err-ne-ok e k))

  then-Fine :
      (lo end : ℕ) (r : Status × BuildInfo) (k : BuildInfo → Status × BuildInfo)
      → Fine lo end r
      → ((b : BuildInfo) → On lo end b → Fine lo end (k b))
      → Fine lo end (and_then r k)
  unfolding Fine
  then-Fine lo end r k h more = and_then-Ensures always (On lo end) (On lo end) r k h more

  note_fme-Fine :
      (lo end hdr : ℕ) (r : Status × BuildInfo) → Fine lo end r → Fine lo end (note_fme pf hdr r)
  unfolding Fine note_fme
  note_fme-Fine lo end hdr (ret, b) (p, q) =
      (kept.note b (some hdr) p, λ h. (kept.note_going b (some hdr) (q h).0, (q h).1))

  enable_port_uafu-Fine :
      (lo end hdr : ℕ) (r : Status × BuildInfo) → Fine lo end r → Fine lo end (with_uafu pf hdr r)
  unfolding Fine with_uafu enable_port_uafu
  enable_port_uafu-Fine lo end hdr (ret, b) (p, q) =
      let e = enable_port_uafu pf hdr b in
      (
        kept.enable b e.uafu_size e.resets e.faulted p,
        λ h. (kept.enable_going b e.uafu_size e.resets e.faulted (q h).0, (q h).1),
      )

  forget_uafu-Fine :
      (lo end : ℕ) (r : Status × BuildInfo) → Fine lo end r → Fine lo end (forget_uafu pf r)
  unfolding Fine forget_uafu
  forget_uafu-Fine lo end (ret, b) (p, q) = (
    kept.enable b 0 b.resets b.faulted p,
    λ h. (kept.enable_going b 0 b.resets b.faulted (q h).0, (q h).1),
  )

  -- One header.
  module _ (lo end hdr : ℕ) (low : lo ≤ hdr) (high : hdr < end) where
    parse_fme_at-Fine : (b : BuildInfo) → On lo end b → Fine lo end (parse_fme_at pf hdr b)
    unfolding parse_fme_at
    parse_fme_at-Fine b h =
        note_fme-Fine lo end hdr (parse_feature_fme pf hdr b)
          (kept-Fine lo end (parse_feature_fme pf hdr b) (kept.fme lo end hdr b low high h))

    parse_port_at-Fine : (b : BuildInfo) → On lo end b → Fine lo end (parse_port_at pf hdr b)
    unfolding parse_port_at
    parse_port_at-Fine b h =
        enable_port_uafu-Fine lo end hdr (parse_feature_port pf hdr b)
          (kept-Fine lo end (parse_feature_port pf hdr b) (kept.port lo end hdr b low high h))

    parse_feature_port_uafu-Fine :
        (b : BuildInfo) → On lo end b → Fine lo end (parse_feature_port_uafu pf hdr b)
    unfolding parse_feature_port_uafu
    parse_feature_port_uafu-Fine b h =
        let added = create_feature_instance pf hdr (info no_irq b.uafu_size 5) 0 0 b in
        elim (Bool-cases (b.uafu_size == 0)) [
          | inl e ↦ rw e (err-Fine lo end einval b h.0)
          | inr e ↦ rw e (
              forget_uafu-Fine lo end added (
                kept-Fine lo end added
                  (kept.instance_of lo end hdr (info no_irq b.uafu_size 5) 0 0 b low high h)))
        ]

    parse_afu-Fine : (b : BuildInfo) → On lo end b → Fine lo end (parse_afu pf hdr b)
    unfolding parse_afu
    parse_afu-Fine b h = elim (Bool-cases (pf.guid (hdr + 8) == pf.fme_guid)) [
      | inl e ↦ rw e (parse_fme_at-Fine b h)
      | inr e ↦ elim (Bool-cases (pf.guid (hdr + 8) == pf.port_guid)) [
        | inl f ↦ rw (e, f) (parse_port_at-Fine b h)
        | inr f ↦ elim (Bool-cases (is_port_dev b.feature_dev)) [
          | inl g ↦ rw (e, f, g) (parse_feature_port_uafu-Fine b h)
          | inr g ↦ rw (e, f, g) (ok-Fine lo end b h)
        ]
      ]
    ]

    add_private-Fine :
        (o : Option FeatureInfo) (b : BuildInfo)
        → On lo end b
        → Fine lo end (add_private pf hdr o b)
    unfolding add_private
    add_private-Fine none b h = ok-Fine lo end b h
    add_private-Fine (some finfo) b h =
        let v = parse_feature_irqs pf hdr finfo.irq_kind in
        kept-Fine lo end (create_feature_instance pf hdr finfo v.0 v.1 b)
          (kept.instance_of lo end hdr finfo v.0 v.1 b low high h)

    private_by-Fine :
        (type : IdType) (b : BuildInfo) → On lo end b → Fine lo end (private_by pf hdr type b)
    unfolding private_by parse_feature_fme_private parse_feature_port_private
    private_by-Fine fme_id b h =
        add_private-Fine (get_elem? fme_features (get_field feature_id (header_at pf hdr))) b h
    private_by-Fine port_id b h =
        let id = get_field feature_id (header_at pf hdr) % 16 + 1 in
        add_private-Fine (get_elem? (port_features b.uafu_size) id) b h

    private_of-Fine :
        (o : Option FeatureDev) (b : BuildInfo) → On lo end b → Fine lo end (private_of pf hdr o b)
    unfolding private_of
    private_of-Fine none b h = err-Fine lo end einval b h.0
    private_of-Fine (some dev) b h = private_by-Fine dev.id_type b h

    parse_feature_private-Fine :
        (b : BuildInfo) → On lo end b → Fine lo end (parse_feature_private pf hdr b)
    unfolding parse_feature_private
    parse_feature_private-Fine b h = private_of-Fine b.feature_dev b h

  afus_from-Fine :
      (fuel lo end start : ℕ) (b : BuildInfo)
      → lo ≤ start
      → On lo end b
      → Fine lo end (afus_from pf fuel end start b)
  unfolding afus_from
  afus_from-Fine zero lo end start b low h = err-Fine lo end einval b h.0
  afus_from-Fine (suc fuel) lo end start b low h = elim (Bool-cases (leb end start)) [
    | inl e ↦ rw e (ok-Fine lo end b h)
    | inr e ↦ elim (Bool-cases (ltb (end - start) 32)) [
      | inl f ↦ rw (e, f) (err-Fine lo end einval b h.0)
      | inr f ↦
          rw (e, f)
            (then-Fine lo end (parse_afu pf start b)
              (λ b'.
                unless (next_afu_at pf start == 0) (ok, b')
                  (λ _. afus_from pf fuel end (start + next_afu_at pf start) b'))
              (parse_afu-Fine lo end start low (ground (arith, e)) b h)
              (λ b' h'. elim (Bool-cases (next_afu_at pf start == 0)) [
                | inl g ↦ rw g (ok-Fine lo end b' h')
                | inr g ↦
                    rw g (
                      afus_from-Fine fuel lo end (start + next_afu_at pf start) b' (omega arith) h')
              ]))
    ]
  ]

  parse_feature_afus-Fine :
      (lo end hdr : ℕ) (b : BuildInfo)
      → lo ≤ hdr
      → On lo end b
      → Fine lo end (parse_feature_afus pf hdr b)
  unfolding parse_feature_afus
  parse_feature_afus-Fine lo end hdr b low h =
      subst (λ e. Fine lo end (afus_from pf (suc (e - hdr)) e hdr b)) (sym h.1.1)
        (afus_from-Fine (suc (end - hdr)) lo end hdr b low h)

  parse_feature_fiu-Fine :
      (lo end hdr : ℕ) (b : BuildInfo)
      → lo ≤ hdr
      → hdr < end
      → On lo end b
      → Fine lo end (parse_feature_fiu pf hdr b)
  unfolding parse_feature_fiu
  parse_feature_fiu-Fine lo end hdr b low high h =
      let id = get_field feature_id (header_at pf hdr) in
      let next = next_afu_at pf hdr in
      elim (Bool-cases (id == 0)) [
        | inl e ↦ rw e (parse_fme_at-Fine lo end hdr low high b h)
        | inr e ↦ elim (Bool-cases (id == 1)) [
          | inr f ↦ rw (e, f) (ok-Fine lo end b h)
          | inl f ↦
              rw (e, f)
                (then-Fine lo end (parse_port_at pf hdr b)
                  (λ b'. if next == 0 then (ok, b') else parse_feature_afus pf (hdr + next) b')
                  (parse_port_at-Fine lo end hdr low high b h)
                  (λ b' h'. elim (Bool-cases (next == 0)) [
                    | inl g ↦ rw g (ok-Fine lo end b' h')
                    | inr g ↦ rw g (parse_feature_afus-Fine lo end (hdr + next) b' (omega arith) h')
                  ]))
        ]
      ]

  parse_feature-Fine :
      (lo end hdr : ℕ) (b : BuildInfo)
      → lo ≤ hdr
      → hdr < end
      → On lo end b
      → Fine lo end (parse_feature pf hdr b)
  unfolding parse_feature
  parse_feature-Fine lo end hdr b low high h =
      let type = get_field feature_type (header_at pf hdr) in
      elim (Bool-cases (type == 1)) [
        | inl e ↦ rw e (parse_feature_afus-Fine lo end hdr b low h)
        | inr e ↦ elim (Bool-cases (type == 3)) [
          | inl f ↦ rw (e, f) (parse_feature_private-Fine lo end hdr low high b h)
          | inr f ↦ elim (Bool-cases (type == 4)) [
            | inl g ↦ rw (e, f, g) (parse_feature_fiu-Fine lo end hdr b low high h)
            | inr g ↦ rw (e, f, g) (ok-Fine lo end b h)
          ]
        ]
      ]

  list_from-Fine :
      (fuel lo end start : ℕ) (b : BuildInfo)
      → lo ≤ start
      → On lo end b
      → Fine lo end (list_from pf fuel end start b)
  unfolding list_from
  list_from-Fine zero lo end start b low h = err-Fine lo end einval b h.0
  list_from-Fine (suc fuel) lo end start b low h =
      let next = start + get_field next_header_offset (header_at pf start) in
      elim (Bool-cases (leb end start)) [
        | inl e ↦ rw e (ok-Fine lo end b h)
        | inr e ↦ elim (Bool-cases (ltb (end - start) 8)) [
          | inl f ↦ rw (e, f) (err-Fine lo end einval b h.0)
          | inr f ↦
              rw (e, f)
                (then-Fine lo end (parse_feature pf start b)
                  (λ b'. unless (is_last pf start) (ok, b') (λ _. list_from pf fuel end next b'))
                  (parse_feature-Fine lo end start b low (ground (arith, e)) h)
                  (λ b' h'. elim (Bool-cases (is_last pf start)) [
                    | inl g ↦ rw g (ok-Fine lo end b' h')
                    | inr g ↦ rw g (list_from-Fine fuel lo end next b' (omega arith) h')
                  ]))
        ]
      ]

  parse_feature_list-Fine :
      (lo end start : ℕ) (b : BuildInfo)
      → lo ≤ start
      → On lo end b
      → Fine lo end (parse_feature_list pf start b)
  unfolding parse_feature_list
  parse_feature_list-Fine lo end start b low h =
      subst (λ e. Fine lo end (list_from pf (suc (e - start)) e start b)) (sym h.1.1)
        (list_from-Fine (suc (end - start)) lo end start b low h)

  -- The list at some offset in the BAR that has just been mapped, and what follows.
  mapped-Ensures :
      (After : BuildInfo → Type 0) (offset : ℕ) (b : BuildInfo) (k : BuildInfo → Status × BuildInfo)
      → On b.ioaddr b.ioend b
      → ((b : BuildInfo) → going b → Ensures always After (k b))
      → Ensures always After (and_then (parse_feature_list pf (b.ioaddr + offset) b) k)
  unfolding Fine
  mapped-Ensures After offset b k h more =
      let start = b.ioaddr + offset in
      and_then-Ensures always (On b.ioaddr b.ioend) After (parse_feature_list pf start b) k
        (parse_feature_list-Fine b.ioaddr b.ioend start b (omega arith) h) (λ b' h'. more b' h'.0)

  ports_from-Ensures :
      (n fme_hdr i : ℕ) (b : BuildInfo)
      → going b
      → Ensures always going (ports_from pf fme_hdr n i b)
  unfolding ports_from
  ports_from-Ensures zero fme_hdr i b h = (kept.always_of b h, λ _. h)
  ports_from-Ensures (suc n) fme_hdr i b h =
      let csr = pf.readq (fme_hdr + 56 + 8 * i) in
      elim (Bool-cases (get_field port_implemented csr == 0)) [
        | inl e ↦ rw e ((kept.always_of b h, λ _. h))
        | inr e ↦ rw e (
            and_then-Ensures always (λ b. On b.ioaddr b.ioend b) going
              (parse_start_from pf (get_field port_bar csr) b)
              (λ b.
                and_then (parse_feature_list pf (b.ioaddr + get_field port_offset csr) b)
                  (ports_from pf fme_hdr n (i + 1)))
              (kept.switch (get_field port_bar csr) b h)
              (λ b h.
                mapped-Ensures going (get_field port_offset csr) b (ports_from pf fme_hdr n (i + 1))
                  h (ports_from-Ensures n fme_hdr (i + 1))))
      ]

  ports_of-Ensures :
      (o : Option ℕ) (b : BuildInfo) → going b → Ensures always going (ports_of pf o b)
  unfolding ports_of
  ports_of-Ensures none b h = (kept.always_of b h, λ _. h)
  ports_of-Ensures (some fme_hdr) b h = ports_from-Ensures 4 fme_hdr 0 b h

  -- The enumeration keeps what its parts keep.
  pub create_feature_devs-Kept :
      (b : BuildInfo) → going b → always (cci_pci_create_feature_devs pf b).1
  unfolding cci_pci_create_feature_devs parse_ports_from_fme
  create_feature_devs-Kept b h =
      let devices : BuildInfo → Status × BuildInfo =
        λ b. and_then (ports_of pf b.pfme_hdr b) (build_info_commit_dev pf) in
      let walk : BuildInfo → Status × BuildInfo =
        λ b. and_then (parse_feature_list pf b.ioaddr b) devices in
      let commit : (b : BuildInfo) → going b → Ensures always always (build_info_commit_dev pf b) =
        λ b h. (kept.commit b h, λ _. kept.commit b h) in
      kept.free (and_then (parse_start_from pf 0 b) walk)
        (and_then-Ensures always (λ b. On b.ioaddr b.ioend b) always (parse_start_from pf 0 b) walk
          (kept.switch 0 b h)
          (λ b h.
            let zero_end : (a : ℕ) → a + 0 ≡ a = λ a. omega arith in
            subst (λ a. Ensures always always (and_then (parse_feature_list pf a b) devices))
              (zero_end b.ioaddr)
              (mapped-Ensures always 0 b devices h (λ b h.
                and_then-Ensures always going always (ports_of pf b.pfme_hdr b)
                  (build_info_commit_dev pf) (ports_of-Ensures b.pfme_hdr b h) commit)))).0
