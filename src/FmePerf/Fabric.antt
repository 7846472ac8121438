-- ===== src/FmePerf/Fabric.antt =====
-- Which object of the fabric counts, after any history of uses of the files.
use opae_intel_fpga_driver.Base.{
  ℕ, ◌<◌, ◌≡◌, ◌≢◌, refl, sym, ap, ◌∙◌, arith, ◌⊎◌, inl, inr, Bool, true, false, Option, none, some,
  Bool-cases, if◌then◌else◌, ◌==◌, Status, ok, err,
}
use mathlib.Core.Path.{subst}
use opae_intel_fpga_driver.Csr.{
  Field, get_field, set_field, freeze, port_id, port_filter, fab_evtcode,
}
use opae_intel_fpga_driver.Csr.Fields.{get_field-set_field, set_field_other, Disjoint}
use opae_intel_fpga_driver.Mmio.{
  Reg, Bus, fpga_wait_register_field, iperf_fab_ctl, iperf_ch_ctl, iperf_vtd_ctl, iperf_vtd_sip_ctl,
}
use opae_intel_fpga_driver.Mmio.Plain.{Plain, fpga_wait_register_field_keeps}
use opae_intel_fpga_driver.FmePerf.{
  ObjId, root, instance_of, counter, fab_disable_filter, fab_enable_filter, fab_freeze_store,
  sum_of_counters, read_cache_counter, counter_after, read_iommu_sip_counter, read_iommu_counter,
  fabric_pobj_is_enabled, read_enabled, read_fabric_counter, fab_enable_show, select_obj,
  fab_enable_store,
}

abbrev pub same_obj : ObjId → ObjId → Bool
same_obj root root = true
same_obj root (instance_of j) = false
same_obj (instance_of i) root = false
same_obj (instance_of i) (instance_of j) = i == j

-- The number of an instance fits into the bit-field for it.
abbrev pub Fits : ObjId → Type 0
Fits root = Unit {0}
Fits (instance_of i) = i < 4

-- The object that counts after a request for `id`, when `current` counts before it.
abbrev pub chosen : ObjId → Option Bool → ObjId → ObjId
chosen id none current = current
chosen id (some state) current = if state then id else current

module _ {H : Type 0} (bus : Bus H) (filter : Plain bus iperf_fab_ctl port_filter)
    (port : Plain bus iperf_fab_ctl port_id) where
  -- The device counts for the object.
  abbrev pub Counts : ObjId → H → Type 0
  Counts root h = filter.shows h ≡ fab_disable_filter
  Counts (instance_of i) h = (filter.shows h ≡ fab_enable_filter) × (port.shows h ≡ i)

  -- What leaves the two bit-fields leaves the object that counts.
  Counts-kept :
      (id : ObjId) (g h : H)
      → filter.shows g ≡ filter.shows h
      → port.shows g ≡ port.shows h
      → Counts id h
      → Counts id g
  Counts-kept root g h a b c = a ∙ c
  Counts-kept (instance_of i) g h a b (c, d) = (a ∙ c, b ∙ d)

  readq-Counts : (r : Reg) (id : ObjId) (h : H) → Counts id h → Counts id (bus.readq r h).1
  readq-Counts r id h =
      Counts-kept id (bus.readq r h).1 h (filter.readq_keeps r h) (port.readq_keeps r h)

  wait-Counts :
      (f : Field) (r : Reg) (e t i : ℕ) (id : ObjId) (h : H)
      → Counts id h
      → Counts id (fpga_wait_register_field bus f r e t i h).1
  wait-Counts f r e t i id h =
      Counts-kept id (fpga_wait_register_field bus f r e t i h).1 h
        (fpga_wait_register_field_keeps bus filter f r e t i h)
        (fpga_wait_register_field_keeps bus port f r e t i h)

  writeq_other-Counts :
      (r : Reg) (v : ℕ) (id : ObjId) (h : H)
      → r ≢ iperf_fab_ctl
      → Counts id h
      → Counts id (bus.writeq r v h)
  writeq_other-Counts r v id h ne =
      Counts-kept id (bus.writeq r v h) h (filter.writeq_other r v h ne)
        (port.writeq_other r v h ne)

  -- Reading the control register and writing it back with another bit-field changed.
  write_back-Counts :
      (f : Field) (v : ℕ) (id : ObjId) (h : H)
      → Disjoint port_filter f
      → Disjoint port_id f
      → Counts id h
      → let (ctl, h') = bus.readq iperf_fab_ctl h in
        Counts id (bus.writeq iperf_fab_ctl (set_field f v ctl) h')
  write_back-Counts f v id h df dp =
      let (ctl, h') = bus.readq iperf_fab_ctl h in
      let new = set_field f v ctl in
      Counts-kept id (bus.writeq iperf_fab_ctl new h') h
        (filter.writeq_self new h' ∙ set_field_other port_filter f v ctl df ∙ filter.read h)
        (port.writeq_self new h' ∙ set_field_other port_id f v ctl dp ∙ port.read h)

  counter_after-Counts :
      (r : Reg) (f : Field) (id : ObjId) (w : Status × H)
      → Counts id w.1
      → Counts id (counter_after bus r f w).1
  unfolding counter_after
  counter_after-Counts r f id (ok, h) c = readq-Counts r id h c
  counter_after-Counts r f id (err e, h) c = c

  sum_of_counters-Counts :
      (id : ObjId) (w : Status × H) → Counts id w.1 → Counts id (sum_of_counters bus w).1
  unfolding sum_of_counters
  sum_of_counters-Counts id (ok, h) c = readq-Counts _ id _ (readq-Counts _ id h c)
  sum_of_counters-Counts id (err e, h) c = c

  -- The object that counts is the one that the files show as enabled.
  enabled_lem :
      (id b : ObjId) (h : H) → Counts id h → (fabric_pobj_is_enabled bus b h).0 ≡ same_obj b id
  unfolding fabric_pobj_is_enabled
  enabled_lem root root h c = rw (filter.read h, c) refl
  enabled_lem root (instance_of j) h c = rw (filter.read h, c) refl
  enabled_lem (instance_of i) root h (c, d) = rw (filter.read h, c) refl
  enabled_lem (instance_of i) (instance_of j) h (c, d) = rw (filter.read h, c, port.read h, d) refl

  is_enabled-Counts :
      (id b : ObjId) (h : H) → Counts id h → Counts id (fabric_pobj_is_enabled bus b h).1
  unfolding fabric_pobj_is_enabled
  is_enabled-Counts id b h c =
      let ctl = (bus.readq iperf_fab_ctl h).0 in
      elim (Bool-cases (get_field port_filter ctl == fab_disable_filter)) [
        | inl e ↦ rw e (readq-Counts iperf_fab_ctl id h c)
        | inr e ↦ rw e (readq-Counts iperf_fab_ctl id h c)
      ]

  select_obj-Counts :
      (id : ObjId) (ctl : ℕ) (h : H)
      → Fits id
      → Counts id (bus.writeq iperf_fab_ctl (select_obj id ctl) h)
  unfolding select_obj
  select_obj-Counts root ctl h fits =
      filter.writeq_self (set_field port_filter fab_disable_filter ctl) h
      ∙ get_field-set_field port_filter fab_disable_filter ctl
  select_obj-Counts (instance_of i) ctl h fits =
      let on = set_field port_filter fab_enable_filter ctl in
      let new = set_field port_id i on in
      (
        filter.writeq_self new h
            ∙ set_field_other port_filter port_id i on (inr (omega arith))
            ∙ get_field-set_field port_filter fab_enable_filter ctl,
        port.writeq_self new h ∙ get_field-set_field port_id i on ∙ omega (arith, fits),
      )

  same_obj_eq : (a b : ObjId) → same_obj a b ≡ true → a ≡ b
  same_obj_eq root root e = refl
  same_obj_eq root (instance_of j) e = absurd (cc e)
  same_obj_eq (instance_of i) root e = absurd (cc e)
  same_obj_eq (instance_of i) (instance_of j) e = ap instance_of (ground (arith, e))

  fab_enable_store-Counts :
      (id current : ObjId) (arg : Option Bool) (h : H)
      → Fits id
      → Counts current h
      → Counts (chosen id arg current) (fab_enable_store bus id arg h).1
  unfolding fab_enable_store
  fab_enable_store-Counts id current none h fits c = c
  fab_enable_store-Counts id current (some false) h fits c = c
  fab_enable_store-Counts id current (some true) h fits c =
      let h1 = (fabric_pobj_is_enabled bus id h).1 in
      let (ctl, h2) = bus.readq iperf_fab_ctl h1 in
      elim (Bool-cases (fabric_pobj_is_enabled bus id h).0) [
        | inl e ↦
            let same : current ≡ id =
              sym (same_obj_eq id current (sym (enabled_lem current id h c) ∙ e)) in
            rw e (subst (λ x. Counts x h1) same (is_enabled-Counts current id h c))
        | inr e ↦ rw e (select_obj-Counts id ctl h2 fits)
      ]

  -- `Reach current h`: the device can be in the state `h` after uses of the files, and `current` is
  -- the object that was enabled last.
  pub data Reach : ObjId → H → Type 0 where
    begin : (current : ObjId) (h : H) → Counts current h → Reach current h
    enable :
        (current id : ObjId) (arg : Option Bool) (h : H)
        → Fits id
        → Reach current h
        → Reach (chosen id arg current) (fab_enable_store bus id arg h).1
    fab_freeze :
        (current : ObjId) (arg : Option Bool) (h : H)
        → Reach current h
        → Reach current (fab_freeze_store bus arg h).1
    fabric_read :
        (current id : ObjId) (event : ℕ) (h : H)
        → Reach current h
        → Reach current (read_fabric_counter bus id event h).1
    cache_read :
        (current : ObjId) (channel event : ℕ) (h : H)
        → Reach current h
        → Reach current (read_cache_counter bus channel event h).1
    sip_read :
        (current : ObjId) (event : ℕ) (h : H)
        → Reach current h
        → Reach current (read_iommu_sip_counter bus event h).1
    iommu_read :
        (current id : ObjId) (event : ℕ) (h : H)
        → Reach current h
        → Reach current (read_iommu_counter bus id event h).1

  fab_freeze_store-Counts :
      (id : ObjId) (arg : Option Bool) (h : H)
      → Counts id h
      → Counts id (fab_freeze_store bus arg h).1
  unfolding fab_freeze_store
  fab_freeze_store-Counts id none h c = c
  fab_freeze_store-Counts id (some state) h c =
      write_back-Counts freeze (if state then 1 else 0) id h (inr (omega arith)) (inr (omega arith))
        c

  read_fabric_counter-Counts :
      (id b : ObjId) (event : ℕ) (h : H)
      → Counts id h
      → Counts id (read_fabric_counter bus b event h).1
  unfolding read_fabric_counter read_enabled
  read_fabric_counter-Counts id b event h c =
      let c1 = is_enabled-Counts id b h c in
      let h1 = (fabric_pobj_is_enabled bus b h).1 in
      elim (Bool-cases (fabric_pobj_is_enabled bus b h).0) [
        | inr e ↦ rw e c1
        | inl e ↦ rw e (
            counter_after-Counts _ _ id _ (
              wait-Counts _ _ _ _ _ id _ (
                write_back-Counts fab_evtcode event id h1 (inr (omega arith)) (inr (omega arith))
                  c1)))
      ]

  read_cache_counter-Counts :
      (id : ObjId) (channel event : ℕ) (h : H)
      → Counts id h
      → Counts id (read_cache_counter bus channel event h).1
  unfolding read_cache_counter
  read_cache_counter-Counts id channel event h c = sum_of_counters-Counts id _ (
      wait-Counts _ _ _ _ _ id _
        (writeq_other-Counts iperf_ch_ctl _ id _ (λ k. cc) (readq-Counts iperf_ch_ctl id h c)))

  read_iommu_sip_counter-Counts :
      (id : ObjId) (event : ℕ) (h : H)
      → Counts id h
      → Counts id (read_iommu_sip_counter bus event h).1
  unfolding read_iommu_sip_counter
  read_iommu_sip_counter-Counts id event h c = counter_after-Counts _ _ id _ (
      wait-Counts _ _ _ _ _ id _ (
        writeq_other-Counts iperf_vtd_sip_ctl _ id _ (λ k. cc)
          (readq-Counts iperf_vtd_sip_ctl id h c)))

  read_iommu_counter-Counts :
      (id b : ObjId) (event : ℕ) (h : H)
      → Counts id h
      → Counts id (read_iommu_counter bus b event h).1
  unfolding read_iommu_counter
  read_iommu_counter-Counts id b event h c = counter_after-Counts _ _ id _ (
      wait-Counts _ _ _ _ _ id _
        (writeq_other-Counts iperf_vtd_ctl _ id _ (λ k. cc) (readq-Counts iperf_vtd_ctl id h c)))

  Reach-Counts : (current : ObjId) (h : H) → Reach current h → Counts current h
  Reach-Counts _ _ (begin current h c) = c
  Reach-Counts _ _ (enable current id arg h fits r) =
      fab_enable_store-Counts id current arg h fits (Reach-Counts current h r)
  Reach-Counts _ _ (fab_freeze current arg h r) =
      fab_freeze_store-Counts current arg h (Reach-Counts current h r)
  Reach-Counts _ _ (fabric_read current id event h r) =
      read_fabric_counter-Counts current id event h (Reach-Counts current h r)
  Reach-Counts _ _ (cache_read current channel event h r) =
      read_cache_counter-Counts current channel event h (Reach-Counts current h r)
  Reach-Counts _ _ (sip_read current event h r) =
      read_iommu_sip_counter-Counts current event h (Reach-Counts current h r)
  Reach-Counts _ _ (iommu_read current id event h r) =
      read_iommu_counter-Counts current id event h (Reach-Counts current h r)

  -- When the port filter and the port number of the fabric's control register hold what is written:
  -- after any history of requests to enable an object whose number fits into 2 bits, of freezing the
  -- fabric's counters and of reading counters, the `enable` file shows 1 for the object that was
  -- enabled last and 0 for every other, and a fabric counter of any other object reads as 0.
  pub Reach-Exclusive :
      (current b : ObjId) (event : ℕ) (h : H)
      → Reach current h
      → ((fab_enable_show bus b h).0 ≡ same_obj b current)
        × ((b ≡ current) ⊎ ((read_fabric_counter bus b event h).0 ≡ counter 0))
  unfolding fab_enable_show read_fabric_counter
  Reach-Exclusive current b event h r =
      let shown = enabled_lem current b h (Reach-Counts current h r) in
      (
        shown,
        elim (Bool-cases (same_obj b current)) [
          | inl e ↦ inl (same_obj_eq b current e)
          | inr e ↦ inr (rw (shown ∙ e) refl)
        ],
      )
