-- ===== src/FmePerf/Counters.antt =====
-- A read of a counter, on a device that answers.
use opae_intel_fpga_driver.Base.{
  ℕ, ◌+◌, ◌%◌, ◌^◌, ◌≤◌, ◌≡◌, refl, ◌∙◌, arith, ◌⊎◌, inl, inr, true, false, Bool-cases, Status, ok,
}
use opae_intel_fpga_driver.Csr.{
  Field, get_field, set_field, cache_event, cci_chsel, cache_counter, event_code, vtd_evtcode,
  vtd_counter, fab_evtcode, fab_cnt,
}
use opae_intel_fpga_driver.Csr.Fields.{get_field-set_field}
use opae_intel_fpga_driver.Mmio.{
  Reg, Bus, fpga_wait_register_field, iperf_ch_ctl, iperf_ch_ctr0, iperf_ch_ctr1, iperf_vtd_ctl,
  iperf_vtd_ctr, iperf_vtd_sip_ctl, iperf_vtd_sip_ctr, iperf_fab_ctl, iperf_fab_ctr,
}
use opae_intel_fpga_driver.Mmio.Poll.{after_rounds, seen, fpga_wait_register_field_lem}
use opae_intel_fpga_driver.FmePerf.{
  ObjId, Reading, counter, iperf_timeout, event_of, sum_of_counters, read_cache_counter,
  counter_after, read_iommu_sip_counter, read_iommu_counter, read_enabled, fabric_pobj_is_enabled,
  read_fabric_counter,
}

module _ {H : Type 0} (bus : Bus H) where
  -- The counter registers follow the event that is written to the control register: the field
  -- `event_code` shows it at some read within the timeout.
  abbrev pub Follows : Reg → Field → Reg → Type 0
  Follows ctl f ctr =
      (value : ℕ) (h : H)
      → (k : ℕ) × (k ≤ iperf_timeout)
        × (seen bus event_code ctr 1 k (bus.writeq ctl value h) ≡ get_field f value)

  -- The wait ends well, right after a read that showed the event.
  abbrev Waited : Reg → ℕ → H → Status × H → Type 0
  Waited ctr event h w =
      (k : ℕ) × (k ≤ iperf_timeout)
      × (seen bus event_code ctr 1 k h ≡ event)
      × (w ≡ (ok, (bus.readq ctr (after_rounds bus event_code ctr 1 k h)).1))

  Follows-Waited :
      (ctl : Reg) (f : Field) (ctr : Reg) (value event : ℕ) (h : H)
      → Follows ctl f ctr
      → get_field f value ≡ event
      → let h' = bus.writeq ctl value h in
        Waited ctr event h' (fpga_wait_register_field bus event_code ctr event iperf_timeout 1 h')
  Follows-Waited ctl f ctr value event h follows e =
      let h' = bus.writeq ctl value h in
      let (k, le, shown) = follows value h in
      elim (fpga_wait_register_field_lem bus event_code ctr 1 event iperf_timeout h'
        (omega arith)) [
          | inl (j, in_time, _, hit, r) ↦ (j, omega (arith, in_time), hit, r)
          | inr (never, _) ↦ absurd (never k (omega (arith, le)) (shown ∙ e))
        ]

  -- All four groups of counters do.
  pub record Answers : Type 0 where
    pub cache : Follows iperf_ch_ctl cache_event iperf_ch_ctr0
    pub sip : Follows iperf_vtd_sip_ctl vtd_evtcode iperf_vtd_sip_ctr
    pub iommu : Follows iperf_vtd_ctl vtd_evtcode iperf_vtd_ctr
    pub fabric : Follows iperf_fab_ctl fab_evtcode iperf_fab_ctr

  -- After the write of the event to the control register, which leaves the state `h`, the counter
  -- register showed the event, and the reading is `f` of the register in the read right after that.
  abbrev pub ReadsCounter : Reg → Field → ℕ → H → Reading × H → Type 0
  ReadsCounter ctr f event h r =
      (k : ℕ) × (k ≤ iperf_timeout)
      × (seen bus event_code ctr 1 k h ≡ event % 2 ^ 4)
      × (let (csr, g) = bus.readq ctr (bus.readq ctr (after_rounds bus event_code ctr 1 k h)).1 in
          r ≡ (counter (get_field f csr), g))

  -- The same for the two counters of the cache, which are added.
  abbrev pub ReadsSum : ℕ → H → Reading × H → Type 0
  ReadsSum event h r =
      (k : ℕ) × (k ≤ iperf_timeout)
      × (seen bus event_code iperf_ch_ctr0 1 k h ≡ event % 2 ^ 4)
      × (let (csr0, g) =
            bus.readq iperf_ch_ctr0
              (bus.readq iperf_ch_ctr0 (after_rounds bus event_code iperf_ch_ctr0 1 k h)).1 in
          let (csr1, g') = bus.readq iperf_ch_ctr1 g in
          r
          ≡ (counter ((get_field cache_counter csr0 + get_field cache_counter csr1) % 2 ^ 48), g'))

  counter_after-ReadsCounter :
      (ctr : Reg) (f : Field) (event : ℕ) (h : H) (w : Status × H)
      → Waited ctr (event % 2 ^ 4) h w
      → ReadsCounter ctr f event h (counter_after bus ctr f w)
  unfolding counter_after
  counter_after-ReadsCounter ctr f event h w (k, le, hit, e) = (k, le, hit, rw e refl)

  -- The state right after the event was written to the control register.
  abbrev pub selected : Reg → (ℕ → ℕ) → H → H
  selected ctl change h = let (csr, g) = bus.readq ctl h in bus.writeq ctl (change csr) g

  sip_answers :
      (event : ℕ) (h : H)
      → Answers
      → ReadsCounter iperf_vtd_sip_ctr vtd_counter event
          (selected iperf_vtd_sip_ctl (set_field vtd_evtcode event) h)
          (read_iommu_sip_counter bus event h)
  unfolding read_iommu_sip_counter
  sip_answers event h a =
      let (csr, g) = bus.readq iperf_vtd_sip_ctl h in
      counter_after-ReadsCounter iperf_vtd_sip_ctr vtd_counter event _ _ (
        Follows-Waited iperf_vtd_sip_ctl vtd_evtcode iperf_vtd_sip_ctr
          (set_field vtd_evtcode event csr) (event % 2 ^ 4) g a.sip
          (get_field-set_field vtd_evtcode event csr))

  iommu_answers :
      (id : ObjId) (base_event : ℕ) (h : H)
      → Answers
      → ReadsCounter iperf_vtd_ctr vtd_counter
          (event_of base_event id)
          (selected iperf_vtd_ctl (set_field vtd_evtcode (event_of base_event id)) h)
          (read_iommu_counter bus id base_event h)
  unfolding read_iommu_counter
  iommu_answers id base_event h a =
      let event = event_of base_event id in
      let (csr, g) = bus.readq iperf_vtd_ctl h in
      counter_after-ReadsCounter iperf_vtd_ctr vtd_counter event _ _ (
        Follows-Waited iperf_vtd_ctl vtd_evtcode iperf_vtd_ctr (set_field vtd_evtcode event csr)
          (event % 2 ^ 4) g a.iommu (get_field-set_field vtd_evtcode event csr))

  fabric_answers :
      (event : ℕ) (h : H)
      → Answers
      → ReadsCounter iperf_fab_ctr fab_cnt event
          (selected iperf_fab_ctl (set_field fab_evtcode event) h)
          (read_enabled bus event h)
  unfolding read_enabled
  fabric_answers event h a =
      let (csr, g) = bus.readq iperf_fab_ctl h in
      counter_after-ReadsCounter iperf_fab_ctr fab_cnt event _ _ (
        Follows-Waited iperf_fab_ctl fab_evtcode iperf_fab_ctr (set_field fab_evtcode event csr)
          (event % 2 ^ 4) g a.fabric (get_field-set_field fab_evtcode event csr))

  cache_answers :
      (channel event : ℕ) (h : H)
      → Answers
      → ReadsSum event
          (selected iperf_ch_ctl
            (λ csr. set_field cache_event event (set_field cci_chsel channel csr))
            h)
          (read_cache_counter bus channel event h)
  unfolding read_cache_counter sum_of_counters
  cache_answers channel event h a =
      let (csr, g) = bus.readq iperf_ch_ctl h in
      let channelled = set_field cci_chsel channel csr in
      let (k, le, hit, e) =
        Follows-Waited iperf_ch_ctl cache_event iperf_ch_ctr0
          (set_field cache_event event channelled) (event % 2 ^ 4) g a.cache
          (get_field-set_field cache_event event channelled) in
      (k, le, hit, rw e refl)

  -- When each counter register shows, at some read within the timeout, the event that was written to
  -- its control register: no read of a counter fails. A counter of the cache, of the IOMMU or of an
  -- instance of it reads as what its register shows right after it showed the event, the cache's as
  -- the sum of its two registers cut to 48 bits; so does a counter of the fabric whose object is
  -- enabled, and another one reads as 0.
  pub counters_answer :
      (channel event : ℕ) (id : ObjId) (h : H)
      → Answers
      → ReadsSum event
          (selected iperf_ch_ctl
            (λ csr. set_field cache_event event (set_field cci_chsel channel csr))
            h)
          (read_cache_counter bus channel event h)
        × ReadsCounter iperf_vtd_sip_ctr vtd_counter event
            (selected iperf_vtd_sip_ctl (set_field vtd_evtcode event) h)
            (read_iommu_sip_counter bus event h)
        × ReadsCounter iperf_vtd_ctr vtd_counter
            (event_of event id)
            (selected iperf_vtd_ctl (set_field vtd_evtcode (event_of event id)) h)
            (read_iommu_counter bus id event h)
        × (let (enabled, g) = fabric_pobj_is_enabled bus id h in
            let r = read_fabric_counter bus id event h in
            ((enabled ≡ false) × (r.0 ≡ counter 0))
            ⊎ ((enabled ≡ true)
                × ReadsCounter iperf_fab_ctr fab_cnt event
                    (selected iperf_fab_ctl (set_field fab_evtcode event) g)
                    r))
  unfolding read_fabric_counter
  counters_answer channel event id h a = (
    cache_answers channel event h a,
    sip_answers event h a,
    iommu_answers id event h a,
    let (enabled, g) = fabric_pobj_is_enabled bus id h in
        elim (Bool-cases enabled) [
          | inl e ↦ inr (e, rw e (fabric_answers event g a))
          | inr e ↦ inl (e, rw e refl)
        ],
  )
