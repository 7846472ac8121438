-- ===== src/FmePerf.antt =====
-- The performance counters of the FME, drivers/fpga/intel/fme-iperf.c.
pub mod Counters
pub mod Fabric
pub mod Tree
mod Tests
use opae_intel_fpga_driver.Base.{
  ℕ, ◌+◌, ◌-◌, ◌%◌, ◌^◌, Bool, true, false, Option, none, some, if◌then◌else◌, ◌==◌, Status, ok,
  err, einval, etimedout,
}
use opae_intel_fpga_driver.Csr.{
  Field, get_field, set_field, freeze, cache_event, cci_chsel, cache_counter, event_code,
  vtd_evtcode, vtd_counter, fab_evtcode, port_id, port_filter, fab_cnt, revision,
}
use opae_intel_fpga_driver.Mmio.{
  Reg, Bus, fpga_wait_register_field, iperf_header, iperf_clk, iperf_ch_ctl, iperf_ch_ctr0,
  iperf_ch_ctr1, iperf_vtd_ctl, iperf_vtd_ctr, iperf_vtd_sip_ctl, iperf_vtd_sip_ctr, iperf_fab_ctl,
  iperf_fab_ctr,
}

-- `pobj->id`: PERF_OBJ_ROOT_ID, or the number of an instance.
pub data ObjId : Type 0 where
  root : ObjId
  instance_of : ℕ → ObjId

-- What a read of a counter's file gives: a number, or an error.
pub data Reading : Type 0 where
  counter : ℕ → Reading
  failed : ℕ → Reading

abbrev pub iperf_timeout : ℕ
iperf_timeout = 30

-- FAB_DISABLE_FILTER and FAB_ENABLE_FILTER
abbrev pub fab_disable_filter : ℕ
fab_disable_filter = 0

abbrev pub fab_enable_filter : ℕ
fab_enable_filter = 1

-- `pobj->id == PERF_OBJ_ROOT_ID`
abbrev pub is_root : ObjId → Bool
is_root root = true
is_root (instance_of i) = false

-- `pobj->id == port`, where the root's id is -1.
abbrev pub is_port : ObjId → ℕ → Bool
is_port root port = false
is_port (instance_of i) port = i == port

-- `base_event + pobj->id`, for an instance.
abbrev pub event_of : ℕ → ObjId → ℕ
event_of base_event root = base_event + (2 ^ 32 - 1)
event_of base_event (instance_of i) = base_event + i

-- The control register with the object `id` selected.
unfoldable pub select_obj : ObjId → ℕ → ℕ
select_obj root ctl = set_field port_filter fab_disable_filter ctl
select_obj (instance_of i) ctl = set_field port_id i (set_field port_filter fab_enable_filter ctl)

module _ {H : Type 0} (bus : Bus H) where
  unfoldable pub revision_show : H → ℕ × H
  revision_show h = let (csr, h') = bus.readq iperf_header h in (get_field revision csr, h')

  unfoldable pub clock_show : H → ℕ × H
  clock_show h = bus.readq iperf_clk h

  -- `none` is a text that is no Boolean. `ok` stands for the result `n`.
  unfoldable pub freeze_store : Option Bool → H → Status × H
  freeze_store none h = (err einval, h)
  freeze_store (some state) h =
      let (csr, h1) = bus.readq iperf_ch_ctl h in
      (ok, bus.writeq iperf_ch_ctl (set_field freeze (if state then 1 else 0) csr) h1)

  unfoldable pub vtd_freeze_store : Option Bool → H → Status × H
  vtd_freeze_store none h = (err einval, h)
  vtd_freeze_store (some state) h =
      let (csr, h1) = bus.readq iperf_vtd_ctl h in
      (ok, bus.writeq iperf_vtd_ctl (set_field freeze (if state then 1 else 0) csr) h1)

  unfoldable pub fab_freeze_store : Option Bool → H → Status × H
  fab_freeze_store none h = (err einval, h)
  fab_freeze_store (some state) h =
      let (csr, h1) = bus.readq iperf_fab_ctl h in
      (ok, bus.writeq iperf_fab_ctl (set_field freeze (if state then 1 else 0) csr) h1)

  unfoldable pub freeze_show : H → ℕ × H
  freeze_show h = let (csr, h') = bus.readq iperf_ch_ctl h in (get_field freeze csr, h')

  unfoldable pub vtd_freeze_show : H → ℕ × H
  vtd_freeze_show h = let (csr, h') = bus.readq iperf_vtd_ctl h in (get_field freeze csr, h')

  unfoldable pub fab_freeze_show : H → ℕ × H
  fab_freeze_show h = let (csr, h') = bus.readq iperf_fab_ctl h in (get_field freeze csr, h')

  -- Given the result of the wait. The two counters are bit-fields of 48 bits, and so is their sum.
  unfoldable pub sum_of_counters : Status × H → Reading × H
  sum_of_counters (err e, h) = (failed etimedout, h)
  sum_of_counters (ok, h) =
      let (ctr0, h1) = bus.readq iperf_ch_ctr0 h in
      let (ctr1, h2) = bus.readq iperf_ch_ctr1 h1 in
      (counter ((get_field cache_counter ctr0 + get_field cache_counter ctr1) % 2 ^ 48), h2)

  unfoldable pub read_cache_counter : ℕ → ℕ → H → Reading × H
  unfolding sum_of_counters
  read_cache_counter channel event h =
      let (ctl, h1) = bus.readq iperf_ch_ctl h in
      let selected = set_field cache_event event (set_field cci_chsel channel ctl) in
      let h2 = bus.writeq iperf_ch_ctl selected h1 in
      sum_of_counters
        (fpga_wait_register_field bus event_code iperf_ch_ctr0 (event % 2 ^ 4) iperf_timeout 1 h2)

  -- The end of the other reads, given the result of the wait.
  unfoldable pub counter_after : Reg → Field → Status × H → Reading × H
  counter_after r f (err e, h) = (failed etimedout, h)
  counter_after r f (ok, h) = let (ctr, h') = bus.readq r h in (counter (get_field f ctr), h')

  unfoldable pub read_iommu_sip_counter : ℕ → H → Reading × H
  unfolding counter_after
  read_iommu_sip_counter event h =
      let (ctl, h1) = bus.readq iperf_vtd_sip_ctl h in
      let h2 = bus.writeq iperf_vtd_sip_ctl (set_field vtd_evtcode event ctl) h1 in
      counter_after iperf_vtd_sip_ctr vtd_counter (
        fpga_wait_register_field bus event_code iperf_vtd_sip_ctr (event % 2 ^ 4) iperf_timeout 1
          h2)

  unfoldable pub read_iommu_counter : ObjId → ℕ → H → Reading × H
  unfolding counter_after
  read_iommu_counter id base_event h =
      let event = event_of base_event id in
      let (ctl, h1) = bus.readq iperf_vtd_ctl h in
      let h2 = bus.writeq iperf_vtd_ctl (set_field vtd_evtcode event ctl) h1 in
      counter_after iperf_vtd_ctr vtd_counter
        (fpga_wait_register_field bus event_code iperf_vtd_ctr (event % 2 ^ 4) iperf_timeout 1 h2)

  unfoldable pub fabric_pobj_is_enabled : ObjId → H → Bool × H
  fabric_pobj_is_enabled id h =
      let (ctl, h') = bus.readq iperf_fab_ctl h in
      if get_field port_filter ctl == fab_disable_filter
      then (is_root id, h')
      else (is_port id (get_field port_id ctl), h')

  unfoldable pub read_enabled : ℕ → H → Reading × H
  unfolding counter_after
  read_enabled event h =
      let (ctl, h1) = bus.readq iperf_fab_ctl h in
      let h2 = bus.writeq iperf_fab_ctl (set_field fab_evtcode event ctl) h1 in
      counter_after iperf_fab_ctr fab_cnt
        (fpga_wait_register_field bus event_code iperf_fab_ctr (event % 2 ^ 4) iperf_timeout 1 h2)

  unfoldable pub read_fabric_counter : ObjId → ℕ → H → Reading × H
  unfolding read_enabled
  read_fabric_counter id event h =
      let (enabled, h') = fabric_pobj_is_enabled id h in
      if enabled then read_enabled event h' else (counter 0, h')

  unfoldable pub fab_enable_show : ObjId → H → Bool × H
  fab_enable_show id h = fabric_pobj_is_enabled id h

  unfoldable pub fab_enable_store : ObjId → Option Bool → H → Status × H
  unfolding select_obj
  fab_enable_store id none h = (err einval, h)
  fab_enable_store id (some false) h = (err einval, h)
  fab_enable_store id (some true) h =
      let (enabled, h1) = fabric_pobj_is_enabled id h in
      let (ctl, h2) = bus.readq iperf_fab_ctl h1 in
      if enabled then (ok, h1) else (ok, bus.writeq iperf_fab_ctl (select_obj id ctl) h2)
