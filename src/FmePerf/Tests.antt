-- ===== src/FmePerf/Tests.antt =====
-- A device whose counters follow the selected event at once, and the theorems at it.
use opae_intel_fpga_driver.Base.{
  ℕ, ◌+◌, ◌/◌, ◌%◌, ◌^◌, ◌≡◌, ◌≢◌, refl, ap, ◌∙◌, arith, ◌⊎◌, true, false, none, some, Status, ok,
  err, eio,
}
use mathlib.Core.Path.{subst}
use opae_intel_fpga_driver.Csr.{
  Field, get_field, set_field, event_code, cache_event, cci_chsel, vtd_evtcode, vtd_counter,
  fab_evtcode, fab_cnt, port_filter, port_id,
}
use opae_intel_fpga_driver.Csr.Fields.{get_field-set_field}
use opae_intel_fpga_driver.Mmio.{
  Reg, Bus, iperf_ch_ctl, iperf_ch_ctr0, iperf_ch_ctr1, iperf_vtd_ctl, iperf_vtd_ctr,
  iperf_vtd_sip_ctl, iperf_vtd_sip_ctr, iperf_fab_ctl, iperf_fab_ctr, poll,
  fpga_wait_register_field,
}
use opae_intel_fpga_driver.Mmio.Plain.{Plain}
use opae_intel_fpga_driver.FmePerf.{
  root, instance_of, counter, event_of, read_cache_counter, read_iommu_sip_counter,
  read_iommu_counter, read_fabric_counter, fabric_pobj_is_enabled, fab_enable_show,
  fab_enable_store, select_obj, read_enabled, counter_after, sum_of_counters,
}
use opae_intel_fpga_driver.FmePerf.Counters.{
  Answers, ReadsCounter, ReadsSum, selected, counters_answer,
}
use opae_intel_fpga_driver.FmePerf.Fabric.{same_obj, Reach, begin, enable, Reach-Exclusive}
use opae_intel_fpga_driver.FmePerf.Tree.{Kind, port, Kobjects, Live, fme_iperf_init}
use opae_intel_fpga_driver.FmePerf.Tree.Balance.{StartEnds, fme_iperf_init-StartEnds}

record Monitor : Type 0 where
  ch : ℕ
  vtd : ℕ
  sip : ℕ
  fab : ℕ

-- A counter at 7, with the event that the control register selects.
abbrev counting : Field → ℕ → ℕ
counting f ctl = set_field event_code (get_field f ctl) 7

abbrev shown_by : Reg → Monitor → ℕ
shown_by iperf_ch_ctl m = m.ch
shown_by iperf_ch_ctr0 m = counting cache_event m.ch
shown_by iperf_ch_ctr1 m = counting cache_event m.ch
shown_by iperf_vtd_ctl m = m.vtd
shown_by iperf_vtd_ctr m = counting vtd_evtcode m.vtd
shown_by iperf_vtd_sip_ctl m = m.sip
shown_by iperf_vtd_sip_ctr m = counting vtd_evtcode m.sip
shown_by iperf_fab_ctl m = m.fab
shown_by iperf_fab_ctr m = counting fab_evtcode m.fab
shown_by _ m = 0

abbrev write_monitor : Reg → ℕ → Monitor → Monitor
write_monitor iperf_ch_ctl v m = record m { ch = v }
write_monitor iperf_vtd_ctl v m = record m { vtd = v }
write_monitor iperf_vtd_sip_ctl v m = record m { sip = v }
write_monitor iperf_fab_ctl v m = record m { fab = v }
write_monitor _ v m = m

abbrev monitor_bus : Bus Monitor
monitor_bus = record { readq = λ r m. (shown_by r m, m); writeq = write_monitor; udelay = λ t m. m }

counting_event :
    (f : Field) (ctl : ℕ) → 4 ≡ f.width → get_field event_code (counting f ctl) ≡ get_field f ctl
unfolding get_field
counting_event f ctl width =
    get_field-set_field event_code (get_field f ctl) 7
    ∙ subst (λ w. ctl / 2 ^ f.low % 2 ^ w % 2 ^ 4 ≡ ctl / 2 ^ f.low % 2 ^ w) width (omega arith)

monitor_answers : Answers monitor_bus
monitor_answers = record {
  cache = λ v m. (0, omega arith, counting_event cache_event v refl);
  sip = λ v m. (0, omega arith, counting_event vtd_evtcode v refl);
  iommu = λ v m. (0, omega arith, counting_event vtd_evtcode v refl);
  fabric = λ v m. (0, omega arith, counting_event fab_evtcode v refl);
}

fab_other : (r : Reg) (v : ℕ) (m : Monitor) → r ≢ iperf_fab_ctl → (write_monitor r v m).fab ≡ m.fab
fab_other iperf_fab_ctl v m ne = absurd (ne refl)
fab_other iperf_ch_ctl v m ne = refl
fab_other iperf_vtd_ctl v m ne = refl
fab_other iperf_vtd_sip_ctl v m ne = refl
fab_other _ v m ne = refl

fab_plain : (f : Field) → Plain monitor_bus iperf_fab_ctl f
fab_plain f = record {
  shows = λ m. get_field f m.fab;
  read = λ m. refl;
  readq_keeps = λ r m. refl;
  udelay_keeps = λ t m. refl;
  writeq_self = λ v m. refl;
  writeq_other = λ r v m ne. ap (get_field f) (fab_other r v m ne);
}

abbrev idle : Monitor
idle = record { ch = 0; vtd = 0; sip = 0; fab = 0 }

abbrev port_counts : Monitor
port_counts = (fab_enable_store monitor_bus (instance_of 2) (some true) idle).1

enabled_run : port_counts.fab ≡ 2 ^ 23 + 2 ^ 21
unfolding fab_enable_store fabric_pobj_is_enabled get_field set_field select_obj
enabled_run = refl

read_run :
    ((read_fabric_counter monitor_bus (instance_of 2) 5 port_counts).0 ≡ counter 7)
    × ((read_cache_counter monitor_bus 1 3 idle).0 ≡ counter 14)
unfolding fab_enable_store fabric_pobj_is_enabled get_field set_field select_obj read_fabric_counter
    read_enabled counter_after fpga_wait_register_field poll read_cache_counter sum_of_counters
read_run = (refl, refl)

counters_answer_example :
    ReadsSum monitor_bus 3
      (selected monitor_bus iperf_ch_ctl
        (λ csr. set_field cache_event 3 (set_field cci_chsel 1 csr))
        port_counts)
      (read_cache_counter monitor_bus 1 3 port_counts)
    × ReadsCounter monitor_bus iperf_vtd_sip_ctr vtd_counter 3
        (selected monitor_bus iperf_vtd_sip_ctl (set_field vtd_evtcode 3) port_counts)
        (read_iommu_sip_counter monitor_bus 3 port_counts)
    × ReadsCounter monitor_bus iperf_vtd_ctr vtd_counter
        (event_of 3 (instance_of 2))
        (selected monitor_bus iperf_vtd_ctl
          (set_field vtd_evtcode (event_of 3 (instance_of 2)))
          port_counts)
        (read_iommu_counter monitor_bus (instance_of 2) 3 port_counts)
    × (let (enabled, g) = fabric_pobj_is_enabled monitor_bus (instance_of 2) port_counts in
        let r = read_fabric_counter monitor_bus (instance_of 2) 3 port_counts in
        ((enabled ≡ false) × (r.0 ≡ counter 0))
        ⊎ ((enabled ≡ true)
            × ReadsCounter monitor_bus iperf_fab_ctr fab_cnt 3
                (selected monitor_bus iperf_fab_ctl (set_field fab_evtcode 3) g)
                r))
counters_answer_example =
    counters_answer monitor_bus 1 3 (instance_of 2) port_counts monitor_answers

reached : Reach monitor_bus (fab_plain port_filter) (fab_plain port_id) (instance_of 2) port_counts
unfolding get_field fab_plain
reached = enable root (instance_of 2) (some true) idle (omega arith) (begin root idle refl)

Reach-Exclusive_example :
    ((fab_enable_show monitor_bus root port_counts).0 ≡ same_obj root (instance_of 2))
    × ((root ≡ instance_of 2)
        ⊎ ((read_fabric_counter monitor_bus root 5 port_counts).0 ≡ counter 0))
Reach-Exclusive_example =
    Reach-Exclusive monitor_bus (fab_plain port_filter) (fab_plain port_id) (instance_of 2) root 5
      port_counts reached

-- The kernel cannot add the object of the fabric's port.
abbrev no_port : Kind → Status
no_port port = err eio
no_port _ = ok

abbrev refusing : Kobjects
refusing = record {
  kzalloc = λ kind id. true;
  kobject_init_and_add = λ kind id. no_port kind;
  sysfs_create_groups = λ kind id. ok;
}

abbrev nothing_live : Live
nothing_live = record { objects = 0; attributes = 0 }

fme_iperf_init-StartEnds_example :
    StartEnds refusing
      (2 ^ 16)
      none
      nothing_live
      (fme_iperf_init refusing (2 ^ 16) none nothing_live)
fme_iperf_init-StartEnds_example = fme_iperf_init-StartEnds refusing (2 ^ 16) none nothing_live
