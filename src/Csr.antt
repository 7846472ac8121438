-- ===== src/Csr.antt =====
-- The control and status registers of include/intel/feature-dev.h: each is a u64 with bit-fields,
-- laid out from the lowest bit up.
pub mod Fields
use opae_intel_fpga_driver.Base.{ℕ, ◌+◌, ◌-◌, ◌*◌, ◌/◌, ◌%◌, ◌^◌}

-- A bit-field: its lowest bit and its width.
pub record Field : Type 0 where
  pub low : ℕ
  pub width : ℕ

-- Reading a bit-field of a register.
unfoldable pub get_field : Field → ℕ → ℕ
get_field f csr = csr / 2 ^ f.low % 2 ^ f.width

-- Assigning to a bit-field: the value is cut to the width, the other bits stay.
unfoldable pub set_field : Field → ℕ → ℕ → ℕ
set_field f v csr =
    (csr / 2 ^ f.low / 2 ^ f.width * 2 ^ f.width + v % 2 ^ f.width) * 2 ^ f.low + csr % 2 ^ f.low

-- struct feature_header
abbrev pub feature_id : Field
feature_id = record { low = 0; width = 12 }

abbrev pub revision : Field
revision = record { low = 12; width = 4 }

abbrev pub next_header_offset : Field
next_header_offset = record { low = 16; width = 24 }

abbrev pub eol : Field
eol = record { low = 40; width = 1 }

abbrev pub feature_type : Field
feature_type = record { low = 60; width = 4 }

-- struct feature_afu_header and struct feature_fiu_header
abbrev pub next_afu : Field
next_afu = record { low = 0; width = 24 }

-- struct feature_port_capability
abbrev pub port_number : Field
port_number = record { low = 0; width = 2 }

abbrev pub mmio_size : Field
mmio_size = record { low = 8; width = 16 }

-- struct feature_port_control
abbrev pub port_sftrst : Field
port_sftrst = record { low = 0; width = 1 }

abbrev pub latency_tolerance : Field
latency_tolerance = record { low = 2; width = 1 }

abbrev pub port_sftrst_ack : Field
port_sftrst_ack = record { low = 4; width = 1 }

-- struct feature_port_status
abbrev pub power_state : Field
power_state = record { low = 8; width = 4 }

abbrev pub ap1_event : Field
ap1_event = record { low = 12; width = 1 }

abbrev pub ap2_event : Field
ap2_event = record { low = 13; width = 1 }

-- struct feature_port_umsg_cap
abbrev pub umsg_allocated : Field
umsg_allocated = record { low = 0; width = 8 }

abbrev pub umsg_enable : Field
umsg_enable = record { low = 8; width = 1 }

abbrev pub umsg_init_complete : Field
umsg_init_complete = record { low = 9; width = 1 }

-- struct feature_port_umsg_baseaddr
abbrev pub base_addr : Field
base_addr = record { low = 0; width = 48 }

-- struct feature_port_umsg_mode
abbrev pub umsg_hint_enable : Field
umsg_hint_enable = record { low = 0; width = 32 }

-- struct feature_fme_capability
abbrev pub iommu_support : Field
iommu_support = record { low = 16; width = 1 }

abbrev pub num_ports : Field
num_ports = record { low = 17; width = 3 }

abbrev pub lock_bit : Field
lock_bit = record { low = 63; width = 1 }

-- struct feature_fme_pr_ctl
abbrev pub pr_reset : Field
pr_reset = record { low = 0; width = 1 }

abbrev pub pr_reset_ack : Field
pr_reset_ack = record { low = 4; width = 1 }

abbrev pub pr_regionid : Field
pr_regionid = record { low = 8; width = 2 }

abbrev pub pr_start_req : Field
pr_start_req = record { low = 12; width = 1 }

abbrev pub pr_push_complete : Field
pr_push_complete = record { low = 13; width = 1 }

-- struct feature_fme_pr_status
abbrev pub pr_credit : Field
pr_credit = record { low = 0; width = 9 }

abbrev pub pr_status : Field
pr_status = record { low = 16; width = 1 }

abbrev pub pr_host_status : Field
pr_host_status = record { low = 24; width = 4 }

-- struct feature_fme_port
abbrev pub port_offset : Field
port_offset = record { low = 0; width = 24 }

abbrev pub port_bar : Field
port_bar = record { low = 32; width = 3 }

abbrev pub afu_access_control : Field
afu_access_control = record { low = 55; width = 1 }

abbrev pub port_implemented : Field
port_implemented = record { low = 60; width = 1 }

-- struct feature_port_uint_cap
abbrev pub intr_num : Field
intr_num = record { low = 0; width = 12 }

abbrev pub first_vec_num : Field
first_vec_num = record { low = 12; width = 12 }

-- struct feature_port_err_capability and struct feature_fme_error_capability
abbrev pub support_intr : Field
support_intr = record { low = 0; width = 1 }

abbrev pub intr_vector_num : Field
intr_vector_num = record { low = 1; width = 12 }

-- struct feature_fme_tmp_threshold
abbrev pub tmp_thshold1 : Field
tmp_thshold1 = record { low = 0; width = 7 }

abbrev pub tmp_thshold1_enable : Field
tmp_thshold1_enable = record { low = 7; width = 1 }

abbrev pub tmp_thshold2 : Field
tmp_thshold2 = record { low = 8; width = 7 }

abbrev pub tmp_thshold2_enable : Field
tmp_thshold2_enable = record { low = 15; width = 1 }

abbrev pub therm_trip_thshold : Field
therm_trip_thshold = record { low = 24; width = 7 }

abbrev pub thshold1_status : Field
thshold1_status = record { low = 32; width = 1 }

abbrev pub thshold2_status : Field
thshold2_status = record { low = 33; width = 1 }

abbrev pub thshold_policy : Field
thshold_policy = record { low = 44; width = 1 }

-- struct feature_fme_temp_rdsensor_fmt1
abbrev pub fpga_temp : Field
fpga_temp = record { low = 0; width = 7 }

-- struct feature_fme_pm_status
abbrev pub pwr_consumed : Field
pwr_consumed = record { low = 0; width = 18 }

abbrev pub fpga_latency_report : Field
fpga_latency_report = record { low = 18; width = 1 }

-- struct feature_fme_pm_ap_threshold
abbrev pub threshold1 : Field
threshold1 = record { low = 0; width = 7 }

abbrev pub threshold2 : Field
threshold2 = record { low = 8; width = 7 }

abbrev pub threshold1_status : Field
threshold1_status = record { low = 16; width = 1 }

abbrev pub threshold2_status : Field
threshold2_status = record { low = 17; width = 1 }

-- struct feature_fme_pm_xeon_limit
abbrev pub pwr_limit : Field
pwr_limit = record { low = 0; width = 15 }

abbrev pub limit_enable : Field
limit_enable = record { low = 15; width = 1 }

-- struct feature_fme_ifpmon_ch_ctl, and `freeze` of the other control registers
abbrev pub freeze : Field
freeze = record { low = 8; width = 1 }

abbrev pub cache_event : Field
cache_event = record { low = 16; width = 4 }

abbrev pub cci_chsel : Field
cci_chsel = record { low = 20; width = 1 }

-- struct feature_fme_ifpmon_ch_ctr, and `event_code` of the other counter registers
abbrev pub cache_counter : Field
cache_counter = record { low = 0; width = 48 }

abbrev pub event_code : Field
event_code = record { low = 60; width = 4 }

-- struct feature_fme_ifpmon_vtd_ctl and struct feature_fme_ifpmon_vtd_sip_ctl
abbrev pub vtd_evtcode : Field
vtd_evtcode = record { low = 16; width = 4 }

-- struct feature_fme_ifpmon_vtd_ctr and struct feature_fme_ifpmon_vtd_sip_ctr
abbrev pub vtd_counter : Field
vtd_counter = record { low = 0; width = 48 }

-- struct feature_fme_ifpmon_fab_ctl
abbrev pub fab_evtcode : Field
fab_evtcode = record { low = 16; width = 4 }

abbrev pub port_id : Field
port_id = record { low = 20; width = 2 }

abbrev pub port_filter : Field
port_filter = record { low = 23; width = 1 }

-- struct feature_fme_ifpmon_fab_ctr
abbrev pub fab_cnt : Field
fab_cnt = record { low = 0; width = 60 }

-- struct feature_fme_first_error and struct feature_fme_next_error
abbrev pub err_reg_status : Field
err_reg_status = record { low = 0; width = 60 }
