-- ===== src/FeatureDev/OpenCount.antt =====
-- include/intel/feature-dev.h, who has the device file open: `open_count` and `excl_open`.
pub mod Exclusive
use opae_intel_fpga_driver.Base.{
  ℕ, ◌+◌, ◌-◌, ◌^◌, Bool, true, false, if◌then◌else◌, ◌==◌, u32, Status, ok, err, ebusy,
}

-- The two `int` fields of `struct feature_platform_data`, as bit patterns.
pub record Opens : Type 0 where
  pub excl_open : ℕ
  pub open_count : ℕ

unfoldable pub feature_dev_use_excl_begin : Opens → Status × Opens
feature_dev_use_excl_begin o =
    if o.open_count == 0
    then (ok, record { excl_open = 1; open_count = u32 (o.open_count + 1) })
    else (err ebusy, o)

unfoldable pub feature_dev_use_begin : Opens → Status × Opens
feature_dev_use_begin o =
    if o.excl_open == 0
    then (ok, record o { open_count = u32 (o.open_count + 1) })
    else (err ebusy, o)

-- `open_count--`
unfoldable pub feature_dev_use_end : Opens → Opens
feature_dev_use_end o = record { excl_open = 0; open_count = u32 (o.open_count + (2 ^ 32 - 1)) }
