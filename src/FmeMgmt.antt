-- ===== src/FmeMgmt.antt =====
-- The sysfs files of the FME for thermal and power management, drivers/fpga/intel/fme-main.c.
pub mod Stores
pub mod History
pub mod Shown
mod Tests
use opae_intel_fpga_driver.Base.{ℕ, if◌then◌else◌, ◌==◌, ltb, leb, Status, ok, err, ebusy, einval}
use opae_intel_fpga_driver.Csr.{
  Field, get_field, set_field, revision, lock_bit, tmp_thshold1, tmp_thshold1_enable, tmp_thshold2,
  tmp_thshold2_enable, therm_trip_thshold, thshold1_status, thshold2_status, thshold_policy,
  fpga_temp, pwr_consumed, fpga_latency_report, threshold1, threshold2, threshold1_status,
  threshold2_status, pwr_limit, limit_enable,
}
use opae_intel_fpga_driver.Mmio.{
  Reg, Bus, fme_capability, thermal_header, thermal_threshold, thermal_rdsensor_fm1, power_header,
  power_status, power_threshold, power_xeon_limit,
}

-- What `kstrtou8` makes of the text: an error, or a number below 256.
pub data Parsed : Type 0 where
  refused : ℕ → Parsed
  number : ℕ → Parsed

abbrev pub max_temperature : ℕ
max_temperature = 100

abbrev pub pwr_threshold_max : ℕ
pwr_threshold_max = 0x7F

module _ {H : Type 0} (bus : Bus H) where
  -- The number that a file shows: a bit-field of a register.
  unfoldable pub show_field : Reg → Field → H → ℕ × H
  show_field r f h = let (csr, h') = bus.readq r h in (get_field f csr, h')

  unfoldable pub thermal_revision_show : H → ℕ × H
  unfolding show_field
  thermal_revision_show = show_field thermal_header revision

  unfoldable pub thermal_threshold1_show : H → ℕ × H
  unfolding show_field
  thermal_threshold1_show = show_field thermal_threshold tmp_thshold1

  unfoldable pub thermal_threshold2_show : H → ℕ × H
  unfolding show_field
  thermal_threshold2_show = show_field thermal_threshold tmp_thshold2

  unfoldable pub thermal_threshold_trip_show : H → ℕ × H
  unfolding show_field
  thermal_threshold_trip_show = show_field thermal_threshold therm_trip_thshold

  unfoldable pub thermal_threshold1_reached_show : H → ℕ × H
  unfolding show_field
  thermal_threshold1_reached_show = show_field thermal_threshold thshold1_status

  unfoldable pub thermal_threshold2_reached_show : H → ℕ × H
  unfolding show_field
  thermal_threshold2_reached_show = show_field thermal_threshold thshold2_status

  unfoldable pub thermal_threshold1_policy_show : H → ℕ × H
  unfolding show_field
  thermal_threshold1_policy_show = show_field thermal_threshold thshold_policy

  unfoldable pub thermal_temperature_show : H → ℕ × H
  unfolding show_field
  thermal_temperature_show = show_field thermal_rdsensor_fm1 fpga_temp

  -- The text that `thermal_threshold1_store` and `thermal_threshold2_store` share: they differ in
  -- the bit-fields only. `ok` stands for the result `count`.
  unfoldable pub threshold_store : Field → Field → Parsed → H → Status × H
  threshold_store t enable (refused e) h = (err e, (bus.readq thermal_threshold h).1)
  threshold_store t enable (number v) h =
      let (csr, h1) = bus.readq thermal_threshold h in
      let (capability, h2) = bus.readq fme_capability h1 in
      let off = set_field t v (set_field enable 0 csr) in
      let on = set_field t v (set_field enable 1 csr) in
      if get_field lock_bit capability == 1
      then (err ebusy, h2)
      else if ltb max_temperature v
      then (err einval, h2)
      else if v == 0
      then (ok, bus.writeq thermal_threshold off h2)
      else (ok, bus.writeq thermal_threshold on h2)

  unfoldable pub thermal_threshold1_store : Parsed → H → Status × H
  thermal_threshold1_store = threshold_store tmp_thshold1 tmp_thshold1_enable

  unfoldable pub thermal_threshold2_store : Parsed → H → Status × H
  thermal_threshold2_store = threshold_store tmp_thshold2 tmp_thshold2_enable

  unfoldable pub thermal_threshold1_policy_store : Parsed → H → Status × H
  thermal_threshold1_policy_store (refused e) h = (err e, (bus.readq thermal_threshold h).1)
  thermal_threshold1_policy_store (number v) h =
      let (csr, h1) = bus.readq thermal_threshold h in
      if v == 0
      then (ok, bus.writeq thermal_threshold (set_field thshold_policy 0 csr) h1)
      else if v == 1
      then (ok, bus.writeq thermal_threshold (set_field thshold_policy 1 csr) h1)
      else (err einval, h1)

  unfoldable pub pwr_revision_show : H → ℕ × H
  unfolding show_field
  pwr_revision_show = show_field power_header revision

  unfoldable pub consumed_show : H → ℕ × H
  unfolding show_field
  consumed_show = show_field power_status pwr_consumed

  unfoldable pub pwr_threshold1_show : H → ℕ × H
  unfolding show_field
  pwr_threshold1_show = show_field power_threshold threshold1

  unfoldable pub pwr_threshold2_show : H → ℕ × H
  unfolding show_field
  pwr_threshold2_show = show_field power_threshold threshold2

  unfoldable pub threshold1_status_show : H → ℕ × H
  unfolding show_field
  threshold1_status_show = show_field power_threshold threshold1_status

  unfoldable pub threshold2_status_show : H → ℕ × H
  unfolding show_field
  threshold2_status_show = show_field power_threshold threshold2_status

  unfoldable pub rtl_show : H → ℕ × H
  unfolding show_field
  rtl_show = show_field power_status fpga_latency_report

  -- A limit that was not written shows as 0.
  unfoldable pub xeon_limit_show : H → ℕ × H
  xeon_limit_show h =
      let (csr, h') = bus.readq power_xeon_limit h in
      if get_field limit_enable csr == 0
      then (get_field pwr_limit (set_field pwr_limit 0 csr), h')
      else (get_field pwr_limit csr, h')

  -- The text that `pwr_threshold1_store` and `pwr_threshold2_store` share.
  unfoldable pub power_store : Field → Parsed → H → Status × H
  power_store t (refused e) h = (err e, (bus.readq power_threshold h).1)
  power_store t (number v) h =
      let (csr, h1) = bus.readq power_threshold h in
      if leb v pwr_threshold_max
      then (ok, bus.writeq power_threshold (set_field t v csr) h1)
      else (err einval, h1)

  unfoldable pub pwr_threshold1_store : Parsed → H → Status × H
  pwr_threshold1_store = power_store threshold1

  unfoldable pub pwr_threshold2_store : Parsed → H → Status × H
  pwr_threshold2_store = power_store threshold2
