-- ===== src/FmeMgmt/Tests.antt =====
-- A device whose registers are a function, and runs of the stores on it.
use opae_intel_fpga_driver.Base.{ℕ, ◌+◌, ◌*◌, ◌^◌, ◌≡◌, ◌≢◌, ap, refl, err, einval}
use opae_intel_fpga_driver.Csr.{
  Field, get_field, set_field, lock_bit, tmp_thshold1, tmp_thshold1_enable, tmp_thshold2,
  tmp_thshold2_enable, thshold_policy, threshold1, threshold2,
}
use opae_intel_fpga_driver.Mmio.{Reg, Bus, fme_capability, thermal_threshold, power_threshold}
use opae_intel_fpga_driver.Mmio.Plain.{Plain, Fixed}
use opae_intel_fpga_driver.FmeMgmt.{
  number, threshold_store, thermal_threshold1_store, thermal_threshold2_store,
  thermal_threshold1_show, thermal_threshold2_show, thermal_threshold1_policy_store,
  thermal_threshold1_policy_show, pwr_threshold1_store, pwr_threshold1_show, pwr_threshold2_store,
  pwr_threshold2_show,
}
use opae_intel_fpga_driver.FmeMgmt.History.{Thresholds, Both, begin, thermal1, thermal2, Reach-Both}
use opae_intel_fpga_driver.FmeMgmt.Shown.{Shows, store-Shows}

record Board : Type 0 where
  thermal : ℕ
  power : ℕ

abbrev shown_by : Reg → Board → ℕ
shown_by thermal_threshold b = b.thermal
shown_by power_threshold b = b.power
shown_by _ b = 0

abbrev write_board : Reg → ℕ → Board → Board
write_board thermal_threshold v b = record b { thermal = v }
write_board power_threshold v b = record b { power = v }
write_board _ v b = b

abbrev board_bus : Bus Board
board_bus = record { readq = λ r b. (shown_by r b, b); writeq = write_board; udelay = λ t b. b }

thermal_other :
    (r : Reg) (v : ℕ) (b : Board) → r ≢ thermal_threshold → (write_board r v b).thermal ≡ b.thermal
thermal_other thermal_threshold v b ne = absurd (ne refl)
thermal_other power_threshold v b ne = refl
thermal_other _ v b ne = refl

power_other :
    (r : Reg) (v : ℕ) (b : Board) → r ≢ power_threshold → (write_board r v b).power ≡ b.power
power_other thermal_threshold v b ne = refl
power_other power_threshold v b ne = absurd (ne refl)
power_other _ v b ne = refl

thermal_plain : (f : Field) → Plain board_bus thermal_threshold f
thermal_plain f = record {
  shows = λ b. get_field f b.thermal;
  read = λ b. refl;
  readq_keeps = λ r b. refl;
  udelay_keeps = λ t b. refl;
  writeq_self = λ v b. refl;
  writeq_other = λ r v b ne. ap (get_field f) (thermal_other r v b ne);
}

power_plain : (f : Field) → Plain board_bus power_threshold f
power_plain f = record {
  shows = λ b. get_field f b.power;
  read = λ b. refl;
  readq_keeps = λ r b. refl;
  udelay_keeps = λ t b. refl;
  writeq_self = λ v b. refl;
  writeq_other = λ r v b ne. ap (get_field f) (power_other r v b ne);
}

unlocked : Fixed board_bus fme_capability lock_bit 0
unfolding get_field
unlocked = record { read = λ b. refl }

abbrev board_bits : Thresholds board_bus
board_bits = record {
  value1 = thermal_plain tmp_thshold1;
  enable1 = thermal_plain tmp_thshold1_enable;
  value2 = thermal_plain tmp_thshold2;
  enable2 = thermal_plain tmp_thshold2_enable;
  policy = thermal_plain thshold_policy;
  power1 = power_plain threshold1;
  power2 = power_plain threshold2;
  locked = 0;
  lock = unlocked;
}

abbrev blank : Board
blank = record { thermal = 2 ^ 16 * 93; power = 0 }

abbrev one_set : Board
one_set = (thermal_threshold1_store board_bus (number 90) blank).1

abbrev two_set : Board
two_set = (thermal_threshold2_store board_bus (number 95) one_set).1

stored_run : two_set.thermal ≡ 2 ^ 16 * 93 + 2 ^ 8 * (128 + 95) + (128 + 90)
unfolding thermal_threshold1_store thermal_threshold2_store threshold_store get_field set_field
stored_run = refl

too_hot : (thermal_threshold1_store board_bus (number 101) two_set).0 ≡ err einval
unfolding thermal_threshold1_store thermal_threshold2_store threshold_store get_field set_field
too_hot = refl

Reach-Both_example : Both board_bus blank board_bits two_set
Reach-Both_example =
    Reach-Both board_bus blank board_bits two_set
      (thermal2 (number 95) one_set (thermal1 (number 90) blank begin))

store-Shows_example :
    Shows board_bus
      (thermal_threshold1_store board_bus)
      (thermal_threshold1_show board_bus)
      (number 90)
      blank
    × Shows board_bus
        (thermal_threshold2_store board_bus)
        (thermal_threshold2_show board_bus)
        (number 90)
        blank
    × Shows board_bus
        (thermal_threshold1_policy_store board_bus)
        (thermal_threshold1_policy_show board_bus)
        (number 90)
        blank
    × Shows board_bus
        (pwr_threshold1_store board_bus)
        (pwr_threshold1_show board_bus)
        (number 90)
        blank
    × Shows board_bus
        (pwr_threshold2_store board_bus)
        (pwr_threshold2_show board_bus)
        (number 90)
        blank
store-Shows_example = store-Shows board_bus board_bits (number 90) blank
