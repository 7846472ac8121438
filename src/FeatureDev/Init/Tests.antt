-- ===== src/FeatureDev/Init/Tests.antt =====
-- Two drivers start a feature each, and the second one fails.
use opae_intel_fpga_driver.Base.{
  ℕ, ◌≡◌, refl, arith, Option, none, some, List, [], ◌∷◌, All, if◌then◌else◌, ◌==◌, Status, ok, err,
}
use opae_intel_fpga_driver.FeatureDev.Init.{
  Instance, fpga_dev_feature_init, fpga_dev_feature_uinit, init_all, init_each,
  feature_instance_init, after_test, after_init, roll_back,
}
use opae_intel_fpga_driver.FeatureDev.Init.Balance.{
  Balanced, Stopped, fpga_dev_feature_init-Balanced,
}

abbrev passes : ℕ → Instance → Status
passes drv f = ok

abbrev second_fails : ℕ → Instance → Status
second_fails drv f = if drv == 2 then err 16 else ok

abbrev off : Option ℕ → Instance
off name = record { name = name; ops = none; started = 0; stopped = 0 }

abbrev features : List Instance
features = off (some 2) ∷ off none ∷ off (some 1) ∷ []

abbrev outcome : Status × List Instance
outcome = fpga_dev_feature_init passes second_fails (1 ∷ 2 ∷ []) features

rolled_back :
    let stopped = record (off (some 1)) { started = 1; stopped = 1 } in
    outcome ≡ (err 16, off (some 2) ∷ off none ∷ stopped ∷ [])
unfolding fpga_dev_feature_init init_all init_each feature_instance_init after_test after_init
    roll_back fpga_dev_feature_uinit
rolled_back = refl

fpga_dev_feature_init-Balanced_example :
    All Balanced outcome.1
    × ((e : ℕ) → outcome.0 ≡ err e → All Stopped outcome.1)
    × All Stopped (fpga_dev_feature_uinit outcome.1)
fpga_dev_feature_init-Balanced_example =
    fpga_dev_feature_init-Balanced passes second_fails (1 ∷ 2 ∷ []) features
      ((λ e. absurd (omega (arith, e)), tt), (tt, tt))
      ((refl, refl), ((refl, refl), ((refl, refl), tt)))
