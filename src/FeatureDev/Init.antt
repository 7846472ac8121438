-- ===== src/FeatureDev/Init.antt =====
-- feature-dev.c, the start and stop of the features of a device: `fpga_dev_feature_init` and
-- `fpga_dev_feature_uinit`.
pub mod Balance
mod Tests
use opae_intel_fpga_driver.Base.{
  ℕ, ◌+◌, Bool, true, false, Option, none, some, List, [], ◌∷◌, map, if◌then◌else◌, ◌==◌, Status,
  ok, err, and_then,
}

-- `struct feature` as far as the start uses it: names are numbers, and a driver goes by the name of
-- the features that it serves. It also counts the successful calls of `init` and those of `uinit`.
pub record Instance : Type 0 where
  pub name : Option ℕ
  pub ops : Option ℕ
  pub started : ℕ
  pub stopped : ℕ

-- `!strcmp(drv->name, feature->name)`; a feature without a name is skipped.
abbrev pub serves : ℕ → Option ℕ → Bool
serves drv none = false
serves drv (some name) = drv == name

abbrev pub stop_by : Option ℕ → Instance → Instance
stop_by none f = f
stop_by (some drv) f = record {
  name = f.name;
  ops = none;
  started = f.started;
  stopped = f.stopped + 1;
}

unfoldable pub fpga_dev_feature_uinit : List Instance → List Instance
fpga_dev_feature_uinit fs = map (λ f. stop_by f.ops f) fs

-- The answers of the drivers' `test`, which may be missing and then counts as passed, and `init`.
module _ (test init : ℕ → Instance → Status) where
  unfoldable pub after_init : Status → ℕ → Instance → Status × Instance
  after_init (err e) drv f = (err e, f)
  after_init ok drv f =
      (ok, record { name = f.name; ops = some drv; started = f.started + 1; stopped = f.stopped })

  unfoldable pub after_test : Status → ℕ → Instance → Status × Instance
  after_test (err e) drv f = (err e, f)
  after_test ok drv f = after_init (init drv f) drv f

  unfoldable pub feature_instance_init : ℕ → Instance → Status × Instance
  unfolding after_test after_init
  feature_instance_init drv f = after_test (test drv f) drv f

  -- The loop over the features goes on after a success.
  abbrev pub after_one :
      Status × Instance → Status × List Instance → List Instance → Status × List Instance
  after_one (err e, f) rest fs = (err e, f ∷ fs)
  after_one (ok, f) (ret, fs') fs = (ret, f ∷ fs')

  unfoldable pub init_each : ℕ → List Instance → Status × List Instance
  init_each drv [] = (ok, [])
  init_each drv (f ∷ fs) =
      let skipped : Status × Instance = (ok, f) in
      let one = if serves drv f.name then feature_instance_init drv f else skipped in
      after_one one (init_each drv fs) fs

  -- The loop over the drivers.
  unfoldable pub init_all : List ℕ → List Instance → Status × List Instance
  init_all [] fs = (ok, fs)
  init_all (drv ∷ drvs) fs = and_then (init_each drv fs) (init_all drvs)

  -- The label `exit`.
  unfoldable pub roll_back : Status × List Instance → Status × List Instance
  roll_back (ok, fs) = (ok, fs)
  roll_back (err e, fs) = (err e, fpga_dev_feature_uinit fs)

  unfoldable pub fpga_dev_feature_init : List ℕ → List Instance → Status × List Instance
  unfolding roll_back
  fpga_dev_feature_init drvs fs = roll_back (init_all drvs fs)
