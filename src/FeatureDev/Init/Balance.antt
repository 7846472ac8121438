-- ===== src/FeatureDev/Init/Balance.antt =====
-- Every feature that is started is stopped, once.
use opae_intel_fpga_driver.Base.{
  ℕ, ◌+◌, ◌≡◌, ◌≢◌, refl, sym, ap, ◌∙◌, true, Option, none, some, List, [], ◌∷◌, arith, inl, inr,
  ◌⊎◌, All, All-imp, if◌then◌else◌, ==_iff, Bool-cases, Status, ok, err, err-ne-ok, Ensures,
  and_then-Ensures,
}
use mathlib.Core.Path.{subst}
use opae_intel_fpga_driver.FeatureDev.Init.{
  Instance, serves, stop_by, fpga_dev_feature_uinit, after_init, after_test, feature_instance_init,
  after_one, init_each, init_all, roll_back, fpga_dev_feature_init,
}

-- No driver has the feature, and it was stopped as often as it was started.
abbrev pub Stopped : Instance → Type 0
Stopped f = (f.ops ≡ none) × (f.started ≡ f.stopped)

-- The driver of its name has the feature, and it was started once more than it was stopped.
abbrev pub Running : Instance → Type 0
Running f = (drv : ℕ) × (f.ops ≡ some drv) × (f.name ≡ some drv) × (f.started ≡ f.stopped + 1)

abbrev pub Balanced : Instance → Type 0
Balanced f = Stopped f ⊎ Running f

abbrev pub Apart : List ℕ → Type 0
Apart [] = Unit
Apart (d ∷ ds) = All (λ e. e ≢ d) ds × Apart ds

-- Balanced, and with none of these drivers.
abbrev Ready : List ℕ → Instance → Type 0
Ready ds f = Balanced f × All (λ d. f.ops ≢ some d) ds

stop_by-Stopped : (o : Option ℕ) (f : Instance) → f.ops ≡ o → Balanced f → Stopped (stop_by o f)
stop_by-Stopped none f e (inl h) = h
stop_by-Stopped none f e (inr (d, o, _, _)) = absurd (cc)
stop_by-Stopped (some d) f e (inl h) = absurd (cc)
stop_by-Stopped (some d) f e (inr (_, _, _, n)) = (refl, omega (arith, n))

uinit-Stopped : (fs : List Instance) → All Balanced fs → All Stopped (fpga_dev_feature_uinit fs)
unfolding fpga_dev_feature_uinit
uinit-Stopped [] h = tt
uinit-Stopped (f ∷ fs) h = (stop_by-Stopped f.ops f refl h.0, uinit-Stopped fs h.1)

serves-some : (drv : ℕ) (o : Option ℕ) → serves drv o ≡ true → o ≡ some drv
serves-some drv none e = absurd cc
serves-some drv (some name) e = ap some (sym ((==_iff drv name).0 e))

none_of :
    (drv : ℕ) (f : Instance) → Balanced f → f.ops ≢ some drv → serves drv f.name ≡ true → Stopped f
none_of drv f (inl h) ne s = h
none_of drv f (inr (d, o, name, n)) ne s = absurd (ne (o ∙ sym name ∙ serves-some drv f.name s))

some_ne : (a b : ℕ) → a ≢ b → some b ≢ some a
some_ne a b ne e = ne (cc e)

module _ (test init : ℕ → Instance → Status) (drv : ℕ) (ds : List ℕ)
    (apart : All (λ e. e ≢ drv) ds) where
  inited-Ensures :
      (r : Status) (f : Instance)
      → Stopped f
      → f.name ≡ some drv
      → Ensures Balanced (Ready ds) (after_init test init r drv f)
  unfolding after_init
  inited-Ensures (err e) f h name = (inl h, λ k. absurd (err-ne-ok e k))
  inited-Ensures ok f h name =
      let running : Running (after_init test init ok drv f).1 =
        (drv, refl, name, omega (arith, h.1)) in
      (
        inr running,
        λ _. (
          inr running,
          All-imp (λ e. e ≢ drv) (λ e. some drv ≢ some e) (λ e ne. some_ne e drv ne) ds apart,
        ),
      )

  tested-Ensures :
      (r : Status) (f : Instance)
      → Stopped f
      → f.name ≡ some drv
      → Ensures Balanced (Ready ds) (after_test test init r drv f)
  unfolding after_test
  tested-Ensures (err e) f h name = (inl h, λ k. absurd (err-ne-ok e k))
  tested-Ensures ok f h name = inited-Ensures (init drv f) f h name

  one-Ensures :
      (f : Instance)
      → Ready (drv ∷ ds) f
      → let skipped : Status × Instance = (ok, f) in
        Ensures Balanced
          (Ready ds)
          (if serves drv f.name then feature_instance_init test init drv f else skipped)
  unfolding feature_instance_init
  one-Ensures f (b, ne) = elim (Bool-cases (serves drv f.name)) [
    | inr s ↦ rw s (b, λ _. (b, ne.1))
    | inl s ↦
        let skipped : Status × Instance = (ok, f) in
        subst
          (λ c.
            Ensures Balanced (Ready ds)
              (if c then after_test test init (test drv f) drv f else skipped))
          (sym s)
          (tested-Ensures (test drv f) f (none_of drv f b ne.0 s) (serves-some drv f.name s))
  ]

  after_one-Ensures :
      (one : Status × Instance) (rest : Status × List Instance) (fs : List Instance)
      → Ensures Balanced (Ready ds) one
      → All Balanced fs
      → Ensures (All Balanced) (All (Ready ds)) rest
      → Ensures (All Balanced) (All (Ready ds)) (after_one test init one rest fs)
  after_one-Ensures (err e, f) rest fs h b r = ((h.0, b), λ k. absurd (err-ne-ok e k))
  after_one-Ensures (ok, f) (ret, fs') fs h b r = ((h.0, r.0), λ k. (h.1 refl, r.1 k))

  init_each-Ensures :
      (fs : List Instance)
      → All (Ready (drv ∷ ds)) fs
      → Ensures (All Balanced) (All (Ready ds)) (init_each test init drv fs)
  unfolding init_each
  init_each-Ensures [] h = (tt, λ _. tt)
  init_each-Ensures (f ∷ fs) h =
      let skipped : Status × Instance = (ok, f) in
      after_one-Ensures
        (if serves drv f.name then feature_instance_init test init drv f else skipped)
        (init_each test init drv fs) fs (one-Ensures f h.0)
        (All-imp (Ready (drv ∷ ds)) Balanced (λ f r. r.0) fs h.1) (init_each-Ensures fs h.1)

module _ (test init : ℕ → Instance → Status) where
  init_all-Balanced :
      (ds : List ℕ) (fs : List Instance)
      → Apart ds
      → All (Ready ds) fs
      → All Balanced (init_all test init ds fs).1
  unfolding init_all
  init_all-Balanced [] fs a h = All-imp (Ready []) Balanced (λ f r. r.0) fs h
  init_all-Balanced (d ∷ ds) fs a h =
      (and_then-Ensures (All Balanced) (All (Ready ds)) (All Balanced) (init_each test init d fs)
        (init_all test init ds) (init_each-Ensures test init d ds a.0 fs h)
        (λ fs h. (init_all-Balanced ds fs a.1 h, λ _. init_all-Balanced ds fs a.1 h))).0

  roll_back-Balanced :
      (r : Status × List Instance)
      → All Balanced r.1
      → let r' = roll_back test init r in
        All Balanced r'.1 × ((e : ℕ) → r'.0 ≡ err e → All Stopped r'.1)
  unfolding roll_back
  roll_back-Balanced (ok, fs) h = (h, λ e k. absurd (err-ne-ok e (sym k)))
  roll_back-Balanced (err c, fs) h =
      let off = uinit-Stopped fs h in
      (All-imp Stopped Balanced (λ f s. inl s) (fpga_dev_feature_uinit fs) off, λ e k. off)

  -- When no two drivers have the same name and all features are stopped at first, the start of the
  -- features leaves each one either stopped as often as it was started, without a driver, or started
  -- once more, with the driver of its name; when it fails, all are stopped; and the stop of the
  -- features after it leaves all of them stopped.
  pub fpga_dev_feature_init-Balanced :
      (drvs : List ℕ) (fs : List Instance)
      → Apart drvs
      → All Stopped fs
      → let r = fpga_dev_feature_init test init drvs fs in
        All Balanced r.1
        × ((e : ℕ) → r.0 ≡ err e → All Stopped r.1)
        × All Stopped (fpga_dev_feature_uinit r.1)
  unfolding fpga_dev_feature_init
  fpga_dev_feature_init-Balanced drvs fs apart off =
      let ready = All-imp Stopped (Ready drvs) (λ f s. (inl s, never drvs f s.0)) fs off in
      let r =
        roll_back-Balanced (init_all test init drvs fs) (init_all-Balanced drvs fs apart ready) in
      (r.0, r.1, uinit-Stopped (roll_back test init (init_all test init drvs fs)).1 r.0)
    where
      never : (ds : List ℕ) (f : Instance) → f.ops ≡ none → All (λ d. f.ops ≢ some d) ds
      never [] f e = tt
      never (d ∷ ds) f e = (λ k. absurd (cc (e, k)), never ds f e)
