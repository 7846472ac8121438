-- ===== src/Asmip2/Banks/Registered.antt =====
-- Which MTD devices are registered after a probe and after the removal.
use opae_intel_fpga_driver.Base.{
  ℕ, zero, suc, ◌+◌, ◌-◌, ◌^◌, ◌≤◌, ◌<◌, ◌≡◌, refl, sym, ◌∙◌, arith, ◌⊎◌, inl, inr, Bool, true,
  false, Bool-cases, ◌&&◌, Option, none, some, if◌then◌else◌, ◌==◌, ltb, leb, u32, Status, ok, err,
  enomem, and_then,
}
use mathlib.Core.Path.{subst}
use opae_intel_fpga_driver.Asmip2.{Qspi}
use opae_intel_fpga_driver.Asmip2.Banks.{
  Asmip2, Kernel, max_num_flash_chip, set_entry, reset_controller, blank, after_register,
  after_unregister, after_create, altera_asmip2_create, after_scan, altera_asmip2_setup_banks,
  altera_asmip2_add_bank, remove_from, altera_asmip2_remove_banks, altera_asmip2_remove, add_banks,
  altera_asmip2_probe_with_pdata,
}

-- The first `k` banks have a registered device, and no other.
abbrev pub RegisteredBelow : ℕ → Asmip2 → Type 0
RegisteredBelow k q = ((j : ℕ) → q.registered j ≡ ltb j k) × (q.stray ≡ 0)

-- The first `k` entries are set, and their devices registered.
abbrev Full : ℕ → Asmip2 → Type 0
Full k q =
    (q.num_flashes ≡ k)
    × (k ≤ max_num_flash_chip)
    × ((j : ℕ) → q.flash j ≡ ltb j k)
    × RegisteredBelow k q

set_entry-ltb :
    (f : ℕ → Bool) (k : ℕ)
    → ((j : ℕ) → f j ≡ ltb j k)
    → (j : ℕ) → set_entry k true f j ≡ ltb j (suc k)
set_entry-ltb f k below j = elim (Bool-cases (j == k)) [
  | inl e ↦ rw e (ground (arith, e))
  | inr e ↦ rw e (below j ∙ ground (arith, e))
]

module _ (kernel : Kernel) where
  -- A bank more, or an error that leaves the registered devices as they are.
  abbrev Adds : ℕ → Status × Asmip2 → Type 0
  Adds k r = ((r.0 ≡ ok) × Full (suc k) r.1) ⊎ ((e : ℕ) × (r.0 ≡ err e) × RegisteredBelow k r.1)

  scanned-Adds :
      (k : ℕ) (q : Asmip2) (s t : Status)
      → k < max_num_flash_chip
      → Full k q
      → kernel.mtd_device_register k ≡ t
      → Adds k (
          after_scan kernel s k
            (record q { num_flashes = q.num_flashes + 1; flash = set_entry k true q.flash }))
  unfolding after_scan after_register
  scanned-Adds k q (err e) t small (n, _, f, r) eq = inr (e, refl, r)
  scanned-Adds k q ok (err e) small (n, _, f, r) eq = rw eq (inr (e, refl, r))
  scanned-Adds k q ok ok small (n, _, f, r) eq = rw eq (
      inl (
        refl,
        (
          omega (arith, n),
          small,
          set_entry-ltb q.flash k f,
          (set_entry-ltb q.registered k r.0, r.1),
        ),
      ))

  altera_asmip2_add_bank-Adds :
      (k : ℕ) (q : Asmip2) → Full k q → Adds k (altera_asmip2_add_bank kernel k q)
  unfolding altera_asmip2_add_bank altera_asmip2_setup_banks
  altera_asmip2_add_bank-Adds k q full =
      let n = full.0 in
      elim (Bool-cases (leb max_num_flash_chip q.num_flashes)) [
        | inl a ↦ rw a (inr (enomem, refl, full.3))
        | inr a ↦
            let small : k < max_num_flash_chip = ground (arith, a, n) in
            let there : ltb (u32 (q.num_flashes + 1 + (2 ^ 32 - 1))) k ≡ false =
              ground (arith, n, small) in
            elim (Bool-cases (kernel.kzalloc_flash k)) [
              | inl b ↦
                  rw (a, there, b)
                    (scanned-Adds k q (kernel.spi_nor_scan k) (kernel.mtd_device_register k) small
                      full refl)
              | inr b ↦ rw (a, there, b) (inr (enomem, refl, full.3))
            ]
      ]

  -- How the loop that adds the banks up to `n` ends.
  abbrev pub Probed : ℕ → Status × Asmip2 → Type 0
  Probed n r =
      ((r.0 ≡ ok) × Full n r.1)
      ⊎ ((e : ℕ) × (k : ℕ) × (r.0 ≡ err e) × (k < n) × RegisteredBelow k r.1)

  add_banks-Probed : (m k : ℕ) (q : Asmip2) → Full k q → Probed (k + m) (add_banks kernel m k q)
  unfolding add_banks
  add_banks-Probed zero k q full = inl (
    refl,
    (omega (arith, full.0), omega (arith, full.1), below full.2, (below full.3.0, full.3.1)),
  )
    where
      below : {f : ℕ → Bool} → ((j : ℕ) → f j ≡ ltb j k) → (j : ℕ) → f j ≡ ltb j (k + 0)
      below g j = g j ∙ ground arith
  add_banks-Probed (suc m) k q full =
      more (altera_asmip2_add_bank kernel k q) (altera_asmip2_add_bank-Adds k q full)
        (λ q'. add_banks-Probed m (suc k) q')
    where
      more :
          (r : Status × Asmip2)
          → Adds k r
          → ((q' : Asmip2) → Full (suc k) q' → Probed (suc k + m) (add_banks kernel m (suc k) q'))
          → Probed (k + suc m) (and_then r (add_banks kernel m (suc k)))
      more (ok, q') (inl (_, full')) rest =
          let e : suc k + m ≡ k + suc m = omega arith in
          subst (λ n. Probed n (add_banks kernel m (suc k) q')) e (rest q' full')
      more (ok, q') (inr (e, bad, _)) rest = absurd (cc bad)
      more (err e, q') (inl (bad, _)) rest = absurd (cc bad)
      more (err e, q') (inr (_, _, kept)) rest = inr (e, k, refl, omega arith, kept)

  -- The devices from `i` up to `k` are registered.
  abbrev Between : ℕ → ℕ → Asmip2 → Type 0
  Between i k q =
      ((j : ℕ) → q.flash j ≡ ltb j k)
      × ((j : ℕ) → q.registered j ≡ (leb i j && ltb j k))
      × (q.stray ≡ 0)

  remove_from-Between :
      (n i k : ℕ) (q : Asmip2)
      → ((j : ℕ) → kernel.mtd_device_unregister j ≡ ok)
      → i + n ≡ k
      → Between i k q
      → let r = remove_from kernel n i q in (r.0 ≡ ok) × Between k k r.1
  unfolding remove_from after_unregister
  remove_from-Between zero i k q willing e between =
      (refl, subst (λ x. Between x k q) (let f : i ≡ k = omega (arith, e) in f) between)
  remove_from-Between (suc n) i k q willing e (f, g, s) =
      let set : q.flash i ≡ true = f i ∙ ground (arith, e) in
      let there : q.registered i ≡ true = g i ∙ ground (arith, e) in
      rw (set, willing i, there)
        (remove_from-Between n (suc i) k
          (record q { registered = set_entry i false q.registered; stray = q.stray }) willing
          (omega (arith, e)) (f, dropped, s))
    where
      dropped : (j : ℕ) → set_entry i false q.registered j ≡ (leb (suc i) j && ltb j k)
      dropped j = elim (Bool-cases (j == i)) [
        | inl a ↦ rw a (ground (arith, a))
        | inr a ↦ rw a (g j ∙ ground (arith, a))
      ]

  altera_asmip2_remove_lem :
      (k : ℕ) (q : Asmip2)
      → ((j : ℕ) → kernel.mtd_device_unregister j ≡ ok)
      → Full k q
      → let r = altera_asmip2_remove kernel q in (r.0 ≡ ok) × RegisteredBelow 0 r.1
  unfolding altera_asmip2_remove altera_asmip2_remove_banks
  altera_asmip2_remove_lem k q willing (n, _, f, (g, s)) =
      let (done, between) =
        remove_from-Between q.num_flashes 0 k q willing (omega (arith, n))
          (f, (λ j. g j ∙ ground arith), s) in
      (done, ((λ j. between.1 j ∙ ground arith), between.2))

  -- The ends of a probe for `n` banks.
  abbrev pub ProbeEnds : {H : Type 0} → ℕ → Status × Option Asmip2 × H → Type 0
  ProbeEnds n (ret, none, h) = ret ≡ err enomem
  ProbeEnds n (ret, some q, h) =
      ((ret ≡ ok)
        × (n ≤ max_num_flash_chip)
        × RegisteredBelow n q
        × (let (removed, q') = altera_asmip2_remove kernel q in
            (removed ≡ ok) × RegisteredBelow 0 q'))
      ⊎ ((e : ℕ) × (k : ℕ) × (ret ≡ err e) × (k < n) × RegisteredBelow k q)

  -- When the kernel unregisters every MTD device that it is asked to: a probe for `n` banks fails
  -- with -ENOMEM before it adds any, or it returns 0 with the devices of all `n` banks registered, at
  -- most 3, and the removal unregisters each of them once and nothing else; or it returns an error
  -- with those of the first `k` registered, less than `n`, where they stay.
  pub altera_asmip2_probe_with_pdata-ProbeEnds :
      {H : Type 0} (q : Qspi H) (n : ℕ) (h : H)
      → ((j : ℕ) → kernel.mtd_device_unregister j ≡ ok)
      → ProbeEnds n (altera_asmip2_probe_with_pdata kernel q n h)
  unfolding altera_asmip2_probe_with_pdata altera_asmip2_create
  altera_asmip2_probe_with_pdata-ProbeEnds q n h willing =
      elim (Bool-cases kernel.kzalloc_controller) [
        | inr e ↦ subst Ends (sym e) refl
        | inl e ↦ subst Ends (sym e) (
            ended (add_banks kernel n 0 blank) (
              subst (λ m. Probed m (add_banks kernel n 0 blank))
                (let f : 0 + n ≡ n = omega arith in f)
                (add_banks-Probed n 0 blank
                  (refl, omega arith, (λ j. ground arith), ((λ j. ground arith), refl)))))
      ]
    where
      Ends : Bool → Type 0
      Ends b =
          let failed : Status × Option Asmip2 × _ = (err enomem, none, h) in
          let created : Status × Option Asmip2 × _ = (ok, some blank, reset_controller q h) in
          ProbeEnds n (after_create (add_banks kernel n 0) (if b then created else failed))

      ended : (r : Status × Asmip2) → Probed n r → ProbeEnds n (r.0, some r.1, reset_controller q h)
      ended r (inl (done, full)) =
          inl (done, full.1, full.3, altera_asmip2_remove_lem n r.1 willing full)
      ended r (inr (e, k, failed, less, kept)) = inr (e, k, failed, less, kept)
