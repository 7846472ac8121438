-- ===== src/Mmio/Poll.antt =====
-- What polling a register amounts to.
use opae_intel_fpga_driver.Base.{
  ℕ, zero, suc, ◌+◌, ◌*◌, ◌≤◌, ◌<◌, ◌≡◌, ◌≢◌, refl, ◌==◌, leb, Status, ok, err, etimedout, arith,
  ◌⊎◌, inl, inr, Bool-cases, ==_iff,
}
use opae_intel_fpga_driver.Csr.{Field, get_field}
use opae_intel_fpga_driver.Mmio.{Reg, Bus, poll, fpga_wait_register_field}

module _ {H : Type 0} (bus : Bus H) (field : Field) (reg : Reg) (invl : ℕ) where
  -- The device after `k` reads, each followed by a delay.
  abbrev pub after_rounds : ℕ → H → H
  after_rounds zero h = h
  after_rounds (suc k) h = after_rounds k (bus.udelay invl (bus.readq reg h).1)

  -- What the read after `k` rounds shows in the field.
  abbrev pub seen : ℕ → H → ℕ
  seen k h = get_field field (bus.readq reg (after_rounds k h)).0

  -- The poll ends well at the first of the rounds that shows the expected value.
  abbrev pub Succeeds : ℕ → ℕ → ℕ → H → Status × H → Type 0
  Succeeds expect timeout wait h r =
      (k : ℕ) × (wait + k * invl ≤ timeout)
      × ((j : ℕ) → j < k → seen j h ≢ expect)
      × (seen k h ≡ expect)
      × (r ≡ (ok, (bus.readq reg (after_rounds k h)).1))

  -- No round within the timeout shows the expected value.
  abbrev pub TimesOut : ℕ → ℕ → ℕ → H → Status × H → Type 0
  TimesOut expect timeout wait h r =
      ((k : ℕ) → wait + k * invl ≤ timeout → seen k h ≢ expect) × (r.0 ≡ err etimedout)

  module _ (expect timeout wait : ℕ) (h : H) (miss : seen 0 h ≢ expect) where
    later-Succeeds :
        (r : Status × H)
        → Succeeds expect timeout (wait + invl) (bus.udelay invl (bus.readq reg h).1) r
        → Succeeds expect timeout wait h r
    later-Succeeds r (k, le, before, hit, e) = (
      suc k,
      omega (arith, le),
      (λ j. elim j as (λ j. j < suc k → seen j h ≢ expect) [
        | zero ↦ λ lt. miss
        | suc j ↦ λ lt. before j (omega arith)
      ]),
      hit,
      e,
    )

    later-TimesOut :
        (r : Status × H)
        → TimesOut expect timeout (wait + invl) (bus.udelay invl (bus.readq reg h).1) r
        → TimesOut expect timeout wait h r
    later-TimesOut r (never, e) = (
      (λ k. elim k as (λ k. wait + k * invl ≤ timeout → seen k h ≢ expect) [
        | zero ↦ λ le. miss
        | suc k ↦ λ le. never k (omega arith)
      ]),
      e,
    )

  poll_lem :
      (expect timeout fuel wait : ℕ) (h : H)
      → 0 < invl
      → timeout < wait + fuel
      → let r = poll bus field reg expect timeout invl fuel wait h in
        Succeeds expect timeout wait h r ⊎ TimesOut expect timeout wait h r
  unfolding poll
  poll_lem expect timeout zero wait h pos enough = inr ((λ k le. absurd (omega arith)), refl)
  poll_lem expect timeout (suc fuel) wait h pos enough = elim (Bool-cases (leb wait timeout)) [
    | inr late ↦ rw (late, poll) (inr ((λ k le. absurd (ground (arith, late))), refl))
    | inl in_time ↦ elim (Bool-cases (get_field field (bus.readq reg h).0 == expect)) [
      | inl hit ↦
          rw (in_time, hit, poll)
            (inl (0, ground arith, (λ j lt. absurd (omega arith)), (==_iff _ _).0 hit, refl))
      | inr miss ↦
          let missed : seen 0 h ≢ expect = λ e. ground (arith, miss, e) in
          let h' = bus.udelay invl (bus.readq reg h).1 in
          let r = poll bus field reg expect timeout invl fuel (wait + invl) h' in
          rw (in_time, miss, poll)
            (elim (poll_lem expect timeout fuel (wait + invl) h' pos (omega arith)) [
              | inl s ↦ inl (later-Succeeds expect timeout wait h missed r s)
              | inr t ↦ inr (later-TimesOut expect timeout wait h missed r t)
            ])
    ]
  ]

  -- Waiting for a register field, with a positive interval, ends within the rounds that the timeout
  -- allows. Either the field showed the expected value in some round `k` with `k * invl` within the
  -- timeout, in none before it, and the result is 0 right after that read; or it showed it in no
  -- round within the timeout, and the result is -ETIMEDOUT.
  pub fpga_wait_register_field_lem :
      (expect timeout : ℕ) (h : H)
      → 0 < invl
      → let r = fpga_wait_register_field bus field reg expect timeout invl h in
        Succeeds expect timeout 0 h r ⊎ TimesOut expect timeout 0 h r
  unfolding fpga_wait_register_field
  fpga_wait_register_field_lem expect timeout h pos =
      poll_lem expect timeout (suc timeout) 0 h pos (omega arith)
