-- ===== src/FmePr/Device.antt =====
-- What the device makes of a push of data, and of the operations around it.
use mathlib.Core.Path.{subst}
use opae_intel_fpga_driver.Base.{
  ℕ, zero, suc, ◌+◌, ◌*◌, ◌/◌, ◌%◌, ◌<◌, ◌≤◌, ◌≡◌, ◌∙◌, ap, refl, arith, Bool, true, some, List, [],
  ◌∷◌, ◌++◌, ◌==◌, ltb, leb, length, take, drop, All, Bool-cases, inl, inr, ==_iff,
}
use opae_intel_fpga_driver.Csr.{get_field, pr_credit, pr_status}
use opae_intel_fpga_driver.Mmio.{
  Reg, Bus, ccip_fme_pr_control, ccip_fme_pr_status, ccip_fme_pr_data, ccip_fme_pr_err,
}
use opae_intel_fpga_driver.FmePr.{
  word_at, pr_err_handle, change_control, await_credit, put, copy512, pr_wait_timeout,
}

-- The bytes of a 32-bit word from the lowest on.
abbrev pub bytes4 : ℕ → List ℕ
bytes4 v = v % 0x100 ∷ v / 0x100 % 0x100 ∷ v / 0x10000 % 0x100 ∷ v / 0x1000000 % 0x100 ∷ []

abbrev pub IsByte : ℕ → Type 0
IsByte b = b < 0x100

-- What the device does with the data pushed: `sent` is what it has taken in, `free` is how many
-- more chunks it can take in, and `lost` is the number of those it had no room for. Room is used up
-- only by a push, and the status register shows no more credit than there is room.
pub record PrDevice {H : Type 0} (bus : Bus H) (store512 : List ℕ → H → H) (sent : H → List ℕ)
    (free lost : H → ℕ) : Type 0 where
  pub credit_lem :
      (h : H) → let (csr, h') = bus.readq ccip_fme_pr_status h in get_field pr_credit csr ≤ free h'
  pub sent-readq : (r : Reg) (h : H) → sent (bus.readq r h).1 ≡ sent h
  pub lost-readq : (r : Reg) (h : H) → lost (bus.readq r h).1 ≡ lost h
  pub sent-udelay : (t : ℕ) (h : H) → sent (bus.udelay t h) ≡ sent h
  pub lost-udelay : (t : ℕ) (h : H) → lost (bus.udelay t h) ≡ lost h
  pub sent-control : (v : ℕ) (h : H) → sent (bus.writeq ccip_fme_pr_control v h) ≡ sent h
  pub lost-control : (v : ℕ) (h : H) → lost (bus.writeq ccip_fme_pr_control v h) ≡ lost h
  pub sent-err : (v : ℕ) (h : H) → sent (bus.writeq ccip_fme_pr_err v h) ≡ sent h
  pub lost-err : (v : ℕ) (h : H) → lost (bus.writeq ccip_fme_pr_err v h) ≡ lost h
  pub sent-data :
      (v : ℕ) (h : H) → 0 < free h → sent (bus.writeq ccip_fme_pr_data v h) ≡ sent h ++ bytes4 v
  pub lost-data : (v : ℕ) (h : H) → 0 < free h → lost (bus.writeq ccip_fme_pr_data v h) ≡ lost h
  pub free-data : (v : ℕ) (h : H) → free h ≤ free (bus.writeq ccip_fme_pr_data v h) + 1
  pub sent-store512 : (c : List ℕ) (h : H) → 0 < free h → sent (store512 c h) ≡ sent h ++ c
  pub lost-store512 : (c : List ℕ) (h : H) → 0 < free h → lost (store512 c h) ≡ lost h
  pub free-store512 : (c : List ℕ) (h : H) → free h ≤ free (store512 c h) + 1

bytes4-word_at :
    (buf : List ℕ) → All IsByte buf → 4 ≤ length buf → bytes4 (word_at buf) ≡ take 4 buf
unfolding word_at
bytes4-word_at (a ∷ b ∷ c ∷ d ∷ rest) (ba, (bb, (bc, (bd, br)))) le =
    let v = a + b * 0x100 + c * 0x10000 + d * 0x1000000 in
    let lo : v % 0x100 ≡ a = omega arith in
    let second : v / 0x100 % 0x100 ≡ b = omega arith in
    let third : v / 0x10000 % 0x100 ≡ c = omega arith in
    let hi : v / 0x1000000 % 0x100 ≡ d = omega arith in rw (lo, second, third, hi) refl
bytes4-word_at (a ∷ b ∷ c ∷ []) bs le = absurd (omega arith)
bytes4-word_at (a ∷ b ∷ []) bs le = absurd (omega arith)
bytes4-word_at (a ∷ []) bs le = absurd (omega arith)
bytes4-word_at [] bs le = absurd (omega arith)

some_injective : {A : Type 0} {a b : A} → some a ≡ some b → a ≡ b
some_injective e = cc

pub length_zero : (xs : List ℕ) → length xs ≡ 0 → xs ≡ []
length_zero [] e = refl
length_zero (x ∷ xs) e = absurd (omega (arith, e))

pub All-drop : (n : ℕ) (xs : List ℕ) → All IsByte xs → All IsByte (drop n xs)
All-drop zero xs a = a
All-drop (suc n) [] a = a
All-drop (suc n) (x ∷ xs) a = All-drop n xs a.1

module _ {H : Type 0} (bus : Bus H) (avx512 : Bool) (store512 : List ℕ → H → H) (sent : H → List ℕ)
    (free lost : H → ℕ) (laws : PrDevice bus store512 sent free lost) where
  -- Nothing is pushed between the two states.
  abbrev pub Quiet : H → H → Type 0
  Quiet h h' = (sent h' ≡ sent h) × (lost h' ≡ lost h)

  pub pr_err_handle-Quiet : (h : H) → Quiet h (pr_err_handle bus avx512 store512 h).1
  unfolding pr_err_handle
  pr_err_handle-Quiet h =
      let (status, h1) = bus.readq ccip_fme_pr_status h in
      let (error, h2) = bus.readq ccip_fme_pr_err h1 in
      elim (Bool-cases (get_field pr_status status == 0)) [
        | inl e ↦ rw e (laws.sent-readq ccip_fme_pr_status h, laws.lost-readq ccip_fme_pr_status h)
        | inr e ↦ rw e (
          laws.sent-err error h2
              ∙ laws.sent-readq ccip_fme_pr_err h1
              ∙ laws.sent-readq ccip_fme_pr_status h,
          laws.lost-err error h2
              ∙ laws.lost-readq ccip_fme_pr_err h1
              ∙ laws.lost-readq ccip_fme_pr_status h,
        )
      ]

  pub change_control-Quiet :
      (change : ℕ → ℕ) (h : H) → Quiet h (change_control bus avx512 store512 change h).1
  unfolding change_control
  change_control-Quiet change h =
      let (csr, h') = bus.readq ccip_fme_pr_control h in
      (
        laws.sent-control (change csr) h' ∙ laws.sent-readq ccip_fme_pr_control h,
        laws.lost-control (change csr) h' ∙ laws.lost-readq ccip_fme_pr_control h,
      )

  -- Waiting for credit pushes nothing, and the credit found is covered by room in the device.
  pub await_credit_lem :
      (fuel delay credit : ℕ) (h : H)
      → credit ≤ free h
      → let (there, delay', credit', h') = await_credit bus avx512 store512 fuel delay credit h in
        (sent h' ≡ sent h)
        × (lost h' ≡ lost h)
        × (there ≡ true → (0 < credit') × (credit' ≤ free h'))
  unfolding await_credit
  await_credit_lem zero delay credit h le = (refl, refl, λ e. absurd (ground (arith, e)))
  await_credit_lem (suc fuel) delay credit h le = elim (Bool-cases (leb credit 1)) [
    | inr more ↦ rw (more, await_credit) (refl, refl, λ e. (ground (arith, more), le))
    | inl few ↦ elim (Bool-cases (ltb pr_wait_timeout delay)) [
      | inl late ↦ rw (few, late, await_credit) (refl, refl, λ e. absurd (ground (arith, e)))
      | inr early ↦
          let h1 = bus.udelay 1 h in
          let (csr, h') = bus.readq ccip_fme_pr_status h1 in
          let rest =
            await_credit_lem fuel (delay + 1) (get_field pr_credit csr) h' (laws.credit_lem h1) in
          rw (few, early, await_credit)
            (
              rest.0 ∙ laws.sent-readq ccip_fme_pr_status h1 ∙ laws.sent-udelay 1 h,
              rest.1 ∙ laws.lost-readq ccip_fme_pr_status h1 ∙ laws.lost-udelay 1 h,
              rest.2,
            )
    ]
  ]

  -- The first `bandwidth` bytes have gone into the device, which had room for them.
  abbrev pub Pushed : ℕ → List ℕ → H → H → Type 0
  Pushed bandwidth buf h h' =
      (0 < bandwidth)
      × (sent h' ≡ sent h ++ take bandwidth buf)
      × (lost h' ≡ lost h)
      × (free h ≤ free h' + 1)

  -- The 64-byte path is only taken in a build that has it.
  abbrev pub Built : ℕ → Type 0
  Built bandwidth = bandwidth ≡ 64 → avx512 ≡ true

  pub put-Pushed :
      (bandwidth : ℕ) (buf : List ℕ) (h h' : H)
      → Built bandwidth
      → All IsByte buf
      → bandwidth ≤ length buf
      → 0 < free h
      → put bus avx512 store512 bandwidth buf h ≡ some h'
      → Pushed bandwidth buf h h'
  unfolding put copy512
  put-Pushed bandwidth buf h h' built bytes le room = elim (Bool-cases (bandwidth == 4)) [
    | inl four ↦
        let v = word_at buf in
        let is_four = (==_iff bandwidth 4).0 four in
        let word = bytes4-word_at buf bytes (omega (arith, is_four)) in
        rw four (λ e. subst (Pushed bandwidth buf h) (some_injective e) (
          rw is_four (
            omega arith,
            laws.sent-data v h room ∙ ap (λ c. sent h ++ c) word,
            laws.lost-data v h room,
            laws.free-data v h,
          )))
    | inr other ↦ elim (Bool-cases (bandwidth == 64)) [
      | inl wide ↦
          let c = take 64 buf in
          rw (other, wide, built ((==_iff bandwidth 64).0 wide))
            (λ e. subst (Pushed bandwidth buf h) (some_injective e) (
              rw ((==_iff bandwidth 64).0 wide) (
                omega arith,
                laws.sent-store512 c h room,
                laws.lost-store512 c h room,
                laws.free-store512 c h,
              )))
      | inr none_of_them ↦ rw (other, none_of_them) (λ e. absurd (ground (arith, e)))
    ]
  ]
