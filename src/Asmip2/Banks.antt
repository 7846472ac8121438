-- ===== src/Asmip2/Banks.antt =====
-- The flash chips of the controller, altera-asmip2.c: from altera_asmip2_create to
-- altera_asmip2_remove.
pub mod Registered
use opae_intel_fpga_driver.Base.{
  ℕ, zero, suc, ◌+◌, ◌-◌, ◌%◌, ◌^◌, Bool, true, false, not, Option, none, some, if◌then◌else◌, ◌==◌,
  ltb, leb, u32, List, [], ◌∷◌, Status, ok, err, eio, enomem, einval, and_then,
}
use opae_intel_fpga_driver.Asmip2.{Qspi, qspi_action_rst}

-- `struct altera_asmip2`: which entries of `flash` are set. With it, which banks have a registered
-- MTD device, and how often one was unregistered that had none.
pub record Asmip2 : Type 0 where
  pub num_flashes : ℕ
  pub flash : ℕ → Bool
  pub registered : ℕ → Bool
  pub stray : ℕ

-- The answers of the kernel, for a bank.
pub record Kernel : Type 0 where
  pub kzalloc_controller : Bool
  pub kzalloc_flash : ℕ → Bool
  pub spi_nor_scan : ℕ → Status
  pub mtd_device_register : ℕ → Status
  pub mtd_device_unregister : ℕ → Status

-- ALTERA_ASMIP2_MAX_NUM_FLASH_CHIP
abbrev pub max_num_flash_chip : ℕ
max_num_flash_chip = 3

abbrev pub set_entry : ℕ → Bool → (ℕ → Bool) → ℕ → Bool
set_entry bank b f j = if j == bank then b else f j

-- The reset of the controller.
unfoldable pub reset_controller : {H : Type 0} → Qspi H → H → H
reset_controller q h =
    let (reg, h1) = q.readl h in
    let asserted = q.udelay 10 (q.writel (reg + qspi_action_rst) h1) in
    let h2 = if reg % 2 == 0 then asserted else h1 in q.udelay 10 (q.writel (reg - reg % 2) h2)

-- The zeroed structure.
abbrev pub blank : Asmip2
blank = record { num_flashes = 0; flash = λ j. false; registered = λ j. false; stray = 0 }

-- From `mtd_device_register` on.
unfoldable pub after_register : Status → ℕ → Asmip2 → Status × Asmip2
after_register (err e) bank q = (err e, q)
after_register ok bank q = (ok, record q { registered = set_entry bank true q.registered })

-- Given the answer of `mtd_device_unregister`.
unfoldable pub after_unregister : Status → ℕ → Asmip2 → Status × Asmip2
after_unregister (err e) bank q = (err e, q)
after_unregister ok bank q =
    let strays = if q.registered bank then q.stray else q.stray + 1 in
    (ok, record q { registered = set_entry bank false q.registered; stray = strays })

-- What follows a successful `altera_asmip2_create`.
abbrev pub after_create :
    {H : Type 0}
    → (Asmip2 → Status × Asmip2)
    → Status × Option Asmip2 × H
    → Status × Option Asmip2 × H
after_create go (ret, none, h) = (ret, none, h)
after_create go (ret, some q, h) = let (ret', q') = go q in (ret', some q', h)

module _ (kernel : Kernel) where
  unfoldable pub altera_asmip2_create : {H : Type 0} → Qspi H → H → Status × Option Asmip2 × H
  altera_asmip2_create {H = H} q h =
      let failed : Status × Option Asmip2 × H = (err enomem, none, h) in
      let created : Status × Option Asmip2 × H = (ok, some blank, reset_controller q h) in
      if kernel.kzalloc_controller then created else failed

  -- From `spi_nor_scan` on.
  unfoldable pub after_scan : Status → ℕ → Asmip2 → Status × Asmip2
  unfolding after_register
  after_scan (err e) bank q = (err e, q)
  after_scan ok bank q = after_register (kernel.mtd_device_register bank) bank q

  unfoldable pub altera_asmip2_setup_banks : ℕ → Asmip2 → Status × Asmip2
  unfolding after_scan
  altera_asmip2_setup_banks bank q =
      let held : Asmip2 = record q { flash = set_entry bank true q.flash } in
      let scanned = after_scan (kernel.spi_nor_scan bank) bank held in
      if ltb (u32 (q.num_flashes + (2 ^ 32 - 1))) bank
      then (err einval, q)
      else if kernel.kzalloc_flash bank
      then scanned
      else (err enomem, q)

  unfoldable pub altera_asmip2_add_bank : ℕ → Asmip2 → Status × Asmip2
  altera_asmip2_add_bank bank q =
      let counted : Asmip2 = record q { num_flashes = q.num_flashes + 1 } in
      let added = altera_asmip2_setup_banks bank counted in
      if leb max_num_flash_chip q.num_flashes then (err enomem, q) else added

  -- The loop over the banks, from `i` on with `n` to go.
  unfoldable pub remove_from : ℕ → ℕ → Asmip2 → Status × Asmip2
  unfolding after_unregister
  remove_from zero i q = (ok, q)
  remove_from (suc n) i q =
      let skipped : Status × Asmip2 = (ok, q) in
      let one =
        if q.flash i then after_unregister (kernel.mtd_device_unregister i) i q else skipped in
      and_then one (remove_from n (suc i))

  -- The driver data is there.
  unfoldable pub altera_asmip2_remove_banks : Asmip2 → Status × Asmip2
  unfolding remove_from
  altera_asmip2_remove_banks q = remove_from q.num_flashes 0 q

  unfoldable pub altera_asmip2_remove : Asmip2 → Status × Asmip2
  altera_asmip2_remove q = altera_asmip2_remove_banks q

  -- The loop of the probe, from bank `i` on with `n` to go.
  unfoldable pub add_banks : ℕ → ℕ → Asmip2 → Status × Asmip2
  add_banks zero i q = (ok, q)
  add_banks (suc n) i q = and_then (altera_asmip2_add_bank i q) (add_banks n (suc i))

  unfoldable pub altera_asmip2_probe_with_pdata :
      {H : Type 0} → Qspi H → ℕ → H → Status × Option Asmip2 × H
  unfolding add_banks altera_asmip2_create
  altera_asmip2_probe_with_pdata q num_chip_sel h =
      after_create (add_banks num_chip_sel 0) (altera_asmip2_create q h)

  -- The loop over the children in the device tree, each with its bank.
  unfoldable pub add_children : List ℕ → Asmip2 → Status × Asmip2
  add_children [] q = (ok, q)
  add_children (bank ∷ banks) q =
      let (ret, q') = altera_asmip2_add_bank bank q in
      let added : Status × Asmip2 = (ret, q') in
      let too_high : Status × Asmip2 = (err einval, q) in
      and_then (if leb max_num_flash_chip bank then too_high else added) (add_children banks)

  -- The end of the probe with a device tree: any failure removes the banks and gives -EIO.
  unfoldable pub after_children : Status × Asmip2 → Status × Asmip2
  after_children (ok, q) = (ok, q)
  after_children (err e, q) = (err eio, (altera_asmip2_remove_banks q).1)

  -- With a device tree, after `devm_ioremap_resource`.
  unfoldable pub altera_asmip2_probe :
      {H : Type 0} → Qspi H → List ℕ → H → Status × Option Asmip2 × H
  unfolding after_children add_children altera_asmip2_create
  altera_asmip2_probe q banks h =
      after_create (λ d. after_children (add_children banks d)) (altera_asmip2_create q h)
