-- ===== src/Asmip2/Tests.antt =====
-- A controller that records the commands, and the transfers on it.
use opae_intel_fpga_driver.Base.{
  ℕ, ◌/◌, ◌%◌, ◌≡◌, refl, ap, arith, Bool, true, false, List, [], ◌∷◌, ◌++◌, if◌then◌else◌, ◌==◌,
  Status, ok, err, enodev,
}
use opae_intel_fpga_driver.Asmip2.{
  Qspi, SpiNor, altera_asmip2_write_reg, altera_asmip2_read_reg, receive, altera_asmip2_push_offset,
  altera_asmip2_read, altera_asmip2_write,
}
use opae_intel_fpga_driver.Asmip2.Banks.{
  Kernel, blank, add_children, after_children, altera_asmip2_add_bank, altera_asmip2_setup_banks,
  after_scan, after_register, altera_asmip2_remove_banks, remove_from, after_unregister, add_banks,
  altera_asmip2_probe_with_pdata,
}
use opae_intel_fpga_driver.Asmip2.Banks.Registered.{
  ProbeEnds, altera_asmip2_probe_with_pdata-ProbeEnds,
}
use opae_intel_fpga_driver.Asmip2.Device.{Command, Controller}
use opae_intel_fpga_driver.Asmip2.Transfer.{Programs, Reads, WritesReg, ReadsReg, transfers-Sent}

record Chip : Type 0 where
  queue : List ℕ
  sent : List Command

abbrev starts : ℕ → Bool
starts x = x / 2 % 4 == 3

abbrev start : ℕ → Chip → Chip
start x h = record { queue = []; sent = h.sent ++ (record { action = x; bytes = h.queue } ∷ []) }

abbrev chip : Qspi Chip
chip = record {
  writeb = λ b h. record { queue = h.queue ++ (b ∷ []); sent = h.sent };
  readb = λ h. (0xAB, h);
  writel = λ x h. if starts x then start x h else h;
  readl = λ h. (0, h);
  readl_poll_timeout = λ c h. (ok, h);
  udelay = λ t h. h;
}

starts_at : (x : ℕ) → x / 2 % 4 ≡ 3 → starts x ≡ true
starts_at x e = ground (arith, e)

chip_laws : Controller chip
chip_laws = record {
  queued = λ h. h.queue;
  commands = λ h. h.sent;
  writeb_queued = λ b h. refl;
  writeb_commands = λ b h. refl;
  readb_queued = λ h. refl;
  readb_commands = λ h. refl;
  poll_queued = λ c h. refl;
  poll_commands = λ c h. refl;
  stop_queued = λ h. refl;
  stop_commands = λ h. refl;
  start_queued = λ x h e. ap (λ b. (if b then start x h else h).queue) (starts_at x e);
  start_commands = λ x h e. ap (λ b. (if b then start x h else h).sent) (starts_at x e);
}

abbrev nor : SpiNor
nor = record { addr_width = 3; read_opcode = 11; program_opcode = 2 }

abbrev idle : Chip
idle = record { queue = []; sent = [] }

write_run :
    (altera_asmip2_write chip nor 0x12345 (7 ∷ 8 ∷ []) idle).1.sent
    ≡ record { action = 6; bytes = 2 ∷ 0x01 ∷ 0x23 ∷ 0x45 ∷ 7 ∷ 8 ∷ [] } ∷ []
unfolding altera_asmip2_write altera_asmip2_push_offset
write_run = refl

read_run : (altera_asmip2_read chip nor 0x12345 2 idle).1 ≡ 0xAB ∷ 0xAB ∷ []
unfolding altera_asmip2_read receive altera_asmip2_push_offset
read_run = refl

transfers-Sent_example :
    Programs chip chip_laws nor 0x12345
      (7 ∷ 8 ∷ [])
      idle
      (altera_asmip2_write chip nor 0x12345 (7 ∷ 8 ∷ []) idle)
    × Reads chip chip_laws nor 0x12345 2 idle (altera_asmip2_read chip nor 0x12345 2 idle)
    × WritesReg chip chip_laws 6
        (7 ∷ 8 ∷ [])
        idle
        (altera_asmip2_write_reg chip 6 (7 ∷ 8 ∷ []) idle)
    × ReadsReg chip chip_laws 6 2 idle (altera_asmip2_read_reg chip 6 2 idle)
unfolding chip_laws
transfers-Sent_example =
    transfers-Sent chip chip_laws nor 0x12345 2 6 (7 ∷ 8 ∷ []) idle (omega arith) refl

-- A kernel that finds a flash in bank 0 only.
abbrev scans : ℕ → Status
scans bank = if bank == 0 then ok else err enodev

abbrev one_flash : Kernel
one_flash = record {
  kzalloc_controller = true;
  kzalloc_flash = λ bank. true;
  spi_nor_scan = scans;
  mtd_device_register = λ bank. ok;
  mtd_device_unregister = λ bank. ok;
}

-- With a device tree, the removal after the failure of bank 1 unregisters its device too, which was
-- never registered.
stray_run :
    let q = (after_children one_flash (add_children one_flash (0 ∷ 1 ∷ []) blank)).1 in
    (q.stray ≡ 1) × (q.registered 0 ≡ false)
unfolding after_children add_children altera_asmip2_add_bank altera_asmip2_setup_banks after_scan
    after_register altera_asmip2_remove_banks remove_from after_unregister
stray_run = (refl, refl)

-- Without one, bank 0 stays registered.
left_run : let r = add_banks one_flash 2 0 blank in (r.0 ≡ err enodev) × (r.1.registered 0 ≡ true)
unfolding add_banks altera_asmip2_add_bank altera_asmip2_setup_banks after_scan after_register
left_run = (refl, refl)

altera_asmip2_probe_with_pdata-ProbeEnds_example :
    ProbeEnds one_flash 2 (altera_asmip2_probe_with_pdata one_flash chip 2 idle)
altera_asmip2_probe_with_pdata-ProbeEnds_example =
    altera_asmip2_probe_with_pdata-ProbeEnds one_flash chip 2 idle (λ bank. refl)
