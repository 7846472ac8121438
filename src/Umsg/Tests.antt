-- ===== src/Umsg/Tests.antt =====
-- Runs of the UMsg operations, and the theorems at them.
use opae_intel_fpga_driver.Base.{ℕ, ◌≡◌, ◌≢◌, refl, arith, Bool, true, false, ◌==◌, err, eio}
use opae_intel_fpga_driver.AfuData.{inorder}
use opae_intel_fpga_driver.Csr.{get_field, umsg_enable, base_addr}
use opae_intel_fpga_driver.Mmio.{Reg, Bus, port_umsg_capability, port_umsg_baseaddr}
use opae_intel_fpga_driver.Dma.Examples.{chains, serving, fresh_world}
use opae_intel_fpga_driver.Dma.Session.Served.{idle, served}
use opae_intel_fpga_driver.Dma.Map.{afu_dma_map_region}
use opae_intel_fpga_driver.Umsg.{
  Port, umsg_size, afu_port_umsg_enable, afu_port_umsg_set_addr, port_umsg_get_addr,
}
use opae_intel_fpga_driver.Umsg.Device.{UmsgDevice}
use opae_intel_fpga_driver.Umsg.Guard.{Backs}
use opae_intel_fpga_driver.Umsg.Session.{
  Uses, fresh, maps_memory, sets_base, switches, Uses-Guarded,
}

-- A device that follows its enable bit at once, with two messages.
record Chip : Type 0 where
  on : Bool
  base : ℕ

abbrev capability_of : Bool → ℕ
capability_of true = 0x302
capability_of false = 2

abbrev shown : Reg → Chip → ℕ
shown port_umsg_capability c = capability_of c.on
shown port_umsg_baseaddr c = c.base
shown _ c = 0

abbrev write_chip : Reg → ℕ → Chip → Chip
write_chip port_umsg_capability v c = record c { on = get_field umsg_enable v == 1 }
write_chip port_umsg_baseaddr v c = record c { base = v }
write_chip _ v c = c

abbrev chip_bus : Bus Chip
chip_bus = record { readq = λ r c. (shown r c, c); writeq = write_chip; udelay = λ t c. c }

abbrev base_in : Chip → ℕ
base_in c = c.base

abbrev on_in : Chip → Bool
on_in c = c.on

shown_on : (b : Bool) → (get_field umsg_enable (capability_of b) == 1) ≡ b
unfolding get_field
shown_on true = refl
shown_on false = refl

chip_laws : UmsgDevice chip_bus base_in on_in
chip_laws = record {
  read_base = λ h. refl;
  read_on = λ h. shown_on h.on;
  base-readq = λ r h. refl;
  on-readq = λ r h. refl;
  base-udelay = λ t h. refl;
  on-udelay = λ t h. refl;
  base-write_base = λ v h. refl;
  on-write_base = λ v h. refl;
  base-write_on = λ v h. refl;
  on-write_on = λ v h. refl;
  base-write_mode = λ v h. refl;
  on-write_mode = λ v h. refl;
}

abbrev asleep : Port Chip
asleep = record { hw = record { on = false; base = 0 }; dma = idle; num_umsgs = 2 }

-- Two pages are mapped, the messages are put there, and the engine is switched on.
abbrev with_memory : Port Chip
with_memory = record asleep { dma = (afu_dma_map_region chains serving idle 0 0x2000 7).state }

abbrev with_base : Port Chip
with_base = (afu_port_umsg_set_addr chip_bus 0x80000 with_memory).1

abbrev running : Port Chip
running = (afu_port_umsg_enable chip_bus true with_base).1

running-Uses : Uses chip_bus base_in on_in chip_laws chains fresh_world running
unfolding get_field
running-Uses = switches true (
    sets_base 0x80000
      (maps_memory serving 0 0x2000 7
        (fresh (record { on = false; base = 0 }) 2 (omega arith) refl refl) served)
      (omega arith))

Uses-Guarded_example :
    let addr = get_field base_addr running.hw.base in
    (addr ≢ 0 → Backs (inorder running.dma.regions) addr (umsg_size running))
    × (running.hw.on ≡ true → addr ≢ 0)
Uses-Guarded_example = Uses-Guarded chip_bus base_in on_in chip_laws chains fresh_world running-Uses

-- The engine is not switched on without a base address.
no_base : (afu_port_umsg_enable chip_bus true asleep).0 ≡ err eio
unfolding afu_port_umsg_enable port_umsg_get_addr get_field
no_base = refl
