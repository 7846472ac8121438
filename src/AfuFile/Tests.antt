-- ===== src/AfuFile/Tests.antt =====
-- A device file that is opened, used and closed, and a mapping of its registers.
use opae_intel_fpga_driver.Base.{
  ℕ, zero, suc, ◌+◌, ◌≡◌, refl, true, false, none, some, [], ◌∷◌, arith, In, ok,
}
use opae_intel_fpga_driver.AfuData.{Afu, AfuRegion, leaf}
use opae_intel_fpga_driver.Mmio.{Bus}
use opae_intel_fpga_driver.Region.{afu_get_region_by_offset, find_by_offset, covers}
use opae_intel_fpga_driver.Dma.Examples.{chains, serving, fresh_world}
use opae_intel_fpga_driver.Dma.Session.Served.{idle, served}
use opae_intel_fpga_driver.FeatureDev.Msix.{Feature, Kernel, context}
use opae_intel_fpga_driver.FeatureDev.OpenCount.{feature_dev_use_begin, feature_dev_use_end}
use opae_intel_fpga_driver.AfuIoctl.{DmaMapArg}
use opae_intel_fpga_driver.AfuFile.{
  PortFile, Vma, dma_map, afu_open, afu_ioctl, afu_release, release_last, reset_port, afu_mmap,
  map_region,
}
use opae_intel_fpga_driver.AfuFile.Release.{Silent}
use opae_intel_fpga_driver.AfuFile.Mmap.{Granted, afu_mmap-Granted}
use opae_intel_fpga_driver.AfuFile.Life.{Life, probed, opens, controls, closes, Clean, Life-Clean}

-- A device whose registers all read as 0.
abbrev quiet : Bus ℕ
quiet = record { readq = λ r h. (0, h); writeq = λ r v h. h; udelay = λ t h. h + t }

abbrev kernel : Kernel
kernel = record {
  kasprintf = λ v. true;
  eventfd_ctx_fdget = λ fd. context fd;
  request_irq = λ irq t. ok;
}

abbrev one_vector : Feature
one_vector = record {
  ctx = record { irq = 40; trigger = none } ∷ [];
  eventfds = 0;
  names = 0;
  handlers = 0;
}

abbrev uafu : AfuRegion
uafu = record { index = 0; flags = 7; size = 0x40000; offset = 0; phys = 0x9000_0000 }

abbrev two_capabilities : Afu
two_capabilities = record {
  region_cur_offset = 0x40000;
  capability = 3;
  num_regions = 1;
  num_umsgs = 0;
  num_uafu_irqs = 1;
  regions = uafu ∷ [];
  dma_regions = leaf;
}

abbrev idle_port : PortFile ℕ
idle_port = record {
  opens = record { excl_open = 0; open_count = 0 };
  err_irqs = one_vector;
  uint_irqs = one_vector;
  umsg_present = false;
  port = record { hw = 0; dma = idle; num_umsgs = 0 };
  disable_count = 0;
  afu = two_capabilities;
}

-- Two pages.
abbrev request : DmaMapArg
request = record { argsz = 32; flags = 0; user_addr = 0; length = 0x2000; iova = 7 }

abbrev opened : PortFile ℕ
opened = (afu_open quiet chains serving kernel false idle_port).1

abbrev used : PortFile ℕ
used = (afu_ioctl quiet chains serving kernel (dma_map true (some request)) opened).1

abbrev closed : PortFile ℕ
closed = afu_release quiet chains serving kernel used

open_once : (opened.opens.open_count ≡ 1) × (used.opens.open_count ≡ 1)
unfolding afu_open feature_dev_use_begin afu_ioctl
open_once = (refl, refl)

closed_once : closed.opens.open_count ≡ 0
unfolding afu_open feature_dev_use_begin feature_dev_use_end afu_ioctl afu_release release_last
    reset_port
closed_once = refl

closed-Life : Life quiet chains kernel fresh_world closed
unfolding afu_open feature_dev_use_begin
closed-Life =
    closes used serving
      (controls opened serving (dma_map true (some request))
        (opens idle_port serving false
          (probed idle_port refl silent silent (omega arith) (omega arith) refl) (omega arith))
        (omega arith) served)
      (omega (arith, open_once.1))
  where
    silent : Silent one_vector
    silent zero lt = refl
    silent (suc n) lt = absurd (omega (arith, lt))

Life-Clean_example :
    Clean closed
    × ((q : ℕ) → closed.port.dma.world.page_refs q ≡ fresh_world.page_refs q)
    × (closed.port.dma.world.locked_vm ≡ fresh_world.locked_vm)
Life-Clean_example = Life-Clean quiet chains kernel fresh_world closed closed-Life closed_once

-- The second page of the region, for reading.
abbrev second_page : Vma
second_page = record {
  vm_start = 0x7000_0000;
  vm_end = 0x7000_1000;
  vm_pgoff = 1;
  shared = true;
  readable = true;
  writable = false;
}

second_page_mapped : afu_mmap uafu two_capabilities second_page ≡ (ok, some (0x90001, 0x1000))
unfolding afu_mmap map_region afu_get_region_by_offset find_by_offset covers
second_page_mapped = refl

afu_mmap-Granted_example :
    (region : AfuRegion) × In region two_capabilities.regions
    × Granted second_page region (0x90001, 0x1000)
afu_mmap-Granted_example =
    afu_mmap-Granted uafu two_capabilities second_page (0x90001, 0x1000) (omega arith)
      (((omega arith, omega arith), tt)) (omega arith) (omega arith) (omega arith)
      second_page_mapped
