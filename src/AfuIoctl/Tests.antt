-- ===== src/AfuIoctl/Tests.antt =====
-- A run of the ioctl that maps memory, and the theorem at it.
use opae_intel_fpga_driver.Base.{ℕ, ◌≢◌, arith, false, some, err, ok}
use opae_intel_fpga_driver.Base.{Status}
use opae_intel_fpga_driver.Dma.Map.{Dma, afu_dma_map_region}
use opae_intel_fpga_driver.Dma.Examples.{chains, serving, fresh_world}
use opae_intel_fpga_driver.Dma.Session.{start}
use opae_intel_fpga_driver.Dma.Session.Settle.{Reach-IsSound}
use opae_intel_fpga_driver.Dma.Session.Served.{idle, served}
use opae_intel_fpga_driver.AfuIoctl.{DmaMapArg, after_map, afu_ioctl_dma_map}
use opae_intel_fpga_driver.AfuIoctl.DmaMap.{Restores, afu_ioctl_dma_map-Restores}

abbrev request : DmaMapArg
request = record { argsz = 32; flags = 0; user_addr = 0; length = 0x2000; iova = 7 }

never_ok : (s : Status) (iova : ℕ) (d : Dma) → (after_map chains serving false s iova d).0 ≢ ok
unfolding after_map
never_ok ok iova d e = ground (arith, e)
never_ok (err c) iova d e = ground (arith, e)

-- The address cannot be written back.
not_copied : (afu_ioctl_dma_map chains serving false (some request) idle).0 ≢ ok
unfolding afu_ioctl_dma_map after_map
not_copied e =
    let r = afu_dma_map_region chains serving idle 0 0x2000 7 in
    never_ok r.status r.out_iova r.state e

afu_ioctl_dma_map-Restores_example :
    Restores idle (afu_ioctl_dma_map chains serving false (some request) idle).2
afu_ioctl_dma_map-Restores_example =
    afu_ioctl_dma_map-Restores chains serving fresh_world idle
      (Reach-IsSound chains fresh_world idle start) false request served.room served.small
      served.pins_all (λ _. served.in_space) not_copied
