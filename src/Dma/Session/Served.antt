-- ===== src/Dma/Session/Served.antt =====
-- A map request that the kernel serves, and the state after it, for the tests.
use opae_intel_fpga_driver.Base.{◌≡◌, refl, arith}
use opae_intel_fpga_driver.AfuData.{leaf}
use opae_intel_fpga_driver.Dma.Pin.{
  afu_dma_pin_pages, pin_into_array, afu_dma_adjust_locked_vm, adjust,
  afu_dma_check_continuous_pages,
}
use opae_intel_fpga_driver.Dma.Store.{afu_dma_region_add, link}
use opae_intel_fpga_driver.Dma.Map.{
  after_pin, check_pinned, map_pinned, after_add, Dma, afu_dma_map_region,
}
use opae_intel_fpga_driver.Dma.Session.{Reach, start, maps, IsServed}
use opae_intel_fpga_driver.Dma.Examples.{chains, serving, fresh_world}

abbrev pub idle : Dma
idle = record { regions = leaf; world = fresh_world }

pub mapped_iova : (afu_dma_map_region chains serving idle 0 0x2000 7).out_iova ≡ 0x80000
unfolding afu_dma_map_region afu_dma_pin_pages pin_into_array after_pin check_pinned
    afu_dma_check_continuous_pages map_pinned after_add afu_dma_region_add link
    afu_dma_adjust_locked_vm adjust
mapped_iova = refl

pub served : IsServed chains serving idle 0 0x2000 7
served = record {
  room = omega arith;
  small = λ h. omega arith;
  pins_all = λ ps e. cc;
  in_space = omega (arith, mapped_iova);
}

abbrev pub one_mapped : Dma
one_mapped = (afu_dma_map_region chains serving idle 0 0x2000 7).state

pub one_mapped-Reach : Reach chains fresh_world one_mapped
one_mapped-Reach = maps serving 0 0x2000 7 start served
