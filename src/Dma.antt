-- ===== src/Dma.antt =====
-- drivers/fpga/intel/dma-region.c: user memory that is pinned and mapped for the device.
pub mod Kernel
pub mod Pin
pub mod Store
pub mod Map
pub mod Session
pub mod Examples
