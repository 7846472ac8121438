-- ===== src/FeatureDev.antt =====
-- drivers/fpga/intel/feature-dev.c and the inline functions of include/intel/feature-dev.h: what
-- the FME and port drivers share.
pub mod PortReset
pub mod OpenCount
pub mod Msix
pub mod Init
mod Tests
