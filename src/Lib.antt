-- ===== src/Lib.antt =====
-- The OPAE Intel FPGA driver: the kernel modules of drivers/fpga/intel, which give user space
-- access to the accelerators (AFU, one per port) and to the management engine (FME) of an Intel FPGA.
--
-- Parts, files and code. The PCIe driver creates one feature device per port and one for the FME.
-- Each has platform data (mutex, open counts, disable count) and features with registers and
-- interrupts. A port's private state has the MMIO regions that can be mapped, the DMA regions that
-- the user has mapped for the device, and the number of user messages (UMsg). One operation is one
-- step. Most hold the mutex of their device throughout; afu_dma_map_region pins and maps the pages
-- before it takes the mutex for the tree, and what other threads do in between is not modelled.
--   Base       Boolean tests, lists over native numbers, machine words, return codes.
--   AfuData    struct fpga_afu, fpga_afu_region and fpga_afu_dma_region (include/intel/afu.h).
--   Region     drivers/fpga/intel/region.c: the list of MMIO regions.
--   Dma        drivers/fpga/intel/dma-region.c: Pin is pinning and accounting, Store the tree of
--              regions, Map the operations of the ioctls, Session histories of them.
--   Csr, Mmio  the bit-fields of registers, readq and writeq, and fpga_wait_register_field
--              (include/intel/feature-dev.h).
--   FeatureDev drivers/fpga/intel/feature-dev.c with the inline functions of feature-dev.h:
--              PortReset is __fpga_port_disable, __fpga_port_enable and __fpga_port_reset, OpenCount
--              the feature_dev_use functions, Msix is fpga_set_vector_signal and
--              fpga_msix_set_block, Init is fpga_dev_feature_init and fpga_dev_feature_uinit.
--   Umsg       the UMsg functions of drivers/fpga/intel/afu.c, down to the registers; they look up
--              and mark the DMA regions of Dma.
--   AfuIoctl   the ioctls of afu.c that map and unmap memory, and those that describe the port and
--              its regions.
--   AfuFile    the device file of a port: afu_open, afu_release, afu_ioctl and afu_mmap of afu.c, with
--              the ioctls for interrupts of afu.c and afu-error.c, over all of the above.
--   Errors     the error registers of the FME (drivers/fpga/intel/fme-error.c) and of a port
--              (afu-error.c): showing, clearing and injecting errors.
--   FmeMgmt    the sysfs files of drivers/fpga/intel/fme-main.c for thermal and power management.
--   FmePerf    drivers/fpga/intel/fme-iperf.c: the files that read, freeze and enable the
--              performance counters, and Tree, the creation and destruction of their objects.
--   FmePr      the partial reconfiguration of drivers/fpga/intel/fme-pr.c: fme_pr_write_init,
--              fme_pr_write and fme_pr_write_complete; Request is the ioctl fme_pr.
--   Dfl        drivers/fpga/intel/pcie.c, the enumeration: Build is the construction of feature devices,
--              Parse the walk over the device feature lists down from cci_pci_create_feature_devs;
--              Ends and Kept are rules that carry a property through them.
--   PortAssign the ioctls of drivers/fpga/intel/fme-main.c that release and assign a port, with
--              attach_port_dev, detach_port_dev and cci_pci_sriov_configure of pcie.c.
--   Asmip2     drivers/mtd/spi-nor/altera-asmip2.c: the transfers of the flash controller; Banks is
--              the probe, which adds the flash chips, and the removal.
-- A model function has the name of the C function; one without a counterpart is a part of the
-- function that follows it, from the point that its comment names. State is passed in and out, and
-- an int result is a Status. Machine words are native numbers whose wrap-around is written out.
--
-- Parameters. What the kernel does is not under this tree: the red-black tree library (RbLib, with
-- the order of its nodes as laws), memory management, the DMA API and credentials (Env), eventfd
-- and interrupts (Msix.Kernel), the BARs with the answers of the kernel to the enumeration
-- (Platform, FmeHdr), kobjects (Kobjects), MTD devices (Asmip2.Banks.Kernel), and the device (Bus,
-- Qspi, and store512 for the inline assembly of copy512, where avx512 says how the driver is built). The numbers that kstrtou8 and its like make of a text are arguments. A theorem that depends
-- on how a device behaves says so by a record of laws (Latches, UmsgDevice, PrDevice,
-- PortAssign.Loops.Memory, Mmio.Plain for bit-fields that hold what is written, ErrorReg,
-- FmePerf.Counters.Answers, Asmip2.Device.Controller).
--
-- Loops. Loops over lists and trees recurse on them; the loop of afu_dma_region_destroy gets one
-- round more than there are regions, fpga_wait_register_field one more than the timeout in
-- microseconds (its interval is at least 1), the push of a bitstream one more than there are bytes,
-- and its wait for credit the rounds that are left up to PR_WAIT_TIMEOUT + 2. The walks over the
-- feature lists get one more than the bytes that are left, since each round moves on by at least 1.
--
-- Not modelled: the start of the features of a port, the probes and the sysfs files that show single
-- registers of afu.c, fme-main.c and fme-pr.c are left for later, like the device file of the FME,
-- whose handlers are those of a port again, and the device that global_error_init of fme-error.c
-- registers. fme-perf.c and fme-dperf.c repeat fme-iperf.c for other devices. Probing in pcie.c is
-- calls of the PCI core. The SPI NOR framework, the FPGA manager, uuid_mod.c and the backports are
-- copies of Linux; the self tests and the build files have no logic of their own.
pub mod Base
pub mod AfuData
pub mod Region
pub mod Dma
pub mod Csr
pub mod Mmio
pub mod FeatureDev
pub mod Umsg
pub mod AfuIoctl
pub mod AfuFile
pub mod Errors
pub mod FmeMgmt
pub mod FmePerf
pub mod FmePr
pub mod Dfl
pub mod PortAssign
pub mod Asmip2
