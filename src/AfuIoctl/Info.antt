-- ===== src/AfuIoctl/Info.antt =====
-- drivers/fpga/intel/afu.c, the ioctls that describe a port and its MMIO regions to the user. A
-- structure that `copy_from_user` cannot read is `none`; `copied` is false when `copy_to_user` fails.
use opae_intel_fpga_driver.Base.{
  ℕ, Bool, not, ◌||◌, Option, none, some, if◌then◌else◌, ◌==◌, ltb, u32, Status, ok, err, einval,
  efault,
}
use opae_intel_fpga_driver.AfuData.{Afu, AfuRegion}
use opae_intel_fpga_driver.Region.{afu_get_region_by_index}

-- `struct fpga_port_info`
pub record PortInfo : Type 0 where
  pub argsz : ℕ
  pub flags : ℕ
  pub capability : ℕ
  pub num_regions : ℕ
  pub num_umsgs : ℕ
  pub num_uafu_irqs : ℕ

-- `struct fpga_port_region_info`
pub record RegionInfo : Type 0 where
  pub argsz : ℕ
  pub flags : ℕ
  pub index : ℕ
  pub padding : ℕ
  pub size : ℕ
  pub offset : ℕ

-- The status, and what the user's structure holds afterwards, if it was written.
unfoldable pub afu_ioctl_get_info : Bool → Option PortInfo → Afu → Status × Option PortInfo
afu_ioctl_get_info copied none afu = (err efault, none)
afu_ioctl_get_info copied (some info) afu =
    if ltb info.argsz 24 then (err einval, none) else if not copied then (err efault, none) else (
      ok,
      some (record {
        argsz = info.argsz;
        flags = 0;
        capability = afu.capability;
        num_regions = u32 afu.num_regions;
        num_umsgs = afu.num_umsgs;
        num_uafu_irqs = afu.num_uafu_irqs;
      }),
    )

-- What follows the lookup of the region.
unfoldable pub after_lookup : Bool → RegionInfo → Status × AfuRegion → Status × Option RegionInfo
after_lookup copied rinfo (err e, region) = (err e, none)
after_lookup copied rinfo (ok, region) =
    if copied
    then (
      ok,
      some (record rinfo { flags = region.flags; size = region.size; offset = region.offset }),
    )
    else (err efault, none)

-- `region` is uninitialised before the lookup; `blank` stands for what it holds.
unfoldable pub afu_ioctl_get_region_info :
    Bool → AfuRegion → Option RegionInfo → Afu → Status × Option RegionInfo
unfolding after_lookup
afu_ioctl_get_region_info copied blank none afu = (err efault, none)
afu_ioctl_get_region_info copied blank (some rinfo) afu =
    if ltb rinfo.argsz 32 || not (rinfo.padding == 0)
    then (err einval, none)
    else after_lookup copied rinfo (afu_get_region_by_index afu rinfo.index blank)
