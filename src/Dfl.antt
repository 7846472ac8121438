-- ===== src/Dfl.antt =====
-- drivers/fpga/intel/pcie.c, the enumeration: the device feature list in the memory of the BARs is
-- walked, and a feature device is built for the FME and for each port. The lists are read-only for
-- the driver, so a read is a function of the address.
pub mod Build
pub mod Parse
pub mod Ends
pub mod Kept
pub mod Placed
pub mod Walk
pub mod OneFme
mod Tests
use opae_intel_fpga_driver.Base.{
  ℕ, Bool, true, false, Option, none, some, List, [], ◌∷◌, get_elem?, page_align, Status, ◌⊎◌,
}

-- `enum fpga_id_type`, but for the parent's.
pub data IdType : Type 0 where
  fme_id port_id : IdType

-- Which register describes the interrupts of a feature; the code tells by the feature's name.
pub data IrqKind : Type 0 where
  no_irq uint_irq port_err_irq fme_err_irq : IrqKind

-- `struct feature_info`: the name stands for its kind of interrupts, and the revision, which only a
-- message shows, is left out.
pub record FeatureInfo : Type 0 where
  pub irq_kind : IrqKind
  pub resource_size : ℕ
  pub feature_index : ℕ

abbrev pub info : IrqKind → ℕ → ℕ → FeatureInfo
info k size index = record { irq_kind = k; resource_size = size; feature_index = index }

-- `fme_features`
abbrev pub fme_features : List FeatureInfo
fme_features =
    info no_irq 208 0
    ∷ info no_irq 32 1
    ∷ info no_irq 40 2
    ∷ info no_irq 88 3
    ∷ info fme_err_irq 120 4
    ∷ info no_irq 184 5
    ∷ info no_irq 24 6
    ∷ info no_irq 56 7
    ∷ info no_irq 0x10 8
    ∷ []

-- `port_features`; the size of the UAFU changes during the walk and is given.
abbrev pub port_features : ℕ → List FeatureInfo
port_features uafu_size =
    info no_irq 112 0
    ∷ info port_err_irq 64 1
    ∷ info no_irq 32 2
    ∷ info uint_irq 16 3
    ∷ info no_irq (page_align 16) 4
    ∷ info no_irq uafu_size 5
    ∷ []

-- An entry of `pdata->features` with its resource: the BAR, the offset and the size there, and the
-- interrupt vectors.
pub record Slot : Type 0 where
  pub bar : ℕ
  pub offset : ℕ
  pub size : ℕ
  pub vec_start : ℕ
  pub vec_cnt : ℕ

-- A feature device under construction or registered: `slots` is `none` as long as the platform data
-- and the resources have not been allocated.
pub record FeatureDev : Type 0 where
  pub id_type : IdType
  pub id : Option ℕ
  pub slots : Option (List (Option Slot))

-- `struct build_feature_devs_info` with what the walk changes of the driver data: the mapped BARs,
-- the devices registered so far, the newest first, and whether `fme_dev` is set; then
-- `port_features[PORT_FEATURE_ID_UAFU].resource_size`, the number of port resets, and whether a reset
-- went to a port that has no registers yet, which is a fault.
pub record BuildInfo : Type 0 where
  pub ioaddr : ℕ
  pub ioend : ℕ
  pub current_bar : ℕ
  pub pfme_hdr : Option ℕ
  pub feature_dev : Option FeatureDev
  pub regions : List (ℕ × ℕ)
  pub registered : List FeatureDev
  pub has_fme : Bool
  pub uafu_size : ℕ
  pub resets : ℕ
  pub faulted : Bool

-- The hardware and the answers of the kernel. `readq` and `guid` read at an address; a BAR has an
-- address, if it can be mapped, and a length. The allocations are asked with the number of devices
-- that are registered already; `alloc_fpga_id` gives an id or an error.
pub record Platform : Type 0 where
  pub readq : ℕ → ℕ
  pub guid : ℕ → ℕ
  pub fme_guid : ℕ
  pub port_guid : ℕ
  pub pci_ioremap_bar : ℕ → Option ℕ
  pub region_alloc : Bool
  pub pci_resource_len : ℕ → ℕ
  pub pci_msix_vec_count : ℕ
  pub platform_device_alloc : ℕ → Bool
  pub alloc_fpga_id : ℕ → ℕ ⊎ ℕ
  pub pdata_alloc : ℕ → Bool
  pub resource_alloc : ℕ → Bool
  pub ctx_alloc : ℕ → Bool
  pub platform_device_add : ℕ → Status
