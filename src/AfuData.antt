-- ===== src/AfuData.antt =====
-- The data of include/intel/afu.h: the MMIO regions, the DMA regions with the tree that holds
-- them, and the private state of an accelerated function unit.
use opae_intel_fpga_driver.Base.{ℕ, Bool, Option, List, [], ◌∷◌, ◌++◌}

-- `struct fpga_afu_region`; `node` is the place in the list.
pub record AfuRegion : Type 0 where
  pub index : ℕ
  pub flags : ℕ
  pub size : ℕ
  pub offset : ℕ
  pub phys : ℕ

-- `struct fpga_afu_dma_region`; `node` is the place in the tree. A page is its number, and a NULL
-- entry of the array is `none`.
pub record DmaRegion : Type 0 where
  pub user_addr : ℕ
  pub length : ℕ
  pub iova : ℕ
  pub pages : Option (List (Option ℕ))
  pub in_use : Bool

-- `struct rb_root` seen through `rb_left`, `container_of` and `rb_right`; colours and parent links
-- are the kernel's.
pub data Tree : Type 0 where
  leaf : Tree
  node : Tree → DmaRegion → Tree → Tree

abbrev pub inorder : Tree → List DmaRegion
inorder leaf = []
inorder (node l r t) = inorder l ++ (r ∷ inorder t)

-- `struct fpga_afu` without the link back to the platform data.
pub record Afu : Type 0 where
  pub region_cur_offset : ℕ
  pub capability : ℕ
  pub num_regions : ℕ
  pub num_umsgs : ℕ
  pub num_uafu_irqs : ℕ
  pub regions : List AfuRegion
  pub dma_regions : Tree
