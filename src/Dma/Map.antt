-- ===== src/Dma/Map.antt =====
-- dma-region.c, the operations of the ioctls: map, unmap, and the release of all regions.
pub mod Outcome
pub mod Unmap
pub mod Destroy
use opae_intel_fpga_driver.Base.{
  ℕ, zero, suc, ◌+◌, Bool, true, false, not, ◌||◌, Option, none, some, List, [], ◌∷◌, if◌then◌else◌,
  ◌==◌, ltb, u64, page_aligned, Status, ok, err, enomem, efault, einval, ebusy, length,
}
use opae_intel_fpga_driver.AfuData.{DmaRegion, Tree, leaf, inorder}
use opae_intel_fpga_driver.Dma.Kernel.{RbLib, World, Env, add_mapping, dma_unmap_page}
use opae_intel_fpga_driver.Dma.Pin.{
  afu_dma_pin_pages, afu_dma_unpin_pages, afu_dma_check_continuous_pages, array_of,
}
use opae_intel_fpga_driver.Dma.Store.{
  afu_dma_region_add, afu_dma_region_remove, afu_dma_region_find_iova,
}

pub afu_dma_region_init : Tree
afu_dma_region_init = leaf

-- The tree of an AFU with the kernel's accounts.
pub record Dma : Type 0 where
  pub regions : Tree
  pub world : World

-- What `afu_dma_map_region` returns: its status, `*iova` and the new state.
pub record Mapped : Type 0 where
  pub status : Status
  pub out_iova : ℕ
  pub state : Dma

-- `pages[0]`
abbrev pub first_page : DmaRegion → Option ℕ
first_page region = elim (array_of region) [ [] ↦ none | p ∷ _ ↦ p ]

-- Why a request is refused before anything is allocated.
unfoldable pub is_refused : Env → ℕ → ℕ → Bool
is_refused env user_addr length =
    not (page_aligned user_addr)
    || not (page_aligned length)
    || length == 0
    || ltb (u64 (user_addr + length)) user_addr
    || not (env.access_ok user_addr length)

module _ (lib : RbLib) (env : Env) where
  -- What follows the insertion, given its result: `unmap_dma`, `unpin_pages`.
  unfoldable pub after_add : Tree → DmaRegion → World → Status × Tree → Mapped
  after_add t region w (ok, t') = record {
    status = ok;
    out_iova = region.iova;
    state = record { regions = t'; world = w };
  }
  after_add t region w (err e, t') = record {
    status = err e;
    out_iova = region.iova;
    state = record {
      regions = t';
      world = afu_dma_unpin_pages env region (dma_unmap_page region.iova region.length w);
    };
  }

  -- From `dma_map_page` on: the region's pages are pinned and contiguous.
  unfoldable pub map_pinned : Tree → DmaRegion → World → ℕ → Mapped
  map_pinned t region w iova =
      let dma_addr = env.dma_map_page (first_page region) region.length in
      let region' = record region { iova = dma_addr } in
      let mapped =
        after_add t region' (add_mapping dma_addr region.length w)
          (afu_dma_region_add lib t region') in
      if env.dma_mapping_error dma_addr
      then record {
        status = err efault;
        out_iova = iova;
        state = record { regions = t; world = afu_dma_unpin_pages env region w };
      }
      else mapped

  -- From the check of the pages on.
  unfoldable pub check_pinned : Tree → DmaRegion → World → ℕ → Mapped
  check_pinned t region w iova =
      if afu_dma_check_continuous_pages env region then map_pinned t region w iova else record {
        status = err einval;
        out_iova = iova;
        state = record { regions = t; world = afu_dma_unpin_pages env region w };
      }

  -- `kzalloc` zeroes the fields that are not set.
  abbrev pub new_region : ℕ → ℕ → DmaRegion
  new_region user_addr length = record {
    user_addr = user_addr;
    length = length;
    iova = 0;
    pages = none;
    in_use = false;
  }

  -- What follows the pinning, given its result.
  unfoldable pub after_pin : Dma → ℕ → Status × DmaRegion × World → Mapped
  after_pin d iova (ok, region, w) = check_pinned d.regions region w iova
  after_pin d iova (err e, region, w) = record {
    status = err e;
    out_iova = iova;
    state = record d { world = w };
  }

  -- `iova` is the value of `*iova` before the call.
  unfoldable pub afu_dma_map_region : Dma → ℕ → ℕ → ℕ → Mapped
  unfolding is_refused
  afu_dma_map_region d user_addr length iova =
      if is_refused env user_addr length
      then record { status = err einval; out_iova = iova; state = d }
      else if not env.kzalloc
      then record { status = err enomem; out_iova = iova; state = d }
      else after_pin d iova (afu_dma_pin_pages env (new_region user_addr length) d.world)

  unfoldable pub afu_dma_unmap_region : Dma → ℕ → Status × Dma
  afu_dma_unmap_region d iova = elim (afu_dma_region_find_iova d.regions iova) [
    | none ↦ (err einval, d)
    | some region ↦ if region.in_use then (err ebusy, d) else (
      ok,
      record {
        regions = afu_dma_region_remove lib d.regions region;
        world = afu_dma_unpin_pages env region (dma_unmap_page region.iova region.length d.world);
      },
    )
  ]

  -- `if (region->pages) afu_dma_unpin_pages(...)`
  unfoldable pub release_pages : DmaRegion → Option (List (Option ℕ)) → World → World
  release_pages region none w = w
  release_pages region (some _) w = afu_dma_unpin_pages env region w

  -- What the loop of `afu_dma_region_destroy` does for one region.
  unfoldable pub release_region : DmaRegion → World → World
  unfolding release_pages
  release_region region w =
      release_pages region region.pages
        (if region.iova == 0 then w else dma_unmap_page region.iova region.length w)

  -- The loop with `fuel`: the next node is read through the links of the erased one.
  unfoldable pub destroy_from : ℕ → Option DmaRegion → Dma → Dma
  destroy_from zero _ d = d
  destroy_from (suc fuel) none d = d
  destroy_from (suc fuel) (some region) d =
      destroy_from fuel (lib.rb_next d.regions region)
        (record { regions = lib.rb_erase region d.regions; world = release_region region d.world })

  unfoldable pub afu_dma_region_destroy : Dma → Dma
  unfolding destroy_from
  afu_dma_region_destroy d =
      destroy_from (suc (length (inorder d.regions))) (lib.rb_first d.regions) d
