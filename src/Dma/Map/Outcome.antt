-- ===== src/Dma/Map/Outcome.antt =====
-- How `afu_dma_map_region` ends.
use mathlib.Core.Path.{subst}
use opae_intel_fpga_driver.Base.{
  ℕ, ◌/◌, page_size, ◌^◌, ◌<◌, ◌≡◌, ◌≢◌, refl, Bool, not, sym, ◌⊎◌, inl, inr, arith, some, true,
  false, Status, ok, err, enomem, efault, einval, eexist, Bool-cases, if◌then◌else◌, length, List,
}
use opae_intel_fpga_driver.AfuData.{DmaRegion, Tree, inorder}
use opae_intel_fpga_driver.Dma.Kernel.{
  World, Env, RbLib, pinned, get_pages, add_mapping, dma_unmap_page,
}
use opae_intel_fpga_driver.Dma.Pin.{
  afu_dma_pin_pages, afu_dma_unpin_pages, filled, afu_dma_check_continuous_pages,
}
use opae_intel_fpga_driver.Dma.Pin.Account.{Room}
use opae_intel_fpga_driver.Dma.Pin.Outcome.{
  charge, Ends, afu_dma_pin_pages-Ends, afu_dma_unpin_pages_lem,
}
use opae_intel_fpga_driver.Dma.Store.Order.{Ascending, insert_by_iova}
use opae_intel_fpga_driver.Dma.Store.Insert.{Fresh, Stops, afu_dma_region_add_cases}
use opae_intel_fpga_driver.Dma.Map.{
  Dma, Mapped, is_refused, after_add, map_pinned, check_pinned, after_pin, afu_dma_map_region,
  new_region, first_page,
}

-- The region of a successful call.
abbrev pub mapped_region : ℕ → ℕ → ℕ → List ℕ → DmaRegion
mapped_region user_addr len iova ps = record {
  user_addr = user_addr;
  length = len;
  iova = iova;
  pages = some (filled ps (len / page_size));
  in_use = false;
}

-- All pages are pinned and charged, the region is mapped, and it stands in the tree at its place.
abbrev pub Maps : Env → Dma → ℕ → ℕ → List ℕ → Mapped → Type 0
Maps env d user_addr len ps r =
    let region = mapped_region user_addr len r.out_iova ps in
    (env.get_user_pages_fast user_addr (len / page_size) ≡ pinned ps)
    × (length ps ≡ len / page_size)
    × (len / page_size < 2 ^ 31)
    × (r.status ≡ ok)
    × (inorder r.state.regions ≡ insert_by_iova region (inorder d.regions))
    × Fresh region (inorder d.regions)
    × (r.state.world ≡ add_mapping r.out_iova len (get_pages ps (charge d.world (len / page_size))))

abbrev pub MapEnds : Env → Dma → ℕ → ℕ → Mapped → Type 0
MapEnds env d user_addr len r =
    ((ps : List ℕ) × Maps env d user_addr len ps r)
    ⊎ (((e : ℕ) × (r.status ≡ err e) × (r.state ≡ d))
        ⊎ ((ps : List ℕ) × (env.get_user_pages_fast user_addr (len / page_size) ≡ pinned ps)
            × (length ps ≢ len / page_size)
            × (r.status ≡ err efault)
            × (r.state ≡ record d { world = get_pages ps d.world })))

pub dma_unmap_page-add_mapping :
    (iova size : ℕ) (w : World) → dma_unmap_page iova size (add_mapping iova size w) ≡ w
unfolding dma_unmap_page add_mapping
dma_unmap_page-add_mapping iova size w = ground arith

Dma-ext : (d e : Dma) → d.regions ≡ e.regions → d.world ≡ e.world → d ≡ e
Dma-ext d e r w = λ i. record { regions = r i; world = w i }

module _ (lib : RbLib) (env : Env) (d : Dma) (user_addr len iova : ℕ) (ps : List ℕ)
    (asked : env.get_user_pages_fast user_addr (len / page_size) ≡ pinned ps)
    (all : length ps ≡ len / page_size) (small : len / page_size < 2 ^ 31)
    (ordered : Ascending (inorder d.regions)) where
  abbrev held_world : World
  held_world = get_pages ps (charge d.world (len / page_size))

  abbrev held_region : DmaRegion
  held_region = mapped_region user_addr len 0 ps

  unpinned :
      (k : ℕ) → afu_dma_unpin_pages env (mapped_region user_addr len k ps) held_world ≡ d.world
  unpinned k =
      afu_dma_unpin_pages_lem env (mapped_region user_addr len k ps) d.world ps refl all small

  added :
      (k : ℕ) (result : Status × Tree)
      → let region = mapped_region user_addr len k ps in
        ((result.0 ≡ ok)
            × (inorder result.1 ≡ insert_by_iova region (inorder d.regions))
            × Ascending (inorder result.1)
            × Fresh region (inorder d.regions))
          ⊎ ((result.0 ≡ err eexist) × (result.1 ≡ d.regions) × Stops region (inorder d.regions))
        → MapEnds env d user_addr len
            (after_add lib env d.regions region (add_mapping k len held_world) result)
  unfolding after_add
  added k (ok, t') (inl (e, o, a, f)) = inl (ps, (asked, all, small, refl, o, f, refl))
  added k (err x, t') (inl (e, o, a, f)) = cc
  added k (ok, t') (inr (e, same, b)) = cc
  added k (err x, t') (inr (e, same, b)) =
      inr (inl (x, refl, Dma-ext _ d same (rw dma_unmap_page-add_mapping (unpinned k))))

  map_pinned-MapEnds :
      MapEnds env d user_addr len (map_pinned lib env d.regions held_region held_world iova)
  unfolding map_pinned
  map_pinned-MapEnds =
      elim (Bool-cases (env.dma_mapping_error (env.dma_map_page (first_page held_region) len))) [
        | inl fails ↦ rw fails (inr (inl (efault, refl, Dma-ext _ d refl (unpinned 0))))
        | inr maps ↦
            let k = env.dma_map_page (first_page held_region) len in
            rw maps (
              added k _
                (afu_dma_region_add_cases lib d.regions (mapped_region user_addr len k ps) ordered))
      ]

  check_pinned-MapEnds :
      MapEnds env d user_addr len (check_pinned lib env d.regions held_region held_world iova)
  unfolding check_pinned
  check_pinned-MapEnds = elim (Bool-cases (afu_dma_check_continuous_pages env held_region)) [
    | inl near ↦ rw near map_pinned-MapEnds
    | inr far ↦ rw far (inr (inl (einval, refl, Dma-ext _ d refl (unpinned 0))))
  ]

module _ (lib : RbLib) (env : Env) (d : Dma) (user_addr len iova : ℕ)
    (small : env.kcalloc (len / page_size) ≡ true → len / page_size < 2 ^ 31)
    (ordered : Ascending (inorder d.regions)) where
  pinned-MapEnds :
      (result : Status × DmaRegion × World)
      → Ends env (new_region lib env user_addr len) d.world result
      → MapEnds env d user_addr len (after_pin lib env d iova result)
  unfolding after_pin
  pinned-MapEnds result (inl (ps, (gets, asked, all, e))) =
      subst (λ x. MapEnds env d user_addr len (after_pin lib env d iova x)) (sym e)
        (check_pinned-MapEnds lib env d user_addr len iova ps asked all (small gets) ordered)
  pinned-MapEnds (ok, region, w) (inr (inl (e, fails, same))) = cc
  pinned-MapEnds (err x, region, w) (inr (inl (e, fails, same))) =
      inr (inl (x, refl, Dma-ext _ d refl same))
  pinned-MapEnds (ok, region, w) (inr (inr (ps, (asked, short, fails, kept)))) = cc
  pinned-MapEnds (err x, region, w) (inr (inr (ps, (asked, short, fails, kept)))) =
      inr (inr (ps, asked, short, fails, Dma-ext _ _ refl kept))

  zalloc-MapEnds :
      (allocated : Bool)
      → Room d.world.locked_vm (len / page_size)
      → MapEnds env d user_addr len (
          if not allocated
          then record { status = err enomem; out_iova = iova; state = d }
          else after_pin lib env d iova
              (afu_dma_pin_pages env (new_region lib env user_addr len) d.world))
  zalloc-MapEnds false room = inr (inl (enomem, refl, refl))
  zalloc-MapEnds true room =
      pinned-MapEnds _ (afu_dma_pin_pages-Ends env (new_region lib env user_addr len) d.world room)

  -- A call of `afu_dma_map_region` on an ordered tree ends in one of three ways, if the account can
  -- take the pages without wrapping and `kcalloc` refuses arrays of 2 ^ 31 entries. It succeeds: all
  -- pages of the range are pinned and charged, one mapping is added, and the tree gains the region
  -- under a new address, at its place. Or it fails and changes nothing. Or the kernel pinned fewer
  -- pages than asked for: it fails with -EFAULT and keeps the references to those pages.
  pub afu_dma_map_region-MapEnds :
      Room d.world.locked_vm (len / page_size)
      → MapEnds env d user_addr len (afu_dma_map_region lib env d user_addr len iova)
  unfolding afu_dma_map_region
  afu_dma_map_region-MapEnds room = elim (Bool-cases (is_refused env user_addr len)) [
    | inl refused ↦ rw refused (inr (inl (einval, refl, refl)))
    | inr fine ↦ rw fine (zalloc-MapEnds env.kzalloc room)
  ]
