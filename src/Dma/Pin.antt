-- ===== src/Dma/Pin.antt =====
-- dma-region.c, pinning: the locked-memory account and the page references of one region.
pub mod Refs
pub mod Account
pub mod Outcome
use opae_intel_fpga_driver.Base.{
  ℕ, zero, suc, ◌+◌, ◌-◌, ◌/◌, Bool, true, false, not, ◌&&◌, Option, none, some, List, [], ◌∷◌,
  ◌++◌, map, if◌then◌else◌, ◌==◌, ltb, length, replicate, u64, int_rounds, page_size, Status, ok,
  err, enomem, efault,
}
use opae_intel_fpga_driver.AfuData.{DmaRegion}
use opae_intel_fpga_driver.Dma.Kernel.{World, Env, Pinned, pin_error, pinned, get_pages, put_page}

-- The loop over `pages[0..npages)`, which ends early only where the array would.
unfoldable pub put_pages : List (Option ℕ) → ℕ → World → World
put_pages pages zero w = w
put_pages [] (suc n) w = w
put_pages (none ∷ pages) (suc n) w = put_pages pages n w
put_pages (some p ∷ pages) (suc n) w = put_pages pages n (put_page p w)

-- `npages` is an `int` parameter.
unfoldable pub put_all_pages : List (Option ℕ) → ℕ → World → World
put_all_pages pages npages w = put_pages pages (int_rounds npages) w

-- `locked` is `current->mm->locked_vm`.
unfoldable pub adjust : Env → ℕ → Bool → ℕ → Status × ℕ
adjust env npages true locked =
    if ltb (env.memlock_limit / page_size) (u64 (locked + npages)) && not env.ipc_lock
    then (err enomem, locked)
    else (ok, u64 (locked + npages))
adjust env npages false locked = (ok, locked - (if ltb locked npages then locked else npages))

unfoldable pub afu_dma_adjust_locked_vm : Env → World → ℕ → Bool → Status × World
unfolding adjust
afu_dma_adjust_locked_vm env w npages incr = elim w.locked_vm [
  | none ↦ (ok, w)
  | some locked ↦
      let (ret, locked') = adjust env npages incr locked in
      (ret, record w { locked_vm = some locked' })
]

-- The zeroed array of `npages` entries after `get_user_pages_fast` has filled in `ps`.
abbrev pub filled : List ℕ → ℕ → List (Option ℕ)
filled ps npages = map some ps ++ replicate (npages - length ps) none

abbrev pub npages_of : DmaRegion → ℕ
npages_of region = region.length / page_size

-- After the account was raised and the array allocated: the call of `get_user_pages_fast` and the
-- labels `err_put_pages` and `err`. With a negative `pinned` the loop of `put_all_pages` does not
-- run; a short count goes to `err` and skips it.
unfoldable pub pin_into_array : Env → DmaRegion → World → ℕ → Status × DmaRegion × World
pin_into_array env region w npages = elim (env.get_user_pages_fast region.user_addr npages) [
  | pin_error e ↦
      let array = replicate npages none in
      let released = put_all_pages array 0 w in
      (
        err e,
        record region { pages = some array },
        (afu_dma_adjust_locked_vm env released npages false).1,
      )
  | pinned ps ↦
      let region' = record region { pages = some (filled ps npages) } in
      let held = get_pages ps w in
      if length ps == npages
      then (ok, region', held)
      else (err efault, region', (afu_dma_adjust_locked_vm env held npages false).1)
]

-- From the test of the first call's result on.
unfoldable pub pin_charged : Env → DmaRegion → ℕ → Status × World → Status × DmaRegion × World
pin_charged env region npages (err e, w) = (err e, region, w)
pin_charged env region npages (ok, w) =
    if env.kcalloc npages
    then pin_into_array env region w npages
    else (err enomem, region, (afu_dma_adjust_locked_vm env w npages false).1)

unfoldable pub afu_dma_pin_pages : Env → DmaRegion → World → Status × DmaRegion × World
unfolding pin_charged
afu_dma_pin_pages env region w =
    pin_charged env region (npages_of region)
      (afu_dma_adjust_locked_vm env w (npages_of region) true)

abbrev pub array_of : DmaRegion → List (Option ℕ)
array_of region = elim region.pages [ none ↦ [] | some pages ↦ pages ]

unfoldable pub afu_dma_unpin_pages : Env → DmaRegion → World → World
afu_dma_unpin_pages env region w =
    let released = put_all_pages (array_of region) (npages_of region) w in
    (afu_dma_adjust_locked_vm env released (npages_of region) false).1

-- The loop `for (i = 0; i < npages - 1; i++)`, with `rounds` of it left.
unfoldable pub adjacent : Env → List (Option ℕ) → ℕ → Bool
adjacent env pages zero = true
adjacent env [] (suc n) = true
adjacent env (p ∷ []) (suc n) = true
adjacent env (p ∷ q ∷ pages) (suc n) =
    if env.page_to_pfn p + 1 == env.page_to_pfn q then adjacent env (q ∷ pages) n else false

unfoldable pub afu_dma_check_continuous_pages : Env → DmaRegion → Bool
unfolding adjacent
afu_dma_check_continuous_pages env region =
    adjacent env (array_of region) (int_rounds (npages_of region) - 1)
