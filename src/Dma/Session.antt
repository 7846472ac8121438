-- ===== src/Dma/Session.antt =====
-- A history of the DMA regions of one AFU: maps, unmaps and marks in any order, each with its own
-- answers of the kernel.
pub mod Accounts
pub mod Invariant
pub mod Settle
pub mod Served
mod Tests
use opae_intel_fpga_driver.Base.{ℕ, ◌+◌, ◌/◌, page_size, ◌^◌, ◌<◌, ◌≡◌, true, Bool, List, length}
use opae_intel_fpga_driver.AfuData.{leaf}
use opae_intel_fpga_driver.Dma.Kernel.{World, Env, RbLib, pinned}
use opae_intel_fpga_driver.Dma.Pin.Account.{Room}
use opae_intel_fpga_driver.Dma.Store.{mark_in_use}
use opae_intel_fpga_driver.Dma.Map.{Dma, afu_dma_map_region, afu_dma_unmap_region}

-- The kernel pins all pages that it is asked for, or returns an error.
abbrev pub PinsAll : Env → ℕ → ℕ → Type 0
PinsAll env user_addr len =
    (ps : List ℕ)
    → env.get_user_pages_fast user_addr (len / page_size) ≡ pinned ps
    → length ps ≡ len / page_size

-- What a map request needs: room in the account, `kcalloc` that refuses arrays of 2 ^ 31 entries,
-- no short pin, and a DMA address whose range lies in the address space.
pub record IsServed (lib : RbLib) (env : Env) (d : Dma) (user_addr len iova : ℕ) : Type 0 where
  pub room : Room d.world.locked_vm (len / page_size)
  pub small : env.kcalloc (len / page_size) ≡ true → len / page_size < 2 ^ 31
  pub pins_all : PinsAll env user_addr len
  pub in_space : (afu_dma_map_region lib env d user_addr len iova).out_iova + len < 2 ^ 64

-- The states that a history reaches from an empty tree and the accounts `w`.
pub data Reach (lib : RbLib) (w : World) : Dma → Type 0 where
  start : Reach lib w (record { regions = leaf; world = w })
  maps :
      {d : Dma} (env : Env) (user_addr len iova : ℕ)
      → Reach lib w d
      → IsServed lib env d user_addr len iova
      → Reach lib w (afu_dma_map_region lib env d user_addr len iova).state
  unmaps :
      {d : Dma} (env : Env) (iova : ℕ)
      → Reach lib w d
      → iova < 2 ^ 64
      → Reach lib w (afu_dma_unmap_region lib env d iova).1
  marks :
      {d : Dma} (k : ℕ) (mark : Bool)
      → Reach lib w d
      → Reach lib w (record d { regions = mark_in_use k mark d.regions })
