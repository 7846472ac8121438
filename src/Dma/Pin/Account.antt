-- ===== src/Dma/Pin/Account.antt =====
-- The locked-memory account: raising it by a number of pages and lowering it again.
use opae_intel_fpga_driver.Base.{
  ℕ, ◌+◌, ◌^◌, ◌<◌, ◌≡◌, ◌⊎◌, arith, none, some, Option, true, false, ok, err, enomem,
}
use opae_intel_fpga_driver.Dma.Kernel.{World, Env}
use opae_intel_fpga_driver.Dma.Pin.{afu_dma_adjust_locked_vm, adjust}

-- The account can take `npages` more without wrapping.
abbrev pub Room : Option ℕ → ℕ → Type 0
Room none npages = Unit
Room (some locked) npages = locked + npages < 2 ^ 64

abbrev pub raised : Option ℕ → ℕ → Option ℕ
raised none npages = none
raised (some locked) npages = some (locked + npages)

-- Raising the account either adds the pages or fails with -ENOMEM and changes nothing.
pub adjust-raise :
    (env : Env) (w : World) (npages : ℕ)
    → Room w.locked_vm npages
    → (afu_dma_adjust_locked_vm env w npages true
        ≡ (ok, record w { locked_vm = raised w.locked_vm npages }))
      ⊎ (afu_dma_adjust_locked_vm env w npages true ≡ (err enomem, w))
unfolding afu_dma_adjust_locked_vm adjust
adjust-raise env w npages room = ground arith

-- Lowering undoes raising, whatever happened to the rest of the accounts.
pub adjust-lower :
    (env : Env) (w : World) (locked_vm : Option ℕ) (npages : ℕ)
    → w.locked_vm ≡ raised locked_vm npages
    → (afu_dma_adjust_locked_vm env w npages false).1 ≡ record w { locked_vm = locked_vm }
unfolding afu_dma_adjust_locked_vm adjust
adjust-lower env w none npages e = ground arith
adjust-lower env w (some locked) npages e = ground arith
