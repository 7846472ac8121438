-- ===== src/Dma/Session/Settle.antt =====
-- A history of DMA regions from its start to the destruction of the regions.
use mathlib.Core.Path.{subst}
use opae_intel_fpga_driver.Base.{ℕ, ◌≡◌, ◌∙◌, sym, arith, []}
use opae_intel_fpga_driver.AfuData.{inorder}
use opae_intel_fpga_driver.Dma.Kernel.{World, Env, RbLib}
use opae_intel_fpga_driver.Dma.Map.{Dma, afu_dma_region_destroy}
use opae_intel_fpga_driver.Dma.Map.Destroy.{afu_dma_region_destroy_lem}
use opae_intel_fpga_driver.Dma.Session.{Reach, start, maps, unmaps, marks}
use opae_intel_fpga_driver.Dma.Session.Invariant.{IsSound, map-IsSound, unmap-IsSound, mark-IsSound}
use opae_intel_fpga_driver.Dma.Session.Accounts.{Accounts, Accounts-nil, release_all-Accounts}

-- After any history of maps that the kernel serves without a short pin (`IsServed`, failures of
-- other kinds included), of unmaps and of marks, from an empty tree on, the tree is ordered by distinct
-- addresses, no region runs past the address space, and what the regions of the tree hold is
-- exactly what was taken from the accounts: every page reference and the whole charge.
pub Reach-IsSound : (lib : RbLib) (v : World) (d : Dma) → Reach lib v d → IsSound v d
Reach-IsSound lib v _ start = record { ordered = tt; fits = tt; accounts = Accounts-nil v }
Reach-IsSound lib v _ (maps env user_addr len iova r fine) =
    map-IsSound lib env v _ (Reach-IsSound lib v _ r) user_addr len iova fine
Reach-IsSound lib v _ (unmaps env iova r below) =
    unmap-IsSound lib env v _ (Reach-IsSound lib v _ r) iova below
Reach-IsSound lib v _ (marks k mark r) = mark-IsSound v _ k mark (Reach-IsSound lib v _ r)

-- After any history of maps that the kernel serves without a short pin (`IsServed`, failures of
-- other kinds included), of unmaps and of marks, destroying the regions leaves an empty tree, and
-- every page reference and the locked-memory charge are back to what they were at the start.
pub afu_dma_region_destroy-Reach :
    (lib : RbLib) (env : Env) (v : World) (d : Dma)
    → Reach lib v d
    → let d' = afu_dma_region_destroy lib env d in
      (inorder d'.regions ≡ [])
      × ((q : ℕ) → d'.world.page_refs q ≡ v.page_refs q)
      × (d'.world.locked_vm ≡ v.locked_vm)
afu_dma_region_destroy-Reach lib env v d r =
    let (emptied, world) = afu_dma_region_destroy_lem lib env d in
    let sound = Reach-IsSound lib v d r in
    let settled =
      subst (Accounts v []) (sym world)
        (release_all-Accounts lib env v (inorder d.regions) d.world sound.accounts) in
    (emptied, λ q. omega (arith, settled.refs q), settled.locked ∙ sym (Accounts-nil v).locked)
