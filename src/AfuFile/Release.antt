-- ===== src/AfuFile/Release.antt =====
-- What the release of a device file leaves behind.
use opae_intel_fpga_driver.Base.{
  ℕ, ◌<◌, ◌≡◌, sym, Bool, true, false, none, [], inl, inr, length, Status,
}
use mathlib.Core.Path.{subst}
use opae_intel_fpga_driver.AfuData.{inorder}
use opae_intel_fpga_driver.Mmio.{Bus}
use opae_intel_fpga_driver.Dma.Kernel.{RbLib, Env, World}
use opae_intel_fpga_driver.Dma.Map.{Dma, afu_dma_region_destroy}
use opae_intel_fpga_driver.Dma.Map.Destroy.{afu_dma_region_destroy_lem}
use opae_intel_fpga_driver.Dma.Session.Accounts.{Accounts, release_all-Accounts}
use opae_intel_fpga_driver.Dma.Session.Invariant.{IsSound, mark-IsSound}
use opae_intel_fpga_driver.FeatureDev.Msix.{Feature}
use opae_intel_fpga_driver.FeatureDev.Msix.Vector.{trigger_at}
use opae_intel_fpga_driver.Umsg.{
  Port, afu_port_umsg_enable, afu_port_umsg_set_addr, afu_port_umsg_set_mode, afu_port_umsg_halt,
}
use opae_intel_fpga_driver.Umsg.Session.{Marks, enable-Marks, set_addr-Marks, mode-Marks}

-- No vector of the feature has a trigger.
abbrev pub Silent : Feature → Type 0
Silent f = (v : ℕ) → v < length f.ctx → trigger_at f v ≡ none

module _ (v : World) where
  pub destroy-IsSound :
      (lib : RbLib) (env : Env) (d : Dma)
      → IsSound v d
      → let d' = afu_dma_region_destroy lib env d in IsSound v d' × (inorder d'.regions ≡ [])
  destroy-IsSound lib env d s =
      let (emptied, world) = afu_dma_region_destroy_lem lib env d in
      let settled =
        subst (Accounts v []) (sym world)
          (release_all-Accounts lib env v (inorder d.regions) d.world s.accounts) in
      (
        record { ordered = rw emptied tt; fits = rw emptied tt; accounts = rw emptied settled },
        emptied,
      )

  module _ {H : Type 0} (bus : Bus H) where
    pub Marks-IsSound :
        (p : Port H) (r : Status × Port H) → Marks bus p r → IsSound v p.dma → IsSound v r.1.dma
    Marks-IsSound p r (inl same, _) s = subst (IsSound v) (sym same) s
    Marks-IsSound p r (inr (k, mark, e), _) s =
        subst (IsSound v) (sym e) (mark-IsSound v p.dma k mark s)

    pub halt-IsSound :
        (present : Bool) (p : Port H)
        → IsSound v p.dma
        → IsSound v (afu_port_umsg_halt bus present p).dma
    unfolding afu_port_umsg_halt
    halt-IsSound false p s = s
    halt-IsSound true p s =
        let a = afu_port_umsg_enable bus false p in
        let b = afu_port_umsg_set_addr bus 0 a.1 in
        let c = afu_port_umsg_set_mode bus 0 b.1 in
        Marks-IsSound b.1 c (mode-Marks bus 0 b.1) (
          Marks-IsSound a.1 b (set_addr-Marks bus 0 a.1)
            (Marks-IsSound p a (enable-Marks bus false p) s))
