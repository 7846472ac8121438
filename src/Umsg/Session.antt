-- ===== src/Umsg/Session.antt =====
-- A history of a port's user messages and DMA regions: the ioctls that map and unmap memory and
-- those of the UMsg engine, in any order.
use mathlib.Core.Path.{subst}
use opae_intel_fpga_driver.Base.{
  ◌+◌, ◌%◌, ◌/◌, ltb, page_aligned, u64, einval, enodev, ◌==◌, Bool-cases, ℕ, ◌^◌, ◌<◌, ◌≡◌, ◌≢◌,
  sym, refl, arith, Bool, true, false, inl, inr, Option, none, some, Status, ◌⊎◌,
}
use opae_intel_fpga_driver.AfuData.{DmaRegion, leaf, inorder}
use opae_intel_fpga_driver.Csr.{get_field, base_addr}
use opae_intel_fpga_driver.Mmio.{Bus}
use opae_intel_fpga_driver.Dma.Kernel.{World, Env, RbLib}
use opae_intel_fpga_driver.Dma.Map.{afu_dma_map_region, afu_dma_unmap_region}
use opae_intel_fpga_driver.Dma.Store.{mark_in_use, afu_dma_region_find}
use opae_intel_fpga_driver.Dma.Session.{Reach, start, maps, unmaps, marks, IsServed}
use opae_intel_fpga_driver.Dma.Session.Settle.{Reach-IsSound}
use opae_intel_fpga_driver.Umsg.{
  Port, umsg_size, afu_port_umsg_enable, afu_port_umsg_set_addr, afu_port_umsg_set_mode, move_base,
  config_addr, clear_addr, port_umsg_is_enabled, port_umsg_get_addr,
}
use opae_intel_fpga_driver.Umsg.Device.{UmsgDevice}
use opae_intel_fpga_driver.Umsg.Guard.{
  Backs, Guarded, enable-Guarded, mode-Guarded, set_addr-Guarded,
}
use opae_intel_fpga_driver.Umsg.Backing.{map-Backs, unmap-Backs}

module _ {H : Type 0} (bus : Bus H) where
  -- What the operations of the engine do beside the device: at most one mark on the DMA regions.
  abbrev pub Marks : Port H → Status × Port H → Type 0
  Marks p r =
      ((r.1.dma ≡ p.dma)
        ⊎ ((k : ℕ) × (mark : Bool) × (r.1.dma
              ≡ record p.dma { regions = mark_in_use k mark p.dma.regions })))
      × (r.1.num_umsgs ≡ p.num_umsgs)

  move_base-Marks :
      (iova : ℕ) (mark : Bool) (missing : ℕ) (found : Option DmaRegion) (p : Port H)
      → Marks p (move_base bus iova mark missing found p)
  unfolding move_base
  move_base-Marks iova mark missing none p = (inl refl, refl)
  move_base-Marks iova mark missing (some r) p = (inr (r.iova, mark, refl), refl)

  config_addr-Marks : (iova : ℕ) (p : Port H) → Marks p (config_addr bus iova p)
  unfolding config_addr
  config_addr-Marks iova p = elim (Bool-cases (page_aligned iova)) [
    | inr e ↦ rw e (inl refl, refl)
    | inl e ↦ elim (Bool-cases (ltb (u64 (iova + umsg_size p)) iova)) [
      | inl over ↦ rw (e, over) (inl refl, refl)
      | inr fine ↦
          rw (e, fine)
            (move_base-Marks iova true einval (afu_dma_region_find p.dma.regions iova (umsg_size p))
              p)
    ]
  ]

  clear_addr-Marks : (iova : ℕ) (p : Port H) → Marks p (clear_addr bus iova p)
  unfolding clear_addr
  clear_addr-Marks iova p = elim (Bool-cases (iova == 0)) [
    | inl e ↦ rw e (inl refl, refl)
    | inr e ↦ elim (Bool-cases (ltb (u64 (iova + umsg_size p)) iova)) [
      | inl over ↦ rw (e, over) (inl refl, refl)
      | inr fine ↦
          rw (e, fine)
            (move_base-Marks 0 false enodev (afu_dma_region_find p.dma.regions iova (umsg_size p))
              p)
    ]
  ]

  pub set_addr-Marks : (iova : ℕ) (p : Port H) → Marks p (afu_port_umsg_set_addr bus iova p)
  unfolding afu_port_umsg_set_addr
  set_addr-Marks iova p =
      let (enabled, h) = port_umsg_is_enabled bus p.hw in
      let (current, h') = port_umsg_get_addr bus h in
      elim (Bool-cases enabled) [
        | inl e ↦ rw e (inl refl, refl)
        | inr e ↦ elim (Bool-cases (iova == 0)) [
          | inl z ↦ rw (e, z) (clear_addr-Marks current (record p { hw = h' }))
          | inr n ↦ rw (e, n) (config_addr-Marks iova (record p { hw = h }))
        ]
      ]

  pub enable-Marks : (enable : Bool) (p : Port H) → Marks p (afu_port_umsg_enable bus enable p)
  unfolding afu_port_umsg_enable
  enable-Marks true p = elim (Bool-cases ((port_umsg_get_addr bus p.hw).0 == 0)) [
    | inl e ↦ rw e (inl refl, refl)
    | inr e ↦ rw e (inl refl, refl)
  ]
  enable-Marks false p = (inl refl, refl)

  pub mode-Marks : (mode : ℕ) (p : Port H) → Marks p (afu_port_umsg_set_mode bus mode p)
  unfolding afu_port_umsg_set_mode
  mode-Marks mode p = elim (Bool-cases (mode / 2 ^ (p.num_umsgs % 32) == 0)) [
    | inl e ↦ rw e (inl refl, refl)
    | inr e ↦ rw e (inl refl, refl)
  ]

  module _ (base : H → ℕ) (on : H → Bool) (laws : UmsgDevice bus base on) (lib : RbLib)
      (v : World) where
    -- The states that a history reaches from a port with no DMA region, the engine off and no base
    -- address; the last four steps are those of `port_umsg_ioctl`.
    pub data Uses : Port H → Type 0 where
      fresh :
          (h : H) (num : ℕ)
          → num < 2 ^ 8
          → get_field base_addr (base h) ≡ 0
          → on h ≡ false
          → Uses (record { hw = h; dma = record { regions = leaf; world = v }; num_umsgs = num })
      maps_memory :
          {p : Port H} (env : Env) (user_addr len iova : ℕ)
          → Uses p
          → IsServed lib env p.dma user_addr len iova
          → Uses (record p { dma = (afu_dma_map_region lib env p.dma user_addr len iova).state })
      unmaps_memory :
          {p : Port H} (env : Env) (iova : ℕ)
          → Uses p
          → iova < 2 ^ 64
          → Uses (record p { dma = (afu_dma_unmap_region lib env p.dma iova).1 })
      switches : {p : Port H} (enable : Bool) → Uses p → Uses (afu_port_umsg_enable bus enable p).1
      sets_base :
          {p : Port H} (iova : ℕ)
          → Uses p
          → iova < 2 ^ 48
          → Uses (afu_port_umsg_set_addr bus iova p).1
      sets_mode : {p : Port H} (mode : ℕ) → Uses p → Uses (afu_port_umsg_set_mode bus mode p).1

    -- What a history keeps.
    abbrev Kept : Port H → Type 0
    Kept p = Reach lib v p.dma × (p.num_umsgs < 2 ^ 8) × Guarded bus base on laws p

    Marks-Reach :
        (p : Port H) (r : Status × Port H)
        → Marks p r
        → Reach lib v p.dma
        → p.num_umsgs < 2 ^ 8
        → Reach lib v r.1.dma × (r.1.num_umsgs < 2 ^ 8)
    Marks-Reach p r (inl same, num) reach small =
        (subst (Reach lib v) (sym same) reach, omega (arith, num, small))
    Marks-Reach p r (inr (k, mark, e), num) reach small =
        (subst (Reach lib v) (sym e) (marks k mark reach), omega (arith, num, small))

    Uses-Kept : {p : Port H} → Uses p → Kept p
    Uses-Kept (fresh h num small b o) =
        (start, small, ((λ n. absurd (n b)), (λ q. absurd (ground (arith, o, q)))))
    Uses-Kept (maps_memory env user_addr len iova u fine) =
        let (reach, small, g) = Uses-Kept u in
        let sound = Reach-IsSound lib v _ reach in
        (
          maps env user_addr len iova reach fine,
          small,
          ((λ n. map-Backs lib env v _ sound _ _ user_addr len iova fine (g.0 n)), g.1),
        )
    Uses-Kept (unmaps_memory env iova u below) =
        let (reach, small, g) = Uses-Kept u in
        let sound = Reach-IsSound lib v _ reach in
        (
          unmaps env iova reach below,
          small,
          ((λ n. unmap-Backs lib env v _ sound _ _ iova below (g.0 n)), g.1),
        )
    Uses-Kept (switches {p} enable u) =
        let (reach, small, g) = Uses-Kept u in
        let kept =
          Marks-Reach p (afu_port_umsg_enable bus enable p) (enable-Marks enable p) reach small in
        (kept.0, kept.1, enable-Guarded bus base on laws enable p g)
    Uses-Kept (sets_base {p} iova u below) =
        let (reach, small, g) = Uses-Kept u in
        let kept =
          Marks-Reach p (afu_port_umsg_set_addr bus iova p) (set_addr-Marks iova p) reach small in
        let fits = (Reach-IsSound lib v _ reach).fits in
        (
          kept.0,
          kept.1,
          set_addr-Guarded bus base on laws iova p fits (omega (arith, small)) below g,
        )
    Uses-Kept (sets_mode {p} mode u) =
        let (reach, small, g) = Uses-Kept u in
        let kept =
          Marks-Reach p (afu_port_umsg_set_mode bus mode p) (mode-Marks mode p) reach small in
        (kept.0, kept.1, mode-Guarded bus base on laws mode p g)

    -- On a device whose UMsg registers hold what was written to them: after any history of memory
    -- that is mapped (as `IsServed` describes) and unmapped, of switching the UMsg engine on and off,
    -- of base addresses below 2^48 and of modes, with at most 255 messages, a region of the tree
    -- marked as in use holds all messages at the base address that the device has, unless that is 0;
    -- and the engine is on only while it is not 0.
    pub Uses-Guarded :
        {p : Port H}
        → Uses p
        → let addr = get_field base_addr (base p.hw) in
          (addr ≢ 0 → Backs (inorder p.dma.regions) addr (umsg_size p))
          × (on p.hw ≡ true → addr ≢ 0)
    Uses-Guarded u = let (reach, small, g) = Uses-Kept u in g
