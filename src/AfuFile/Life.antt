-- ===== src/AfuFile/Life.antt =====
-- The life of the device file of a port: opens, releases and ioctls in any order.
use mathlib.Core.Path.{subst}
use opae_intel_fpga_driver.Base.{
  ℕ, ◌+◌, ◌^◌, ◌≤◌, ◌<◌, ◌≡◌, refl, sym, ap, ◌∙◌, Bool, true, false, not, ◌||◌, Option, none, some,
  [], ◌∷◌, arith, inl, inr, Bool-cases, ◌==◌, ltb, length, Status, ok, err, u32,
}
use opae_intel_fpga_driver.AfuData.{inorder, leaf}
use opae_intel_fpga_driver.Mmio.{Bus}
use opae_intel_fpga_driver.Dma.Kernel.{RbLib, Env, World}
use opae_intel_fpga_driver.Dma.Map.{Dma, afu_dma_map_region}
use opae_intel_fpga_driver.Dma.Session.{IsServed}
use opae_intel_fpga_driver.Dma.Session.Accounts.{Accounts, Accounts-nil}
use opae_intel_fpga_driver.Dma.Session.Invariant.{IsSound, map-IsSound, unmap-IsSound}
use opae_intel_fpga_driver.FeatureDev.OpenCount.{
  feature_dev_use_excl_begin, feature_dev_use_begin, feature_dev_use_end,
}
use opae_intel_fpga_driver.FeatureDev.Msix.{Kernel}
use opae_intel_fpga_driver.FeatureDev.Msix.Disarm.{
  fpga_msix_set_block-none, fpga_msix_set_block-length,
}
use opae_intel_fpga_driver.Umsg.{
  Port, UmsgCmd, umsg_enable_cmd, umsg_disable_cmd, umsg_set_mode_cmd, umsg_set_base_addr_cmd,
  other_cmd, afu_port_umsg_enable, afu_port_umsg_set_addr, afu_port_umsg_set_mode,
  afu_port_umsg_halt, afu_umsg_ioctl_enable, afu_umsg_ioctl_set_mode, afu_umsg_ioctl_set_base_addr,
  port_umsg_ioctl,
}
use opae_intel_fpga_driver.Umsg.Session.{enable-Marks, set_addr-Marks, mode-Marks}
use opae_intel_fpga_driver.AfuIoctl.{
  DmaMapArg, DmaUnmapArg, after_map, afu_ioctl_dma_map, afu_ioctl_dma_unmap,
}
use opae_intel_fpga_driver.AfuFile.{
  PortFile, Cmd, get_api_version, check_extension, get_info, get_region_info, dma_map, dma_unmap,
  port_reset, err_set_irq, uafu_set_irq, umsg, ErrIrqSet, UafuIrqSet, has_err_irq, has_uafu_irq,
  port_err_set_irq, set_uafu_irqs, port_afu_set_irq, afu_open, reset_port, release_last,
  afu_release, port_hdr_ioctl, afu_ioctl,
}
use opae_intel_fpga_driver.AfuFile.Release.{Silent, destroy-IsSound, Marks-IsSound, halt-IsSound}

-- No DMA region is there and no interrupt is armed.
abbrev pub Clean : {H : Type 0} → PortFile H → Type 0
Clean s = Silent s.err_irqs × Silent s.uint_irqs × (inorder s.port.dma.regions ≡ [])

module _ {H : Type 0} (bus : Bus H) (lib : RbLib) (k : Kernel) (v : World) where
  -- What the theorems on the DMA regions ask of a request.
  abbrev pub Allowed : Env → Cmd → PortFile H → Type 0
  Allowed env (dma_map copied (some map)) s =
      IsServed lib env s.port.dma map.user_addr map.length map.iova
  Allowed env (dma_unmap (some unmap)) s = unmap.iova < 2 ^ 64
  Allowed env _ s = Unit

  -- The states that a history reaches from a port that nobody has opened; memory is accounted for
  -- from `v` on.
  pub data Life : PortFile H → Type 0 where
    probed :
        (s : PortFile H)
        → s.opens.open_count ≡ 0
        → Silent s.err_irqs
        → Silent s.uint_irqs
        → length s.err_irqs.ctx < 2 ^ 32
        → length s.uint_irqs.ctx < 2 ^ 32
        → s.port.dma ≡ record { regions = leaf; world = v }
        → Life s
    opens :
        (s : PortFile H) (env : Env) (excl : Bool)
        → Life s
        → s.opens.open_count + 1 < 2 ^ 32
        → Life (afu_open bus lib env k excl s).1
    controls :
        (s : PortFile H) (env : Env) (cmd : Cmd)
        → Life s
        → 1 ≤ s.opens.open_count
        → Allowed env cmd s
        → Life (afu_ioctl bus lib env k cmd s).1
    closes :
        (s : PortFile H) (env : Env)
        → Life s
        → 1 ≤ s.opens.open_count
        → Life (afu_release bus lib env k s)

  -- What each operation keeps.
  abbrev Fit : PortFile H → Type 0
  Fit s =
      IsSound v s.port.dma × (length s.err_irqs.ctx < 2 ^ 32) × (length s.uint_irqs.ctx < 2 ^ 32)

  umsg-IsSound :
      (cmd : UmsgCmd) (p : Port H) → IsSound v p.dma → IsSound v (port_umsg_ioctl bus cmd p).1.dma
  unfolding port_umsg_ioctl afu_umsg_ioctl_enable afu_umsg_ioctl_set_mode
      afu_umsg_ioctl_set_base_addr
  umsg-IsSound (umsg_enable_cmd arg) p s = elim (Bool-cases (arg == 0)) [
    | inl e ↦
        rw e (Marks-IsSound v bus p (afu_port_umsg_enable bus true p) (enable-Marks bus true p) s)
    | inr e ↦ rw e s
  ]
  umsg-IsSound (umsg_disable_cmd arg) p s = elim (Bool-cases (arg == 0)) [
    | inl e ↦
        rw e (Marks-IsSound v bus p (afu_port_umsg_enable bus false p) (enable-Marks bus false p) s)
    | inr e ↦ rw e s
  ]
  umsg-IsSound (umsg_set_mode_cmd none) p s = s
  umsg-IsSound (umsg_set_mode_cmd (some (argsz, flags, mode))) p s =
      elim (Bool-cases (ltb argsz 12 || not (flags == 0))) [
        | inl e ↦ rw e s
        | inr e ↦
            rw e
              (Marks-IsSound v bus p (afu_port_umsg_set_mode bus mode p) (mode-Marks bus mode p) s)
      ]
  umsg-IsSound (umsg_set_base_addr_cmd none) p s = s
  umsg-IsSound (umsg_set_base_addr_cmd (some (argsz, flags, iova))) p s =
      elim (Bool-cases (ltb argsz 16 || not (flags == 0))) [
        | inl e ↦ rw e s
        | inr e ↦ rw e (
            Marks-IsSound v bus p (afu_port_umsg_set_addr bus iova p) (set_addr-Marks bus iova p) s)
      ]
  umsg-IsSound other_cmd p s = s

  map-IsSound_after :
      (env : Env) (copied : Bool) (map : DmaMapArg) (d : Dma)
      → IsSound v d
      → IsServed lib env d map.user_addr map.length map.iova
      → IsSound v (afu_ioctl_dma_map lib env copied (some map) d).2
  unfolding afu_ioctl_dma_map after_map
  map-IsSound_after env copied map d s served =
      let r = afu_dma_map_region lib env d map.user_addr map.length map.iova in
      let sound = map-IsSound lib env v d s map.user_addr map.length map.iova served in
      elim (Bool-cases (ltb map.argsz 32 || not (map.flags == 0))) [
        | inl e ↦ rw e s
        | inr e ↦
            rw e (after copied r.status r.out_iova r.state sound (omega (arith, served.in_space)))
      ]
    where
      after :
          (copied : Bool) (status : Status) (iova : ℕ) (d : Dma)
          → IsSound v d
          → iova < 2 ^ 64
          → IsSound v (after_map lib env copied status iova d).2
      after copied (err e) iova d s below = s
      after true ok iova d s below = s
      after false ok iova d s below = unmap-IsSound lib env v d s iova below

  irq-length :
      (arg : Option ErrIrqSet) (s : PortFile H)
      → length (port_err_set_irq k arg s).1.ctx ≡ length s.err_irqs.ctx
  unfolding port_err_set_irq
  irq-length none s = refl
  irq-length (some hdr) s = elim (Bool-cases (ltb hdr.argsz 12 || not (hdr.flags == 0))) [
    | inl e ↦ rw e refl
    | inr e ↦ elim (Bool-cases (has_err_irq s.afu.capability)) [
      | inr f ↦ rw (e, f) refl
      | inl f ↦ rw (e, f) (fpga_msix_set_block-length k 0 1 (some (hdr.evtfd ∷ [])) s.err_irqs)
    ]
  ]

  uafu_irqs-length :
      (status : Status) (hdr : UafuIrqSet) (s : PortFile H)
      → length (set_uafu_irqs k status hdr s).1.ctx ≡ length s.uint_irqs.ctx
  unfolding set_uafu_irqs
  uafu_irqs-length (err e) hdr s = refl
  uafu_irqs-length ok hdr s = elim (Bool-cases (has_uafu_irq s.afu.capability)) [
    | inr f ↦ rw f refl
    | inl f ↦ rw f (fpga_msix_set_block-length k hdr.start hdr.count (some hdr.evtfds) s.uint_irqs)
  ]

  uafu_irq-length :
      (arg : Option UafuIrqSet) (s : PortFile H)
      → length (port_afu_set_irq k arg s).1.ctx ≡ length s.uint_irqs.ctx
  unfolding port_afu_set_irq
  uafu_irq-length none s = refl
  uafu_irq-length (some hdr) s =
      let last = u32 (hdr.start + hdr.count) in
      elim (Bool-cases (ltb hdr.argsz 16 || not (hdr.flags == 0))) [
        | inl e ↦ rw e refl
        | inr e ↦
            elim (Bool-cases
              (ltb (length s.uint_irqs.ctx) last || ltb last hdr.start || (hdr.count == 0))) [
                | inl f ↦ rw (e, f) refl
                | inr f ↦ rw (e, f) (uafu_irqs-length hdr.memdup_user hdr s)
              ]
      ]

  unmap-IsSound_after :
      (env : Env) (unmap : DmaUnmapArg) (d : Dma)
      → IsSound v d
      → unmap.iova < 2 ^ 64
      → IsSound v (afu_ioctl_dma_unmap lib env (some unmap) d).1
  unfolding afu_ioctl_dma_unmap
  unmap-IsSound_after env unmap d s below =
      elim (Bool-cases (ltb unmap.argsz 16 || not (unmap.flags == 0))) [
        | inl e ↦ rw e s
        | inr e ↦ rw e (unmap-IsSound lib env v d s unmap.iova below)
      ]

  reset-Fit :
      (env : Env) (arg : ℕ) (s : PortFile H)
      → Fit s
      → Fit (port_hdr_ioctl bus lib env k arg s).1
        × ((port_hdr_ioctl bus lib env k arg s).1.opens.open_count ≡ s.opens.open_count)
  unfolding port_hdr_ioctl reset_port
  reset-Fit env arg s f = elim (Bool-cases (arg == 0)) [
    | inl e ↦ rw e (f, refl)
    | inr e ↦ rw e (f, refl)
  ]

  -- An ioctl keeps the counts of opens.
  ioctl-Fit :
      (env : Env) (cmd : Cmd) (s : PortFile H)
      → Fit s
      → Allowed env cmd s
      → Fit (afu_ioctl bus lib env k cmd s).1
        × ((afu_ioctl bus lib env k cmd s).1.opens.open_count ≡ s.opens.open_count)
  unfolding afu_ioctl afu_ioctl_dma_map afu_ioctl_dma_unmap
  ioctl-Fit env get_api_version s f a = (f, refl)
  ioctl-Fit env check_extension s f a = (f, refl)
  ioctl-Fit env (get_info copied arg) s f a = (f, refl)
  ioctl-Fit env (get_region_info copied blank arg) s f a = (f, refl)
  ioctl-Fit env (dma_map copied none) s f a = (f, refl)
  ioctl-Fit env (dma_map copied (some map)) s f a =
      ((map-IsSound_after env copied map s.port.dma f.0 a, f.1, f.2), refl)
  ioctl-Fit env (dma_unmap none) s f a = (f, refl)
  ioctl-Fit env (dma_unmap (some unmap)) s f a =
      ((unmap-IsSound_after env unmap s.port.dma f.0 a, f.1, f.2), refl)
  ioctl-Fit env (port_reset arg) s f a = reset-Fit env arg s f
  ioctl-Fit env (err_set_irq arg) s f a =
      ((f.0, subst (λ n. n < 2 ^ 32) (sym (irq-length arg s)) f.1, f.2), refl)
  ioctl-Fit env (uafu_set_irq arg) s f a =
      ((f.0, f.1, subst (λ n. n < 2 ^ 32) (sym (uafu_irq-length arg s)) f.2), refl)
  ioctl-Fit env (umsg cmd) s f a = elim (Bool-cases s.umsg_present) [
    | inl e ↦ rw e ((umsg-IsSound cmd s.port f.0, f.1, f.2), refl)
    | inr e ↦ rw e (f, refl)
  ]

  release_last-Fit :
      (env : Env) (s : PortFile H)
      → Fit s
      → let s' = release_last bus lib env k s in Fit s' × Clean s'
  unfolding release_last reset_port
  release_last-Fit env s (sound, err_small, uint_small) =
      let errs = fpga_msix_set_block-none k s.err_irqs err_small in
      let uints = fpga_msix_set_block-none k s.uint_irqs uint_small in
      let halted = afu_port_umsg_halt bus s.umsg_present s.port in
      let gone =
        destroy-IsSound v lib env halted.dma (halt-IsSound v bus s.umsg_present s.port sound) in
      (
        (gone.0, omega (arith, errs.0, err_small), omega (arith, uints.0, uint_small)),
        (
          λ n lt. errs.1 n (omega (arith, errs.0, lt)),
          λ n lt. uints.1 n (omega (arith, uints.0, lt)),
          gone.1,
        ),
      )

  -- A port that nobody has open is clean.
  abbrev Kept : PortFile H → Type 0
  Kept s = Fit s × (s.opens.open_count ≡ 0 → Clean s)

  release-Kept : (env : Env) (s : PortFile H) → Fit s → Kept (afu_release bus lib env k s)
  unfolding afu_release
  release-Kept env s f =
      let closed : PortFile H = record s { opens = feature_dev_use_end s.opens } in
      elim (Bool-cases (closed.opens.open_count == 0)) [
        | inl e ↦ let (fit, clean) = release_last-Fit env closed f in rw e (fit, λ _. clean)
        | inr e ↦ rw e (f, λ z. absurd (ground (arith, e, z)))
      ]

  open-Kept :
      (env : Env) (excl : Bool) (s : PortFile H)
      → s.opens.open_count + 1 < 2 ^ 32
      → Kept s
      → Kept (afu_open bus lib env k excl s).1
  unfolding afu_open feature_dev_use_excl_begin feature_dev_use_begin
  open-Kept env true s small (fit, clean) = elim (Bool-cases (s.opens.open_count == 0)) [
    | inl e ↦ rw e (fit, λ z. absurd (omega (arith, z, small)))
    | inr e ↦ rw e (fit, clean)
  ]
  open-Kept env false s small (fit, clean) = elim (Bool-cases (s.opens.excl_open == 0)) [
    | inl e ↦ rw e (fit, λ z. absurd (omega (arith, z, small)))
    | inr e ↦ rw e (fit, clean)
  ]

  Life-Kept : (s : PortFile H) → Life s → Kept s
  Life-Kept _ (probed s none_open err_off uint_off err_small uint_small fresh) = (
    (
      subst (IsSound v) (sym fresh) (record { ordered = tt; fits = tt; accounts = Accounts-nil v }),
      err_small,
      uint_small,
    ),
    λ _. (err_off, uint_off, ap (λ (d : Dma). inorder d.regions) fresh),
  )
  Life-Kept _ (opens s env excl l small) = open-Kept env excl s small (Life-Kept s l)
  Life-Kept _ (controls s env cmd l opened allowed) =
      let (fit, same) = ioctl-Fit env cmd s (Life-Kept s l).0 allowed in
      (fit, λ z. absurd (omega (arith, z, same, opened)))
  Life-Kept _ (closes s env l opened) = release-Kept env s (Life-Kept s l).0

  -- After any history of opens (fewer than 2^32 at a time), releases and ioctls of a device file that
  -- starts closed, without DMA regions and armed interrupts and with fewer than 2^32 vectors, where
  -- the requests to map memory are served as `IsServed` describes and those to unmap it name an
  -- address below 2^64: when no file is open, there is no DMA region, no interrupt for errors or for
  -- the user has a trigger, every page has the references it had at the start, and so has the account
  -- of locked memory.
  pub Life-Clean :
      (s : PortFile H)
      → Life s
      → s.opens.open_count ≡ 0
      → Clean s
        × ((q : ℕ) → s.port.dma.world.page_refs q ≡ v.page_refs q)
        × (s.port.dma.world.locked_vm ≡ v.locked_vm)
  Life-Clean s l none_open =
      let (fit, clean) = Life-Kept s l in
      let (errs, uints, empty) = clean none_open in
      let settled = subst (λ rs. Accounts v rs s.port.dma.world) empty fit.0.accounts in
      (
        (errs, uints, empty),
        λ q. omega (arith, settled.refs q),
        settled.locked ∙ sym (Accounts-nil v).locked,
      )
