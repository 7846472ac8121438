-- ===== src/Umsg/Guard.antt =====
-- What backs the memory that the UMsg engine writes, operation by operation.
use opae_intel_fpga_driver.Base.{
  ℕ, ◌+◌, ◌/◌, ◌%◌, ◌^◌, ◌<◌, ◌≤◌, ◌≡◌, ◌≢◌, ◌∙◌, sym, ap, refl, arith, Bool, true, false, ◌==◌,
  ltb, u64, page_aligned, In, inl, inr, List, [], ◌∷◌, map, Bool-cases, Option-cases,
}
use opae_intel_fpga_driver.AfuData.{DmaRegion, inorder}
use opae_intel_fpga_driver.Csr.{get_field, set_field, umsg_enable, umsg_hint_enable, base_addr}
use opae_intel_fpga_driver.Csr.Fields.{get_field-set_field}
use opae_intel_fpga_driver.Mmio.{Bus, port_umsg_capability, port_umsg_baseaddr, port_umsg_mode}
use opae_intel_fpga_driver.Dma.Store.{afu_dma_region_find}
use opae_intel_fpga_driver.Dma.Store.Order.{mark_one, inorder-mark_in_use}
use opae_intel_fpga_driver.Dma.Store.Find.{InSpace, find_sound}
use opae_intel_fpga_driver.Umsg.{
  Port, umsg_size, port_umsg_enable, port_umsg_is_enabled, port_umsg_set_mode, port_umsg_get_addr,
  port_umsg_set_addr, afu_port_umsg_enable, move_base, config_addr, clear_addr,
  afu_port_umsg_set_addr, afu_port_umsg_set_mode,
}
use opae_intel_fpga_driver.Umsg.Device.{UmsgDevice, base_of, Same, readq-Same, port_umsg_enable_lem}

-- A region that is marked as used and holds the bytes from `addr` on.
abbrev pub Backs : List DmaRegion → ℕ → ℕ → Type 0
Backs rs addr size =
    (r : DmaRegion) × In r rs
    × (r.in_use ≡ true)
    × (r.iova ≤ addr)
    × (addr + size ≤ r.iova + r.length)

In-mark_one :
    (k : ℕ) (mark : Bool) (r : DmaRegion) (rs : List DmaRegion)
    → In r rs
    → r.iova ≡ k
    → In (record r { in_use = mark }) (map (mark_one k mark) rs)
In-mark_one k mark r [] m e = absurd m
In-mark_one k mark r (s ∷ rs) (inl q) e = inl (
    ap (λ (x : DmaRegion). record x { in_use = mark }) q
    ∙ rw (ap (λ (x : DmaRegion). x.iova) (sym q) ∙ e) (ground arith))
In-mark_one k mark r (s ∷ rs) (inr m) e = inr (In-mark_one k mark r rs m e)

module _ {H : Type 0} (bus : Bus H) (base : H → ℕ) (on : H → Bool)
    (laws : UmsgDevice bus base on) where
  -- Of the regions, the size, the base address register and the enable bit: while the register
  -- holds a nonzero address, a region that is in use backs it; and the engine is on only then.
  abbrev pub Guards : List DmaRegion → ℕ → ℕ → Bool → Type 0
  Guards rs size csr enabled =
      (get_field base_addr csr ≢ 0 → Backs rs (get_field base_addr csr) size)
      × (enabled ≡ true → get_field base_addr csr ≢ 0)

  abbrev pub Guarded : Port H → Type 0
  Guarded p = Guards (inorder p.dma.regions) (umsg_size p) (base p.hw) (on p.hw)

  Same-Guards :
      (rs : List DmaRegion) (size : ℕ) (h h' : H)
      → Same bus base on laws h' h
      → Guards rs size (base h) (on h)
      → Guards rs size (base h') (on h')
  Same-Guards rs size h h' (b, o) g = rw (b, o) g

  on-Guards :
      (rs : List DmaRegion) (size : ℕ) (h h' : H)
      → (base h' ≡ base h)
      → (base_of bus base on laws h ≢ 0)
      → Guards rs size (base h) (on h)
      → Guards rs size (base h') (on h')
  on-Guards rs size h h' b n g = rw b (g.0, λ q. n)

  off-Guards :
      (rs : List DmaRegion) (size : ℕ) (h h' : H)
      → (base h' ≡ base h)
      → (on h' ≡ false)
      → Guards rs size (base h) (on h)
      → Guards rs size (base h') (on h')
  off-Guards rs size h h' b o g = rw (b, o) (g.0, λ q. absurd (ground (arith, q)))

  pub enable-Guarded :
      (enable : Bool) (p : Port H) → Guarded p → Guarded (afu_port_umsg_enable bus enable p).1
  unfolding afu_port_umsg_enable port_umsg_get_addr
  enable-Guarded true p g =
      let (csr, h) = bus.readq port_umsg_baseaddr p.hw in
      let h' = (port_umsg_enable bus true h).1 in
      let rs = inorder p.dma.regions in
      let read = readq-Same bus base on laws port_umsg_baseaddr p.hw in
      let done = port_umsg_enable_lem bus base on laws true h in
      elim (Bool-cases (get_field base_addr csr == 0)) [
        | inl e ↦ rw e (Same-Guards rs (umsg_size p) p.hw h read g)
        | inr e ↦
            let there : base_of bus base on laws p.hw ≢ 0 =
              λ z. ground (arith, e, ap (get_field base_addr) (laws.read_base p.hw), z) in
            rw e (on-Guards rs (umsg_size p) p.hw h' (done.0 ∙ read.0) there g)
      ]
  enable-Guarded false p g =
      let done = port_umsg_enable_lem bus base on laws false p.hw in
      off-Guards (inorder p.dma.regions) (umsg_size p) p.hw (port_umsg_enable bus false p.hw).1
        done.0 done.1 g

  pub mode-Guarded :
      (mode : ℕ) (p : Port H) → Guarded p → Guarded (afu_port_umsg_set_mode bus mode p).1
  unfolding afu_port_umsg_set_mode port_umsg_set_mode
  mode-Guarded mode p g =
      let (csr, h) = bus.readq port_umsg_mode p.hw in
      let read = readq-Same bus base on laws port_umsg_mode p.hw in
      let v = set_field umsg_hint_enable mode csr in
      elim (Bool-cases (mode / 2 ^ (p.num_umsgs % 32) == 0)) [
        | inl e ↦ rw e (
            Same-Guards (inorder p.dma.regions) (umsg_size p) p.hw (bus.writeq port_umsg_mode v h)
              (laws.base-write_mode v h ∙ read.0, laws.on-write_mode v h ∙ read.1) g)
        | inr e ↦ rw e g
      ]

  -- What `port_umsg_set_addr` leaves in the device.
  port_umsg_set_addr_lem :
      (iova : ℕ) (h : H)
      → let h' = port_umsg_set_addr bus iova h in
        (base_of bus base on laws h' ≡ iova % 2 ^ 48) × (on h' ≡ on h)
  unfolding port_umsg_set_addr
  port_umsg_set_addr_lem iova h =
      let (csr, h') = bus.readq port_umsg_baseaddr h in
      let v = set_field base_addr iova csr in
      (
        ap (get_field base_addr) (laws.base-write_base v h')
            ∙ get_field-set_field base_addr iova csr,
        laws.on-write_base v h' ∙ laws.on-readq port_umsg_baseaddr h,
      )

  no_overflow :
      (iova size : ℕ)
      → iova < 2 ^ 64
      → size < 2 ^ 64
      → ltb (u64 (iova + size)) iova ≡ false
      → iova + size < 2 ^ 64
  no_overflow iova size a b e = ground (arith, e)

  config-Guarded :
      (iova : ℕ) (p : Port H)
      → InSpace (inorder p.dma.regions)
      → umsg_size p < 2 ^ 48
      → iova < 2 ^ 48
      → iova ≢ 0
      → on p.hw ≡ false
      → Guarded p
      → Guarded (config_addr bus iova p).1
  unfolding config_addr move_base
  config-Guarded iova p fits small below n off g =
      let size = umsg_size p in
      let t = p.dma.regions in
      let h' = port_umsg_set_addr bus iova p.hw in
      let set = port_umsg_set_addr_lem iova p.hw in
      elim (Bool-cases (page_aligned iova)) [
        | inr e ↦ rw e g
        | inl e ↦ elim (Bool-cases (ltb (u64 (iova + size)) iova)) [
          | inl over ↦ rw (e, over) g
          | inr fine ↦ elim (Option-cases (afu_dma_region_find t iova size)) [
            | inl lost ↦ rw (e, fine, lost, move_base) g
            | inr (r, found) ↦
                let room = no_overflow iova size (omega arith) (omega arith) fine in
                let (m, c) = find_sound t iova size r fits room found in
                let marked = In-mark_one r.iova true r (inorder t) m refl in
                let at : base_of bus base on laws h' ≡ iova = set.0 ∙ omega (arith, below) in
                rw (e, fine, found, move_base, inorder-mark_in_use r.iova true t, at, set.1)
                  ((λ nz. (record r { in_use = true }, marked, refl, c.0, c.1)), (λ q. n))
          ]
        ]
      ]

  clear-Guarded :
      (iova : ℕ) (p : Port H) → on p.hw ≡ false → Guarded p → Guarded (clear_addr bus iova p).1
  unfolding clear_addr move_base
  clear-Guarded iova p off g =
      let size = umsg_size p in
      let t = p.dma.regions in
      let set = port_umsg_set_addr_lem 0 p.hw in
      elim (Bool-cases (iova == 0)) [
        | inl e ↦ rw e g
        | inr e ↦ elim (Bool-cases (ltb (u64 (iova + size)) iova)) [
          | inl over ↦ rw (e, over) g
          | inr fine ↦ elim (Option-cases (afu_dma_region_find t iova size)) [
            | inl lost ↦ rw (e, fine, lost, move_base) g
            | inr (r, found) ↦
                rw (e, fine, found, move_base, set.0, set.1)
                  ((λ nz. absurd (nz refl)), (λ q. absurd (ground (arith, off, q))))
          ]
        ]
      ]

  pub set_addr-Guarded :
      (iova : ℕ) (p : Port H)
      → InSpace (inorder p.dma.regions)
      → umsg_size p < 2 ^ 48
      → iova < 2 ^ 48
      → Guarded p
      → Guarded (afu_port_umsg_set_addr bus iova p).1
  unfolding afu_port_umsg_set_addr port_umsg_is_enabled port_umsg_get_addr
  set_addr-Guarded iova p fits small below g =
      let rs = inorder p.dma.regions in
      let size = umsg_size p in
      let (csr, h) = bus.readq port_umsg_capability p.hw in
      let (addr, h') = bus.readq port_umsg_baseaddr h in
      let read = readq-Same bus base on laws port_umsg_capability p.hw in
      let again = readq-Same bus base on laws port_umsg_baseaddr h in
      let g1 : Guarded (record p { hw = h }) = Same-Guards rs size p.hw h read g in
      let g2 : Guarded (record p { hw = h' }) = Same-Guards rs size h h' again g1 in
      elim (Bool-cases (get_field umsg_enable csr == 1)) [
        | inl e ↦ rw e g1
        | inr e ↦
            let off : on h ≡ false = read.1 ∙ sym (laws.read_on p.hw) ∙ e in
            elim (Bool-cases (iova == 0)) [
              | inl z ↦
                  rw (e, z)
                    (clear-Guarded (get_field base_addr addr) (record p { hw = h' }) (again.1 ∙ off)
                      g2)
              | inr n ↦
                  rw (e, n)
                    (config-Guarded iova (record p { hw = h }) fits small below
                      (λ z. ground (arith, n, z)) off g1)
            ]
      ]
