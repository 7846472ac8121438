-- ===== src/PortAssign/Loops.antt =====
-- The loops of cci_pci_sriov_configure over the ports: which registers they change.
use opae_intel_fpga_driver.Base.{
  ℕ, suc, ◌-◌, ◌≤◌, ◌<◌, ◌≡◌, ◌≢◌, refl, ap, ◌∙◌, List, [], ◌∷◌, arith, inl, inr, All, ◌==◌,
  if◌then◌else◌, Bool-cases, length, ==_iff,
}
use mathlib.Core.Path.{subst}
use opae_intel_fpga_driver.Csr.{get_field, set_field, afu_access_control}
use opae_intel_fpga_driver.Csr.Fields.{get_field-set_field}
use opae_intel_fpga_driver.PortAssign.{
  PortNode, FmeHdr, access_pf, access_vf, port_config_vf, all_to_pf, some_to_vf,
}

-- The port registers of the FME hold what was written last.
pub record Memory {H : Type 0} (fme : FmeHdr H) : Type 0 where
  pub held : H → ℕ → ℕ
  pub read_value : (i : ℕ) (h : H) → (fme.read_port i h).0 ≡ held h i
  pub read_keeps : (i j : ℕ) (h : H) → held (fme.read_port i h).1 j ≡ held h j
  pub capability_keeps : (j : ℕ) (h : H) → held (fme.read_capability h).1 j ≡ held h j
  pub write_self : (i v : ℕ) (h : H) → held (fme.write_port i v h) i ≡ v
  pub write_other : (i j v : ℕ) (h : H) → i ≢ j → held (fme.write_port i v h) j ≡ held h j

-- The numbers of the released ports, and of the first `n` of them.
abbrev pub released : List PortNode → List ℕ
released [] = []
released (p ∷ ps) = if p.registered then released ps else p.number ∷ released ps

abbrev pub first_released : ℕ → List PortNode → List ℕ
first_released n [] = []
first_released n (p ∷ ps) =
    if p.registered
    then first_released n ps
    else if n == 1
    then p.number ∷ []
    else p.number ∷ first_released (n - 1) ps

pub length-first_released :
    (n : ℕ) (ps : List PortNode)
    → 1 ≤ n
    → n ≤ length (released ps)
    → length (first_released n ps) ≡ n
length-first_released n [] low h = omega arith
length-first_released n (p ∷ ps) low h = elim (Bool-cases p.registered) [
  | inl e ↦ rw e (length-first_released n ps low (rw e at h))
  | inr e ↦
      let h' : n ≤ suc (length (released ps)) = rw e at h in
      elim (Bool-cases (n == 1)) [
        | inl f ↦ rw (e, f) (ground (arith, f))
        | inr f ↦
            rw (e, f)
              (omega
                (arith, length-first_released (n - 1) ps (ground (arith, f)) (omega (arith, h'))))
      ]
]

module _ {H : Type 0} (fme : FmeHdr H) (memory : Memory fme) where
  -- Who may use a port, as the register says.
  abbrev pub access : H → ℕ → ℕ
  access h j = get_field afu_access_control (memory.held h j)

  port_config_vf_self :
      (i type : ℕ) (h : H) → type < 2 → access (port_config_vf fme i type h) i ≡ type
  unfolding port_config_vf
  port_config_vf_self i type h small =
      let (csr, h') = fme.read_port i h in
      let new = set_field afu_access_control type csr in
      ap (get_field afu_access_control) (memory.write_self i new h')
      ∙ get_field-set_field afu_access_control type csr
      ∙ omega (arith, small)

  port_config_vf_other :
      (i j type : ℕ) (h : H) → i ≢ j → access (port_config_vf fme i type h) j ≡ access h j
  unfolding port_config_vf
  port_config_vf_other i j type h ne =
      let (csr, h') = fme.read_port i h in
      let new = set_field afu_access_control type csr in
      ap (get_field afu_access_control) (memory.write_other i j new h' ne ∙ memory.read_keeps i j h)

  -- Turning any port to `type` leaves a port that is turned to it so.
  port_config_vf_same :
      (i j type : ℕ) (h : H)
      → type < 2
      → access h j ≡ type
      → access (port_config_vf fme i type h) j ≡ type
  port_config_vf_same i j type h small e = elim (Bool-cases (i == j)) [
    | inl f ↦
        let i_j : i ≡ j = (==_iff i j).0 f in
        subst (λ k. access (port_config_vf fme i type h) k ≡ type) i_j
          (port_config_vf_self i type h small)
    | inr f ↦ port_config_vf_other i j type h (λ g. ground (arith, f, g)) ∙ e
  ]

  -- The number is of no released port.
  abbrev pub Unreleased : ℕ → List PortNode → Type 0
  Unreleased j ps = All (λ i. i ≢ j) (released ps)

  pub all_to_pf-Unreleased :
      (ps : List PortNode) (j : ℕ) (h : H)
      → Unreleased j ps
      → access (all_to_pf fme ps h) j ≡ access h j
  unfolding all_to_pf
  all_to_pf-Unreleased [] j h u = refl
  all_to_pf-Unreleased (p ∷ ps) j h u = elim (Bool-cases p.registered) [
    | inl e ↦ rw e (all_to_pf-Unreleased ps j h (rw e at u))
    | inr e ↦
        let u' : (p.number ≢ j) × Unreleased j ps = rw e at u in
        rw e (
          all_to_pf-Unreleased ps j (port_config_vf fme p.number access_pf h) u'.1
          ∙ port_config_vf_other p.number j access_pf h u'.0)
  ]

  all_to_pf_same :
      (ps : List PortNode) (j : ℕ) (h : H)
      → access h j ≡ access_pf
      → access (all_to_pf fme ps h) j ≡ access_pf
  unfolding all_to_pf
  all_to_pf_same [] j h e = e
  all_to_pf_same (p ∷ ps) j h e = elim (Bool-cases p.registered) [
    | inl f ↦ rw f (all_to_pf_same ps j h e)
    | inr f ↦ rw f (
        all_to_pf_same ps j (port_config_vf fme p.number access_pf h)
          (port_config_vf_same p.number j access_pf h (omega arith) e))
  ]

  pub all_to_pf-released :
      (ps : List PortNode) (h : H)
      → All (λ j. access (all_to_pf fme ps h) j ≡ access_pf) (released ps)
  unfolding all_to_pf
  all_to_pf-released [] h = tt
  all_to_pf-released (p ∷ ps) h = elim (Bool-cases p.registered) [
    | inl e ↦ rw e (all_to_pf-released ps h)
    | inr e ↦
        let turned = port_config_vf fme p.number access_pf h in
        let self = port_config_vf_self p.number access_pf h (omega arith) in
        rw e ((all_to_pf_same ps p.number turned self, all_to_pf-released ps turned))
  ]

  pub some_to_vf-Unreleased :
      (n : ℕ) (ps : List PortNode) (j : ℕ) (h : H)
      → Unreleased j ps
      → access (some_to_vf fme n ps h) j ≡ access h j
  unfolding some_to_vf
  some_to_vf-Unreleased n [] j h u = refl
  some_to_vf-Unreleased n (p ∷ ps) j h u = elim (Bool-cases p.registered) [
    | inl e ↦ rw e (some_to_vf-Unreleased n ps j h (rw e at u))
    | inr e ↦
        let u' : (p.number ≢ j) × Unreleased j ps = rw e at u in
        let turned = port_config_vf fme p.number access_vf h in
        let other = port_config_vf_other p.number j access_vf h u'.0 in
        elim (Bool-cases (n == 1)) [
          | inl f ↦ rw (e, f) other
          | inr f ↦ rw (e, f) (some_to_vf-Unreleased (n - 1) ps j turned u'.1 ∙ other)
        ]
  ]

  -- The ports that are not among the first `n` of the released ones keep their access.
  pub some_to_vf-others :
      (n : ℕ) (ps : List PortNode) (j : ℕ) (h : H)
      → All (λ i. i ≢ j) (first_released n ps)
      → access (some_to_vf fme n ps h) j ≡ access h j
  unfolding some_to_vf
  some_to_vf-others n [] j h u = refl
  some_to_vf-others n (p ∷ ps) j h u = elim (Bool-cases p.registered) [
    | inl e ↦ rw e (some_to_vf-others n ps j h (rw e at u))
    | inr e ↦
        let turned = port_config_vf fme p.number access_vf h in
        let other : p.number ≢ j → access turned j ≡ access h j =
          port_config_vf_other p.number j access_vf h in
        elim (Bool-cases (n == 1)) [
          | inl f ↦ let u' : (p.number ≢ j) × Unit = rw (e, f) at u in rw (e, f) (other u'.0)
          | inr f ↦
              let u' : (p.number ≢ j) × All (λ i. i ≢ j) (first_released (n - 1) ps) =
                rw (e, f) at u in
              rw (e, f) (some_to_vf-others (n - 1) ps j turned u'.1 ∙ other u'.0)
        ]
  ]

  some_to_vf_same :
      (n : ℕ) (ps : List PortNode) (j : ℕ) (h : H)
      → access h j ≡ access_vf
      → access (some_to_vf fme n ps h) j ≡ access_vf
  unfolding some_to_vf
  some_to_vf_same n [] j h e = e
  some_to_vf_same n (p ∷ ps) j h e =
      let same = port_config_vf_same p.number j access_vf h (omega arith) e in
      elim (Bool-cases p.registered) [
        | inl f ↦ rw f (some_to_vf_same n ps j h e)
        | inr f ↦ elim (Bool-cases (n == 1)) [
          | inl g ↦ rw (f, g) same
          | inr g ↦
              rw (f, g)
                (some_to_vf_same (n - 1) ps j (port_config_vf fme p.number access_vf h) same)
        ]
      ]

  pub some_to_vf-released :
      (n : ℕ) (ps : List PortNode) (h : H)
      → All (λ j. access (some_to_vf fme n ps h) j ≡ access_vf) (first_released n ps)
  unfolding some_to_vf
  some_to_vf-released n [] h = tt
  some_to_vf-released n (p ∷ ps) h =
      let turned = port_config_vf fme p.number access_vf h in
      let self = port_config_vf_self p.number access_vf h (omega arith) in
      elim (Bool-cases p.registered) [
        | inl e ↦ rw e (some_to_vf-released n ps h)
        | inr e ↦ elim (Bool-cases (n == 1)) [
          | inl f ↦ rw (e, f) ((self, tt))
          | inr f ↦
              rw (e, f)
                ((
                  some_to_vf_same (n - 1) ps p.number turned self,
                  some_to_vf-released (n - 1) ps turned,
                ))
        ]
      ]
