-- ===== src/PortAssign/Entries.antt =====
-- The list of ports: what a write through an entry that the lookup found changes.
use opae_intel_fpga_driver.Base.{
  ℕ, suc, ◌+◌, ◌≡◌, ◌≢◌, refl, sym, ap, ◌∙◌, Bool, true, false, some, List, [], ◌∷◌, arith, inl,
  inr, All, All-imp, ◌==◌, if◌then◌else◌, Bool-cases, length, ==_iff,
}
use mathlib.Core.Path.{subst}
use opae_intel_fpga_driver.PortAssign.{PortNode, cci_pci_lookup_port_by_id, write_back}
use opae_intel_fpga_driver.PortAssign.Loops.{released}

-- No two ports have the same number.
abbrev pub Distinct : List PortNode → Type 0
Distinct [] = Unit
Distinct (p ∷ ps) = All (λ q. q.number ≢ p.number) ps × Distinct ps

some_eq : {A : Type 0} {a b : A} → some a ≡ some b → a ≡ b
some_eq h = cc

pub lookup-All :
    (P : PortNode → Type 0) (id : ℕ) (ps : List PortNode) (p : PortNode)
    → cci_pci_lookup_port_by_id id ps ≡ some p
    → All P ps
    → P p × (p.number ≡ id)
lookup-All P id [] p e a = absurd cc
lookup-All P id (q ∷ ps) p e a = elim (Bool-cases (q.number == id)) [
  | inl f ↦
      let q_p : q ≡ p = some_eq (rw f at e) in
      subst (λ x. P x × (x.number ≡ id)) q_p (a.0, (==_iff q.number id).0 f)
  | inr f ↦ lookup-All P id ps p (rw f at e) a.1
]

pub write_back-All :
    (P : PortNode → Type 0) (id : ℕ) (q : PortNode) (ps : List PortNode)
    → P q
    → All P ps
    → All P (write_back id q ps)
write_back-All P id q [] h a = tt
write_back-All P id q (p ∷ ps) h a = elim (Bool-cases (p.number == id)) [
  | inl f ↦ rw f ((h, a.1))
  | inr f ↦ rw f ((a.0, write_back-All P id q ps h a.1))
]

pub length-write_back :
    (id : ℕ) (q : PortNode) (ps : List PortNode) → length (write_back id q ps) ≡ length ps
length-write_back id q [] = refl
length-write_back id q (p ∷ ps) = elim (Bool-cases (p.number == id)) [
  | inl f ↦ rw f refl
  | inr f ↦ rw f (ap suc (length-write_back id q ps))
]

pub write_back-Distinct :
    (id : ℕ) (q : PortNode) (ps : List PortNode)
    → q.number ≡ id
    → Distinct ps
    → Distinct (write_back id q ps)
write_back-Distinct id q [] e d = tt
write_back-Distinct id q (p ∷ ps) e d = elim (Bool-cases (p.number == id)) [
  | inl f ↦
      let same : p.number ≡ q.number = (==_iff p.number id).0 f ∙ sym e in
      rw f (
        (
          All-imp (λ r. r.number ≢ p.number) (λ r. r.number ≢ q.number)
              (λ r ne k. ne (k ∙ sym same)) ps d.0,
          d.1,
        ))
  | inr f ↦
      let ne : q.number ≢ p.number = λ k. ground (arith, f, e, k) in
      rw f (
        (
          write_back-All (λ r. r.number ≢ p.number) id q ps ne d.0,
          write_back-Distinct id q ps e d.1,
        ))
]

-- The number of released ports when the entry changes hands.
pub released-write_back :
    (id : ℕ) (q : PortNode) (ps : List PortNode) (p : PortNode)
    → cci_pci_lookup_port_by_id id ps ≡ some p
    → length (released (write_back id q ps)) + (if p.registered then 0 else 1)
      ≡ length (released ps) + (if q.registered then 0 else 1)
released-write_back id q [] p e = absurd cc
released-write_back id q (r ∷ ps) p e = elim (Bool-cases (r.number == id)) [
  | inl f ↦
      let r_p : r ≡ p = some_eq (rw f at e) in
      subst
        (λ x.
          length (released (write_back id q (r ∷ ps))) + (if x.registered then 0 else 1)
          ≡ length (released (r ∷ ps)) + (if q.registered then 0 else 1))
        r_p (rw f (swap q.registered r.registered q.number r.number (released ps)))
  | inr f ↦
      let rest = released-write_back id q ps p (rw f at e) in
      elim (Bool-cases r.registered) [
        | inl g ↦ rw (f, g) rest
        | inr g ↦ rw (f, g) (omega (arith, rest))
      ]
]
  where
    swap :
        (x y : Bool) (m n : ℕ) (ns : List ℕ)
        → length (if x then ns else m ∷ ns) + (if y then 0 else 1)
          ≡ length (if y then ns else n ∷ ns) + (if x then 0 else 1)
    swap true true m n ns = refl
    swap true false m n ns = omega arith
    swap false true m n ns = omega arith
    swap false false m n ns = refl

module _ {A : Type 0} (P Q R : A → Type 0) (f : (a : A) → P a → Q a → R a) where
  pub All-zip : (xs : List A) → All P xs → All Q xs → All R xs
  All-zip [] h k = tt
  All-zip (x ∷ xs) h k = (f x h.0 k.0, All-zip xs h.1 k.1)

-- A registered port has the number of no released port.
pub Distinct-Unreleased :
    (ps : List PortNode)
    → Distinct ps
    → All (λ q. q.registered ≡ true → All (λ i. i ≢ q.number) (released ps)) ps
Distinct-Unreleased [] d = tt
Distinct-Unreleased (p ∷ ps) d =
    let Clear : ℕ → List ℕ → Type 0 = λ j is. All (λ i. i ≢ j) is in
    let Apart : List ℕ → Type 0 =
      λ is. All (λ q. q.registered ≡ true → Clear q.number is) (p ∷ ps) in
    let later = Distinct-Unreleased ps d.1 in
    elim (Bool-cases p.registered) [
      | inl r ↦
          let same : released (p ∷ ps) ≡ released ps = rw r refl in
          subst Apart (sym same) (λ _. numbers ps d.0, later)
      | inr r ↦
          let more : released (p ∷ ps) ≡ p.number ∷ released ps = rw r refl in
          subst Apart (sym more) (
            λ k. absurd (cc (r, k)),
            All-zip (λ q. q.number ≢ p.number)
                (λ q. q.registered ≡ true → Clear q.number (released ps))
                (λ q. q.registered ≡ true → Clear q.number (p.number ∷ released ps))
                (λ q ne clear k. (λ e. ne (sym e), clear k)) ps d.0 later,
          )
    ]
  where
    numbers :
        (qs : List PortNode)
        → All (λ q. q.number ≢ p.number) qs
        → All (λ i. i ≢ p.number) (released qs)
    numbers [] h = tt
    numbers (q ∷ qs) h = elim (Bool-cases q.registered) [
      | inl r ↦ rw r (numbers qs h.1)
      | inr r ↦ rw r ((h.0, numbers qs h.1))
    ]
