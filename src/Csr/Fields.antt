-- ===== src/Csr/Fields.antt =====
-- What an assignment to a bit-field of a register leaves to read.
use opae_intel_fpga_driver.Base.{
  ℕ, zero, suc, ◌+◌, ◌*◌, ◌/◌, ◌%◌, ◌^◌, ◌<◌, ◌≤◌, ◌≡◌, ◌-◌, ◌∙◌, sym, ◌⊎◌, inl, inr, arith, ap,
}
use opae_intel_fpga_driver.Csr.{Field, get_field, set_field}
use native.Mathlib.Nat.{
  one-le-pow, div-add-mod, mul_comm, mul_assoc, div-div-eq-div-mul, pow-suc, add-mul-div_right,
  add-mul-mod_self_left,
}

div-low : (a p s : ℕ) → s < p → (a * p + s) / p ≡ a
div-low a p s h = grind arith

pub mod-low : (a p s : ℕ) → s < p → (a * p + s) % p ≡ s
mod-low a p s h = grind arith

-- A bit-field reads back what was assigned to it, cut to its width.
pub get_field-set_field :
    (f : Field) (v csr : ℕ) → get_field f (set_field f v csr) ≡ v % 2 ^ f.width
unfolding get_field set_field
get_field-set_field f v csr =
    let l = 2 ^ f.low in
    let w = 2 ^ f.width in
    let a = csr / l / w in
    rw (div-low (a * w + v % w) l (csr % l) (omega (arith, one-le-pow f.low 2)))
      (mod-low a w (v % w) (omega (arith, one-le-pow f.width 2)))

-- Two bit-fields without a common bit.
abbrev pub Disjoint : Field → Field → Type 0
Disjoint f g = (f.low + f.width ≤ g.low) ⊎ (g.low + g.width ≤ f.low)

-- What stands from `l * w * k` on does not show in the `w` values above `l`.
high-unseen : (a s l w k : ℕ) → 0 < l → 0 < w → (a * (l * w * k) + s) / l % w ≡ s / l % w
high-unseen a s l w k lp wp =
    let shift : a * (l * w * k) + s ≡ s + w * (a * k) * l = omega arith in
    rw (shift, add-mul-div_right s (w * (a * k)) lp) (add-mul-mod_self_left (s / l) w (a * k))

pub pow_pos : (n : ℕ) → 0 < 2 ^ n
pow_pos n = omega (arith, one-le-pow n 2)

pub pow_sum : (a b : ℕ) → 2 ^ (a + b) ≡ 2 ^ a * 2 ^ b
pow_sum a zero = ap (λ (t : ℕ). 2 ^ t) (let e : a + 0 ≡ a = omega arith in e) ∙ omega arith
pow_sum a (suc b) =
    ap (λ (t : ℕ). 2 ^ t) (let e : a + suc b ≡ suc (a + b) = omega arith in e)
    ∙ pow-suc 2 (a + b)
    ∙ ap (λ (t : ℕ). t * 2) (pow_sum a b)
    ∙ mul_assoc (2 ^ a) (2 ^ b) 2
    ∙ ap (λ (t : ℕ). 2 ^ a * t) (sym (pow-suc 2 b))

pow_between : (a b m : ℕ) → a + b ≤ m → 2 ^ m ≡ 2 ^ a * 2 ^ b * 2 ^ (m - (a + b))
pow_between a b m le =
    let e : m ≡ a + b + (m - (a + b)) = omega arith in
    ap (λ (t : ℕ). 2 ^ t) e
    ∙ pow_sum (a + b) (m - (a + b))
    ∙ ap (λ (t : ℕ). t * 2 ^ (m - (a + b))) (pow_sum a b)

above :
    (x csr l w k p : ℕ) → 0 < l → 0 < w → p ≡ l * w * k → (x * p + csr % p) / l % w ≡ csr / l % w
above x csr l w k p lp wp e =
    let m = l * w * k in
    rw e (
      high-unseen x (csr % m) l w k lp wp
      ∙ sym (high-unseen (csr / m) (csr % m) l w k lp wp)
      ∙ ap (λ (t : ℕ). t / l % w)
          (ap (λ (t : ℕ). t + csr % m) (mul_comm (csr / m) m) ∙ div-add-mod csr m))

below :
    (v csr l w k p : ℕ)
    → 0 < l
    → 0 < w
    → p ≡ l * w * k
    → ((csr / l / w * w + v % w) * l + csr % l) / p ≡ csr / p
below v csr l w k p lp wp e =
    let a = csr / l / w in
    let new = (a * w + v % w) * l + csr % l in
    rw e (
      sym (div-div-eq-div-mul new (l * w) k)
      ∙ ap (λ (t : ℕ). t / k)
          (sym (div-div-eq-div-mul new l w)
            ∙ ap (λ (t : ℕ). t / w) (div-low (a * w + v % w) l (csr % l) (omega (arith, lp)))
            ∙ div-low a w (v % w) (omega (arith, wp))
            ∙ div-div-eq-div-mul csr l w)
      ∙ div-div-eq-div-mul csr (l * w) k)

set_field-above :
    (f g : Field) (v csr : ℕ)
    → f.low + f.width ≤ g.low
    → get_field f (set_field g v csr) ≡ get_field f csr
unfolding get_field set_field
set_field-above f g v csr le =
    above (csr / 2 ^ g.low / 2 ^ g.width * 2 ^ g.width + v % 2 ^ g.width) csr (2 ^ f.low)
      (2 ^ f.width) (2 ^ (g.low - (f.low + f.width))) (2 ^ g.low) (pow_pos f.low) (pow_pos f.width)
      (pow_between f.low f.width g.low le)

set_field-below :
    (f g : Field) (v csr : ℕ)
    → g.low + g.width ≤ f.low
    → get_field f (set_field g v csr) ≡ get_field f csr
unfolding get_field set_field
set_field-below f g v csr le =
    ap (λ (t : ℕ). t % 2 ^ f.width)
      (below v csr (2 ^ g.low) (2 ^ g.width) (2 ^ (f.low - (g.low + g.width))) (2 ^ f.low)
        (pow_pos g.low) (pow_pos g.width) (pow_between g.low g.width f.low le))

-- Assigning to a bit-field leaves the others as they are.
pub set_field_other :
    (f g : Field) (v csr : ℕ) → Disjoint f g → get_field f (set_field g v csr) ≡ get_field f csr
set_field_other f g v csr (inl le) = set_field-above f g v csr le
set_field_other f g v csr (inr le) = set_field-below f g v csr le

-- Cutting a register to its low bits leaves the bit-fields below.
pub get_field_low :
    (f : Field) (n csr : ℕ) → f.low + f.width ≤ n → get_field f (csr % 2 ^ n) ≡ get_field f csr
unfolding get_field
get_field_low f n csr le =
    ap (λ (t : ℕ). t / 2 ^ f.low % 2 ^ f.width)
      (let e : csr % 2 ^ n ≡ 0 * 2 ^ n + csr % 2 ^ n = omega arith in e)
    ∙ above 0 csr (2 ^ f.low) (2 ^ f.width) (2 ^ (n - (f.low + f.width))) (2 ^ n) (pow_pos f.low)
        (pow_pos f.width) (pow_between f.low f.width n le)
