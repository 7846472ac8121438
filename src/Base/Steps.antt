-- ===== src/Base/Steps.antt =====
-- Code that goes on while the status is 0.
use Prim.Native.Nat.{ℕ}
use mathlib.Core.Path.{◌≡◌, refl}
use mathlib.Core.Logic.{◌≢◌}
use mathlib.Core.Bool.{Bool, true, false}
use opae_intel_fpga_driver.Base.Errno.{Status, ok, err}

-- `if (stop) return a; …`: the rest is computed only when it is reached.
abbrev pub unless {ℓ} : {A : Type ℓ} → Bool → A → (Unit {0} → A) → A
unless true a rest = a
unless false a rest = rest tt

pub err-ne-ok : (e : ℕ) → err e ≢ ok
err-ne-ok e h = cc

module _ {S : Type 0} where
  -- `ret = …; if (ret) return ret; …`
  abbrev pub and_then : Status × S → (S → Status × S) → Status × S
  and_then (ok, s) k = k s
  and_then (err e, s) k = (err e, s)

  -- What each part keeps, the whole keeps.
  pub and_then-keeps :
      (P : S → Type 0) (r : Status × S) (k : S → Status × S)
      → P r.1
      → ((s : S) → P s → P (k s).1)
      → P (and_then r k).1
  and_then-keeps P (ok, s) k p keep = keep s p
  and_then-keeps P (err e, s) k p keep = p

  pub and_then-and_then :
      (r : Status × S) (k p q : S → Status × S)
      → ((s : S) → k s ≡ and_then (p s) q)
      → and_then r k ≡ and_then (and_then r p) q
  and_then-and_then (ok, s) k p q h = h s
  and_then-and_then (err e, s) k p q h = refl

  -- `P` after every return, and `Q` after one of 0.
  abbrev pub Ensures : (S → Type 0) → (S → Type 0) → Status × S → Type 0
  Ensures P Q r = P r.1 × (r.0 ≡ ok → Q r.1)

  pub and_then-Ensures :
      (P Q R : S → Type 0) (r : Status × S) (k : S → Status × S)
      → Ensures P Q r
      → ((s : S) → Q s → Ensures P R (k s))
      → Ensures P R (and_then r k)
  and_then-Ensures P Q R (ok, s) k (p, q) more = more s (q refl)
  and_then-Ensures P Q R (err e, s) k (p, q) more = (p, λ h. absurd (err-ne-ok e h))
