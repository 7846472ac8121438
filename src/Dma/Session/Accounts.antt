-- ===== src/Dma/Session/Accounts.antt =====
-- The accounts that the regions of a list stand for, and how releasing regions settles them.
use mathlib.Core.Path.{subst}
use opae_intel_fpga_driver.Base.{
  ℕ, zero, suc, ◌+◌, ◌-◌, ◌^◌, ◌<◌, ◌≡◌, refl, ◌∙◌, ap, sym, arith, none, some, Option, List, [],
  ◌∷◌, length, replicate, All, if◌then◌else◌, ◌==◌, true, false, Bool, map, ◌++◌,
}
use opae_intel_fpga_driver.AfuData.{DmaRegion}
use opae_intel_fpga_driver.Dma.Kernel.{World, Env, RbLib, dma_unmap_page}
use opae_intel_fpga_driver.Dma.Pin.{put_all_pages, afu_dma_unpin_pages, npages_of, filled}
use opae_intel_fpga_driver.Dma.Pin.Refs.{count, page_refs-put_all_pages, put_all_pages_frame}
use opae_intel_fpga_driver.Dma.Pin.Account.{raised, adjust-lower}
use opae_intel_fpga_driver.Dma.Store.Order.{insert_by_iova}
use opae_intel_fpga_driver.Dma.Map.{release_region, release_pages}
use opae_intel_fpga_driver.Dma.Map.Destroy.{release_all}

-- The pages of a region as `kcalloc` and `get_user_pages_fast` left them.
abbrev pub page_numbers : List (Option ℕ) → List ℕ
page_numbers [] = []
page_numbers (none ∷ ps) = page_numbers ps
page_numbers (some p ∷ ps) = p ∷ page_numbers ps

abbrev pub pins_of : ℕ → Option (List (Option ℕ)) → ℕ
pins_of q none = 0
pins_of q (some ps) = count q (page_numbers ps)

abbrev pub pins : ℕ → DmaRegion → ℕ
pins q r = pins_of q r.pages

abbrev pub IsPinned : DmaRegion → Type 0
IsPinned r =
    (ps : List ℕ) × (r.pages ≡ some (filled ps (npages_of r)))
    × (length ps ≡ npages_of r)
    × (npages_of r < 2 ^ 31)

abbrev pub pin_total : ℕ → List DmaRegion → ℕ
pin_total q [] = 0
pin_total q (r ∷ rs) = pins q r + pin_total q rs

abbrev pub charge_total : List DmaRegion → ℕ
charge_total [] = 0
charge_total (r ∷ rs) = npages_of r + charge_total rs

-- Since the accounts `v`, the regions of the list took the references and the charge in `w`.
pub record Accounts (v : World) (rs : List DmaRegion) (w : World) : Type 0 where
  pub pinned : All IsPinned rs
  pub refs : (q : ℕ) → w.page_refs q ≡ v.page_refs q + pin_total q rs
  pub locked : w.locked_vm ≡ raised v.locked_vm (charge_total rs)

pub Accounts-nil : (v : World) → Accounts v [] v
Accounts-nil v = record { pinned = tt; refs = λ q. omega arith; locked = raised-zero v.locked_vm }
  where
    raised-zero : (o : Option ℕ) → o ≡ raised o 0
    raised-zero none = refl
    raised-zero (some n) = ap some (omega arith)

page_numbers-replicate : (k : ℕ) → page_numbers (replicate k none) ≡ []
page_numbers-replicate zero = refl
page_numbers-replicate (suc k) = page_numbers-replicate k

pub page_numbers-filled :
    (k : ℕ) (ps : List ℕ) → page_numbers (map some ps ++ replicate k none) ≡ ps
page_numbers-filled k [] = page_numbers-replicate k
page_numbers-filled k (p ∷ ps) = ap (◌∷◌ p) (page_numbers-filled k ps)

pub raised-raised : (o : Option ℕ) (a b : ℕ) → raised o (a + b) ≡ raised (raised o b) a
raised-raised none a b = refl
raised-raised (some n) a b = ap some (omega arith)

-- Unpinning a pinned region takes its references and its charge off.
pub unpin-Accounts :
    (env : Env) (v : World) (r : DmaRegion) (rs : List DmaRegion) (w : World)
    → Accounts v (r ∷ rs) w
    → Accounts v rs (afu_dma_unpin_pages env r w)
unfolding afu_dma_unpin_pages
unpin-Accounts env v r rs w a =
    let (ps, e, l, small) = a.pinned.0 in
    let n = npages_of r in
    let array = filled ps n in
    let frame = put_all_pages_frame array n w in
    let charge = raised v.locked_vm (charge_total rs) in
    let lowered =
      adjust-lower env (put_all_pages array n w) charge n
        (frame.0 ∙ a.locked ∙ raised-raised v.locked_vm n (charge_total rs)) in
    rw (e, afu_dma_unpin_pages)
      (subst (Accounts v rs) (sym lowered) (record {
        pinned = a.pinned.1;
        refs = λ q. omega (
          arith,
          page_refs-put_all_pages ps n w q (omega arith) small,
          a.refs q,
          ap (pins_of q) e,
          ap (count q) (page_numbers-filled (n - length ps) ps),
        );
        locked = refl;
      }))

-- Dropping a mapping leaves the other accounts.
pub unmap-Accounts :
    (v : World) (rs : List DmaRegion) (iova size : ℕ) (w : World)
    → Accounts v rs w
    → Accounts v rs (dma_unmap_page iova size w)
unfolding dma_unmap_page
unmap-Accounts v rs iova size w a = record { pinned = a.pinned; refs = a.refs; locked = a.locked }

pub release_region-Accounts :
    (lib : RbLib) (env : Env) (v : World) (r : DmaRegion) (rs : List DmaRegion) (w : World)
    → Accounts v (r ∷ rs) w
    → Accounts v rs (release_region lib env r w)
unfolding release_region
release_region-Accounts lib env v r rs w a =
    let (ps, e, l, small) = a.pinned.0 in
    let dropped = unmap-Accounts v (r ∷ rs) r.iova r.length w a in
    let unmapped = λ (b : Bool). if b then w else dma_unmap_page r.iova r.length w in
    subst (λ pages. Accounts v rs (release_pages lib env r pages (unmapped (r.iova == 0)))) (sym e)
      (elim (r.iova == 0) as (λ b. Accounts v rs (afu_dma_unpin_pages env r (unmapped b))) [
        | true ↦ unpin-Accounts env v r rs w a
        | false ↦ unpin-Accounts env v r rs _ dropped
      ])

-- Releasing all regions of the list settles the accounts.
pub release_all-Accounts :
    (lib : RbLib) (env : Env) (v : World) (rs : List DmaRegion) (w : World)
    → Accounts v rs w
    → Accounts v [] (release_all lib env rs w)
release_all-Accounts lib env v [] w a = a
release_all-Accounts lib env v (r ∷ rs) w a =
    release_all-Accounts lib env v rs _ (release_region-Accounts lib env v r rs w a)

-- A region moved to its place in the order, or to the front, stands for the same accounts.
pub pin_total-insert_by_iova :
    (q : ℕ) (r : DmaRegion) (rs : List DmaRegion)
    → pin_total q (insert_by_iova r rs) ≡ pins q r + pin_total q rs
pin_total-insert_by_iova q r [] = refl
pin_total-insert_by_iova q r (x ∷ rs) = ground (arith, pin_total-insert_by_iova q r rs)

pub charge_total-insert_by_iova :
    (r : DmaRegion) (rs : List DmaRegion)
    → charge_total (insert_by_iova r rs) ≡ npages_of r + charge_total rs
charge_total-insert_by_iova r [] = refl
charge_total-insert_by_iova r (x ∷ rs) = ground (arith, charge_total-insert_by_iova r rs)
