-- ===== src/Dma/Pin/Refs.antt =====
-- Page references: what the loop of `put_all_pages` gives back.
use mathlib.Core.Path.{fun_ext}
use opae_intel_fpga_driver.Base.{
  ℕ, zero, suc, ◌+◌, ◌-◌, ◌^◌, ◌≤◌, ◌<◌, ◌≡◌, refl, ◌∙◌, List, [], ◌∷◌, ◌++◌, map, arith, none,
  some, Option, if◌then◌else◌, ◌==◌, length, replicate, int_rounds,
}
use opae_intel_fpga_driver.Dma.Kernel.{World, get_pages, put_page}
use opae_intel_fpga_driver.Dma.Pin.{put_pages, put_all_pages, filled}

-- Two states of the accounts with equal parts are equal.
pub World-ext :
    (v w : World)
    → v.locked_vm ≡ w.locked_vm
    → ((q : ℕ) → v.page_refs q ≡ w.page_refs q)
    → v.mappings ≡ w.mappings
    → v ≡ w
World-ext v w l r m = λ i. record { locked_vm = l i; page_refs = fun_ext r i; mappings = m i }

unfoldable pub count : ℕ → List ℕ → ℕ
count q [] = 0
count q (p ∷ ps) = if q == p then suc (count q ps) else count q ps

pub page_refs-get_pages :
    (ps : List ℕ) (w : World) (q : ℕ) → (get_pages ps w).page_refs q ≡ w.page_refs q + count q ps
unfolding get_pages count
page_refs-get_pages [] w q = omega arith
page_refs-get_pages (p ∷ ps) w q = ground (
  arith,
  page_refs-get_pages ps
      (record w { page_refs = λ q. if q == p then w.page_refs q + 1 else w.page_refs q }) q,
)

pub get_pages_frame :
    (ps : List ℕ) (w : World)
    → ((get_pages ps w).locked_vm ≡ w.locked_vm) × ((get_pages ps w).mappings ≡ w.mappings)
unfolding get_pages
get_pages_frame [] w = (refl, refl)
get_pages_frame (p ∷ ps) w = get_pages_frame ps _

put_pages-none : (k n : ℕ) (w : World) → put_pages (replicate k none) n w ≡ w
unfolding put_pages
put_pages-none zero zero w = refl
put_pages-none zero (suc n) w = refl
put_pages-none (suc k) zero w = refl
put_pages-none (suc k) (suc n) w = put_pages-none k n w

page_refs-put_pages :
    (ps : List ℕ) (k n : ℕ) (w : World) (q : ℕ)
    → n ≡ length ps + k
    → (put_pages (map some ps ++ replicate k none) n w).page_refs q ≡ w.page_refs q - count q ps
unfolding put_pages put_page count
page_refs-put_pages [] k n w q e = rw put_pages-none (omega arith)
page_refs-put_pages (p ∷ ps) k zero w q e = absurd (omega arith)
page_refs-put_pages (p ∷ ps) k (suc n) w q e =
    ground (arith, page_refs-put_pages ps k n (put_page p w) q (omega arith))

put_pages_frame :
    (ps : List (Option ℕ)) (n : ℕ) (w : World)
    → ((put_pages ps n w).locked_vm ≡ w.locked_vm) × ((put_pages ps n w).mappings ≡ w.mappings)
unfolding put_pages put_page
put_pages_frame ps zero w = (refl, refl)
put_pages_frame [] (suc n) w = (refl, refl)
put_pages_frame (none ∷ ps) (suc n) w = put_pages_frame ps n w
put_pages_frame (some p ∷ ps) (suc n) w = put_pages_frame ps n (put_page p w)

-- The loop of `put_all_pages` over a filled array drops one reference for each page in it.
pub page_refs-put_all_pages :
    (ps : List ℕ) (npages : ℕ) (w : World) (q : ℕ)
    → length ps ≤ npages
    → npages < 2 ^ 31
    → (put_all_pages (filled ps npages) npages w).page_refs q ≡ w.page_refs q - count q ps
unfolding put_all_pages
page_refs-put_all_pages ps npages w q h small =
    let rounds : int_rounds npages ≡ npages = ground arith in
    rw rounds (page_refs-put_pages ps (npages - length ps) npages w q (omega arith))

pub put_all_pages_frame :
    (pages : List (Option ℕ)) (npages : ℕ) (w : World)
    → let w' = put_all_pages pages npages w in
      (w'.locked_vm ≡ w.locked_vm) × (w'.mappings ≡ w.mappings)
unfolding put_all_pages
put_all_pages_frame pages npages w = put_pages_frame pages (int_rounds npages) w

-- Putting a filled array gives back exactly the references that filling it took.
pub put_all_pages-get_pages :
    (ps : List ℕ) (npages : ℕ) (w : World)
    → length ps ≤ npages
    → npages < 2 ^ 31
    → put_all_pages (filled ps npages) npages (get_pages ps w) ≡ w
unfolding put_all_pages
put_all_pages-get_pages ps npages w h small =
    let rounds : int_rounds npages ≡ npages = ground arith in
    let frame = put_pages_frame (filled ps npages) npages (get_pages ps w) in
    let kept = get_pages_frame ps w in
    rw rounds (
      World-ext _ w (frame.0 ∙ kept.0)
        (λ q. omega (
          arith,
          page_refs-put_pages ps (npages - length ps) npages (get_pages ps w) q (omega arith),
          page_refs-get_pages ps w q,
        ))
        (frame.1 ∙ kept.1))
