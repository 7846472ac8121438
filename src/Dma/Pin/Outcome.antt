-- ===== src/Dma/Pin/Outcome.antt =====
-- How `afu_dma_pin_pages` ends, and what `afu_dma_unpin_pages` undoes.
use opae_intel_fpga_driver.Base.{
  ℕ, ◌^◌, ◌<◌, ◌≡◌, ◌≢◌, refl, ◌∙◌, sym, ◌⊎◌, inl, inr, arith, some, Option, true, false, Bool,
  Status, ok, err, enomem, efault, Bool-cases, if◌then◌else◌, ◌==◌, ==_iff, length, List, [], ◌∷◌,
}
use opae_intel_fpga_driver.AfuData.{DmaRegion}
use opae_intel_fpga_driver.Dma.Kernel.{World, Env, Pinned, pin_error, pinned, get_pages}
use opae_intel_fpga_driver.Dma.Pin.{
  afu_dma_adjust_locked_vm, afu_dma_pin_pages, afu_dma_unpin_pages, pin_into_array, pin_charged,
  put_all_pages, put_pages, npages_of, filled,
}
use opae_intel_fpga_driver.Dma.Pin.Refs.{
  put_all_pages-get_pages, get_pages_frame, page_refs-get_pages, World-ext,
}
use opae_intel_fpga_driver.Dma.Pin.Account.{Room, raised, adjust-raise, adjust-lower}

abbrev pub charge : World → ℕ → World
charge w npages = record w { locked_vm = raised w.locked_vm npages }

-- All pages are pinned, recorded in the array and charged.
abbrev pub Held : Env → DmaRegion → World → List ℕ → Status × DmaRegion × World → Type 0
Held env region w ps result =
    (env.kcalloc (npages_of region) ≡ true)
    × (env.get_user_pages_fast region.user_addr (npages_of region) ≡ pinned ps)
    × (length ps ≡ npages_of region)
    × (result ≡ (
      ok,
      record region { pages = some (filled ps (npages_of region)) },
      get_pages ps (charge w (npages_of region)),
    ))

-- Only some pages could be pinned: the call fails, and they stay pinned.
abbrev pub Leaked : Env → DmaRegion → World → List ℕ → Status × DmaRegion × World → Type 0
Leaked env region w ps result =
    (env.get_user_pages_fast region.user_addr (npages_of region) ≡ pinned ps)
    × (length ps ≢ npages_of region)
    × (result.0 ≡ err efault)
    × (result.2 ≡ get_pages ps w)

abbrev pub Ends : Env → DmaRegion → World → Status × DmaRegion × World → Type 0
Ends env region w result =
    ((ps : List ℕ) × Held env region w ps result)
    ⊎ (((e : ℕ) × (result.0 ≡ err e) × (result.2 ≡ w))
        ⊎ ((ps : List ℕ) × Leaked env region w ps result))

get_pages-charge :
    (ps : List ℕ) (w : World) (npages : ℕ)
    → record (get_pages ps (charge w npages)) { locked_vm = w.locked_vm } ≡ get_pages ps w
get_pages-charge ps w npages =
    World-ext _ _ (sym (get_pages_frame ps w).0)
      (λ q. omega (arith, page_refs-get_pages ps w q, page_refs-get_pages ps (charge w npages) q))
      ((get_pages_frame ps (charge w npages)).1 ∙ sym (get_pages_frame ps w).1)

lower-charge :
    (env : Env) (w : World) (npages : ℕ)
    → (afu_dma_adjust_locked_vm env (charge w npages) npages false).1 ≡ w
lower-charge env w npages = adjust-lower env (charge w npages) w.locked_vm npages refl

put_all_pages-zero : (pages : List (Option ℕ)) (w : World) → put_all_pages pages 0 w ≡ w
unfolding put_all_pages put_pages
put_all_pages-zero [] w = refl
put_all_pages-zero (p ∷ ps) w = refl

pin_into_array-Ends :
    (env : Env) (region : DmaRegion) (w : World) (answer : Pinned)
    → env.kcalloc (npages_of region) ≡ true
    → env.get_user_pages_fast region.user_addr (npages_of region) ≡ answer
    → Ends env region w (pin_into_array env region (charge w (npages_of region)) (npages_of region))
unfolding pin_into_array
pin_into_array-Ends env region w (pin_error e) gets q =
    rw (q, pin_into_array)
      (inr (inl (e, refl, rw put_all_pages-zero (lower-charge env w (npages_of region)))))
pin_into_array-Ends env region w (pinned ps) gets q =
    elim (Bool-cases (length ps == npages_of region)) [
      | inl all ↦ rw (q, pin_into_array, all) (inl (ps, (gets, refl, (==_iff _ _).0 all, refl)))
      | inr short ↦
          let lowered =
            adjust-lower env (get_pages ps (charge w (npages_of region))) w.locked_vm
              (npages_of region) (get_pages_frame ps (charge w (npages_of region))).0 in
          rw (q, pin_into_array, short)
            (inr (
              inr (
                ps,
                (refl, ground arith, refl, lowered ∙ get_pages-charge ps w (npages_of region)),
              )))
    ]

kcalloc-Ends :
    (env : Env) (region : DmaRegion) (w : World) (allocated : Bool)
    → env.kcalloc (npages_of region) ≡ allocated
    → let npages = npages_of region in
      Ends env region w (
        if allocated
        then pin_into_array env region (charge w npages) npages
        else (err enomem, region, (afu_dma_adjust_locked_vm env (charge w npages) npages false).1))
kcalloc-Ends env region w true gets = pin_into_array-Ends env region w _ gets refl
kcalloc-Ends env region w false fails =
    inr (inl (enomem, refl, lower-charge env w (npages_of region)))

-- When the account of locked memory, if there is one, can be raised by the pages of the region
-- without reaching 2 ^ 64, pinning ends in one of three ways: every page of the region is pinned,
-- recorded and charged; or the call fails and the accounts are as they were; or the number of pages
-- that were pinned is not the number asked for, and the call fails with -EFAULT, lowers the account
-- again and keeps the references to those pages.
pub afu_dma_pin_pages-Ends :
    (env : Env) (region : DmaRegion) (w : World)
    → Room w.locked_vm (npages_of region)
    → Ends env region w (afu_dma_pin_pages env region w)
unfolding afu_dma_pin_pages pin_charged
afu_dma_pin_pages-Ends env region w room = elim (adjust-raise env w (npages_of region) room) [
  | inr e ↦ rw e (inr (inl (enomem, refl, refl)))
  | inl e ↦ rw e (kcalloc-Ends env region w _ refl)
]

-- Unpinning a region whose pages are held gives back the references and the charge.
pub afu_dma_unpin_pages_lem :
    (env : Env) (region : DmaRegion) (w : World) (ps : List ℕ)
    → region.pages ≡ some (filled ps (npages_of region))
    → length ps ≡ npages_of region
    → npages_of region < 2 ^ 31
    → afu_dma_unpin_pages env region (get_pages ps (charge w (npages_of region))) ≡ w
unfolding afu_dma_unpin_pages
afu_dma_unpin_pages_lem env region w ps e l small =
    rw (e, afu_dma_unpin_pages)
      (rw
        (put_all_pages-get_pages ps (npages_of region) (charge w (npages_of region)) (omega arith)
          small)
        (lower-charge env w (npages_of region)))
