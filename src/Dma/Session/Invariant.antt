-- ===== src/Dma/Session/Invariant.antt =====
-- The invariant of a history of DMA regions, step by step.
use mathlib.Core.Path.{subst}
use opae_intel_fpga_driver.Base.{
  ℕ, ◌+◌, ◌-◌, ◌^◌, ◌<◌, ◌≡◌, refl, ◌∙◌, ap, sym, arith, some, List, [], ◌∷◌, length, All-In, Bool,
  In, inl, inr, map, Option-cases,
}
use opae_intel_fpga_driver.AfuData.{DmaRegion, inorder}
use opae_intel_fpga_driver.Dma.Kernel.{World, Env, RbLib, without, get_pages, add_mapping}
use opae_intel_fpga_driver.Dma.Pin.{npages_of, filled}
use opae_intel_fpga_driver.Dma.Pin.Refs.{page_refs-get_pages, get_pages_frame, count}
use opae_intel_fpga_driver.Dma.Pin.Account.{raised}
use opae_intel_fpga_driver.Dma.Pin.Outcome.{charge}
use opae_intel_fpga_driver.Dma.Store.{mark_in_use, afu_dma_region_find_iova}
use opae_intel_fpga_driver.Dma.Store.Order.{
  mark_one, inorder-mark_in_use, All-mark_one, Ascending-mark_one, Ascending, insert_by_iova,
  insert_by_iova-Ascending, All-insert_by_iova, without-Ascending, All-without,
}
use opae_intel_fpga_driver.Dma.Store.Find.{InSpace, Fits, afu_dma_region_find_iova_iff}
use opae_intel_fpga_driver.Dma.Map.{Dma, Mapped, afu_dma_map_region, afu_dma_unmap_region}
use opae_intel_fpga_driver.Dma.Map.Outcome.{Maps, mapped_region, afu_dma_map_region-MapEnds}
use opae_intel_fpga_driver.Dma.Map.Unmap.{afu_dma_unmap_region-present}
use opae_intel_fpga_driver.Dma.Session.{IsServed}
use opae_intel_fpga_driver.Dma.Session.Accounts.{
  Accounts, IsPinned, pins, pins_of, pin_total, charge_total, page_numbers-filled, unpin-Accounts,
  unmap-Accounts, pin_total-insert_by_iova, charge_total-insert_by_iova, raised-raised,
}

-- The tree is ordered and within the address space, and its regions stand for all that was taken
-- since the accounts `v`.
pub record IsSound (v : World) (d : Dma) : Type 0 where
  pub ordered : Ascending (inorder d.regions)
  pub fits : InSpace (inorder d.regions)
  pub accounts : Accounts v (inorder d.regions) d.world

insert-Accounts :
    (v : World) (rs : List DmaRegion) (w w' : World) (r : DmaRegion) (ps : List ℕ)
    → Accounts v rs w
    → r.pages ≡ some (filled ps (npages_of r))
    → length ps ≡ npages_of r
    → npages_of r < 2 ^ 31
    → ((q : ℕ) → w'.page_refs q ≡ w.page_refs q + count q ps)
    → w'.locked_vm ≡ raised w.locked_vm (npages_of r)
    → Accounts v (insert_by_iova r rs) w'
insert-Accounts v rs w w' r ps a e l small refs locked = record {
  pinned = All-insert_by_iova IsPinned r rs (ps, e, l, small) a.pinned;
  refs = λ q. omega (
    arith,
    refs q,
    a.refs q,
    pin_total-insert_by_iova q r rs,
    ap (pins_of q) e,
    ap (count q) (page_numbers-filled (npages_of r - length ps) ps),
  );
  locked =
      locked
      ∙ ap (λ o. raised o (npages_of r)) a.locked
      ∙ sym (raised-raised v.locked_vm (npages_of r) (charge_total rs))
      ∙ ap (raised v.locked_vm) (sym (charge_total-insert_by_iova r rs));
}

Maps-IsSound :
    (env : Env) (v : World) (d : Dma) (user_addr len : ℕ) (ps : List ℕ) (m : Mapped)
    → IsSound v d
    → Maps env d user_addr len ps m
    → m.out_iova + len < 2 ^ 64
    → IsSound v m.state
unfolding add_mapping
Maps-IsSound env v d user_addr len ps m s (asked, all, small, fine, order, fresh, world) room =
    let r = mapped_region user_addr len m.out_iova ps in
    let xs = inorder d.regions in
    let n = npages_of r in
    let held = get_pages ps (charge d.world n) in
    record {
      ordered = rw order (insert_by_iova-Ascending r xs s.ordered fresh);
      fits = rw order (All-insert_by_iova Fits r xs room s.fits);
      accounts =
          rw (order, world)
            (insert-Accounts v xs d.world (add_mapping m.out_iova len held) r ps s.accounts refl all
              small (page_refs-get_pages ps (charge d.world n))
              (get_pages_frame ps (charge d.world n)).0);
    }

-- A region of an ordered list, taken out, stands beside the rest for the same accounts.
without-totals :
    (r : DmaRegion) (rs : List DmaRegion)
    → Ascending rs
    → In r rs
    → ((q : ℕ) → pin_total q rs ≡ pins q r + pin_total q (without r.iova rs))
      × (charge_total rs ≡ npages_of r + charge_total (without r.iova rs))
without-totals r [] a m = absurd m
without-totals r (x ∷ rs) a (inl e) = (
  (λ q. ground (arith, ap (pins q) e, ap (λ (s : DmaRegion). s.iova) e)),
  ground (arith, ap npages_of e, ap (λ (s : DmaRegion). s.iova) e),
)
without-totals r (x ∷ rs) a (inr m) =
    let later = All-In (λ (s : DmaRegion). x.iova < s.iova) rs r a.0 m in
    let rest = without-totals r rs a.1 m in
    ((λ q. ground (arith, later, rest.0 q)), ground (arith, later, rest.1))

without-Accounts :
    (v : World) (r : DmaRegion) (rs : List DmaRegion) (w : World)
    → Ascending rs
    → In r rs
    → Accounts v rs w
    → Accounts v (r ∷ without r.iova rs) w
without-Accounts v r rs w order m a =
    let totals = without-totals r rs order m in
    record {
      pinned = (All-In IsPinned rs r a.pinned m, All-without IsPinned r.iova rs a.pinned);
      refs = λ q. omega (arith, a.refs q, totals.0 q);
      locked = a.locked ∙ ap (raised v.locked_vm) totals.1;
    }

module _ (lib : RbLib) (env : Env) (v : World) (d : Dma) (s : IsSound v d) where
  pub map-IsSound :
      (user_addr len iova : ℕ)
      → IsServed lib env d user_addr len iova
      → IsSound v (afu_dma_map_region lib env d user_addr len iova).state
  map-IsSound user_addr len iova fine =
      elim (afu_dma_map_region-MapEnds lib env d user_addr len iova fine.small s.ordered
        fine.room) [
          | inl (ps, m) ↦ Maps-IsSound env v d user_addr len ps _ s m fine.in_space
          | inr (inl (e, fails, same)) ↦ subst (IsSound v) (sym same) s
          | inr (inr (ps, asked, short, fails, kept)) ↦ absurd (short (fine.pins_all ps asked))
        ]

  pub unmap-IsSound : (iova : ℕ) → iova < 2 ^ 64 → IsSound v (afu_dma_unmap_region lib env d iova).1
  unfolding afu_dma_unmap_region
  unmap-IsSound iova below = elim (Option-cases (afu_dma_region_find_iova d.regions iova)) [
    | inl e ↦ rw (e, afu_dma_unmap_region) s
    | inr (r, e) ↦
        let hit = (afu_dma_region_find_iova_iff d.regions iova r s.ordered s.fits below).0 e in
        elim (afu_dma_unmap_region-present lib env d iova s.ordered s.fits below r hit.0 hit.1) [
          | inl (busy, fails, same) ↦ subst (IsSound v) (sym same) s
          | inr (free, fine, left, world) ↦
              let left' = left ∙ ap (λ k. without k (inorder d.regions)) (sym hit.1) in
              let apart =
                without-Accounts v r (inorder d.regions) d.world s.ordered hit.0 s.accounts in
              let rest = without r.iova (inorder d.regions) in
              record {
                ordered =
                    subst Ascending (sym left')
                      (without-Ascending r.iova (inorder d.regions) s.ordered);
                fits =
                    subst InSpace (sym left') (All-without Fits r.iova (inorder d.regions) s.fits);
                accounts =
                    subst (λ x. Accounts v x (afu_dma_unmap_region lib env d iova).1.world)
                      (sym left')
                      (subst (Accounts v rest) (sym world) (
                        unpin-Accounts env v r rest _
                          (unmap-Accounts v (r ∷ rest) iova r.length d.world apart)));
              }
        ]
  ]

mark-totals :
    (k : ℕ) (mark : Bool) (rs : List DmaRegion)
    → ((q : ℕ) → pin_total q (map (mark_one k mark) rs) ≡ pin_total q rs)
      × (charge_total (map (mark_one k mark) rs) ≡ charge_total rs)
mark-totals k mark [] = ((λ q. refl), refl)
mark-totals k mark (r ∷ rs) =
    let rest = mark-totals k mark rs in ((λ q. ground (arith, rest.0 q)), ground (arith, rest.1))

pub mark-IsSound :
    (v : World) (d : Dma) (k : ℕ) (mark : Bool)
    → IsSound v d
    → IsSound v (record d { regions = mark_in_use k mark d.regions })
mark-IsSound v d k mark s =
    let same = inorder-mark_in_use k mark d.regions in
    let rs = inorder d.regions in
    let totals = mark-totals k mark rs in
    record {
      ordered = rw same (Ascending-mark_one k mark rs s.ordered);
      fits = rw same (All-mark_one Fits k mark rs (λ r h. h) s.fits);
      accounts = rw same (record {
        pinned = All-mark_one IsPinned k mark rs (λ r h. h) s.accounts.pinned;
        refs = λ q. omega (arith, s.accounts.refs q, totals.0 q);
        locked = s.accounts.locked ∙ ap (raised v.locked_vm) (sym totals.1);
      });
    }
