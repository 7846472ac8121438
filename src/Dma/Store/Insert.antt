-- ===== src/Dma/Store/Insert.antt =====
-- `afu_dma_region_add` puts the region where the order of addresses wants it, or refuses it.
use opae_intel_fpga_driver.Base.{
  ◌<◌, ◌≡◌, ◌≢◌, refl, List, ◌∷◌, arith, All, In, inl, inr, ◌⊎◌, All-append, Bool-cases, true,
  false, none, some, ok, err, eexist, sym, ◌∙◌, All-imp, trichotomy, In-append_left,
  In-append_right, ◌≤◌, ◌+◌, ◌^◌, All-In, Option-cases,
}
use opae_intel_fpga_driver.AfuData.{DmaRegion, Tree, leaf, node, inorder}
use opae_intel_fpga_driver.Dma.Kernel.{RbLib}
use opae_intel_fpga_driver.Dma.Store.{
  link, dma_region_check_iova, afu_dma_region_add, afu_dma_region_find,
}
use opae_intel_fpga_driver.Dma.Store.Order.{
  Ascending, Ascending-split, insert_by_iova, insert_by_iova-left, insert_by_iova-right,
  insert_by_iova-Ascending,
}
use opae_intel_fpga_driver.Dma.Store.Find.{
  Fits, InSpace, Separated, dma_region_check_iova_iff, find_complete,
}

abbrev pub Fresh : DmaRegion → List DmaRegion → Type 0
Fresh r = All (λ (s : DmaRegion). s.iova ≢ r.iova)

-- A region of the list at which `link` stops.
abbrev pub Stops : DmaRegion → List DmaRegion → Type 0
Stops r xs =
    (s : DmaRegion) × In s xs
    × ((s.iova ≡ r.iova) ⊎ (dma_region_check_iova s r.iova r.length ≡ true))

-- What `link` did: the tree with the region at its place, or a region that stands in the way.
abbrev Linked : Tree → DmaRegion → Type 0
Linked t r =
    ((t' : Tree) × (link t r ≡ some t')
      × (inorder t' ≡ insert_by_iova r (inorder t))
      × Fresh r (inorder t))
    ⊎ ((link t r ≡ none) × Stops r (inorder t))

link-left :
    (left : Tree) (this : DmaRegion) (right : Tree) (r : DmaRegion)
    → Ascending (inorder (node left this right))
    → r.iova < this.iova
    → dma_region_check_iova this r.iova r.length ≡ false
    → Linked left r
    → Linked (node left this right) r
unfolding link
link-left left this right r a lt unhit (inl (t', e, order, fresh)) =
    let parts = Ascending-split (inorder left) this (inorder right) a in
    inl (
      node t' this right,
      ground (arith, e, unhit),
      rw order (sym (insert_by_iova-left r this (inorder left) (inorder right) lt)),
      All-append (λ (s : DmaRegion). s.iova ≢ r.iova) (inorder left) (this ∷ inorder right) fresh
          (omega arith, All-imp _ _ (λ s h. omega arith) (inorder right) parts.2),
    )
link-left left this right r a lt unhit (inr (e, (s, m, why))) =
    inr
      (ground (arith, e, unhit), (s, In-append_left s (inorder left) (this ∷ inorder right) m, why))

link-right :
    (left : Tree) (this : DmaRegion) (right : Tree) (r : DmaRegion)
    → Ascending (inorder (node left this right))
    → this.iova < r.iova
    → dma_region_check_iova this r.iova r.length ≡ false
    → Linked right r
    → Linked (node left this right) r
unfolding link
link-right left this right r a lt unhit (inl (t', e, order, fresh)) =
    let parts = Ascending-split (inorder left) this (inorder right) a in
    inl (
      node left this t',
      ground (arith, e, unhit),
      rw order (sym (insert_by_iova-right r this (inorder left) (inorder right) lt parts.1)),
      All-append (λ (s : DmaRegion). s.iova ≢ r.iova) (inorder left) (this ∷ inorder right)
          (All-imp _ _ (λ s h. omega arith) (inorder left) parts.1) (omega arith, fresh),
    )
link-right left this right r a lt unhit (inr (e, (s, m, why))) = inr (
  ground (arith, e, unhit),
  (s, In-append_right s (inorder left) (this ∷ inorder right) (inr m), why),
)

link-Linked : (t : Tree) (r : DmaRegion) → Ascending (inorder t) → Linked t r
unfolding link
link-Linked leaf r a = inl (node leaf r leaf, refl, refl, tt)
link-Linked (node left this right) r a =
    let parts = Ascending-split (inorder left) this (inorder right) a in
    let here = In-append_right this (inorder left) (this ∷ inorder right) (inl refl) in
    elim (Bool-cases (dma_region_check_iova this r.iova r.length)) [
      | inl hit ↦ inr (ground (arith, hit), (this, here, inr hit))
      | inr unhit ↦ elim (trichotomy r.iova this.iova) [
        | inl lt ↦ link-left left this right r a lt unhit (link-Linked left r parts.0)
        | inr (inl gt) ↦ link-right left this right r a gt unhit (link-Linked right r parts.3)
        | inr (inr e) ↦ inr (ground (arith, e, unhit), (this, here, inl (sym e)))
      ]
    ]

-- How an insertion into an ordered tree ends, for the call that adds a mapping.
pub afu_dma_region_add_cases :
    (lib : RbLib) (t : Tree) (r : DmaRegion)
    → Ascending (inorder t)
    → let (status, t') = afu_dma_region_add lib t r in
      ((status ≡ ok)
        × (inorder t' ≡ insert_by_iova r (inorder t))
        × Ascending (inorder t')
        × Fresh r (inorder t))
      ⊎ ((status ≡ err eexist) × (t' ≡ t) × Stops r (inorder t))
unfolding afu_dma_region_add
afu_dma_region_add_cases lib t r a = elim (link-Linked t r a) [
  | inl (t', e, order, fresh) ↦
      let order' = lib.inorder-rb_insert_color r t' ∙ order in
      rw (e, afu_dma_region_add)
        (inl (refl, order', rw order' (insert_by_iova-Ascending r (inorder t) a fresh), fresh))
  | inr (e, b) ↦ rw (e, afu_dma_region_add) (inr (refl, refl, b))
]

-- A region of the list that has the same address or contains the whole of `r`.
abbrev pub Blocks : DmaRegion → List DmaRegion → Type 0
Blocks r xs =
    (s : DmaRegion) × In s xs
    × ((s.iova ≡ r.iova) ⊎ ((s.iova ≤ r.iova) × (r.iova + r.length ≤ s.iova + s.length)))

-- Where `link` succeeds, a lookup of the same range would have found nothing.
link-find :
    (t t' : Tree) (r : DmaRegion)
    → link t r ≡ some t'
    → afu_dma_region_find t r.iova r.length ≡ none
unfolding link afu_dma_region_find
link-find leaf t' r e = refl
link-find (node left this right) t' r e =
    elim (Bool-cases (dma_region_check_iova this r.iova r.length)) [
      | inl hit ↦ absurd (ground (arith, hit, e))
      | inr unhit ↦ elim (trichotomy r.iova this.iova) [
        | inl lt ↦ elim (Option-cases (link left r)) [
          | inl fails ↦ absurd (ground (arith, unhit, fails, e))
          | inr (l, done) ↦ ground (arith, unhit, link-find left l r done)
        ]
        | inr (inl gt) ↦ elim (Option-cases (link right r)) [
          | inl fails ↦ absurd (ground (arith, unhit, fails, e))
          | inr (l, done) ↦ ground (arith, unhit, link-find right l r done)
        ]
        | inr (inr same) ↦ absurd (ground (arith, unhit, same, e))
      ]
    ]

module _ (t : Tree) (r : DmaRegion) (order : Ascending (inorder t)) (fits : InSpace (inorder t))
    (r_fits : Fits r) where
  Stops-Blocks : Stops r (inorder t) → Blocks r (inorder t)
  Stops-Blocks (s, m, inl same) = (s, m, inl same)
  Stops-Blocks (s, m, inr hit) =
      let reads = dma_region_check_iova_iff s r.iova r.length (All-In Fits (inorder t) s fits m) in
      let c = (reads r_fits).0 hit in (s, m, inr (c.0, c.1))

  linked-free :
      (t' : Tree)
      → Separated (inorder t)
      → 0 < r.length
      → Fresh r (inorder t)
      → link t r ≡ some t'
      → ¬ Blocks r (inorder t)
  linked-free t' apart nonempty fresh e (s, m, inl same) =
      All-In (λ (s : DmaRegion). s.iova ≢ r.iova) (inorder t) s fresh m same
  linked-free t' apart nonempty fresh e (s, m, inr c) =
      let found =
        find_complete t r.iova r.length s order fits apart nonempty m
          (c.0, c.1, λ z. absurd (omega (arith, z, nonempty))) in
      let missed = link-find t t' r e in cc

-- Into an ordered tree of separated regions, where the ends of these and of the new, non-empty
-- region lie below 2^64: either the call succeeds, no region has the same address or contains the
-- new one, and the new one now stands at its place in the order; or the call fails with -EEXIST,
-- the tree is unchanged, and some region has the same address or contains the new one. A region
-- that overlaps the new one otherwise does not stop it.
pub afu_dma_region_add_lem :
    (lib : RbLib) (t : Tree) (r : DmaRegion)
    → Ascending (inorder t)
    → InSpace (inorder t)
    → Separated (inorder t)
    → 0 < r.length
    → r.iova + r.length < 2 ^ 64
    → let (status, t') = afu_dma_region_add lib t r in
      ((status ≡ ok)
        × (¬ Blocks r (inorder t))
        × (inorder t' ≡ insert_by_iova r (inorder t))
        × Ascending (inorder t'))
      ⊎ ((status ≡ err eexist) × (t' ≡ t) × Blocks r (inorder t))
unfolding afu_dma_region_add
afu_dma_region_add_lem lib t r a fits apart nonempty r_fits = elim (link-Linked t r a) [
  | inl (t', e, order, fresh) ↦
      let order' = lib.inorder-rb_insert_color r t' ∙ order in
      rw (e, afu_dma_region_add)
        (inl (
          refl,
          linked-free t r a fits r_fits t' apart nonempty fresh e,
          order',
          rw order' (insert_by_iova-Ascending r (inorder t) a fresh),
        ))
  | inr (e, b) ↦ rw (e, afu_dma_region_add) (inr (refl, refl, Stops-Blocks t r a fits r_fits b))
]
