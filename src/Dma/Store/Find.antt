-- ===== src/Dma/Store/Find.antt =====
-- What `afu_dma_region_find` finds in an ordered tree.
use opae_intel_fpga_driver.Base.{
  ℕ, ◌+◌, ◌^◌, ◌≤◌, ◌<◌, ◌≡◌, ◌↔◌, refl, List, [], ◌∷◌, ◌++◌, arith, All, In, inl, inr,
  All-append_left, All-append_right, true, some, All-In, In-append_left, In-append_right, In-append,
}
use opae_intel_fpga_driver.AfuData.{DmaRegion, Tree, leaf, node, inorder}
use opae_intel_fpga_driver.Dma.Store.{
  afu_dma_region_find, afu_dma_region_find_iova, dma_region_check_iova,
}
use opae_intel_fpga_driver.Dma.Store.Order.{Ascending, Ascending-split}

abbrev pub Fits : DmaRegion → Type 0
Fits s = s.iova + s.length < 2 ^ 64

-- No region runs past the 64-bit address space.
abbrev pub InSpace : List DmaRegion → Type 0
InSpace = All Fits

-- Each region ends before every later one starts.
abbrev pub Separated : List DmaRegion → Type 0
Separated [] = Unit
Separated (r ∷ rs) = All (λ (s : DmaRegion). r.iova + r.length ≤ s.iova) rs × Separated rs

-- The bytes from `iova` on, `size` of them, lie in the region; with `size` 0, the region starts at
-- `iova`.
abbrev pub Matches : DmaRegion → ℕ → ℕ → Type 0
Matches r iova size =
    (r.iova ≤ iova) × (iova + size ≤ r.iova + r.length) × (size ≡ 0 → r.iova ≡ iova)

Separated-split :
    (xs : List DmaRegion) (r : DmaRegion) (ys : List DmaRegion)
    → Separated (xs ++ (r ∷ ys))
    → Separated xs
      × All (λ (s : DmaRegion). s.iova + s.length ≤ r.iova) xs
      × All (λ (s : DmaRegion). r.iova + r.length ≤ s.iova) ys
      × Separated ys
Separated-split [] r ys h = (tt, tt, h.0, h.1)
Separated-split (x ∷ xs) r ys h =
    let rest = Separated-split xs r ys h.1 in
    (
      (All-append_left (λ (s : DmaRegion). x.iova + x.length ≤ s.iova) xs (r ∷ ys) h.0, rest.0),
      (
        (All-append_right (λ (s : DmaRegion). x.iova + x.length ≤ s.iova) xs (r ∷ ys) h.0).0,
        rest.1,
      ),
      rest.2,
      rest.3,
    )

pub dma_region_check_iova_iff :
    (r : DmaRegion) (iova size : ℕ)
    → r.iova + r.length < 2 ^ 64
    → iova + size < 2 ^ 64
    → (dma_region_check_iova r iova size ≡ true) ↔ Matches r iova size
unfolding dma_region_check_iova
dma_region_check_iova_iff r iova size f g = ground arith

-- Whatever is found is in the tree and matches.
pub find_sound :
    (t : Tree) (iova size : ℕ) (r : DmaRegion)
    → InSpace (inorder t)
    → iova + size < 2 ^ 64
    → afu_dma_region_find t iova size ≡ some r
    → In r (inorder t) × Matches r iova size
unfolding afu_dma_region_find
find_sound leaf iova size r f g e = cc
find_sound (node left x right) iova size r f g e =
    let left_fits = All-append_left Fits (inorder left) (x ∷ inorder right) f in
    let right_fits = All-append_right Fits (inorder left) (x ∷ inorder right) f in
    ground (
      arith,
      find_sound left iova size r left_fits,
      find_sound right iova size r right_fits.1,
      dma_region_check_iova_iff x iova size right_fits.0 g,
      In-append_left r (inorder left) (x ∷ inorder right),
      In-append_right r (inorder left) (x ∷ inorder right),
    )

-- In an ordered tree a region that starts at the address is found with size 0.
find_iova_complete :
    (t : Tree) (iova : ℕ) (r : DmaRegion)
    → Ascending (inorder t)
    → InSpace (inorder t)
    → In r (inorder t)
    → r.iova ≡ iova
    → afu_dma_region_find t iova 0 ≡ some r
unfolding afu_dma_region_find
find_iova_complete leaf iova r a f m e = absurd m
find_iova_complete (node left x right) iova r a f m e =
    let parts = Ascending-split (inorder left) x (inorder right) a in
    let left_fits = All-append_left Fits (inorder left) (x ∷ inorder right) f in
    let right_fits = All-append_right Fits (inorder left) (x ∷ inorder right) f in
    let reads = dma_region_check_iova_iff x iova 0 right_fits.0 in
    let mine = All-In Fits (inorder (node left x right)) r f m in
    elim (In-append r (inorder left) (x ∷ inorder right) m) [
      | inl ml ↦ ground (
        arith,
        reads (omega arith),
        All-In (λ (s : DmaRegion). s.iova < x.iova) (inorder left) r parts.1 ml,
        find_iova_complete left iova r parts.0 left_fits ml e,
      )
      | inr (inl same) ↦ ground (arith, reads (omega arith))
      | inr (inr mr) ↦ ground (
        arith,
        reads (omega arith),
        All-In (λ (s : DmaRegion). x.iova < s.iova) (inorder right) r parts.2 mr,
        find_iova_complete right iova r parts.3 right_fits.1 mr e,
      )
    ]

-- In an ordered tree of separated regions, one that contains a non-empty range is found.
pub find_complete :
    (t : Tree) (iova size : ℕ) (r : DmaRegion)
    → Ascending (inorder t)
    → InSpace (inorder t)
    → Separated (inorder t)
    → 0 < size
    → In r (inorder t)
    → Matches r iova size
    → afu_dma_region_find t iova size ≡ some r
unfolding afu_dma_region_find
find_complete leaf iova size r a f s n m c = absurd m
find_complete (node left x right) iova size r a f s n m c =
    let parts = Ascending-split (inorder left) x (inorder right) a in
    let apart = Separated-split (inorder left) x (inorder right) s in
    let left_fits = All-append_left Fits (inorder left) (x ∷ inorder right) f in
    let right_fits = All-append_right Fits (inorder left) (x ∷ inorder right) f in
    let reads = dma_region_check_iova_iff x iova size right_fits.0 in
    let mine = All-In Fits (inorder (node left x right)) r f m in
    elim (In-append r (inorder left) (x ∷ inorder right) m) [
      | inl ml ↦ ground (
        arith,
        reads (omega arith),
        All-In (λ (s : DmaRegion). s.iova + s.length ≤ x.iova) (inorder left) r apart.1 ml,
        find_complete left iova size r parts.0 left_fits apart.0 n ml c,
      )
      | inr (inl same) ↦ ground (arith, reads (omega arith))
      | inr (inr mr) ↦ ground (
        arith,
        reads (omega arith),
        All-In (λ (s : DmaRegion). x.iova + x.length ≤ s.iova) (inorder right) r apart.2 mr,
        All-In (λ (s : DmaRegion). x.iova < s.iova) (inorder right) r parts.2 mr,
        find_complete right iova size r parts.3 right_fits.1 apart.3 n mr c,
      )
    ]

-- Over an ordered tree of separated regions whose ends lie below 2^64, a non-empty range whose end
-- lies below 2^64 is found in a region exactly when that region is in the tree and contains the
-- range. A range or region that ends at 2^64 itself is left out: there the end wraps to 0.
pub afu_dma_region_find_iff :
    (t : Tree) (iova size : ℕ) (r : DmaRegion)
    → Ascending (inorder t)
    → InSpace (inorder t)
    → Separated (inorder t)
    → 0 < size
    → iova + size < 2 ^ 64
    → (afu_dma_region_find t iova size ≡ some r)
      ↔ (In r (inorder t) × (r.iova ≤ iova) × (iova + size ≤ r.iova + r.length))
afu_dma_region_find_iff t iova size r a f s n g = (
  λ e. let (m, c) = find_sound t iova size r f g e in (m, c.0, c.1),
  λ m. find_complete t iova size r a f s n m.0 (m.1, m.2, λ z. absurd (omega arith)),
)

-- Over an ordered tree of regions whose ends lie below 2^64, the lookup of a 64-bit address finds
-- a region exactly when that region is in the tree and starts there, whatever overlaps it.
pub afu_dma_region_find_iova_iff :
    (t : Tree) (iova : ℕ) (r : DmaRegion)
    → Ascending (inorder t)
    → InSpace (inorder t)
    → iova < 2 ^ 64
    → (afu_dma_region_find_iova t iova ≡ some r) ↔ (In r (inorder t) × (r.iova ≡ iova))
unfolding afu_dma_region_find_iova
afu_dma_region_find_iova_iff t iova r a f g = (
  λ e. let (m, c) = find_sound t iova 0 r f (omega arith) e in (m, c.2 refl),
  λ m. find_iova_complete t iova r a f m.0 m.1,
)
