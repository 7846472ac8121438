-- ===== src/Dma/Store/Order.antt =====
-- The order of the tree: its regions from left to right have rising addresses.
use mathlib.Core.List.{map-append}
use opae_intel_fpga_driver.Base.{
  map, ◌==◌, Bool, true, false, ℕ, ◌<◌, ◌≡◌, ◌≢◌, refl, List, [], ◌∷◌, ◌++◌, arith, All, In, inl,
  if◌then◌else◌, ltb, All-append_left, All-append_right, All-imp,
}
use opae_intel_fpga_driver.AfuData.{DmaRegion, Tree, leaf, node, inorder}
use opae_intel_fpga_driver.Dma.Store.{mark_in_use}
use opae_intel_fpga_driver.Dma.Kernel.{without}

abbrev pub Above : ℕ → List DmaRegion → Type 0
Above k = All (λ (s : DmaRegion). k < s.iova)

abbrev pub Below : ℕ → List DmaRegion → Type 0
Below k = All (λ (s : DmaRegion). s.iova < k)

abbrev pub Ascending : List DmaRegion → Type 0
Ascending [] = Unit
Ascending (r ∷ rs) = Above r.iova rs × Ascending rs

-- Where the order puts a new region.
abbrev pub insert_by_iova : DmaRegion → List DmaRegion → List DmaRegion
insert_by_iova r [] = r ∷ []
insert_by_iova r (s ∷ ss) = if ltb r.iova s.iova then r ∷ s ∷ ss else s ∷ insert_by_iova r ss

-- An ordered list with `r` in the middle, and its parts.
pub Ascending-split :
    (xs : List DmaRegion) (r : DmaRegion) (ys : List DmaRegion)
    → Ascending (xs ++ (r ∷ ys))
    → Ascending xs × Below r.iova xs × Above r.iova ys × Ascending ys
Ascending-split [] r ys h = (tt, tt, h.0, h.1)
Ascending-split (x ∷ xs) r ys h =
    let rest = Ascending-split xs r ys h.1 in
    (
      (All-append_left (λ (s : DmaRegion). x.iova < s.iova) xs (r ∷ ys) h.0, rest.0),
      ((All-append_right (λ (s : DmaRegion). x.iova < s.iova) xs (r ∷ ys) h.0).0, rest.1),
      rest.2,
      rest.3,
    )

pub Above-trans : (j k : ℕ) (xs : List DmaRegion) → j < k → Above k xs → Above j xs
Above-trans j k xs h a = All-imp _ _ (λ s q. omega arith) xs a

pub insert_by_iova-left :
    (r x : DmaRegion) (xs ys : List DmaRegion)
    → r.iova < x.iova
    → insert_by_iova r (xs ++ (x ∷ ys)) ≡ insert_by_iova r xs ++ (x ∷ ys)
insert_by_iova-left r x [] ys h = ground arith
insert_by_iova-left r x (s ∷ xs) ys h = ground (arith, insert_by_iova-left r x xs ys h)

pub insert_by_iova-right :
    (r x : DmaRegion) (xs ys : List DmaRegion)
    → x.iova < r.iova
    → Below x.iova xs
    → insert_by_iova r (xs ++ (x ∷ ys)) ≡ xs ++ (x ∷ insert_by_iova r ys)
insert_by_iova-right r x [] ys h b = ground arith
insert_by_iova-right r x (s ∷ xs) ys h b = ground (arith, insert_by_iova-right r x xs ys h b.1)

Above-insert_by_iova :
    (k : ℕ) (r : DmaRegion) (xs : List DmaRegion)
    → k < r.iova
    → Above k xs
    → Above k (insert_by_iova r xs)
Above-insert_by_iova k r [] h a = (h, tt)
Above-insert_by_iova k r (x ∷ xs) h a = ground (arith, Above-insert_by_iova k r xs h a.1)

-- A region under a new address keeps the order.
pub insert_by_iova-Ascending :
    (r : DmaRegion) (xs : List DmaRegion)
    → Ascending xs
    → All (λ (s : DmaRegion). s.iova ≢ r.iova) xs
    → Ascending (insert_by_iova r xs)
insert_by_iova-Ascending r [] h n = (tt, tt)
insert_by_iova-Ascending r (x ∷ xs) h n = ground (
  arith,
  insert_by_iova-Ascending r xs h.1 n.1,
  Above-insert_by_iova x.iova r xs,
  Above-trans r.iova x.iova xs,
)

pub without-insert_by_iova :
    (r : DmaRegion) (xs : List DmaRegion)
    → All (λ (s : DmaRegion). s.iova ≢ r.iova) xs
    → without r.iova (insert_by_iova r xs) ≡ xs
without-insert_by_iova r [] n = ground arith
without-insert_by_iova r (x ∷ xs) n = ground (arith, without-insert_by_iova r xs n.1)

pub All-without :
    (P : DmaRegion → Type 0) (k : ℕ) (xs : List DmaRegion) → All P xs → All P (without k xs)
All-without P k [] a = tt
All-without P k (x ∷ xs) a = ground (arith, All-without P k xs a.1)

pub without-Ascending : (k : ℕ) (xs : List DmaRegion) → Ascending xs → Ascending (without k xs)
without-Ascending k [] h = tt
without-Ascending k (x ∷ xs) h =
    ground
      (arith, without-Ascending k xs h.1, All-without (λ (s : DmaRegion). x.iova < s.iova) k xs h.0)

pub All-insert_by_iova :
    (P : DmaRegion → Type 0) (r : DmaRegion) (xs : List DmaRegion)
    → P r
    → All P xs
    → All P (insert_by_iova r xs)
All-insert_by_iova P r [] p a = (p, tt)
All-insert_by_iova P r (x ∷ xs) p a = ground (arith, All-insert_by_iova P r xs p a.1)

pub In-insert_by_iova : (r : DmaRegion) (xs : List DmaRegion) → In r (insert_by_iova r xs)
In-insert_by_iova r [] = inl refl
In-insert_by_iova r (x ∷ xs) = ground (arith, In-insert_by_iova r xs)

-- What marking does to one region.
abbrev pub mark_one : ℕ → Bool → DmaRegion → DmaRegion
mark_one k mark r = if r.iova == k then record r { in_use = mark } else r

pub inorder-mark_in_use :
    (k : ℕ) (mark : Bool) (t : Tree)
    → inorder (mark_in_use k mark t) ≡ map (mark_one k mark) (inorder t)
unfolding mark_in_use
inorder-mark_in_use k mark leaf = refl
inorder-mark_in_use k mark (node left r right) = rw (
  inorder-mark_in_use k mark left,
  inorder-mark_in_use k mark right,
  map-append (mark_one k mark) (inorder left) (r ∷ inorder right),
)

pub All-mark_one :
    (P : DmaRegion → Type 0) (k : ℕ) (mark : Bool) (rs : List DmaRegion)
    → ((r : DmaRegion) → P r → P (record r { in_use = mark }))
    → All P rs
    → All P (map (mark_one k mark) rs)
All-mark_one P k mark [] keep a = tt
All-mark_one P k mark (r ∷ rs) keep a = (
  elim (r.iova == k) as (λ b. P (if b then record r { in_use = mark } else r)) [
    | true ↦ keep r a.0
    | false ↦ a.0
  ],
  All-mark_one P k mark rs keep a.1,
)

pub Ascending-mark_one :
    (k : ℕ) (mark : Bool) (rs : List DmaRegion)
    → Ascending rs
    → Ascending (map (mark_one k mark) rs)
Ascending-mark_one k mark [] a = tt
Ascending-mark_one k mark (r ∷ rs) a =
    let above = All-mark_one (λ (s : DmaRegion). r.iova < s.iova) k mark rs (λ s h. h) a.0 in
    (
      elim (r.iova == k)
          as (λ b.
            Above (if b then record r { in_use = mark } else r).iova (map (mark_one k mark) rs)) [
              | true ↦ above
              | false ↦ above
            ],
      Ascending-mark_one k mark rs a.1,
    )
