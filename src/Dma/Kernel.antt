-- ===== src/Dma/Kernel.antt =====
-- What dma-region.c takes from the kernel: the answers of the functions that it calls, what they
-- do to the accounts, and the operations of the red-black tree library.
use opae_intel_fpga_driver.Base.{
  ℕ, ◌+◌, ◌-◌, ◌≡◌, Bool, ◌&&◌, Option, none, some, List, [], ◌∷◌, In, if◌then◌else◌, ◌==◌,
}
use opae_intel_fpga_driver.AfuData.{DmaRegion, Tree, inorder}

-- The kernel's accounts. `locked_vm` is `none` when the task has no `mm`; `page_refs` counts the
-- references to each page that the driver holds; `mappings` are the live DMA mappings.
pub record World : Type 0 where
  pub locked_vm : Option ℕ
  pub page_refs : ℕ → ℕ
  pub mappings : List (ℕ × ℕ)

-- `get_user_pages_fast`: an error number, or the pages that it pinned.
pub data Pinned : Type 0 where
  pin_error : ℕ → Pinned
  pinned : List ℕ → Pinned

-- The answers of the kernel to one call of the driver.
pub record Env : Type 0 where
  pub access_ok : ℕ → ℕ → Bool
  pub kzalloc : Bool
  pub kcalloc : ℕ → Bool
  pub get_user_pages_fast : ℕ → ℕ → Pinned
  pub page_to_pfn : Option ℕ → ℕ
  pub dma_map_page : Option ℕ → ℕ → ℕ
  pub dma_mapping_error : ℕ → Bool
  pub memlock_limit : ℕ
  pub ipc_lock : Bool

-- Takes a reference on every page of the list.
unfoldable pub get_pages : List ℕ → World → World
get_pages [] w = w
get_pages (p ∷ ps) w =
    get_pages ps (record w { page_refs = λ q. if q == p then w.page_refs q + 1 else w.page_refs q })

-- `put_page`
unfoldable pub put_page : ℕ → World → World
put_page p w = record w { page_refs = λ q. if q == p then w.page_refs q - 1 else w.page_refs q }

drop_mapping : ℕ → ℕ → List (ℕ × ℕ) → List (ℕ × ℕ)
drop_mapping iova size [] = []
drop_mapping iova size ((i, n) ∷ ms) =
    if i == iova && n == size then ms else (i, n) ∷ drop_mapping iova size ms

unfoldable pub add_mapping : ℕ → ℕ → World → World
add_mapping iova size w = record w { mappings = (iova, size) ∷ w.mappings }

-- `dma_unmap_page`
unfoldable pub dma_unmap_page : ℕ → ℕ → World → World
unfolding drop_mapping
dma_unmap_page iova size w = record w { mappings = drop_mapping iova size w.mappings }

-- The first node under an address leaves the list.
abbrev pub without : ℕ → List DmaRegion → List DmaRegion
without k [] = []
without k (r ∷ rs) = if r.iova == k then rs else r ∷ without k rs

abbrev pub head? : List DmaRegion → Option DmaRegion
head? [] = none
head? (r ∷ rs) = some r

-- The red-black tree library. Rebalancing after a link keeps the order of the nodes, erasing a node
-- takes it out of that order, `rb_first` is the first node, and `rb_next` of a first node that was
-- erased from the tree `t` (its links are left in place) is the node that came after it in `t`.
-- A node is known by its address: no two nodes of a tree share one (`Dma.Store.Order`).
pub record RbLib : Type 0 where
  pub rb_insert_color : DmaRegion → Tree → Tree
  pub rb_erase : DmaRegion → Tree → Tree
  pub rb_first : Tree → Option DmaRegion
  pub rb_next : Tree → DmaRegion → Option DmaRegion
  pub inorder-rb_insert_color :
      (r : DmaRegion) (t : Tree) → inorder (rb_insert_color r t) ≡ inorder t
  pub inorder-rb_erase :
      (r : DmaRegion) (t : Tree)
      → In r (inorder t)
      → inorder (rb_erase r t) ≡ without r.iova (inorder t)
  pub rb_first_lem : (t : Tree) → rb_first t ≡ head? (inorder t)
  pub rb_next_lem :
      (t : Tree) (r : DmaRegion) (rest : List DmaRegion)
      → inorder t ≡ r ∷ rest
      → rb_next t r ≡ head? rest
