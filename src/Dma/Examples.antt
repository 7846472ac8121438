-- ===== src/Dma/Examples.antt =====
-- Concrete answers of the kernel, and a tree library that keeps a chain, for the tests.
use opae_intel_fpga_driver.Base.{
  ℕ, ◌+◌, ◌*◌, ◌≡◌, refl, ap, Bool, true, false, Option, none, some, List, [], ◌∷◌, ◌==◌, ltb,
}
use opae_intel_fpga_driver.AfuData.{DmaRegion, Tree, leaf, node, inorder}
use opae_intel_fpga_driver.Dma.Kernel.{World, Env, RbLib, pinned, without, head?}

-- The tree with all its nodes on the right spine.
abbrev pub chain : List DmaRegion → Tree
chain [] = leaf
chain (r ∷ rs) = node leaf r (chain rs)

pub inorder-chain : (rs : List DmaRegion) → inorder (chain rs) ≡ rs
inorder-chain [] = refl
inorder-chain (r ∷ rs) = ap (◌∷◌ r) (inorder-chain rs)

abbrev pub second? : List DmaRegion → Option DmaRegion
second? [] = none
second? (r ∷ rs) = head? rs

abbrev pub chains : RbLib
chains = record {
  rb_insert_color = λ r t. t;
  rb_erase = λ r t. chain (without r.iova (inorder t));
  rb_first = λ t. head? (inorder t);
  rb_next = λ t r. second? (inorder t);
  inorder-rb_insert_color = λ r t. refl;
  inorder-rb_erase = λ r t m. inorder-chain (without r.iova (inorder t));
  rb_first_lem = λ t. refl;
  rb_next_lem = λ t r rest e. ap second? e;
}

-- `n` pages, numbered from `start` on.
abbrev pub pages_from : ℕ → ℕ → List ℕ
pages_from start Prim.Native.Nat.zero = []
pages_from start (Prim.Native.Nat.suc n) = start ∷ pages_from (start + 1) n

abbrev pub frame_of : Option ℕ → ℕ
frame_of none = 0
frame_of (some p) = p

-- Pins every page, numbers a page by its frame, and maps a frame to its own address.
abbrev pub serving : Env
serving = record {
  access_ok = λ addr len. true;
  kzalloc = true;
  kcalloc = λ n. ltb n 1000;
  get_user_pages_fast = λ addr n. pinned (pages_from 0x80 n);
  page_to_pfn = frame_of;
  dma_map_page = λ p len. frame_of p * 4096;
  dma_mapping_error = λ addr. addr == 0;
  memlock_limit = 0x10000;
  ipc_lock = false;
}

-- Pins one page, however many are asked for.
abbrev pub short_of_memory : Env
short_of_memory = record serving { get_user_pages_fast = λ addr n. pinned (0x80 ∷ []) }

abbrev pub fresh_world : World
fresh_world = record { locked_vm = some 2; page_refs = λ q. 0; mappings = [] }

abbrev pub region_at : ℕ → ℕ → Bool → DmaRegion
region_at iova len in_use = record {
  user_addr = 0;
  length = len;
  iova = iova;
  pages = none;
  in_use = in_use;
}

abbrev pub three_regions : Tree
three_regions =
    node (node leaf (region_at 0x1000 0x1000 false) leaf) (region_at 0x4000 0x3000 true)
      (node leaf (region_at 0x9000 0x2000 false) leaf)
