-- ===== src/FeatureDev/OpenCount/Exclusive.antt =====
-- Who may have the device file open at the same time.
use opae_intel_fpga_driver.Base.{ℕ, suc, ◌+◌, ◌^◌, ◌<◌, ◌≤◌, ◌≡◌, refl, arith, ok, err}
use opae_intel_fpga_driver.FeatureDev.OpenCount.{
  Opens, feature_dev_use_excl_begin, feature_dev_use_begin, feature_dev_use_end,
}

-- `Files e n o`: opens and releases have led to the counts `o`, with `e` exclusive and `n` other
-- files open now.
pub data Files : ℕ → ℕ → Opens → Type 0 where
  closed : Files 0 0 (record { excl_open = 0; open_count = 0 })
  open_excl :
      {e n : ℕ} {o : Opens}
      → Files e n o
      → (feature_dev_use_excl_begin o).0 ≡ ok
      → Files (suc e) n (feature_dev_use_excl_begin o).1
  open_shared :
      {e n : ℕ} {o : Opens}
      → Files e n o
      → e + n + 1 < 2 ^ 32
      → (feature_dev_use_begin o).0 ≡ ok
      → Files e (suc n) (feature_dev_use_begin o).1
  open_refused :
      {e n : ℕ} {o : Opens}
      → Files e n o
      → (c : ℕ) → (feature_dev_use_begin o).0 ≡ err c
      → Files e n (feature_dev_use_begin o).1
  excl_refused :
      {e n : ℕ} {o : Opens}
      → Files e n o
      → (c : ℕ) → (feature_dev_use_excl_begin o).0 ≡ err c
      → Files e n (feature_dev_use_excl_begin o).1
  release_excl : {e n : ℕ} {o : Opens} → Files (suc e) n o → Files e n (feature_dev_use_end o)
  release_shared : {e n : ℕ} {o : Opens} → Files e (suc n) o → Files e n (feature_dev_use_end o)

-- The counts stand for the open files, of which an exclusive one is the only one.
abbrev pub Counts : ℕ → ℕ → Opens → Type 0
Counts e n o =
    (o.excl_open ≡ e) × (o.open_count ≡ e + n) × (e ≤ 1) × (e ≡ 1 → n ≡ 0) × (e + n < 2 ^ 32)

excl-Counts :
    (e n : ℕ) (o : Opens)
    → Counts e n o
    → (feature_dev_use_excl_begin o).0 ≡ ok
    → Counts (suc e) n (feature_dev_use_excl_begin o).1
unfolding feature_dev_use_excl_begin
excl-Counts e n o (a, b, c, d, f) q = ground arith

shared-Counts :
    (e n : ℕ) (o : Opens)
    → Counts e n o
    → e + n + 1 < 2 ^ 32
    → (feature_dev_use_begin o).0 ≡ ok
    → Counts e (suc n) (feature_dev_use_begin o).1
unfolding feature_dev_use_begin
shared-Counts e n o (a, b, c, d, f) small q = ground arith

excl_refused-Counts :
    (e n : ℕ) (o : Opens) (k : ℕ)
    → Counts e n o
    → (feature_dev_use_excl_begin o).0 ≡ err k
    → Counts e n (feature_dev_use_excl_begin o).1
unfolding feature_dev_use_excl_begin
excl_refused-Counts e n o k (a, b, c, d, f) q = ground arith

open_refused-Counts :
    (e n : ℕ) (o : Opens) (k : ℕ)
    → Counts e n o
    → (feature_dev_use_begin o).0 ≡ err k
    → Counts e n (feature_dev_use_begin o).1
unfolding feature_dev_use_begin
open_refused-Counts e n o k (a, b, c, d, f) q = ground arith

release_excl-Counts :
    (e n : ℕ) (o : Opens) → Counts (suc e) n o → Counts e n (feature_dev_use_end o)
unfolding feature_dev_use_end
release_excl-Counts e n o (a, b, c, d, f) = ground arith

release_shared-Counts :
    (e n : ℕ) (o : Opens) → Counts e (suc n) o → Counts e n (feature_dev_use_end o)
unfolding feature_dev_use_end
release_shared-Counts e n o (a, b, c, d, f) = ground arith

-- After any history of opens, refused opens and releases, with fewer than 2^32 files open at a time,
-- `open_count` is the number of open files, `excl_open` the number of exclusive ones, which is at
-- most one, and next to an exclusive one no other file is open.
pub Files-Counts : {e n : ℕ} {o : Opens} → Files e n o → Counts e n o
Files-Counts closed = (refl, refl, ground arith, λ q. refl, ground arith)
Files-Counts (open_excl p q) = excl-Counts _ _ _ (Files-Counts p) q
Files-Counts (open_shared p small q) = shared-Counts _ _ _ (Files-Counts p) small q
Files-Counts (open_refused p c q) = open_refused-Counts _ _ _ c (Files-Counts p) q
Files-Counts (excl_refused p c q) = excl_refused-Counts _ _ _ c (Files-Counts p) q
Files-Counts (release_excl p) = release_excl-Counts _ _ _ (Files-Counts p)
Files-Counts (release_shared p) = release_shared-Counts _ _ _ (Files-Counts p)
