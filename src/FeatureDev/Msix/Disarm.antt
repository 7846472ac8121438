-- ===== src/FeatureDev/Msix/Disarm.antt =====
-- Taking all interrupts of a feature back.
use mathlib.Core.Path.{subst}
use opae_intel_fpga_driver.Base.{
  ◌∙◌, ◌||◌, Option, List, err, ℕ, zero, suc, ◌+◌, ◌^◌, ◌<◌, ◌≤◌, ◌≡◌, refl, arith, true, false,
  none, Status, ok, err, length, leb, ltb, u32, Bool-cases, inl, inr, ◌==◌, Option-cases, get_elem?,
}
use opae_intel_fpga_driver.FeatureDev.Msix.{
  Feature, Kernel, arm, fpga_set_vector_signal, fd_at, set_all, clear_all, after_set_all,
  fpga_msix_set_block,
}
use opae_intel_fpga_driver.FeatureDev.Msix.Vector.{
  trigger_at, past_end, in_range, fpga_set_vector_signal_lem,
}
use opae_intel_fpga_driver.FeatureDev.Msix.Block.{LoopEnds, set_all_lem}

-- Disarming never fails on the vectors of the feature.
module _ (k : Kernel) where
  disarm_ok : (v : ℕ) (f : Feature) → v < length f.ctx → (fpga_set_vector_signal k v none f).0 ≡ ok
  unfolding fpga_set_vector_signal arm
  disarm_ok v f below = elim (Option-cases (get_elem? f.ctx v)) [
    | inl e ↦ absurd (past_end f.ctx v below e)
    | inr (c, e) ↦ rw (e, fpga_set_vector_signal) refl
  ]

  set_all-none_next :
      (n i : ℕ) (r : Status × Feature)
      → r.0 ≡ ok
      → (set_all k n (i + 1) 0 none r.1).0 ≡ ok
      → (elim r.0 as (λ _. Status × ℕ × Feature) [
        | ok ↦ set_all k n (i + 1) 0 none r.1
        | err e ↦ (err e, i + 1, r.1)
      ]).0
        ≡ ok
  set_all-none_next n i (ok, f) e h = h
  set_all-none_next n i (err c, f) e h = e

  set_all-none : (n i : ℕ) (f : Feature) → i + n ≤ length f.ctx → (set_all k n i 0 none f).0 ≡ ok
  unfolding set_all fd_at
  set_all-none zero i f le = refl
  set_all-none (suc n) i f le =
      let others = (fpga_set_vector_signal_lem k (0 + i) none f (omega arith)).0 in
      let r = fpga_set_vector_signal k (0 + i) none f in
      set_all-none_next n i r (disarm_ok (0 + i) f (omega arith))
        (set_all-none n (i + 1) r.1 (omega (arith, others.0)))

  -- The vectors of a feature, of which it may have none, are all disarmed by a call for the whole
  -- block without descriptors.
  pub fpga_msix_set_block-none :
      (f : Feature)
      → length f.ctx < 2 ^ 32
      → let f' = (fpga_msix_set_block k 0 (length f.ctx) none f).1 in
        (length f'.ctx ≡ length f.ctx) × ((v : ℕ) → v < length f.ctx → trigger_at f' v ≡ none)
  unfolding fpga_msix_set_block after_set_all fd_at
  fpga_msix_set_block-none f small = elim (Bool-cases (length f.ctx == 0)) [
    | inl e ↦
        let none_there : leb (length f.ctx) 0 ≡ true = ground (arith, e) in
        rw none_there (refl, λ v lt. absurd (ground (arith, e, lt)))
    | inr e ↦
        let first : leb (length f.ctx) 0 ≡ false = ground (arith, e) in
        let last : ltb (length f.ctx) (u32 (0 + length f.ctx)) ≡ false = ground arith in
        let all = set_all k (length f.ctx) 0 0 none f in
        let ends = set_all_lem k 0 none (length f.ctx) 0 f (omega arith) in
        rw (first, last)
          (settled f all (set_all-none (length f.ctx) 0 f (omega arith))
            (subst (λ n. LoopEnds k 0 none 0 n f all) (omega arith) ends))
  ]
    where
      at_zero : (f' : Feature) (v : ℕ) → trigger_at f' (0 + v) ≡ none → trigger_at f' v ≡ none
      at_zero f' v h = subst (λ n. trigger_at f' n ≡ none) (omega arith) h

      settled :
          (f : Feature) (r : Status × ℕ × Feature)
          → r.0 ≡ ok
          → LoopEnds k 0 none 0 (length f.ctx) f r
          → let f' = (after_set_all k 0 r).1 in
            (length f'.ctx ≡ length f.ctx) × ((v : ℕ) → v < length f.ctx → trigger_at f' v ≡ none)
      settled f (ok, m, f') e (outside, inl (_, _, armed)) =
          (outside.0, λ v lt. at_zero f' v (armed v (omega arith) lt))
      settled f (ok, m, f') e (outside, inr (c, bad, _, _)) = absurd (ground (arith, bad))
      settled f (err c, m, f') e h = absurd (ground (arith, e))

  -- The number of vectors stays.
  signal-length :
      (v : ℕ) (fd : Option ℕ) (f : Feature)
      → length (fpga_set_vector_signal k v fd f).1.ctx ≡ length f.ctx
  unfolding fpga_set_vector_signal
  signal-length v fd f = elim (Option-cases (get_elem? f.ctx v)) [
    | inl e ↦ rw (e, fpga_set_vector_signal) refl
    | inr (c, e) ↦ (fpga_set_vector_signal_lem k v fd f (in_range f.ctx v c e)).0.0
  ]

  set_all-length :
      (n i start : ℕ) (fds : Option (List (Option ℕ))) (f : Feature)
      → length (set_all k n i start fds f).2.ctx ≡ length f.ctx
  unfolding set_all
  set_all-length zero i start fds f = refl
  set_all-length (suc n) i start fds f =
      let r = fpga_set_vector_signal k (start + i) (fd_at fds i) f in
      (elim r.0
        as (λ s.
          length
            (elim s as (λ _. Status × ℕ × Feature) [
              | ok ↦ set_all k n (i + 1) start fds r.1
              | err e ↦ (err e, i + 1, r.1)
            ]).2.ctx
          ≡ length r.1.ctx) [ ok ↦ set_all-length n (i + 1) start fds r.1 | err e ↦ refl ])
      ∙ signal-length (start + i) (fd_at fds i) f

  clear_all-length : (n start : ℕ) (f : Feature) → length (clear_all k n start f).ctx ≡ length f.ctx
  unfolding clear_all
  clear_all-length zero start f = refl
  clear_all-length (suc n) start f =
      clear_all-length n start (fpga_set_vector_signal k (start + n) none f).1
      ∙ signal-length (start + n) none f

  pub fpga_msix_set_block-length :
      (start count : ℕ) (fds : Option (List (Option ℕ))) (f : Feature)
      → length (fpga_msix_set_block k start count fds f).1.ctx ≡ length f.ctx
  unfolding fpga_msix_set_block after_set_all
  fpga_msix_set_block-length start count fds f =
      elim (Bool-cases (leb (length f.ctx) start || ltb (length f.ctx) (u32 (start + count)))) [
        | inl e ↦ rw e refl
        | inr e ↦ rw e (after (set_all k count 0 start fds f) ∙ set_all-length count 0 start fds f)
      ]
    where
      after : (r : Status × ℕ × Feature) → length (after_set_all k start r).1.ctx ≡ length r.2.ctx
      after (ok, n, f) = refl
      after (err e, n, f) = clear_all-length n start f
