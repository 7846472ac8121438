-- ===== src/FeatureDev/Msix/Block.antt =====
-- What setting a block of interrupts does, whichever way it ends.
use mathlib.Core.Path.{subst}
use opae_intel_fpga_driver.Base.{
  ℕ, zero, suc, ◌+◌, ◌^◌, ◌<◌, ◌≤◌, ◌≡◌, ◌∙◌, refl, sym, arith, false, Option, none, List, Status,
  ok, err, length, leb, ltb, u32, Bool-cases, inl, inr, ◌⊎◌, ◌==◌, ==_iff,
}
use opae_intel_fpga_driver.FeatureDev.Msix.{
  Feature, Kernel, fpga_set_vector_signal, fd_at, set_all, clear_all, after_set_all,
  fpga_msix_set_block,
}
use opae_intel_fpga_driver.FeatureDev.Msix.Vector.{
  trigger_at, wanted, SignalEnds, fpga_set_vector_signal_lem,
}

module _ (k : Kernel) (start : ℕ) (fds : Option (List (Option ℕ))) where
  -- The vectors outside `start + i`, ..., `start + n - 1` are untouched.
  abbrev pub Outside : ℕ → ℕ → Feature → Feature → Type 0
  Outside i n f f' =
      (length f'.ctx ≡ length f.ctx)
      × ((u : ℕ) → (u < start + i) ⊎ (start + n ≤ u) → trigger_at f' u ≡ trigger_at f u)

  -- How the first loop ends, from round `i` to round `n`.
  abbrev pub LoopEnds : ℕ → ℕ → Feature → Status × ℕ × Feature → Type 0
  LoopEnds i n f (ret, m, f') =
      Outside i m f f'
      × (((ret ≡ ok)
            × (m ≡ n)
            × ((j : ℕ) → i ≤ j → j < n → trigger_at f' (start + j) ≡ wanted k (fd_at fds j)))
          ⊎ ((e : ℕ) × (ret ≡ err e) × (m ≤ n) × (i < m)))

  clear_all_lem :
      (n : ℕ) (f : Feature)
      → start + n ≤ length f.ctx
      → let f' = clear_all k n start f in
        Outside 0 n f f' × ((j : ℕ) → j < n → trigger_at f' (start + j) ≡ none)
  unfolding clear_all
  clear_all_lem zero f le = ((refl, λ u o. refl), λ j lt. absurd (omega arith))
  clear_all_lem (suc n) f le =
      let (others, ends) = fpga_set_vector_signal_lem k (start + n) none f (omega arith) in
      let f' = (fpga_set_vector_signal k (start + n) none f).1 in
      let (rest, cleared) = clear_all_lem n f' (omega (arith, others.0)) in
      let gone : trigger_at f' (start + n) ≡ none = elim ends [
        | inl (fine, e) ↦ e
        | inr (_, _, _, _, e) ↦ e
      ] in
      (
        (
          rest.0 ∙ others.0,
          λ u o. rest.1 u (omega (arith, o)) ∙ others.1 u (λ q. omega (arith, o, q)),
        ),
        λ j lt. elim (Bool-cases (j == n)) [
          | inl e ↦ rw ((==_iff j n).0 e) (rest.1 (start + n) (inr (omega arith)) ∙ gone)
          | inr e ↦ cleared j (ground (arith, e, lt))
        ],
      )

  next_lem :
      (n i : ℕ) (f : Feature) (r : Status × Feature)
      → SignalEnds k (start + i) (fd_at fds i) f r
      → LoopEnds (i + 1) (i + 1 + n) r.1 (set_all k n (i + 1) start fds r.1)
      → LoopEnds i
          (i + suc n)
          f
          (elim r.0 [ ok ↦ set_all k n (i + 1) start fds r.1 | err e ↦ (err e, i + 1, r.1) ])
  next_lem n i f (ok, f') (others, ends) (rest, tail) =
      let armed : trigger_at f' (start + i) ≡ wanted k (fd_at fds i) = elim ends [
        | inl (fine, e) ↦ e
        | inr (_, _, bad, _, _) ↦ absurd (ground (arith, bad))
      ] in
      let m = (set_all k n (i + 1) start fds f').1 in
      let beyond : i < m = elim tail [
        | inl (_, all, _) ↦ omega (arith, all)
        | inr (_, _, _, lo) ↦ omega (arith, lo)
      ] in
      (
        (
          rest.0 ∙ others.0,
          λ u o.
              elim o [ inl lo ↦ rest.1 u (inl (omega (arith, lo))) | inr hi ↦ rest.1 u (inr hi) ]
              ∙ others.1 u (λ q. elim o [
                | inl lo ↦ omega (arith, lo, q)
                | inr hi ↦ omega (arith, hi, q, beyond)
              ]),
        ),
        elim tail [
          | inl (fine, all, armed_all) ↦ inl (
            fine,
            omega (arith, all),
            λ j lo hi. elim (Bool-cases (j == i)) [
              | inl e ↦ rw ((==_iff j i).0 e) (rest.1 (start + i) (inl (omega arith)) ∙ armed)
              | inr e ↦ armed_all j (ground (arith, e, lo)) (omega (arith, hi))
            ],
          )
          | inr (e, bad, le, lo) ↦ inr (e, bad, omega (arith, le), omega (arith, lo))
        ],
      )
  next_lem n i f (err e, f') (others, ends) rest = (
    (others.0, λ u o. others.1 u (λ q. omega (arith, o, q))),
    inr (e, refl, omega arith, omega arith),
  )

  pub set_all_lem :
      (n i : ℕ) (f : Feature)
      → start + i + n ≤ length f.ctx
      → LoopEnds i (i + n) f (set_all k n i start fds f)
  unfolding set_all
  set_all_lem zero i f le =
      ((refl, λ u o. refl), inl (refl, omega arith, λ j lo hi. absurd (omega arith)))
  set_all_lem (suc n) i f le =
      let ends = fpga_set_vector_signal_lem k (start + i) (fd_at fds i) f (omega arith) in
      let r = fpga_set_vector_signal k (start + i) (fd_at fds i) f in
      next_lem n i f r ends (set_all_lem n (i + 1) r.1 (omega (arith, ends.0.0)))

  -- How setting a block ends: every vector of it has the trigger asked for, or the call fails, and
  -- the vectors up to the one that failed have none; no other vector changes.
  abbrev pub BlockEnds : ℕ → Feature → Status × Feature → Type 0
  BlockEnds count f r =
      ((r.0 ≡ ok)
        × Outside 0 count f r.1
        × ((j : ℕ) → j < count → trigger_at r.1 (start + j) ≡ wanted k (fd_at fds j)))
      ⊎ ((e : ℕ) × (m : ℕ) × (r.0 ≡ err e)
          × (0 < m)
          × (m ≤ count)
          × Outside 0 m f r.1
          × ((j : ℕ) → j < m → trigger_at r.1 (start + j) ≡ none))

  after_set_all_lem :
      (count : ℕ) (f : Feature) (r : Status × ℕ × Feature)
      → start + count ≤ length f.ctx
      → LoopEnds 0 count f r
      → BlockEnds count f (after_set_all k start r)
  unfolding after_set_all
  after_set_all_lem count f (ok, m, f') le (outside, inl (fine, all, armed)) =
      inl (refl, rw (sym all) outside, λ j lt. armed j (omega arith) lt)
  after_set_all_lem count f (ok, m, f') le (outside, inr (e, bad, _, _)) =
      absurd (ground (arith, bad))
  after_set_all_lem count f (err e, m, f') le (outside, inl (fine, _, _)) =
      absurd (ground (arith, fine))
  after_set_all_lem count f (err e, m, f') le (outside, inr (_, bad, some_of, lo)) =
      let (rest, cleared) = clear_all_lem m f' (omega (arith, outside.0, some_of)) in
      inr (
        e,
        m,
        refl,
        lo,
        some_of,
        (
          rest.0 ∙ outside.0,
          λ u o. rest.1 u (elim o [ inl a ↦ inl a | inr b ↦ inr b ]) ∙ outside.1 u o,
        ),
        cleared,
      )

  -- Setting a block of vectors that lies within those of the feature, which are fewer than 2^32:
  -- either it returns 0 and every vector of the block has the trigger that its descriptor asks for,
  -- or it fails and no vector of the block up to the one that failed has a trigger; the vectors
  -- outside the block, and behind the one that failed, keep theirs.
  pub fpga_msix_set_block_lem :
      (count : ℕ) (f : Feature)
      → start < length f.ctx
      → start + count ≤ length f.ctx
      → length f.ctx < 2 ^ 32
      → BlockEnds count f (fpga_msix_set_block k start count fds f)
  unfolding fpga_msix_set_block
  fpga_msix_set_block_lem count f below le small =
      let first : leb (length f.ctx) start ≡ false = ground arith in
      let last : ltb (length f.ctx) (u32 (start + count)) ≡ false = ground arith in
      rw (first, last)
        (after_set_all_lem count f (set_all k count 0 start fds f) le (
          subst (λ n. LoopEnds 0 n f (set_all k count 0 start fds f)) (omega arith)
            (set_all_lem count 0 f (omega arith))))
