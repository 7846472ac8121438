-- ===== src/FeatureDev/Msix.antt =====
-- feature-dev.c, the interrupts of a feature: `fpga_set_vector_signal` and `fpga_msix_set_block`.
pub mod Vector
pub mod Block
pub mod Disarm
use opae_intel_fpga_driver.Base.{
  ℕ, zero, suc, ◌+◌, ◌-◌, Bool, true, false, not, ◌||◌, Option, none, some, List, [], ◌∷◌,
  if◌then◌else◌, ltb, leb, length, get_elem?, set, u32, Status, ok, err, einval, enomem,
}

-- `struct feature_irq_ctx`; the string at `name` lives as long as there is a trigger.
pub record IrqCtx : Type 0 where
  pub irq : ℕ
  pub trigger : Option ℕ

-- `feature->ctx`, with what it holds of the kernel: eventfd references, strings and handlers.
pub record Feature : Type 0 where
  pub ctx : List IrqCtx
  pub eventfds : ℕ
  pub names : ℕ
  pub handlers : ℕ

-- What `eventfd_ctx_fdget` returns: the context or an error pointer.
pub data FdGet : Type 0 where
  context : ℕ → FdGet
  bad_fd : ℕ → FdGet

-- The answers of the kernel: `kasprintf` by vector, `eventfd_ctx_fdget` by descriptor, and
-- `request_irq` by interrupt and trigger.
pub record Kernel : Type 0 where
  pub kasprintf : ℕ → Bool
  pub eventfd_ctx_fdget : ℕ → FdGet
  pub request_irq : ℕ → ℕ → Status

-- `free_irq`, `kfree`, `eventfd_ctx_put` and the reset of the trigger, if there is one.
unfoldable pub release : ℕ → IrqCtx → Option ℕ → Feature → Feature
release vector c none f = f
release vector c (some t) f = record {
  ctx = set f.ctx vector (record c { trigger = none });
  eventfds = f.eventfds - 1;
  names = f.names - 1;
  handlers = f.handlers - 1;
}

-- `fds ? fds[i] : -1`; the caller passes an array of `count` descriptors.
unfoldable pub fd_at : Option (List (Option ℕ)) → ℕ → Option ℕ
fd_at none i = none
fd_at (some fds) i = elim (get_elem? fds i) [ none ↦ none | some fd ↦ fd ]

module _ (k : Kernel) where
  -- From `request_irq` on: on an error the string and the context are given back.
  unfoldable pub after_request : ℕ → IrqCtx → ℕ → Status → Feature → Status × Feature
  after_request vector c t ok f = (
    ok,
    record {
      ctx = set f.ctx vector (record c { trigger = some t });
      eventfds = f.eventfds + 1;
      names = f.names + 1;
      handlers = f.handlers + 1;
    },
  )
  after_request vector c t (err e) f = (err e, f)

  -- What follows `eventfd_ctx_fdget`; on an error the string is freed.
  unfoldable pub after_fdget : ℕ → IrqCtx → FdGet → Feature → Status × Feature
  after_fdget vector c (context t) f = after_request vector c t (k.request_irq c.irq t) f
  after_fdget vector c (bad_fd e) f = (err e, f)

  -- From the test of the descriptor on; a negative one is `none`.
  unfoldable pub arm : ℕ → IrqCtx → Option ℕ → Feature → Status × Feature
  arm vector c none f = (ok, f)
  arm vector c (some fd) f =
      if k.kasprintf vector
      then after_fdget vector c (k.eventfd_ctx_fdget fd) f
      else (err enomem, f)

  -- `vector` comes from an unsigned loop variable here and is not negative.
  unfoldable pub fpga_set_vector_signal : ℕ → Option ℕ → Feature → Status × Feature
  fpga_set_vector_signal vector fd f = elim (get_elem? f.ctx vector) [
    | none ↦ (err einval, f)
    | some c ↦ arm vector c fd (release vector c c.trigger f)
  ]

  -- The first loop for `n` more vectors, from `fds[i]` and vector `j` on: the status, the rounds
  -- made, the one that failed included, and the feature.
  unfoldable pub set_all : ℕ → ℕ → ℕ → Option (List (Option ℕ)) → Feature → Status × ℕ × Feature
  set_all zero i start fds f = (ok, i, f)
  set_all (suc n) i start fds f =
      let (ret, f') = fpga_set_vector_signal (start + i) (fd_at fds i) f in
      elim ret [ ok ↦ set_all n (i + 1) start fds f' | err e ↦ (err e, i + 1, f') ]

  -- The second loop, which disarms `n` vectors from `start` on, the last one first.
  unfoldable pub clear_all : ℕ → ℕ → Feature → Feature
  clear_all zero start f = f
  clear_all (suc n) start f = clear_all n start (fpga_set_vector_signal (start + n) none f).1

  unfoldable pub after_set_all : ℕ → Status × ℕ × Feature → Status × Feature
  after_set_all start (ok, n, f) = (ok, f)
  after_set_all start (err e, n, f) = (err e, clear_all n start f)

  unfoldable pub fpga_msix_set_block : ℕ → ℕ → Option (List (Option ℕ)) → Feature → Status × Feature
  unfolding after_set_all
  fpga_msix_set_block start count fds f =
      if leb (length f.ctx) start || ltb (length f.ctx) (u32 (start + count))
      then (err einval, f)
      else after_set_all start (set_all count 0 start fds f)
