-- ===== src/FeatureDev/Msix/Vector.antt =====
-- What setting the signal of one vector does to every vector.
use opae_intel_fpga_driver.Base.{
  ℕ, ◌<◌, ◌≡◌, ◌≢◌, ◌∙◌, refl, ap, sym, arith, Option, none, some, List, Status, ok, err, length,
  get_elem?, set, length-set, get_elem?-set_self, get_elem?-set_ne, Bool-cases, Option-cases, inl,
  inr, enomem, zero, suc, [], ◌∷◌, ◌⊎◌,
}
use opae_intel_fpga_driver.FeatureDev.Msix.{
  IrqCtx, Feature, Kernel, FdGet, context, bad_fd, release, after_request, after_fdget, arm,
  fpga_set_vector_signal,
}

abbrev pub trigger_of : Option IrqCtx → Option ℕ
trigger_of none = none
trigger_of (some c) = c.trigger

-- The trigger of a vector.
abbrev pub trigger_at : Feature → ℕ → Option ℕ
trigger_at f v = trigger_of (get_elem? f.ctx v)

abbrev pub context_of : FdGet → Option ℕ
context_of (context t) = some t
context_of (bad_fd e) = none

-- The trigger that a descriptor asks for: none for a negative one.
abbrev pub wanted : Kernel → Option ℕ → Option ℕ
wanted k none = none
wanted k (some fd) = context_of (k.eventfd_ctx_fdget fd)

-- The same vectors with the same triggers, but for one.
abbrev pub ButFor : ℕ → Feature → Feature → Type 0
ButFor v f f' =
    (length f'.ctx ≡ length f.ctx) × ((u : ℕ) → u ≢ v → trigger_at f' u ≡ trigger_at f u)

ButFor-trans : (v : ℕ) (f g h : Feature) → ButFor v f g → ButFor v g h → ButFor v f h
ButFor-trans v f g h (l, p) (l', p') = (l' ∙ l, λ u n. p' u n ∙ p u n)

assigned :
    (v : ℕ) (c : IrqCtx) (f f' : Feature)
    → f'.ctx ≡ set f.ctx v c
    → v < length f.ctx
    → ButFor v f f' × (trigger_at f' v ≡ c.trigger)
assigned v c f f' e below = rw e (
  (length-set f.ctx v c, λ u n. ap trigger_of (get_elem?-set_ne f.ctx v u c (λ q. n (sym q)))),
  ap trigger_of (get_elem?-set_self f.ctx v c below),
)

pub in_range : (xs : List IrqCtx) (v : ℕ) (c : IrqCtx) → get_elem? xs v ≡ some c → v < length xs
in_range [] v c e = absurd (ground (arith, e))
in_range (x ∷ xs) zero c e = omega arith
in_range (x ∷ xs) (suc v) c e = omega (arith, in_range xs v c e)

pub past_end : (xs : List IrqCtx) (v : ℕ) → v < length xs → get_elem? xs v ≢ none
past_end [] v h e = absurd (omega arith)
past_end (x ∷ xs) zero h e = ground (arith, e)
past_end (x ∷ xs) (suc v) h e = past_end xs v (omega arith) e

release_lem :
    (v : ℕ) (c : IrqCtx) (t : Option ℕ) (f : Feature)
    → get_elem? f.ctx v ≡ some c
    → c.trigger ≡ t
    → let f' = release v c t f in ButFor v f f' × (trigger_at f' v ≡ none)
unfolding release
release_lem v c none f at e = ((refl, λ u n. refl), rw at e)
release_lem v c (some t) f at e =
    assigned v (record c { trigger = none }) f (release v c (some t) f) refl (in_range f.ctx v c at)

module _ (k : Kernel) where
  -- How setting the signal of a vector ends.
  abbrev pub SignalEnds : ℕ → Option ℕ → Feature → Status × Feature → Type 0
  SignalEnds v fd f r =
      ButFor v f r.1
      × (((r.0 ≡ ok) × (trigger_at r.1 v ≡ wanted k fd))
          ⊎ ((e : ℕ) × (t : ℕ) × (r.0 ≡ err e) × (fd ≡ some t) × (trigger_at r.1 v ≡ none)))

  module _ (v : ℕ) (c : IrqCtx) (f : Feature) (below : v < length f.ctx)
      (clear : trigger_at f v ≡ none) where
    request_lem :
        (fd t : ℕ) (s : Status)
        → k.eventfd_ctx_fdget fd ≡ context t
        → SignalEnds v (some fd) f (after_request k v c t s f)
    unfolding after_request
    request_lem fd t ok got =
        let set_it =
          assigned v (record c { trigger = some t }) f (after_request k v c t ok f).1 refl below in
        (set_it.0, inl (refl, set_it.1 ∙ sym (ap context_of got)))
    request_lem fd t (err e) got = ((refl, λ u n. refl), inr (e, fd, refl, refl, clear))

    fdget_lem :
        (fd : ℕ) (g : FdGet)
        → k.eventfd_ctx_fdget fd ≡ g
        → SignalEnds v (some fd) f (after_fdget k v c g f)
    unfolding after_fdget
    fdget_lem fd (context t) got = request_lem fd t (k.request_irq c.irq t) got
    fdget_lem fd (bad_fd e) got = ((refl, λ u n. refl), inr (e, fd, refl, refl, clear))

    arm_lem : (fd : Option ℕ) → SignalEnds v fd f (arm k v c fd f)
    unfolding arm
    arm_lem none = ((refl, λ u n. refl), inl (refl, clear))
    arm_lem (some fd) = elim (Bool-cases (k.kasprintf v)) [
      | inl named ↦ rw named (fdget_lem fd (k.eventfd_ctx_fdget fd) refl)
      | inr unnamed ↦ rw unnamed ((refl, λ u n. refl), inr (enomem, fd, refl, refl, clear))
    ]

  -- Setting the signal of a vector in range leaves the others alone. It returns 0 and the vector has
  -- the trigger asked for, or it fails, which it does not for a negative descriptor, and the vector
  -- has none.
  pub fpga_set_vector_signal_lem :
      (v : ℕ) (fd : Option ℕ) (f : Feature)
      → v < length f.ctx
      → SignalEnds v fd f (fpga_set_vector_signal k v fd f)
  unfolding fpga_set_vector_signal
  fpga_set_vector_signal_lem v fd f below = elim (Option-cases (get_elem? f.ctx v)) [
    | inl e ↦ absurd (past_end f.ctx v below e)
    | inr (c, at) ↦
        let f' = release v c c.trigger f in
        let freed = release_lem v c c.trigger f at refl in
        let (others, ends) = arm_lem v c f' (omega (arith, freed.0.0, below)) freed.1 fd in
        rw (at, fpga_set_vector_signal)
          (ButFor-trans v f f' (arm k v c fd f').1 freed.0 others, ends)
  ]
