-- ===== src/FeatureDev/Tests.antt =====
-- Runs of the port reset and of the open counts, and the theorems at them.
use opae_intel_fpga_driver.Base.{
  ℕ, ◌≡◌, ◌⊎◌, refl, arith, Bool, true, false, ◌==◌, ok, err, ebusy, etimedout,
}
use opae_intel_fpga_driver.Csr.{get_field, set_field, port_sftrst, port_sftrst_ack}
use opae_intel_fpga_driver.Mmio.{Bus, port_control, poll, fpga_wait_register_field}
use opae_intel_fpga_driver.Mmio.Poll.{Succeeds, TimesOut, fpga_wait_register_field_lem}
use opae_intel_fpga_driver.FeatureDev.PortReset.{
  PortDev, fpga_port_reset, fpga_port_disable, fpga_port_enable, write_sftrst, wait_sftrst_ack,
  after_disable,
}
use opae_intel_fpga_driver.FeatureDev.PortReset.Outcome.{
  Acknowledged, fpga_port_reset_lem, fpga_port_reset-timed_out,
}
use opae_intel_fpga_driver.FeatureDev.PortReset.Holds.{
  Latches, Holders, running, disabled, Tracks, Holders-Tracks,
}
use opae_intel_fpga_driver.FeatureDev.OpenCount.{
  Opens, feature_dev_use_excl_begin, feature_dev_use_begin, feature_dev_use_end,
}
use opae_intel_fpga_driver.FeatureDev.OpenCount.Exclusive.{
  Files, closed, open_excl, open_refused, release_excl, Counts, Files-Counts,
}
use opae_intel_fpga_driver.Base.{◌+◌, if◌then◌else◌, Option, none, some, List, [], ◌∷◌}
use opae_intel_fpga_driver.FeatureDev.Msix.{
  Feature, Kernel, context, bad_fd, fpga_set_vector_signal, fpga_msix_set_block, release,
  after_request, after_fdget, arm, fd_at, set_all, clear_all, after_set_all,
}
use opae_intel_fpga_driver.FeatureDev.Msix.Block.{BlockEnds, fpga_msix_set_block_lem}

-- What a port shows in its control register: the reset bit, and the acknowledge bit with it.
abbrev acking : Bool → ℕ
acking true = 17
acking false = 0

-- A port that acknowledges at once, and one that never does.
abbrev obedient : Bus Bool
obedient = record {
  readq = λ r h. (acking h, h);
  writeq = λ r v h. get_field port_sftrst v == 1;
  udelay = λ t h. h;
}

abbrev deaf : Bus Bool
deaf = record obedient { readq = λ r h. (0, h) }

abbrev idle : PortDev Bool
idle = record { disable_count = 0; hw = false }

obedient-Latches : Latches obedient (λ h. h)
obedient-Latches = record {
  latch_write = λ v h. refl;
  keep_read = λ h. refl;
  keep_delay = λ t h. refl;
}

fpga_wait_register_field_lem_example :
    let r = fpga_wait_register_field obedient port_sftrst_ack port_control 1 1000 10 true in
    Succeeds obedient port_sftrst_ack port_control 10 1 1000 0 true r
    ⊎ TimesOut obedient port_sftrst_ack port_control 10 1 1000 0 true r
fpga_wait_register_field_lem_example =
    fpga_wait_register_field_lem obedient port_sftrst_ack port_control 10 1 1000 true (omega arith)

reset_done : fpga_port_reset obedient idle ≡ (ok, idle)
unfolding fpga_port_reset fpga_port_disable fpga_port_enable write_sftrst wait_sftrst_ack
    fpga_wait_register_field poll get_field set_field after_disable
reset_done = refl

fpga_port_reset_lem_example :
    let r = fpga_port_reset obedient idle in
    ((k : ℕ) × Acknowledged obedient k idle
      × (r.0 ≡ ok)
      × (r.1.disable_count ≡ 0)
      × (r.1.hw ≡ false))
    ⊎ (((k : ℕ) → ¬ Acknowledged obedient k idle)
        × (r.0 ≡ err etimedout)
        × (r.1.disable_count ≡ 1)
        × (r.1.hw ≡ true))
fpga_port_reset_lem_example = fpga_port_reset_lem obedient (λ h. h) obedient-Latches idle refl

deaf-Acknowledged : (k : ℕ) → ¬ Acknowledged deaf k idle
unfolding get_field
deaf-Acknowledged k (in_time, e) = absurd (omega (arith, e))

fpga_port_reset-timed_out_example :
    let s' = (fpga_port_reset deaf idle).1 in fpga_port_reset deaf s' ≡ (ok, s')
fpga_port_reset-timed_out_example = fpga_port_reset-timed_out deaf idle refl deaf-Acknowledged

held : Holders obedient (λ h. h) obedient-Latches 1 (fpga_port_disable obedient idle).1
held = disabled (running false refl) (omega arith)

Holders-Tracks_example :
    Tracks obedient (λ h. h) obedient-Latches 1 (fpga_port_disable obedient idle).1
Holders-Tracks_example = Holders-Tracks obedient (λ h. h) obedient-Latches held

abbrev nobody : Opens
nobody = record { excl_open = 0; open_count = 0 }

abbrev exclusive : Opens
exclusive = record { excl_open = 1; open_count = 1 }

alone : (feature_dev_use_excl_begin nobody) ≡ (ok, exclusive)
unfolding feature_dev_use_excl_begin
alone = refl

refused : feature_dev_use_begin (feature_dev_use_excl_begin nobody).1 ≡ (err ebusy, exclusive)
unfolding feature_dev_use_excl_begin feature_dev_use_begin
refused = refl

one_file : Files 1 0 (feature_dev_use_begin (feature_dev_use_excl_begin nobody).1).1
one_file = open_refused (open_excl closed (rw alone refl)) ebusy (rw refused refl)

Files-Counts_example :
    Counts 0 0 (feature_dev_use_end (feature_dev_use_begin (feature_dev_use_excl_begin nobody).1).1)
Files-Counts_example = Files-Counts (release_excl one_file)

-- A kernel in which descriptor 9 is not an eventfd.
abbrev kernel : Kernel
kernel = record {
  kasprintf = λ v. true;
  eventfd_ctx_fdget = λ fd. if fd == 9 then bad_fd 22 else context (fd + 100);
  request_irq = λ irq t. ok;
}

abbrev three_vectors : Feature
three_vectors = record {
  ctx =
      record { irq = 40; trigger = some 1 }
      ∷ record { irq = 41; trigger = none }
      ∷ record { irq = 42; trigger = some 2 }
      ∷ [];
  eventfds = 2;
  names = 2;
  handlers = 2;
}

abbrev descriptors : Option (List (Option ℕ))
descriptors = some (some 5 ∷ some 9 ∷ [])

-- The second descriptor is refused, and the first two vectors are left without a trigger.
rolled_back : fpga_msix_set_block kernel 0 2 descriptors three_vectors ≡ (
  err 22,
  record {
    ctx =
        record { irq = 40; trigger = none }
        ∷ record { irq = 41; trigger = none }
        ∷ record { irq = 42; trigger = some 2 }
        ∷ [];
    eventfds = 1;
    names = 1;
    handlers = 1;
  },
)
unfolding fpga_msix_set_block fpga_set_vector_signal release after_request after_fdget arm fd_at
    set_all clear_all after_set_all
rolled_back = refl

fpga_msix_set_block_lem_example :
    BlockEnds kernel 0 descriptors 2 three_vectors
      (fpga_msix_set_block kernel 0 2 descriptors three_vectors)
fpga_msix_set_block_lem_example =
    fpga_msix_set_block_lem kernel 0 descriptors 2 three_vectors (omega arith) (omega arith)
      (omega arith)
