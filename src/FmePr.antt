-- ===== src/FmePr.antt =====
-- drivers/fpga/intel/fme-pr.c: partial reconfiguration, the operations that the FPGA manager calls.
pub mod Device
pub mod Write
pub mod Request
mod Tests
use opae_intel_fpga_driver.Base.{
  ℕ, zero, suc, ◌+◌, ◌-◌, ◌*◌, Bool, true, false, Option, none, some, List, [], ◌∷◌, if◌then◌else◌,
  ◌==◌, ltb, leb, length, take, drop, Status, ok, err, eio, einval, efault, etimedout,
}
use opae_intel_fpga_driver.Csr.{
  get_field, set_field, pr_reset, pr_reset_ack, pr_regionid, pr_start_req, pr_push_complete,
  pr_credit, pr_status, pr_host_status,
}
use opae_intel_fpga_driver.Mmio.{
  Bus, ccip_fme_pr_control, ccip_fme_pr_status, ccip_fme_pr_data, ccip_fme_pr_err,
  fpga_wait_register_field,
}

-- The fields of `struct fpga_fme` that take part, and the device. `pr_avx512` only brackets the
-- loop by `kernel_fpu_begin` and `kernel_fpu_end`.
pub record Fme (H : Type 0) : Type 0 where
  pub port_id : ℕ
  pub pr_err : ℕ
  pub pr_bandwidth : ℕ
  pub hw : H

abbrev pub pr_wait_timeout : ℕ
pr_wait_timeout = 8000000

-- `*((u32 *)buf)` on a little-endian machine, where at least four bytes are left.
unfoldable pub word_at : List ℕ → ℕ
word_at (a ∷ b ∷ c ∷ d ∷ _) = a + b * 0x100 + c * 0x10000 + d * 0x1000000
word_at _ = 0

-- Both variants of `copy512`: built with AVX512 it is one 64-byte store, and otherwise it only warns.
unfoldable pub copy512 : {H : Type 0} → Bool → (List ℕ → H → H) → List ℕ → H → H
copy512 true store512 src h = store512 src h
copy512 false store512 src h = h

-- The device; whether the driver is built with AVX512; and the inline assembly of `copy512`, which
-- stores 64 bytes at `fme_pr_data1`.
module _ {H : Type 0} (bus : Bus H) (avx512 : Bool) (store512 : List ℕ → H → H) where
  unfoldable pub pr_err_handle : H → ℕ × H
  pr_err_handle h =
      let (status, h1) = bus.readq ccip_fme_pr_status h in
      let (error, h2) = bus.readq ccip_fme_pr_err h1 in
      if get_field pr_status status == 0
      then (0, h1)
      else (error, bus.writeq ccip_fme_pr_err error h2)

  -- Reads the control register, lets `change` assign to it and writes it back; gives the value.
  unfoldable pub change_control : (ℕ → ℕ) → H → ℕ × H
  change_control change h =
      let (csr, h') = bus.readq ccip_fme_pr_control h in
      (change csr, bus.writeq ccip_fme_pr_control (change csr) h')

  -- From the release of the reset on, given the result of the wait for its acknowledgement. The
  -- expected host status is the constant PR_HOST_STATUS_IDLE.
  unfoldable pub after_reset : Status × H → Status × H
  after_reset (err e, h) = (err etimedout, h)
  after_reset (ok, h) =
      let released = (change_control (set_field pr_reset 0) h).1 in
      let (ret, h') =
        fpga_wait_register_field bus pr_host_status ccip_fme_pr_status 0 pr_wait_timeout 1
          released in
      elim ret [ ok ↦ (ok, (pr_err_handle h').1) | err e ↦ (err etimedout, h') ]

  -- `partial` is `info->flags == FPGA_MGR_PARTIAL_RECONFIG`; the feature is present.
  unfoldable pub fme_pr_write_init : Bool → Fme H → Status × Fme H
  unfolding after_reset
  fme_pr_write_init partial s =
      let (csr, h) = change_control (set_field pr_reset 1) s.hw in
      let acked = get_field pr_reset_ack (set_field pr_reset_ack 1 csr) in
      let (ret, h') =
        after_reset (
          fpga_wait_register_field bus pr_reset_ack ccip_fme_pr_control acked pr_wait_timeout 1
            h) in
      if partial then (ret, record s { hw = h' }) else (err einval, s)

  -- The inner loop, with `fuel` rounds at most: whether there is credit, then `delay`, `pr_credit`
  -- and the device.
  unfoldable pub await_credit : ℕ → ℕ → ℕ → H → Bool × ℕ × ℕ × H
  await_credit zero delay credit h = (false, delay, credit, h)
  await_credit (suc fuel) delay credit h = elim (leb credit 1) [
    | false ↦ (true, delay, credit, h)
    | true ↦ elim (ltb pr_wait_timeout delay) [
      | true ↦ (false, delay + 1, credit, h)
      | false ↦
          let (csr, h') = bus.readq ccip_fme_pr_status (bus.udelay 1 h) in
          await_credit fuel (delay + 1) (get_field pr_credit csr) h'
    ]
  ]

  -- The `switch` on the bandwidth.
  unfoldable pub put : ℕ → List ℕ → H → Option H
  put bandwidth buf h =
      if bandwidth == 4
      then some (bus.writeq ccip_fme_pr_data (word_at buf) h)
      else if bandwidth == 64
      then some (copy512 avx512 store512 (take 64 buf) h)
      else none

  -- The branch of the inner loop that gives up.
  unfoldable pub give_up : H → Fme H → Status × Fme H
  give_up h s =
      let (error, h') = pr_err_handle h in
      let s' = record s { pr_err = error; hw = h' } in
      if error == 0 then (err etimedout, s') else (err eio, s')

  -- The outer loop. Each round takes `pr_bandwidth` bytes, so one round more than there are bytes
  -- is enough; `delay` rises by 1 in each round of the inner loop and is not reset, so the rounds up
  -- to `pr_wait_timeout + 2` are enough there.
  unfoldable pub push : ℕ → ℕ → ℕ → List ℕ → Fme H → Status × Fme H
  push zero delay credit buf s = (err einval, s)
  push (suc fuel) delay credit buf s = elim (length buf == 0) [
    | true ↦ (ok, s)
    | false ↦
        let (there, delay', credit', h) =
          await_credit (pr_wait_timeout + 2 - delay) delay credit s.hw in
        elim there [
          | false ↦ give_up h s
          | true ↦ elim (leb s.pr_bandwidth (length buf)) [
            | false ↦ (err einval, record s { hw = h })
            | true ↦ elim (put s.pr_bandwidth buf h) [
              | none ↦ (err efault, record s { hw = h })
              | some h' ↦
                  push fuel delay' (credit' - 1) (drop s.pr_bandwidth buf) (record s { hw = h' })
            ]
          ]
        ]
  ]

  unfoldable pub fme_pr_write : List ℕ → Fme H → Status × Fme H
  fme_pr_write buf s =
      let start : ℕ → ℕ = λ csr. set_field pr_start_req 1 (set_field pr_regionid s.port_id csr) in
      let (csr, h) = bus.readq ccip_fme_pr_status (change_control start s.hw).1 in
      push (suc (length buf)) 0 (get_field pr_credit csr) buf (record s { hw = h })

  -- The end of `fme_pr_write_complete`, given the result of the wait.
  unfoldable pub check_pr : Fme H → Status × H → Status × Fme H
  check_pr s (err e, h) = (err etimedout, record s { hw = h })
  check_pr s (ok, h) =
      let (error, h') = pr_err_handle h in
      let s' = record s { pr_err = error; hw = h' } in
      if error == 0 then (ok, s') else (err eio, s')

  unfoldable pub fme_pr_write_complete : Fme H → Status × Fme H
  fme_pr_write_complete s =
      let (csr, h) = change_control (set_field pr_push_complete 1) s.hw in
      let idle = get_field pr_start_req (set_field pr_start_req 0 csr) in
      check_pr s
        (fpga_wait_register_field bus pr_start_req ccip_fme_pr_control idle pr_wait_timeout 1 h)
