-- ===== src/FmePr/Write.antt =====
-- How pushing a bitstream to the device ends.
use mathlib.Core.List.{append_assoc, append-nil}
use opae_intel_fpga_driver.Base.{
  ℕ, zero, suc, ◌+◌, ◌-◌, ◌<◌, ◌≤◌, ◌≡◌, ◌≢◌, ◌∙◌, sym, ap, refl, arith, Bool, true, List, [], ◌++◌,
  ◌==◌, leb, length, take, drop, take-drop, length-drop, All, Status, ok, err, einval, efault,
  Bool-cases, Option-cases, inl, inr, ◌↔◌, ==_iff,
}
use opae_intel_fpga_driver.Csr.{get_field, set_field, pr_credit, pr_start_req, pr_regionid}
use opae_intel_fpga_driver.Mmio.{Bus, ccip_fme_pr_status}
use opae_intel_fpga_driver.FmePr.{
  Fme, pr_err_handle, change_control, await_credit, put, give_up, push, fme_pr_write,
  pr_wait_timeout,
}
use opae_intel_fpga_driver.FmePr.Device.{
  PrDevice, IsByte, Quiet, length_zero, All-drop, pr_err_handle-Quiet, change_control-Quiet,
  await_credit_lem, put-Pushed,
}

module _ {H : Type 0} (bus : Bus H) (avx512 : Bool) (store512 : List ℕ → H → H) (sent : H → List ℕ)
    (free lost : H → ℕ) (laws : PrDevice bus store512 sent free lost) where
  -- A part `done` of the data has gone into the device, in order, and none of it was lost; all of it
  -- has, exactly if the status is 0.
  abbrev pub Sends : List ℕ → H → Status × Fme H → Type 0
  Sends buf h r =
      (done : List ℕ) × (rest : List ℕ) × (buf ≡ done ++ rest)
      × (sent r.1.hw ≡ sent h ++ done)
      × (lost r.1.hw ≡ lost h)
      × ((r.0 ≡ ok) ↔ (rest ≡ []))

  stopped-Sends :
      (buf : List ℕ) (h : H) (r : Status × Fme H)
      → Quiet bus avx512 store512 sent free lost laws h r.1.hw
      → r.0 ≢ ok
      → length buf ≢ 0
      → Sends buf h r
  stopped-Sends buf h r q bad left = (
    [],
    buf,
    refl,
    q.0 ∙ sym (append-nil (sent h)),
    q.1,
    ((λ e. absurd (bad e)), (λ e. absurd (left (rw e refl)))),
  )

  give_up_lem :
      (h : H) (s : Fme H)
      → Quiet bus avx512 store512 sent free lost laws h (give_up bus avx512 store512 h s).1.hw
        × ((give_up bus avx512 store512 h s).0 ≢ ok)
  unfolding give_up
  give_up_lem h s =
      let (error, h') = pr_err_handle bus avx512 store512 h in
      let quiet = pr_err_handle-Quiet bus avx512 store512 sent free lost laws h in
      elim (Bool-cases (error == 0)) [
        | inl e ↦ rw e (quiet, λ q. ground (arith, q))
        | inr e ↦ rw e (quiet, λ q. ground (arith, q))
      ]

  more-Sends :
      (buf : List ℕ) (bandwidth : ℕ) (h h' : H) (r : Status × Fme H)
      → sent h' ≡ sent h ++ take bandwidth buf
      → lost h' ≡ lost h
      → Sends (drop bandwidth buf) h' r
      → Sends buf h r
  more-Sends buf bandwidth h h' r s l (done, rest, split, all, kept, iff) =
      let chunk = take bandwidth buf in
      (
        chunk ++ done,
        rest,
        sym (take-drop bandwidth buf)
            ∙ ap (λ x. chunk ++ x) split
            ∙ sym (append_assoc chunk done rest),
        all ∙ ap (λ x. x ++ done) s ∙ append_assoc (sent h) chunk done,
        kept ∙ l,
        iff,
      )

  push-Sends :
      (fuel delay credit : ℕ) (buf : List ℕ) (s : Fme H)
      → (s.pr_bandwidth ≡ 64 → avx512 ≡ true)
      → All IsByte buf
      → length buf < fuel
      → credit ≤ free s.hw
      → Sends buf s.hw (push bus avx512 store512 fuel delay credit buf s)
  unfolding push
  push-Sends zero delay credit buf s built bytes enough room = absurd (omega arith)
  push-Sends (suc fuel) delay credit buf s built bytes enough room =
      elim (Bool-cases (length buf == 0)) [
        | inl e ↦
            let empty = length_zero buf ((==_iff _ _).0 e) in
            rw (e, push)
              ([], buf, refl, sym (append-nil (sent s.hw)), refl, ((λ q. empty), (λ q. refl)))
        | inr e ↦
            let left : length buf ≢ 0 = λ z. ground (arith, e, z) in
            let bw = s.pr_bandwidth in
            let rounds = pr_wait_timeout + 2 - delay in
            let (there, delay', credit', h) =
              await_credit bus avx512 store512 rounds delay credit s.hw in
            let waited =
              await_credit_lem bus avx512 store512 sent free lost laws rounds delay credit s.hw
                room in
            let quiet : Quiet bus avx512 store512 sent free lost laws s.hw h =
              (waited.0, waited.1) in
            elim (Bool-cases there) [
              | inr none_there ↦
                  let gave_up = give_up_lem h s in
                  let silent : Quiet bus avx512 store512 sent free lost laws s.hw
                      (give_up bus avx512 store512 h s).1.hw =
                    (gave_up.0.0 ∙ waited.0, gave_up.0.1 ∙ waited.1) in
                  rw (e, none_there, push)
                    (stopped-Sends buf s.hw (give_up bus avx512 store512 h s) silent gave_up.1 left)
              | inl got ↦ elim (Bool-cases (leb bw (length buf))) [
                | inr short ↦
                    rw (e, got, short, push)
                      (stopped-Sends buf s.hw (err einval, record s { hw = h }) quiet
                        (λ q. ground (arith, q)) left)
                | inl long ↦ elim (Option-cases (put bus avx512 store512 bw buf h)) [
                  | inl refused ↦
                      rw (e, got, long, refused, push)
                        (stopped-Sends buf s.hw (err efault, record s { hw = h }) quiet
                          (λ q. ground (arith, q)) left)
                  | inr (h', done) ↦
                      let credits = waited.2 got in
                      let in_buf : bw ≤ length buf = ground (arith, long) in
                      let pushed =
                        put-Pushed bus avx512 store512 sent free lost laws bw buf h h' built bytes
                          in_buf (omega (arith, credits.0, credits.1)) done in
                      let after =
                        push bus avx512 store512 fuel delay' (credit' - 1) (drop bw buf)
                          (record s { hw = h' }) in
                      let rest =
                        push-Sends fuel delay' (credit' - 1) (drop bw buf) (record s { hw = h' })
                          built (All-drop bw buf bytes)
                          (omega (arith, length-drop bw buf, pushed.0))
                          (omega (arith, pushed.3, credits.1)) in
                      rw (e, got, long, done, push)
                        (more-Sends buf bw s.hw h' after
                          (pushed.1 ∙ ap (λ x. x ++ take bw buf) waited.0) (pushed.2 ∙ waited.1)
                          rest)
                ]
              ]
            ]
      ]

  -- On a device that shows no more credit than it has room, and, if it takes 64 bytes at a time, with
  -- a driver that is built with AVX512: of the bytes of the buffer, a part from the start on has gone into the device, in order and nothing between, and no push found the
  -- device without room; all of them have, exactly if the status is 0.
  pub fme_pr_write-Sends :
      (buf : List ℕ) (s : Fme H)
      → (s.pr_bandwidth ≡ 64 → avx512 ≡ true)
      → All IsByte buf
      → Sends buf s.hw (fme_pr_write bus avx512 store512 buf s)
  unfolding fme_pr_write
  fme_pr_write-Sends buf s built bytes =
      let start : ℕ → ℕ = λ csr. set_field pr_start_req 1 (set_field pr_regionid s.port_id csr) in
      let h = (change_control bus avx512 store512 start s.hw).1 in
      let started = change_control-Quiet bus avx512 store512 sent free lost laws start s.hw in
      let (csr, h') = bus.readq ccip_fme_pr_status h in
      let (done, rest, split, all, kept, iff) =
        push-Sends (suc (length buf)) 0 (get_field pr_credit csr) buf (record s { hw = h' }) built
          bytes (omega arith) (laws.credit_lem h) in
      (
        done,
        rest,
        split,
        all ∙ ap (λ x. x ++ done) (laws.sent-readq ccip_fme_pr_status h ∙ started.0),
        kept ∙ laws.lost-readq ccip_fme_pr_status h ∙ started.1,
        iff,
      )
