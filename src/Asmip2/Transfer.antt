-- ===== src/Asmip2/Transfer.antt =====
-- What the flash device receives from a transfer.
use opae_intel_fpga_driver.Base.{
  ℕ, ◌+◌, ◌-◌, ◌*◌, ◌%◌, ◌^◌, ◌≤◌, ◌<◌, ◌≡◌, refl, ◌∙◌, arith, ◌⊎◌, inl, inr, Bool, Bool-cases,
  List, [], ◌∷◌, ◌++◌, ◌==◌, ltb, length, take, length-append, Status, ok, err, einval,
}
use opae_intel_fpga_driver.Asmip2.Device.{
  Command, Controller, address_bytes, address_of, length-take, length-address_bytes,
  address_of-address_bytes, At, writeb-At, iowrite8_rep-At, push_offset-At, stop-At, poll-At,
  start-At, receive-At,
}
use opae_intel_fpga_driver.Asmip2.{
  Qspi, SpiNor, qspi_fifo_depth, tx_count, rx_count, min_t, moved, altera_asmip2_write_reg,
  altera_asmip2_read_reg, altera_asmip2_push_offset, altera_asmip2_read, altera_asmip2_write,
}

module _ {H : Type 0} (q : Qspi H) (c : Controller q) where
  -- One command was sent, which fits into the FIFO, and nothing is left in the queue.
  abbrev pub Sent : Command → H → H → Type 0
  Sent command h h' =
      (length command.bytes ≤ qspi_fifo_depth)
      × (c.queued h' ≡ [])
      × (c.commands h' ≡ c.commands h ++ (command ∷ []))

  -- The count is `n` when the poll for `ready` succeeds, once the command was sent, and 0 when it
  -- gives an error.
  abbrev pub Polled : (ℕ → Bool) → ℕ → Command → H → ℕ → Type 0
  Polled ready n command h done =
      (sent : H) × (c.commands sent ≡ c.commands h ++ (command ∷ []))
      × ((((q.readl_poll_timeout ready sent).0 ≡ ok) × (done ≡ n))
          ⊎ ((e : ℕ) × ((q.readl_poll_timeout ready sent).0 ≡ err e) × (done ≡ 0)))

  -- The address and at most as many bytes as fit.
  abbrev pub Programs : SpiNor → ℕ → List ℕ → H → ℕ × H → Type 0
  Programs nor to buf h (done, h') =
      let n = min_t (length buf) (qspi_fifo_depth - (nor.addr_width + 1)) in
      let address = address_bytes nor.addr_width to in
      let command : Command = record {
        action = 6;
        bytes = nor.program_opcode ∷ (address ++ take n buf);
      } in
      Polled (λ reg. tx_count reg == 0) n command h done
      × (address_of 0 address ≡ to % 2 ^ (8 * nor.addr_width))
      × Sent command h h'

  abbrev pub Reads : SpiNor → ℕ → ℕ → H → ℕ × List ℕ × H → Type 0
  Reads nor from len h (done, buf, h') =
      let n = min_t len qspi_fifo_depth in
      let address = address_bytes nor.addr_width from in
      let command : Command = record {
        action = 6 + 10 * 2 ^ 8 + n * 2 ^ 16;
        bytes = nor.read_opcode ∷ address;
      } in
      Polled (λ reg. rx_count reg == n) n command h done
      × (length buf ≡ done)
      × (address_of 0 address ≡ from % 2 ^ (8 * nor.addr_width))
      × Sent command h h'

  abbrev pub WritesReg : ℕ → List ℕ → H → Status × H → Type 0
  WritesReg opcode val h (ret, h') =
      ((qspi_fifo_depth < length val + 1) × (ret ≡ err einval) × (h' ≡ h))
      ⊎ Sent (record { action = 6; bytes = opcode ∷ val }) h h'

  abbrev pub ReadsReg : ℕ → ℕ → H → Status × List ℕ × H → Type 0
  ReadsReg opcode len h (ret, val, h') =
      ((qspi_fifo_depth < len) × (ret ≡ err einval) × (h' ≡ h))
      ⊎ ((length val ≡ moved len ret)
          × Sent (record { action = 6 + len * 2 ^ 16; bytes = opcode ∷ [] }) h h')

  moved-Polled :
      (ready : ℕ → Bool) (n : ℕ) (command : Command) (h sent : H)
      → c.commands sent ≡ c.commands h ++ (command ∷ [])
      → Polled ready n command h (moved n (q.readl_poll_timeout ready sent).0)
  moved-Polled ready n command h sent e = (sent, e, by_status _ refl)
    where
      by_status :
          (s : Status)
          → (q.readl_poll_timeout ready sent).0 ≡ s
          → (((q.readl_poll_timeout ready sent).0 ≡ ok) × (moved n s ≡ n))
            ⊎ ((e : ℕ) × ((q.readl_poll_timeout ready sent).0 ≡ err e) × (moved n s ≡ 0))
      by_status ok f = inl (f, refl)
      by_status (err e) f = inr (e, f, refl)

  min_t-bounds : (a b : ℕ) → (min_t a b ≤ a) × (min_t a b ≤ b)
  min_t-bounds a b = (ground arith, ground arith)

  -- The opcode and the address in an empty queue.
  addressed-At :
      (opcode k offset : ℕ) (h : H)
      → c.queued h ≡ []
      → At q c
          (opcode ∷ address_bytes k offset)
          (c.commands h)
          (altera_asmip2_push_offset q k offset (q.writeb opcode h))
  addressed-At opcode k offset h empty =
      push_offset-At q c k offset (opcode ∷ []) (c.commands h) (q.writeb opcode h)
        (writeb-At q c opcode [] (c.commands h) h (empty, refl))

  altera_asmip2_write-Programs :
      (nor : SpiNor) (to : ℕ) (buf : List ℕ) (h : H)
      → nor.addr_width ≤ 4
      → c.queued h ≡ []
      → Programs nor to buf h (altera_asmip2_write q nor to buf h)
  unfolding altera_asmip2_write
  altera_asmip2_write-Programs nor to buf h narrow empty =
      let w = nor.addr_width in
      let n = min_t (length buf) (qspi_fifo_depth - (w + 1)) in
      let address = address_bytes w to in
      let bytes = nor.program_opcode ∷ (address ++ take n buf) in
      let (below, fits) = min_t-bounds (length buf) (qspi_fifo_depth - (w + 1)) in
      let size : length bytes ≤ qspi_fifo_depth = omega (
        arith,
        length-append address (take n buf),
        length-address_bytes w to,
        length-take n buf below,
        fits,
        narrow,
      ) in
      let started = start-At q c 6 bytes (c.commands h) _ refl (
        iowrite8_rep-At q c (take n buf) (nor.program_opcode ∷ address) (c.commands h) _
          (addressed-At nor.program_opcode w to h empty)) in
      let sent = stop-At q c [] _ _ (poll-At q c (λ reg. tx_count reg == 0) [] _ _ started) in
      (
        moved-Polled _ n _ h _ started.1,
        address_of-address_bytes 0 w to ∙ omega arith,
        (size, sent.0, sent.1),
      )

  altera_asmip2_read-Reads :
      (nor : SpiNor) (from len : ℕ) (h : H)
      → nor.addr_width ≤ 4
      → c.queued h ≡ []
      → Reads nor from len h (altera_asmip2_read q nor from len h)
  unfolding altera_asmip2_read
  altera_asmip2_read-Reads nor from len h narrow empty =
      let w = nor.addr_width in
      let n = min_t len qspi_fifo_depth in
      let action = 6 + 10 * 2 ^ 8 + n * 2 ^ 16 in
      let bytes = nor.read_opcode ∷ address_bytes w from in
      let size : length bytes ≤ qspi_fifo_depth =
        omega (arith, length-address_bytes w from, narrow) in
      let started =
        start-At q c action bytes (c.commands h) _ (omega arith)
          (addressed-At nor.read_opcode w from h empty) in
      let (received, count) =
        receive-At q c n [] _ _ (poll-At q c (λ reg. rx_count reg == n) [] _ _ started) in
      let done = stop-At q c [] _ _ received in
      (
        moved-Polled _ n _ h _ started.1,
        count,
        address_of-address_bytes 0 w from ∙ omega arith,
        (size, done.0, done.1),
      )

  altera_asmip2_write_reg-WritesReg :
      (opcode : ℕ) (val : List ℕ) (h : H)
      → c.queued h ≡ []
      → WritesReg opcode val h (altera_asmip2_write_reg q opcode val h)
  unfolding altera_asmip2_write_reg
  altera_asmip2_write_reg-WritesReg opcode val h empty =
      elim (Bool-cases (ltb qspi_fifo_depth (length val + 1))) [
        | inl e ↦ rw e (inl (ground (arith, e), refl, refl))
        | inr e ↦
            let sent = stop-At q c [] _ _ (
              poll-At q c (λ reg. tx_count reg == 0) [] _ _
                (start-At q c 6 (opcode ∷ val) (c.commands h) _ refl (
                  iowrite8_rep-At q c val (opcode ∷ []) (c.commands h) _
                    (writeb-At q c opcode [] (c.commands h) h (empty, refl))))) in
            rw e (inr (ground (arith, e), sent.0, sent.1))
      ]

  altera_asmip2_read_reg-ReadsReg :
      (opcode len : ℕ) (h : H)
      → c.queued h ≡ []
      → ReadsReg opcode len h (altera_asmip2_read_reg q opcode len h)
  unfolding altera_asmip2_read_reg
  altera_asmip2_read_reg-ReadsReg opcode len h empty = elim (Bool-cases (ltb qspi_fifo_depth len)) [
    | inl e ↦ rw e (inl (ground (arith, e), refl, refl))
    | inr e ↦
        let (received, count) = receive-At q c len [] _ _ (
          poll-At q c (λ reg. rx_count reg == len) [] _ _
            (start-At q c (6 + len * 2 ^ 16) (opcode ∷ []) (c.commands h) _ (omega arith)
              (writeb-At q c opcode [] (c.commands h) h (empty, refl)))) in
        let done = stop-At q c [] _ _ received in rw e (inr (count, (omega arith, done.0, done.1)))
  ]

  -- On a controller that queues the bytes written and sends them as one command at a word with the
  -- start bit, with an empty queue and an address of at most 4 bytes: a write sends one command with
  -- the program opcode, the address and as many bytes of the buffer as fit, a read one with the read
  -- opcode, the address and the number of bytes to give back, at most 512. The address bytes give the
  -- offset back, cut to their number. The result is the number of bytes when the
  -- poll that follows the command succeeds, and 0 when it fails. A register write or
  -- read sends one command with the opcode, and the bytes or the number of bytes, or is refused when
  -- these are too many. No command is longer than the FIFO, nothing stays in the queue, and as many
  -- bytes are read as the result says.
  pub transfers-Sent :
      (nor : SpiNor) (offset len opcode : ℕ) (buf : List ℕ) (h : H)
      → nor.addr_width ≤ 4
      → c.queued h ≡ []
      → Programs nor offset buf h (altera_asmip2_write q nor offset buf h)
        × Reads nor offset len h (altera_asmip2_read q nor offset len h)
        × WritesReg opcode buf h (altera_asmip2_write_reg q opcode buf h)
        × ReadsReg opcode len h (altera_asmip2_read_reg q opcode len h)
  transfers-Sent nor offset len opcode buf h narrow empty = (
    altera_asmip2_write-Programs nor offset buf h narrow empty,
    altera_asmip2_read-Reads nor offset len h narrow empty,
    altera_asmip2_write_reg-WritesReg opcode buf h empty,
    altera_asmip2_read_reg-ReadsReg opcode len h empty,
  )
