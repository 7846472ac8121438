-- ===== src/Asmip2.antt =====
-- The controller of an Altera ASMI Parallel II flash, drivers/mtd/spi-nor/altera-asmip2.c.
pub mod Banks
pub mod Device
pub mod Transfer
mod Tests
use opae_intel_fpga_driver.Base.{
  ℕ, zero, suc, ◌+◌, ◌-◌, ◌*◌, ◌/◌, ◌%◌, ◌^◌, Bool, true, false, List, [], ◌∷◌, if◌then◌else◌, ◌==◌,
  ltb, leb, length, take, Status, ok, err, einval,
}

-- The registers: bytes go through QSPI_DATA_REG, words to and from QSPI_ACTION_REG, and
-- `readl_poll_timeout` reads QSPI_FIFO_CNT_REG until the condition holds or the time is over.
pub record Qspi (H : Type 0) : Type 0 where
  pub writeb : ℕ → H → H
  pub readb : H → ℕ × H
  pub writel : ℕ → H → H
  pub readl : H → ℕ × H
  pub readl_poll_timeout : (ℕ → Bool) → H → Status × H
  pub udelay : ℕ → H → H

-- What the controller uses of `struct spi_nor`.
pub record SpiNor : Type 0 where
  pub addr_width : ℕ
  pub read_opcode : ℕ
  pub program_opcode : ℕ

abbrev pub qspi_action_rst : ℕ
qspi_action_rst = 1

abbrev pub qspi_action_en : ℕ
qspi_action_en = 2

abbrev pub qspi_action_sc : ℕ
qspi_action_sc = 4

abbrev pub qspi_fifo_depth : ℕ
qspi_fifo_depth = 0x200

-- `(reg >> QSPI_FIFO_CNT_TX_SFT) & QSPI_FIFO_CNT_MSK` and `reg & QSPI_FIFO_CNT_MSK`
abbrev pub tx_count : ℕ → ℕ
tx_count reg = reg / 2 ^ 12 % 2 ^ 10

abbrev pub rx_count : ℕ → ℕ
rx_count reg = reg % 2 ^ 10

-- `min_t(size_t, a, b)`
abbrev pub min_t : ℕ → ℕ → ℕ
min_t a b = if ltb a b then a else b

-- How many bytes a transfer of `n` moved, given the result of the poll.
abbrev pub moved : ℕ → Status → ℕ
moved n ok = n
moved n (err e) = 0

module _ {H : Type 0} (q : Qspi H) where
  abbrev pub iowrite8_rep : List ℕ → H → H
  iowrite8_rep [] h = h
  iowrite8_rep (b ∷ bs) h = iowrite8_rep bs (q.writeb b h)

  abbrev pub ioread8_rep : ℕ → H → List ℕ × H
  ioread8_rep zero h = ([], h)
  ioread8_rep (suc n) h = let (b, h1) = q.readb h in let (bs, h2) = ioread8_rep n h1 in (b ∷ bs, h2)

  unfoldable pub altera_asmip2_write_reg : ℕ → List ℕ → H → Status × H
  altera_asmip2_write_reg opcode val h =
      let h1 = iowrite8_rep val (q.writeb opcode h) in
      let h2 = q.writel (qspi_action_en + qspi_action_sc) h1 in
      let (ret, h3) = q.readl_poll_timeout (λ reg. tx_count reg == 0) h2 in
      let done : Status × H = (ret, q.writel qspi_action_en h3) in
      if ltb qspi_fifo_depth (length val + 1) then (err einval, h) else done

  -- The bytes that `ioread8_rep` gets, given the result of the poll.
  unfoldable pub receive : ℕ → Status × H → List ℕ × H
  receive n (ok, h) = ioread8_rep n h
  receive n (err e, h) = ([], h)

  -- The bytes read stand for the buffer; it is left alone after a timeout.
  unfoldable pub altera_asmip2_read_reg : ℕ → ℕ → H → Status × List ℕ × H
  unfolding receive
  altera_asmip2_read_reg opcode len h =
      let h1 = q.writel (qspi_action_en + qspi_action_sc + len * 2 ^ 16) (q.writeb opcode h) in
      let polled = q.readl_poll_timeout (λ reg. rx_count reg == len) h1 in
      let (val, h2) = receive len polled in
      let done : Status × List ℕ × H = (polled.0, val, q.writel qspi_action_en h2) in
      let refused : Status × List ℕ × H = (err einval, [], h) in
      if ltb qspi_fifo_depth len then refused else done

  -- The loop writes `addr_width` bytes, the highest first: `i` is 8 times the number of those that
  -- are left after it. The register takes the low byte of `val`.
  unfoldable pub altera_asmip2_push_offset : ℕ → ℕ → H → H
  altera_asmip2_push_offset zero offset h = h
  altera_asmip2_push_offset (suc k) offset h =
      altera_asmip2_push_offset k offset (q.writeb (offset / 2 ^ (8 * k) % 2 ^ 8) h)

  -- The bytes read stand for the buffer.
  unfoldable pub altera_asmip2_read : SpiNor → ℕ → ℕ → H → ℕ × List ℕ × H
  unfolding receive altera_asmip2_push_offset
  altera_asmip2_read nor from len h =
      let bytes_to_read = min_t len qspi_fifo_depth in
      let h1 = altera_asmip2_push_offset nor.addr_width from (q.writeb nor.read_opcode h) in
      let action = qspi_action_en + qspi_action_sc + 10 * 2 ^ 8 + bytes_to_read * 2 ^ 16 in
      let polled =
        q.readl_poll_timeout (λ reg. rx_count reg == bytes_to_read) (q.writel action h1) in
      let (buf, h2) = receive bytes_to_read polled in
      (moved bytes_to_read polled.0, buf, q.writel qspi_action_en h2)

  unfoldable pub altera_asmip2_write : SpiNor → ℕ → List ℕ → H → ℕ × H
  unfolding altera_asmip2_push_offset
  altera_asmip2_write nor to buf h =
      let bytes_to_write = min_t (length buf) (qspi_fifo_depth - (nor.addr_width + 1)) in
      let h1 = altera_asmip2_push_offset nor.addr_width to (q.writeb nor.program_opcode h) in
      let h2 = iowrite8_rep (take bytes_to_write buf) h1 in
      let h3 = q.writel (qspi_action_en + qspi_action_sc) h2 in
      let (ret, h4) = q.readl_poll_timeout (λ reg. tx_count reg == 0) h3 in
      (moved bytes_to_write ret, q.writel qspi_action_en h4)
