-- ===== src/Asmip2/Device.antt =====
-- The controller's queue, and the bytes of an address.
use opae_intel_fpga_driver.Base.{
  ℕ, zero, suc, ◌+◌, ◌*◌, ◌/◌, ◌%◌, ◌^◌, ◌≤◌, ◌<◌, ◌≡◌, refl, sym, ap, ◌∙◌, arith, Bool, List, [],
  ◌∷◌, ◌++◌, length, take, Status, ok, err,
}
use mathlib.Core.List.{append_assoc, append-nil}
use opae_intel_fpga_driver.Csr.Fields.{pow_sum, pow_pos, mod-low}
use native.Mathlib.Nat.{div-add-mod, mod-lt, mul-le-mul_right}
use opae_intel_fpga_driver.Asmip2.{
  Qspi, qspi_action_en, moved, iowrite8_rep, ioread8_rep, receive, altera_asmip2_push_offset,
}

-- One command to the flash: the word that started it, and the bytes that it takes from the FIFO.
pub record Command : Type 0 where
  pub action : ℕ
  pub bytes : List ℕ

-- The controller: written bytes queue up, a word with the start bit sends them all to the flash as
-- one command, and nothing else does.
pub record Controller {H : Type 0} (q : Qspi H) : Type 0 where
  pub queued : H → List ℕ
  pub commands : H → List Command
  pub writeb_queued : (b : ℕ) (h : H) → queued (q.writeb b h) ≡ queued h ++ (b ∷ [])
  pub writeb_commands : (b : ℕ) (h : H) → commands (q.writeb b h) ≡ commands h
  pub readb_queued : (h : H) → queued (q.readb h).1 ≡ queued h
  pub readb_commands : (h : H) → commands (q.readb h).1 ≡ commands h
  pub poll_queued : (c : ℕ → Bool) (h : H) → queued (q.readl_poll_timeout c h).1 ≡ queued h
  pub poll_commands : (c : ℕ → Bool) (h : H) → commands (q.readl_poll_timeout c h).1 ≡ commands h
  pub stop_queued : (h : H) → queued (q.writel qspi_action_en h) ≡ queued h
  pub stop_commands : (h : H) → commands (q.writel qspi_action_en h) ≡ commands h
  pub start_queued : (x : ℕ) (h : H) → x / 2 % 4 ≡ 3 → queued (q.writel x h) ≡ []
  pub start_commands :
      (x : ℕ) (h : H)
      → x / 2 % 4 ≡ 3
      → commands (q.writel x h) ≡ commands h ++ (record { action = x; bytes = queued h } ∷ [])

-- The bytes of an address, the highest first.
abbrev pub address_bytes : ℕ → ℕ → List ℕ
address_bytes zero offset = []
address_bytes (suc k) offset = (offset / 2 ^ (8 * k) % 2 ^ 8) ∷ address_bytes k offset

-- The address that the flash makes of its bytes.
abbrev pub address_of : ℕ → List ℕ → ℕ
address_of a [] = a
address_of a (b ∷ bs) = address_of (a * 2 ^ 8 + b) bs

pub length-take : {A : Type 0} (n : ℕ) (xs : List A) → n ≤ length xs → length (take n xs) ≡ n
length-take zero xs h = refl
length-take (suc n) [] h = absurd (omega (arith, h))
length-take (suc n) (x ∷ xs) h = ap suc (length-take n xs (omega (arith, h)))

pub length-address_bytes : (k offset : ℕ) → length (address_bytes k offset) ≡ k
length-address_bytes zero offset = refl
length-address_bytes (suc k) offset = ap suc (length-address_bytes k offset)

-- One more byte of the address.
mod_split : (x p : ℕ) → 0 < p → x % (p * 2 ^ 8) ≡ x / p % 2 ^ 8 * p + x % p
mod_split x p pos =
    let a = x / p / 2 ^ 8 in
    let t = x / p % 2 ^ 8 in
    let low = t * p + x % p in
    let whole : x ≡ a * (p * 2 ^ 8) + low =
      omega (arith, div-add-mod x p, ap (λ (n : ℕ). n * p) (div-add-mod (x / p) (2 ^ 8))) in
    let fits : t * p ≤ 255 * p = mul-le-mul_right p (omega arith) in
    ap (λ (n : ℕ). n % (p * 2 ^ 8)) whole
    ∙ mod-low a (p * 2 ^ 8) low (omega (arith, mod-lt x pos, fits))

pow_step : (k : ℕ) → 2 ^ (8 * suc k) ≡ 2 ^ (8 * k) * 2 ^ 8
pow_step k =
    ap (λ (t : ℕ). 2 ^ t) (let e : 8 * suc k ≡ 8 * k + 8 = omega arith in e) ∙ pow_sum (8 * k) 8

-- The bytes give the address back, cut to their number.
pub address_of-address_bytes :
    (a k offset : ℕ)
    → address_of a (address_bytes k offset) ≡ a * 2 ^ (8 * k) + offset % 2 ^ (8 * k)
address_of-address_bytes a zero offset = let e : a ≡ a * 1 + offset % 1 = omega arith in e
address_of-address_bytes a (suc k) offset =
    let p = 2 ^ (8 * k) in
    let b = offset / p % 2 ^ 8 in
    address_of-address_bytes (a * 2 ^ 8 + b) k offset
    ∙ (let e : (a * 2 ^ 8 + b) * p + offset % p ≡ a * (p * 2 ^ 8) + offset % (p * 2 ^ 8) =
          omega (arith, mod_split offset p (pow_pos (8 * k))) in
        e)
    ∙ ap (λ (t : ℕ). a * t + offset % t) (sym (pow_step k))

module _ {H : Type 0} (q : Qspi H) (c : Controller q) where
  -- The queue and the commands of a state.
  abbrev pub At : List ℕ → List Command → H → Type 0
  At bytes sent h = (c.queued h ≡ bytes) × (c.commands h ≡ sent)

  pub writeb-At :
      (b : ℕ) (bytes : List ℕ) (sent : List Command) (h : H)
      → At bytes sent h
      → At (bytes ++ (b ∷ [])) sent (q.writeb b h)
  writeb-At b bytes sent h (e, f) =
      (c.writeb_queued b h ∙ ap (λ xs. xs ++ (b ∷ [])) e, c.writeb_commands b h ∙ f)

  pub iowrite8_rep-At :
      (bs bytes : List ℕ) (sent : List Command) (h : H)
      → At bytes sent h
      → At (bytes ++ bs) sent (iowrite8_rep q bs h)
  iowrite8_rep-At [] bytes sent h at = (at.0 ∙ sym (append-nil bytes), at.1)
  iowrite8_rep-At (b ∷ bs) bytes sent h at =
      let (e, f) =
        iowrite8_rep-At bs (bytes ++ (b ∷ [])) sent (q.writeb b h) (writeb-At b bytes sent h at) in
      (e ∙ append_assoc bytes (b ∷ []) bs, f)

  pub push_offset-At :
      (k offset : ℕ) (bytes : List ℕ) (sent : List Command) (h : H)
      → At bytes sent h
      → At (bytes ++ address_bytes k offset) sent (altera_asmip2_push_offset q k offset h)
  unfolding altera_asmip2_push_offset
  push_offset-At zero offset bytes sent h at = (at.0 ∙ sym (append-nil bytes), at.1)
  push_offset-At (suc k) offset bytes sent h at =
      let b = offset / 2 ^ (8 * k) % 2 ^ 8 in
      let (e, f) =
        push_offset-At k offset (bytes ++ (b ∷ [])) sent (q.writeb b h)
          (writeb-At b bytes sent h at) in
      (e ∙ append_assoc bytes (b ∷ []) (address_bytes k offset), f)

  pub stop-At :
      (bytes : List ℕ) (sent : List Command) (h : H)
      → At bytes sent h
      → At bytes sent (q.writel qspi_action_en h)
  stop-At bytes sent h (e, f) = (c.stop_queued h ∙ e, c.stop_commands h ∙ f)

  pub poll-At :
      (cond : ℕ → Bool) (bytes : List ℕ) (sent : List Command) (h : H)
      → At bytes sent h
      → At bytes sent (q.readl_poll_timeout cond h).1
  poll-At cond bytes sent h (e, f) = (c.poll_queued cond h ∙ e, c.poll_commands cond h ∙ f)

  pub start-At :
      (x : ℕ) (bytes : List ℕ) (sent : List Command) (h : H)
      → x / 2 % 4 ≡ 3
      → At bytes sent h
      → At [] (sent ++ (record { action = x; bytes = bytes } ∷ [])) (q.writel x h)
  start-At x bytes sent h starts (e, f) = (
    c.start_queued x h starts,
    c.start_commands x h starts
        ∙ ap (λ xs. c.commands h ++ (record { action = x; bytes = xs } ∷ [])) e
        ∙ ap (λ xs. xs ++ (record { action = x; bytes = bytes } ∷ [])) f,
  )

  ioread8_rep-At :
      (n : ℕ) (bytes : List ℕ) (sent : List Command) (h : H)
      → At bytes sent h
      → At bytes sent (ioread8_rep q n h).1
  ioread8_rep-At zero bytes sent h at = at
  ioread8_rep-At (suc n) bytes sent h (e, f) =
      ioread8_rep-At n bytes sent (q.readb h).1 (c.readb_queued h ∙ e, c.readb_commands h ∙ f)

  length-ioread8_rep : (n : ℕ) (h : H) → length (ioread8_rep q n h).0 ≡ n
  length-ioread8_rep zero h = refl
  length-ioread8_rep (suc n) h = ap suc (length-ioread8_rep n (q.readb h).1)

  -- After a timeout nothing is received.
  pub receive-At :
      (n : ℕ) (bytes : List ℕ) (sent : List Command) (r : Status × H)
      → At bytes sent r.1
      → At bytes sent (receive q n r).1 × (length (receive q n r).0 ≡ moved n r.0)
  unfolding receive
  receive-At n bytes sent (ok, h) at = (ioread8_rep-At n bytes sent h at, length-ioread8_rep n h)
  receive-At n bytes sent (err e, h) at = (at, refl)
