-- ===== src/Errors/Tests.antt =====
-- A device with one error bit per register, and the clearing of errors on it.
use opae_intel_fpga_driver.Base.{
  ℕ, zero, suc, ◌^◌, ◌<◌, ◌≡◌, ◌≢◌, refl, sym, ap, ◌∙◌, arith, inl, inr, Bool, true, false, not,
  ◌&&◌, Bool-cases, Option, none, some, if◌then◌else◌, ◌==◌, ==_iff, ==_refl, ok, err, ebusy,
}
use native.Mathlib.Nat.{one-le-pow, pow-suc, div-eq_of_lt}
use opae_intel_fpga_driver.Csr.{get_field, set_field}
use opae_intel_fpga_driver.Mmio.{
  Reg, Bus, poll, fpga_wait_register_field, fme_err_mask, fme_err, pcie0_err_mask, pcie0_err,
  pcie1_err_mask, pcie1_err, port_error_mask, port_error,
}
use opae_intel_fpga_driver.FeatureDev.PortReset.{
  PortDev, fpga_port_disable, fpga_port_enable, write_sftrst, wait_sftrst_ack,
}
use opae_intel_fpga_driver.Errors.{
  clear_store, port_err_clear, after_halt, clear_matching, clear_both, port_err_mask,
}
use opae_intel_fpga_driver.Errors.Clear.{bit, ErrorReg}

record Cell : Type 0 where
  flag : Bool
  mask : ℕ

abbrev Board : Type 0
Board = ℕ → Cell

-- The number of a register's cell, and whether it is the cell's mask.
abbrev slot : Reg → Option (ℕ × Bool)
slot fme_err = some (0, false)
slot fme_err_mask = some (0, true)
slot pcie0_err = some (1, false)
slot pcie0_err_mask = some (1, true)
slot pcie1_err = some (2, false)
slot pcie1_err_mask = some (2, true)
slot port_error = some (3, false)
slot port_error_mask = some (3, true)
slot _ = none

abbrev of_flag : Bool → ℕ
of_flag true = 1
of_flag false = 0

-- The other registers read as the acknowledge bit of a port's control register.
abbrev shown_in : Option (ℕ × Bool) → Board → ℕ
shown_in none b = 16
shown_in (some (k, true)) b = (b k).mask
shown_in (some (k, false)) b = of_flag (b k).flag

abbrev write_in : Option (ℕ × Bool) → ℕ → Board → Board
write_in none v b = b
write_in (some (k, true)) v b = λ j. if j == k then record { flag = (b j).flag; mask = v } else b j
write_in (some (k, false)) v b =
    λ j. if j == k then record { flag = (b j).flag && not (bit 0 v); mask = (b j).mask } else b j

abbrev board_bus : Bus Board
board_bus = record {
  readq = λ r b. (shown_in (slot r) b, b);
  writeq = λ r v b. write_in (slot r) v b;
  udelay = λ t b. b;
}

-- The registers of a cell.
abbrev register_of : ℕ → Bool → Reg
register_of k false =
    if k == 0
    then fme_err
    else if k == 1
    then pcie0_err
    else if k == 2
    then pcie1_err
    else port_error
register_of k true =
    if k == 0
    then fme_err_mask
    else if k == 1
    then pcie0_err_mask
    else if k == 2
    then pcie1_err_mask
    else port_error_mask

abbrev IsAt : Reg → Option (ℕ × Bool) → Type 0
IsAt q none = Unit {0}
IsAt q (some (k, b)) = q ≡ register_of k b

slot-IsAt : (q : Reg) → IsAt q (slot q)
slot-IsAt fme_err = refl
slot-IsAt fme_err_mask = refl
slot-IsAt pcie0_err = refl
slot-IsAt pcie0_err_mask = refl
slot-IsAt pcie1_err = refl
slot-IsAt pcie1_err_mask = refl
slot-IsAt port_error = refl
slot-IsAt port_error_mask = refl
slot-IsAt _ = tt

abbrev pending_in : ℕ → ℕ → Board → Bool
pending_in k i b = if i == 0 then (b k).flag else false

small_flag : (i : ℕ) (f : Bool) → of_flag f < 2 ^ suc i
small_flag i true = omega (arith, one-le-pow i 2, pow-suc 2 i)
small_flag i false = omega (arith, one-le-pow i 2, pow-suc 2 i)

not_zero : (i : ℕ) → (suc i == 0) ≡ false
not_zero i = ground arith

cleared_bit :
    (i v : ℕ) (f : Bool)
    → (if i == 0 then f && not (bit 0 v) else false)
      ≡ ((if i == 0 then f else false) && not (bit i v))
cleared_bit zero v f = refl
cleared_bit (suc i) v f = rw (not_zero i) refl

of_flag-bit : (i : ℕ) (f : Bool) → bit i (of_flag f) ≡ (if i == 0 then f else false)
unfolding get_field
of_flag-bit zero true = refl
of_flag-bit zero false = refl
of_flag-bit (suc i) f =
    let small : of_flag f < 2 ^ suc i = small_flag i f in rw (div-eq_of_lt small, not_zero i) refl

write_in-mask :
    (o : Option (ℕ × Bool)) (q : Reg) (k v : ℕ) (b : Board)
    → IsAt q o
    → q ≢ register_of k true
    → (write_in o v b k).mask ≡ (b k).mask
write_in-mask none q k v b at ne = refl
write_in-mask (some (j, true)) q k v b at ne = elim (Bool-cases (k == j)) [
  | inl e ↦ absurd (ne (at ∙ ap (λ x. register_of x true) (sym ((==_iff k j).0 e))))
  | inr e ↦ rw e refl
]
write_in-mask (some (j, false)) q k v b at ne = elim (Bool-cases (k == j)) [
  | inl e ↦ rw e refl
  | inr e ↦ rw e refl
]

write_in-flag :
    (o : Option (ℕ × Bool)) (q : Reg) (k v : ℕ) (b : Board)
    → IsAt q o
    → q ≢ register_of k false
    → (write_in o v b k).flag ≡ (b k).flag
write_in-flag none q k v b at ne = refl
write_in-flag (some (j, false)) q k v b at ne = elim (Bool-cases (k == j)) [
  | inl e ↦ absurd (ne (at ∙ ap (λ x. register_of x false) (sym ((==_iff k j).0 e))))
  | inr e ↦ rw e refl
]
write_in-flag (some (j, true)) q k v b at ne = elim (Bool-cases (k == j)) [
  | inl e ↦ rw e refl
  | inr e ↦ rw e refl
]

cell :
    (k : ℕ)
    → slot (register_of k false) ≡ some (k, false)
    → slot (register_of k true) ≡ some (k, true)
    → (full : ℕ) → ErrorReg board_bus (register_of k false) (register_of k true) full
cell k at_error at_mask full = record {
  pending = pending_in k;
  mask = λ b. (b k).mask;
  read = λ i b. rw at_error (of_flag-bit i (b k).flag);
  mask_self = λ v b. rw at_mask (rw (==_refl k) refl);
  mask_readq = λ q b. refl;
  mask_writeq = λ q v b nm. write_in-mask (slot q) q k v b (slot-IsAt q) nm;
  quiet_readq = λ q i b m. refl;
  quiet_writeq = λ q v i b m nr nm.
      ap (λ f. if i == 0 then f else false) (write_in-flag (slot q) q k v b (slot-IsAt q) nr);
  clears = λ v i b m. rw at_error (rw (==_refl k) (cleared_bit i v (b k).flag));
}

abbrev board : Board
board = λ k. record { flag = true; mask = 0 }

abbrev port : PortDev Board
port = record { disable_count = 0; hw = board }

-- A store that names another error than the pending one is refused, and clears nothing.
refused_run :
    let r = clear_store board_bus (some 2) board in
    (r.0 ≡ err ebusy) × ((r.1 0).flag ≡ true) × ((r.1 0).mask ≡ 0x40)
unfolding clear_store
refused_run = (refl, refl, refl)

cleared_run :
    let r = port_err_clear board_bus 1 port in
    (r.0 ≡ ok) × ((r.1.hw 3).flag ≡ false) × (r.1.disable_count ≡ 0)
unfolding port_err_clear after_halt clear_matching clear_both port_err_mask fpga_port_disable
    fpga_port_enable write_sftrst wait_sftrst_ack fpga_wait_register_field poll get_field set_field
cleared_run = (refl, refl, refl)

abbrev fme_cell : ErrorReg board_bus fme_err fme_err_mask 0xFF
fme_cell = cell 0 refl refl 0xFF

abbrev pcie0_cell : ErrorReg board_bus pcie0_err pcie0_err_mask 0xFF
pcie0_cell = cell 1 refl refl 0xFF

abbrev pcie1_cell : ErrorReg board_bus pcie1_err pcie1_err_mask 0xFF
pcie1_cell = cell 2 refl refl 0xFF

abbrev port_cell : ErrorReg board_bus port_error port_error_mask 0xfff0703ff001f
port_cell = cell 3 refl refl 0xfff0703ff001f
