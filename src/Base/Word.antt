-- ===== src/Base/Word.antt =====
-- Machine words as native numbers, and the page arithmetic of the kernel (4 KiB pages).
use Prim.Native.Nat.{ℕ, ◌+◌, ◌-◌, ◌*◌, ◌/◌, ◌%◌, ◌^◌}
use mathlib.Core.Bool.{Bool}
use opae_intel_fpga_driver.Base.Tests.{◌==◌, ltb, if◌then◌else◌}

abbrev pub u8 : ℕ → ℕ
u8 n = n % 2 ^ 8

abbrev pub u32 : ℕ → ℕ
u32 n = n % 2 ^ 32

abbrev pub u64 : ℕ → ℕ
u64 n = n % 2 ^ 64

-- The rounds of a loop `for (i = 0; i < n; i++)` whose bound is `n` converted to `int`:
-- none when the conversion is negative.
abbrev pub int_rounds : ℕ → ℕ
int_rounds n = if ltb (u32 n) (2 ^ 31) then u32 n else 0

abbrev pub page_shift : ℕ
page_shift = 12

abbrev pub page_size : ℕ
page_size = 4096

-- PAGE_ALIGNED(n)
abbrev pub page_aligned : ℕ → Bool
page_aligned n = n % page_size == 0

-- PAGE_ALIGN(n) on a u64: it wraps to 0 for the last page.
abbrev pub page_align : ℕ → ℕ
page_align n = u64 (n + (page_size - 1)) / page_size * page_size
