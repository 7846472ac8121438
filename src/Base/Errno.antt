-- ===== src/Base/Errno.antt =====
-- What a kernel function returns: 0, or a negative error number.
use Prim.Native.Nat.{ℕ}
use mathlib.Core.Bool.{Bool, true, false}

pub data Status : Type 0 where
  ok : Status
  err : ℕ → Status

abbrev pub is_err : Status → Bool
is_err ok = false
is_err (err e) = true

abbrev pub eperm : ℕ
eperm = 1

abbrev pub eio : ℕ
eio = 5

abbrev pub enomem : ℕ
enomem = 12

abbrev pub efault : ℕ
efault = 14

abbrev pub ebusy : ℕ
ebusy = 16

abbrev pub eexist : ℕ
eexist = 17

abbrev pub enodev : ℕ
enodev = 19

abbrev pub einval : ℕ
einval = 22

abbrev pub etimedout : ℕ
etimedout = 110
