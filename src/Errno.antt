-- ===== src/Errno.antt =====
-- The return codes. A C function here returns 0 or a negative errno; the model writes the
-- absolute value, so 0 is success and any other number is the failure that it names.
use google_modules_lwis.Prelude.{ℕ}

abbrev pub eperm : ℕ
eperm = 1

abbrev pub enoent : ℕ
enoent = 2

abbrev pub enomem : ℕ
enomem = 12

abbrev pub efault : ℕ
efault = 14

abbrev pub einval : ℕ
einval = 22

abbrev pub enosys : ℕ
enosys = 38

abbrev pub eoverflow : ℕ
eoverflow = 75

abbrev pub etimedout : ℕ
etimedout = 110

abbrev pub ecanceled : ℕ
ecanceled = 125

abbrev pub enodev : ℕ
enodev = 19

abbrev pub ebadf : ℕ
ebadf = 9

abbrev pub eproto : ℕ
eproto = 71

abbrev pub eagain : ℕ
eagain = 11
