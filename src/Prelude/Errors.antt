-- ===== src/Prelude/Errors.antt =====
-- base/error.h: Status<T> is a value or an error number. `other` carries an error of the host
-- kernel.
use Prim.Native.Nat.{ℕ}

pub data Errno : Type 0 where
  eagain ebadf eintr einval enoent enomem epipe etimedout : Errno
  other : ℕ → Errno

pub data Status {ℓ} (A : Type ℓ) : Type ℓ where
  ok : A → Status A
  err : Errno → Status A
