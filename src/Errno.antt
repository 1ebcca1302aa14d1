-- ===== src/Errno.antt =====
-- The error numbers of errno.h, which the platform's C library defines, and
-- gb_errno_to_op_result of subsys/greybus/greybus-core.c.
pub mod Results
use greybus_for_zephyr.Base.{
  ℕ, zero, suc, ◌<◌, ◌≡◌, refl, Bool, true, false, ◌||◌, ◌==◌, if◌then◌else◌, ℤ, magnitude, arith,
}
use greybus_for_zephyr.OpResult

-- The values that the source names. POSIX makes them positive.
pub record Errno : Type 0 where
  pub enomem : ℕ
  pub eintr : ℕ
  pub etimedout : ℕ
  pub eproto : ℕ
  pub enosys : ℕ
  pub einval : ℕ
  pub eoverflow : ℕ
  pub enodev : ℕ
  pub enxio : ℕ
  pub ebusy : ℕ
  pub eexist : ℕ
  pub enetdown : ℕ
  pub enotsup : ℕ
  pub enotconn : ℕ
  pub eio : ℕ
  pub ebadf : ℕ
  pub enoent : ℕ
  pub ealready : ℕ

-- What POSIX says of the values: each is above 0.
pub record IsPositive (e : Errno) : Type 0 where
  pub enomem_pos : 0 < e.enomem
  pub eintr_pos : 0 < e.eintr
  pub etimedout_pos : 0 < e.etimedout
  pub eproto_pos : 0 < e.eproto
  pub enosys_pos : 0 < e.enosys
  pub einval_pos : 0 < e.einval
  pub eoverflow_pos : 0 < e.eoverflow
  pub enodev_pos : 0 < e.enodev
  pub enxio_pos : 0 < e.enxio
  pub ebusy_pos : 0 < e.ebusy
  pub eexist_pos : 0 < e.eexist
  pub enetdown_pos : 0 < e.enetdown
  pub enotsup_pos : 0 < e.enotsup
  pub enotconn_pos : 0 < e.enotconn
  pub eio_pos : 0 < e.eio
  pub ebadf_pos : 0 < e.ebadf
  pub enoent_pos : 0 < e.enoent
  pub ealready_pos : 0 < e.ealready

module _ ⦃e : Errno⦄ where
  -- The switch: every case but 0 stands there as `E` and as `-E`.
  unfoldable pub gb_errno_to_op_result : ℤ → ℕ
  gb_errno_to_op_result err =
      let n = magnitude err in
      if n == 0
      then OpResult.success
      else if n == e.enomem
      then OpResult.no_memory
      else if n == e.eintr
      then OpResult.interrupted
      else if n == e.etimedout
      then OpResult.timeout
      else if n == e.eproto || n == e.enosys
      then OpResult.protocol_bad
      else if n == e.einval
      then OpResult.invalid
      else if n == e.eoverflow
      then OpResult.overflow
      else if n == e.enodev || n == e.enxio
      then OpResult.nonexistent
      else if n == e.ebusy
      then OpResult.retry
      else OpResult.unknown_error
