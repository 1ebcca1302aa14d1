-- ===== src/Errno/Results.antt =====
-- What gb_errno_to_op_result returns.
use greybus_for_zephyr.Base.{◌≡◌, ◌↔◌, ℤ, pos, negsuc, negate, magnitude-negate, arith}
use greybus_for_zephyr.Errno.{Errno, gb_errno_to_op_result}
use greybus_for_zephyr.OpResult

module _ ⦃e : Errno⦄ where
  -- The sign of the error makes no difference.
  pub errno_symmetric : (err : ℤ) → gb_errno_to_op_result (negate err) ≡ gb_errno_to_op_result err
  unfolding gb_errno_to_op_result
  errno_symmetric err = rw magnitude-negate

  -- Whatever values the platform's error numbers have, 0 gives GB_OP_SUCCESS and nothing else does.
  pub errno_success : (err : ℤ) → (gb_errno_to_op_result err ≡ OpResult.success) ↔ (err ≡ pos 0)
  unfolding gb_errno_to_op_result
  errno_success (pos n) = (λ h. ground arith, λ h. ground arith)
  errno_success (negsuc n) = (λ h. ground arith, λ h. ground arith)
