-- ===== src/Errors.antt =====
-- include/ucxpp/error.h. An exception is a value that keeps what `throw_with` formats; the text that
-- `snprintf` makes of it, and its cut at 1024 bytes, are left out.
use ucxpp.Base.{ℕ, ◌≡◌, refl, String, Bool, true, false, ◌==◌, if◌then◌else◌}
use ucxpp.Base.Int.{ℤ, is_negative, is_zero}

-- `ucs_status_t`: the three codes that the source names, and every other code by a number.
pub data Status : Type 0 where
  ucs_ok ucs_inprogress ucs_err_busy : Status
  ucs_err : ℕ → Status

-- `std::runtime_error`, by the overload of `throw_with` and its arguments.
pub data RuntimeError : Type 0 where
  plain : String → RuntimeError
  with_status : String → Status → RuntimeError
  with_rc : String → ℤ → RuntimeError
  with_errno : String → ℕ → RuntimeError

pub data Result {ℓ} (A : Type ℓ) : Type ℓ where
  ok : A → Result A
  err : RuntimeError → Result A

unfoldable pub check_ucs_status : Status → String → Result (Unit {0})
check_ucs_status ucs_ok message = ok tt
check_ucs_status ucs_inprogress message = ok tt
check_ucs_status ucs_err_busy message = err (with_status message ucs_err_busy)
check_ucs_status (ucs_err n) message = err (with_status message (ucs_err n))

unfoldable pub check_rc : ℤ → String → Result (Unit {0})
check_rc rc message = if is_zero rc then ok tt else err (with_rc message rc)

-- `errno` is what the C library holds at the time of the call; a null pointer is 0.
unfoldable pub check_ptr : (errno ptr : ℕ) → String → Result (Unit {0})
check_ptr errno ptr message = if ptr == 0 then err (with_errno message errno) else ok tt

unfoldable pub check_errno : (errno : ℕ) → ℤ → String → Result (Unit {0})
check_errno errno rc message = if is_negative rc then err (with_errno message errno) else ok tt

-- Whether `check_ucs_status` returns.
abbrev pub succeeded : Status → Bool
succeeded ucs_ok = true
succeeded ucs_inprogress = true
succeeded ucs_err_busy = false
succeeded (ucs_err n) = false

-- The check throws for every status but UCS_OK and UCS_INPROGRESS, and the exception names the status.
pub check_ucs_status-succeeded :
    (s : Status) (message : String)
    → check_ucs_status s message ≡ (if succeeded s then ok tt else err (with_status message s))
unfolding check_ucs_status
check_ucs_status-succeeded ucs_ok message = refl
check_ucs_status-succeeded _ message = refl
