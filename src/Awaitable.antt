-- ===== src/Awaitable.antt =====
-- include/ucxpp/awaitable.h: what all awaitables share.
pub mod Send
pub mod StreamRecv
pub mod TagRecv
pub mod Protocol
pub mod Cancel
use ucxpp.Base.{arith, ℕ, ◌≡◌, Bool, true, false, if◌then◌else◌}
use ucxpp.Errors.{Status, ucs_ok, ucs_inprogress, succeeded}

-- UCS_PTR_IS_PTR, UCS_PTR_IS_ERR and UCS_PTR_STATUS of UCX. A pointer that a non-blocking call
-- returns is null (done), a request, or an error code; no error code is UCS_OK or UCS_INPROGRESS.
pub record StatusPtrs : Type 0 where
  pub is_ptr : ℕ → Bool
  pub is_err : ℕ → Bool
  pub status : ℕ → Status
  pub null_ptr : is_ptr 0 ≡ false
  pub null_err : is_err 0 ≡ false
  pub apart : (p : ℕ) → is_ptr p ≡ true → is_err p ≡ false
  pub status_err : (p : ℕ) → is_err p ≡ true → succeeded (status p) ≡ false

-- `base_awaitable`. A coroutine is a number, and 0 is `nullptr`.
pub record Base : Type 0 where
  pub h_ : ℕ
  pub status_ : Status

-- `base_awaitable::base_awaitable`
abbrev pub base : Base
base = record { h_ = 0; status_ = ucs_ok }

-- `status_ == UCS_INPROGRESS`
abbrev pub is_inprogress : Status → Bool
is_inprogress ucs_inprogress = true
is_inprogress _ = false

-- `base_awaitable::check_request_ready`
unfoldable pub check_request_ready : StatusPtrs → Base → (request : ℕ) → Bool × Base
check_request_ready ucx b request =
    if ucx.is_ptr request
    then (false, record b { status_ = ucs_inprogress })
    else if ucx.is_err request
    then (true, record b { status_ = ucx.status request })
    else (true, record b { status_ = ucs_ok })

module _ (ucx : StatusPtrs) (b : Base) (request : ℕ) where
  pub check_request_ready-ptr :
      ucx.is_ptr request ≡ true
      → check_request_ready ucx b request ≡ (false, record b { status_ = ucs_inprogress })
  unfolding check_request_ready
  check_request_ready-ptr h = rw h

  pub check_request_ready-err :
      ucx.is_err request ≡ true
      → check_request_ready ucx b request ≡ (true, record b { status_ = ucx.status request })
  unfolding check_request_ready
  check_request_ready-err h = ground (arith, ucx.apart request)

  pub check_request_ready-null :
      ucx.is_ptr request ≡ false
      → ucx.is_err request ≡ false
      → check_request_ready ucx b request ≡ (true, record b { status_ = ucs_ok })
  unfolding check_request_ready
  check_request_ready-null h e = rw (h, e)

-- `await_suspend`, which every awaitable of the library spells the same way: whether to stay
-- suspended.
unfoldable pub await_suspend : Base → (h : ℕ) → Bool × Base
await_suspend b h = (is_inprogress b.status_, record b { h_ = h })
