-- ===== src/Tests.antt =====
-- Concrete objects on which the theorems are applied and the definitions run.
mod Wire
mod Coroutines
mod Owners
mod Contexts
mod Counters
mod Waits
mod Meetings
mod Loops
mod Sessions
mod Serving
mod Mains
mod Sockets
mod Programs
use ucxpp.Base.{
  ℕ, ◌≡◌, refl, ap, sym, ◌∙◌, List, [], ◌∷◌, Bool, true, false, none, ltb, ◌==◌, if◌then◌else◌,
  ◌&&◌, not, ◌^◌, arith,
}
use ucxpp.Base.Int.{ℤ, negsuc}
use ucxpp.Errors.{Status, ucs_ok, ucs_err, succeeded}
use ucxpp.Awaitable.{StatusPtrs}
use ucxpp.Context.{Feature, wakeup, tag, stream, am, rma, amo32, amo64, Context}
use ucxpp.Context.Features.{IsFlags}
use ucxpp.Worker.{Worker}
use ucxpp.Address.{RemoteAddress}
use ucxpp.Endpoint.{Endpoint}

pub below-not_above : (p : ℕ) → (ltb 0 p && ltb p 1000) ≡ true → not (ltb p 1000) ≡ false
below-not_above p h = ground arith

-- Pointers below 1000 are requests, and the others error codes.
abbrev pub ucx : StatusPtrs
ucx = record {
  is_ptr = λ p. ltb 0 p && ltb p 1000;
  is_err = λ p. not (ltb p 1000);
  status = λ p. ucs_err p;
  null_ptr = refl;
  null_err = refl;
  apart = below-not_above;
  status_err = λ p h. refl;
}

abbrev bits : Feature → ℕ
bits tag = 0
bits rma = 1
bits amo32 = 2
bits amo64 = 3
bits wakeup = 4
bits stream = 5
bits am = 6

abbrev pub flag : Feature → ℕ
flag f = 2 ^ bits f

abbrev feature : ℕ → Feature
feature n =
    if n == 0
    then tag
    else if n == 1
    then rma
    else if n == 2
    then amo32
    else if n == 3
    then amo64
    else if n == 4
    then wakeup
    else if n == 5
    then stream
    else am

feature-bits : (f : Feature) → feature (bits f) ≡ f
feature-bits tag = refl
feature-bits rma = refl
feature-bits amo32 = refl
feature-bits amo64 = refl
feature-bits wakeup = refl
feature-bits stream = refl
feature-bits am = refl

pub flags : IsFlags flag
flags = record {
  bit = bits;
  one_bit = λ f. refl;
  distinct = λ f g e. sym (feature-bits f) ∙ ap feature e ∙ feature-bits g;
}

abbrev pub ctx : Context
ctx = record { context_ = 3; features_ = 16 }

abbrev pub worker : Worker
worker = record { ctx_ = ctx; worker_ = 4; event_fd_ = negsuc 0 }

-- An endpoint that was constructed and whose `close_request_` was read as null.
abbrev pub ep : Endpoint
ep = record {
  worker_ = worker;
  ep_ = 5;
  close_request_ = none;
  peer_ = record { address_ = 1 ∷ 2 ∷ [] };
}
