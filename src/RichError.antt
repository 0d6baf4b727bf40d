-- ===== src/RichError.antt =====
-- `include/Rust_error_deal/error_deal.h`: the error codes and the `Result` type with its
-- combinators. A `RichError` is kept as its code; the message text is left out.
pub mod Laws
use net_way.Prelude.{◌≡◌, refl, Bool, true, false, Option, none, some}

pub data ErrorCode : Type 0 where
  invalid_state recreating givenup_ing not_given_up already_terminated not_initialized : ErrorCode
  invalid_argument invalid_config type_mismatch type_notsupport conversion_failed : ErrorCode
  not_connected connect_timeout session_not_activated channel_not_open : ErrorCode
  channel_not_closed disconnect_timeout : ErrorCode
  thread_busy in_flight_timeout budget_exceeded : ErrorCode
  service_failed service_retry_exhausted sdk_error : ErrorCode
  internal_error unknown no_error : ErrorCode

-- The `std::variant<T, E>` inside a `Result`.
pub data Result (T E : Type 0) : Type 0 where
  ok : T → Result T E
  err : E → Result T E

module _ {T E : Type 0} where
  unfoldable pub is_success : Result T E → Bool
  is_success (ok t) = true
  is_success (err e) = false

  unfoldable pub is_fail : Result T E → Bool
  is_fail (ok t) = false
  is_fail (err e) = true

  unfoldable pub get : Result T E → Option T
  get (ok t) = some t
  get (err e) = none

  unfoldable pub get_error : Result T E → Option E
  get_error (ok t) = none
  get_error (err e) = some e

  unfoldable pub value_or : Result T E → T → T
  value_or (ok t) d = t
  value_or (err e) d = d

  unfoldable pub map : {R : Type 0} → (T → R) → Result T E → Result R E
  map f (ok t) = ok (f t)
  map f (err e) = err e

  unfoldable pub map_err : {F : Type 0} → (E → F) → Result T E → Result T F
  map_err f (ok t) = ok t
  map_err f (err e) = err (f e)

  unfoldable pub and_then : {R : Type 0} → (T → Result R E) → Result T E → Result R E
  and_then f (ok t) = f t
  and_then f (err e) = err e

  unfoldable pub or_else : {F : Type 0} → (E → Result T F) → Result T E → Result T F
  or_else f (ok t) = ok t
  or_else f (err e) = f e

  unfoldable pub map_or : {R : Type 0} → (T → R) → R → Result T E → R
  map_or f d (ok t) = f t
  map_or f d (err e) = d

  unfoldable pub map_or_else : {R : Type 0} → (T → R) → (Unit {0} → R) → Result T E → R
  map_or_else f d (ok t) = f t
  map_or_else f d (err e) = d tt
