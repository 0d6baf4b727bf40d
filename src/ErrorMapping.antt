-- ===== src/ErrorMapping.antt =====
-- `toRichErrorCode` of `src/OPCUAPacking/ua.cpp`, the code under which the public interface reports an
-- inner error, for `connect` and for `disconnect`.
pub mod Texts
pub mod StatusName
use net_way.Prelude.{◌≡◌, ◌≢◌, arith}
use net_way.RichError.{
  ErrorCode, already_terminated, not_initialized, thread_busy, service_failed, connect_timeout,
  disconnect_timeout, unknown, internal_error, sdk_error, no_error,
}
use net_way.Impl.{ConnectErrorState, DisconnectErrorState}

unfoldable pub connect_error_code : ConnectErrorState → ErrorCode
connect_error_code ConnectErrorState.shutdown = already_terminated
connect_error_code ConnectErrorState.nullptr = not_initialized
connect_error_code ConnectErrorState.threadbusy = thread_busy
connect_error_code ConnectErrorState.connect_failed = service_failed
connect_error_code ConnectErrorState.timeout_notconnect = connect_timeout
connect_error_code ConnectErrorState.unknown = unknown

unfoldable pub disconnect_error_code : DisconnectErrorState → ErrorCode
disconnect_error_code DisconnectErrorState.shutdown = already_terminated
disconnect_error_code DisconnectErrorState.nullptr = not_initialized
disconnect_error_code DisconnectErrorState.threadbusy = thread_busy
disconnect_error_code DisconnectErrorState.timeout_notdisconnect = disconnect_timeout
disconnect_error_code DisconnectErrorState.disconnect_fail = service_failed
disconnect_error_code DisconnectErrorState.unknown = unknown

-- What the `catch` clauses of the interface and of the watchdog tell apart.
pub data Exception : Type 0 where
  bad_alloc system_error std_exception anything : Exception

-- The code that the interface reports.
unfoldable pub caught : Exception → ErrorCode
caught bad_alloc = internal_error
caught system_error = sdk_error
caught std_exception = internal_error
caught anything = unknown

-- No cause is lost: different inner errors of an operation get different codes, none is reported as
-- OK, and the code of a time-out of one operation is never one of the other operation.
pub error_codes_differ :
    (a b : ConnectErrorState) (c d : DisconnectErrorState)
    → (connect_error_code a ≡ connect_error_code b → a ≡ b)
      × (disconnect_error_code c ≡ disconnect_error_code d → c ≡ d)
      × (connect_error_code a ≢ no_error)
      × (disconnect_error_code c ≢ no_error)
      × (connect_error_code ConnectErrorState.timeout_notconnect ≢ disconnect_error_code c)
      × (disconnect_error_code DisconnectErrorState.timeout_notdisconnect ≢ connect_error_code a)
unfolding connect_error_code disconnect_error_code
error_codes_differ a b c d = (
  λ h. ground arith,
  λ h. ground arith,
  λ h. ground arith,
  λ h. ground arith,
  λ h. ground arith,
  λ h. ground arith,
)
