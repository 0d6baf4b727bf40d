-- ===== src/Batch/Run.antt =====
-- `batchRead` and `batchWrite` of `src/OPCUAPacking/ua.cpp`: the preparation, the attempts and the
-- two operations.
use net_way.Prelude.{
  ℕ, zero, suc, ◌+◌, ◌%◌, ◌^◌, not, ◌||◌, List, ltb, ◌==◌, length, if◌then◌else◌, Option, none,
  some,
}
use net_way.RichError.{
  ErrorCode, Result, ok, err, invalid_argument, internal_error, not_connected, already_terminated,
  budget_exceeded, service_retry_exhausted,
}
use net_way.Sdk.{Sdk}
use net_way.Impl.{State, get_effective_stop_signal, is_healthy_cached, call, now_ms_impl}
use net_way.Impl.Rounds.{on_impl, enter_task, leave_task}
use net_way.Impl.Watchdog.{delay_function}
use net_way.Batch.{
  NodeName, NodeId, WriteValue, ReadResult, WriteResult, Services, refusal, read_answer,
  write_answer, read_request, write_request, connection_lost_status,
}

module _ {W : Type 0} (lib : Services W) (sdk : Sdk W) where
  -- What both operations do first: the guards, the array, the request, and the look at the client
  -- and the stop signal that precedes the call of the service.
  unfoldable pub prepared :
      {V R : Type 0}
      → (W → List V → Result R ErrorCode)
      → List V
      → State W
      → Result R ErrorCode × State W
  prepared request nodes s = elim (refusal s.impl) [
    | some e ↦ (err e, s)
    | none ↦
        if length nodes == 0
        then (err invalid_argument, s)
        else if not (is_healthy_cached sdk s.impl)
        then (err not_connected, s)
        else let (array, s1) = call sdk (lib.array_new (length nodes)) s in
          if not array then (err internal_error, s1) else elim (request s1.world nodes) [
            | err e ↦ (err e, s1)
            | ok r ↦
                if not s1.m_impl || get_effective_stop_signal s1.impl
                then (err already_terminated, s1)
                else (ok r, s1)
          ]
  ]

  -- `for (retry = 0; retry < attempts; ++retry)` of `batchRead`, on the attempts that are left.
  -- The fuel is that of one backoff delay.
  unfoldable pub read_attempts :
      (fuel : ℕ)
      → List NodeId
      → List (ℕ × NodeName)
      → (start : ℕ) → (left retry : ℕ) → State W
      → Option (Result (List ReadResult) ErrorCode × State W)
  read_attempts fuel nodes request start zero retry s = some (err internal_error, s)
  read_attempts fuel nodes request start (suc left) retry s =
      let (now, s1) = now_ms_impl sdk s in
      if get_effective_stop_signal s.impl
      then some (err already_terminated, s)
      else if ltb (start + s.m_config.max_total_wait_ms) now
      then some (err budget_exceeded, s1)
      else elim (refusal s1.impl) [
        | some e ↦ some (err e, s1)
        | none ↦
            let (response, s2) = call sdk (lib.service_read request) s1 in
            if connection_lost_status lib response.service_result
            then if retry == s2.m_config.max_retries
              then some (err service_retry_exhausted, s2)
              else elim (delay_function sdk fuel retry s2) [
                | none ↦ none
                | some s3 ↦ read_attempts fuel nodes request start left (retry + 1) s3
              ]
            else some (read_answer sdk nodes response, s2)
      ]

  unfoldable pub batch_read :
      ℕ → List NodeId → State W → Option (Result (List ReadResult) ErrorCode × State W)
  batch_read fuel nodes s =
      if get_effective_stop_signal s.impl
      then some (err already_terminated, s)
      else let (r, s1) = prepared (λ w. read_request lib w 0) nodes (on_impl enter_task s) in
        elim r [
          | err e ↦ some (err e, on_impl leave_task s1)
          | ok request ↦
              let attempts = (s1.m_config.max_retries + 1) % 2 ^ 32 in
              let (start, s2) = now_ms_impl sdk s1 in
              elim (read_attempts fuel nodes request start attempts 0 s2) [
                | none ↦ none
                | some (r, s3) ↦ some (r, on_impl leave_task s3)
              ]
        ]

  unfoldable pub batch_write :
      List WriteValue → State W → Result (List WriteResult) ErrorCode × State W
  batch_write nodes s =
      if get_effective_stop_signal s.impl
      then (err already_terminated, s)
      else let (r, s1) = prepared (λ w. write_request lib w 0) nodes (on_impl enter_task s) in
        elim r [
          | err e ↦ (err e, on_impl leave_task s1)
          | ok request ↦ elim (refusal s1.impl) [
            | some e ↦ (err e, on_impl leave_task s1)
            | none ↦
                let (response, s2) = call sdk (lib.service_write request) s1 in
                (write_answer sdk (length nodes) response, on_impl leave_task s2)
          ]
        ]
