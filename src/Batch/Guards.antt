-- ===== src/Batch/Guards.antt =====
-- The tests with which `batchRead` and `batchWrite` begin.
use net_way.Prelude.{ℕ, ◌≡◌, ◌≢◌, true, false, List, [], some, arith}
use net_way.RichError.{
  ErrorCode, err, invalid_argument, not_connected, thread_busy, already_terminated,
}
use net_way.Life.{running, recovering}
use net_way.Sdk.{Sdk}
use net_way.Impl.{State, idle, connecting, get_effective_stop_signal, is_healthy_cached}
use net_way.Impl.Rounds.{enter_task, leave_task}
use net_way.Batch.{NodeId, WriteValue, Services, refusal}
use net_way.Batch.Run.{prepared, batch_read, batch_write}

module _ {W : Type 0} (lib : Services W) (sdk : Sdk W) where
  -- Both operations fail with the error and leave the client and the library as they were.
  abbrev pub AreRefused : List NodeId → List WriteValue → State W → ErrorCode → Type 0
  AreRefused ns vs s e =
      ((fuel : ℕ) → batch_read lib sdk fuel ns s ≡ some (err e, s))
      × (batch_write lib sdk vs s ≡ (err e, s))

  -- `batchRead` and `batchWrite` are refused alike, without a call of the library and with the
  -- client left as it was: ALREADY_TERMINATED under the stop signal (a shutdown, or GIVEN_UP), else
  -- NOT_CONNECTED while the client is RECOVERING, else THREAD_BUSY while the connection slot is
  -- taken, else INVALID_ARGUMENT for an empty batch, else NOT_CONNECTED if the cached state is not
  -- healthy.
  pub batch_refused :
      (ns : List NodeId) (vs : List WriteValue) (s : State W)
      → (get_effective_stop_signal s.impl ≡ true → AreRefused ns vs s already_terminated)
        × (get_effective_stop_signal s.impl ≡ false
            → (s.m_life_state ≡ recovering → AreRefused ns vs s not_connected)
              × (s.m_life_state ≡ running
                  → (s.m_conn_state ≡ connecting → AreRefused ns vs s thread_busy)
                    × (s.m_conn_state ≡ idle
                        → AreRefused [] [] s invalid_argument
                          × (ns ≢ []
                              → vs ≢ []
                              → is_healthy_cached sdk s.impl ≡ false
                              → AreRefused ns vs s not_connected))))
  unfolding batch_read batch_write prepared refusal enter_task leave_task is_healthy_cached
  batch_refused ns vs s = (
    λ h. (λ fuel. ground arith, ground arith),
    λ h. (
      λ r. (λ fuel. ground arith, ground arith),
      λ r. (
        λ c. (λ fuel. ground arith, ground arith),
        λ c. ((λ fuel. ground arith, ground arith), λ n v u. (λ fuel. ground arith, ground arith)),
      ),
    ),
  )
