-- ===== src/Client/Api.antt =====
-- The calls of `OPC_UA_Client` in `src/OPCUAPacking/ua.cpp` that run under a lease.
pub mod Gates
pub mod Laws
pub mod Session
use net_way.Prelude.{ℕ, Bool, if◌then◌else◌, Option, none, some, List}
use net_way.RichError.{
  ErrorCode, Result, ok, err, map_err, not_connected, already_terminated, not_initialized,
}
use net_way.Life.{LifeState}
use net_way.Sdk.{Sdk}
use net_way.Impl.{State, get_effective_stop_signal, set_give_up_signal, is_healthy_cached}
use net_way.Impl.Connected.{is_connected}
use net_way.Impl.Connect.{connect}
use net_way.Impl.Disconnect.{disconnect}
use net_way.Impl.Watchdog.{do_watchdog_decision}
use net_way.Batch.{NodeId, WriteValue, ReadResult, WriteResult, Services}
use net_way.Batch.Run.{batch_read, batch_write}
use net_way.ErrorMapping.{connect_error_code, disconnect_error_code}
use net_way.Client.{
  Client, attempt, entry, lease_enter, lease_leave, Reason, active, terminated, under_recreation,
}
use net_way.ErrorMapping.{Exception}

abbrev pub Body : (W A : Type 0) → Type 0
Body W A = State W → Option (Result A ErrorCode × State W)

module _ {W : Type 0} where
  unfoldable pub life_state_body : Body W LifeState
  life_state_body s = some (ok s.m_life_state, s)

  unfoldable pub give_up_body : Body W (Unit {0})
  give_up_body s = let (r, i) = set_give_up_signal s.impl in some (r, record s { impl = i })

  -- The test before the `try` of the two questions.
  unfoldable pub while_running :
      {A : Type 0} → (thrown : State W → Option (Exception × State W)) → Body W A → Body W A
  while_running thrown body s =
      if get_effective_stop_signal s.impl
      then some (err not_connected, s)
      else attempt thrown body s

module _ {W : Type 0} (sdk : Sdk W) where
  unfoldable pub connect_body : ℕ → Body W (Unit {0})
  connect_body fuel s = elim (connect sdk fuel s) [
    | none ↦ none
    | some (r, s1) ↦ some (map_err connect_error_code r, s1)
  ]

  unfoldable pub disconnect_body : ℕ → Body W (Unit {0})
  disconnect_body fuel s = elim (disconnect sdk fuel s) [
    | none ↦ none
    | some (r, s1) ↦ some (map_err disconnect_error_code r, s1)
  ]

  unfoldable pub connected_body : Body W (Unit {0})
  connected_body s =
      let (r, s1) = is_connected sdk 0 s in
      elim r [
        | ok healthy ↦ some (if healthy then ok tt else err not_connected, s1)
        | err e ↦ some (err (connect_error_code e), s1)
      ]

  unfoldable pub healthy_body : Body W (Unit {0})
  healthy_body s = some (if is_healthy_cached sdk s.impl then ok tt else err not_connected, s)

  unfoldable pub write_body : Services W → List WriteValue → Body W (List WriteResult)
  write_body lib nodes s = some (batch_write lib sdk nodes s)

  -- It gives no result, and does nothing where the others are refused.
  unfoldable pub pump_watchdog_for_test : ℕ → Client W → Option (Client W)
  pump_watchdog_for_test fuel c =
      let (reason, y) = lease_enter c.sync in
      elim reason [
        | terminated ↦ some c
        | under_recreation ↦ some c
        | active ↦ elim c.p_impl [
          | none ↦ some (record c { sync = lease_leave active y })
          | some i ↦ elim (do_watchdog_decision sdk fuel (record { impl = i; world = c.world })) [
            | none ↦ none
            | some s ↦
                some (record { sync = lease_leave active y; p_impl = some s.impl; world = s.world })
          ]
        ]
      ]

module _ {W : Type 0} (sdk : Sdk W) (thrown : State W → Option (Exception × State W)) where
  unfoldable pub api_connect : ℕ → Client W → Option (Result (Unit {0}) ErrorCode × Client W)
  api_connect fuel = entry already_terminated (attempt thrown (connect_body sdk fuel))

  unfoldable pub api_disconnect : ℕ → Client W → Option (Result (Unit {0}) ErrorCode × Client W)
  api_disconnect fuel = entry already_terminated (attempt thrown (disconnect_body sdk fuel))

  unfoldable pub check_connected : Client W → Option (Result (Unit {0}) ErrorCode × Client W)
  check_connected = entry already_terminated (while_running thrown (connected_body sdk))

  unfoldable pub is_healthy : Client W → Option (Result (Unit {0}) ErrorCode × Client W)
  is_healthy = entry already_terminated (while_running thrown (healthy_body sdk))

  unfoldable pub check_life_state : Client W → Option (Result LifeState ErrorCode × Client W)
  check_life_state = entry already_terminated (attempt thrown life_state_body)

  unfoldable pub api_set_give_up_signal : Client W → Option (Result (Unit {0}) ErrorCode × Client W)
  api_set_give_up_signal = entry not_initialized (attempt thrown give_up_body)

  unfoldable pub api_batch_read :
      Services W
      → ℕ
      → List NodeId
      → Client W
      → Option (Result (List ReadResult) ErrorCode × Client W)
  api_batch_read lib fuel nodes =
      entry already_terminated (attempt thrown (batch_read lib sdk fuel nodes))

  unfoldable pub api_batch_write :
      Services W
      → List WriteValue
      → Client W
      → Option (Result (List WriteResult) ErrorCode × Client W)
  api_batch_write lib nodes = entry already_terminated (attempt thrown (write_body sdk lib nodes))
