-- ===== src/Impl/Disconnect.antt =====
-- `Impl::disconnect`: single flight, then rounds of `isConnected` and 50 ms waits until the channel
-- is closed, the time is up or the client stops.
pub mod Results
pub mod Guards
pub mod Total
pub mod Goes
use net_way.Prelude.{
  ℕ, ◌+◌, ◌≡◌, refl, Bool, true, false, ◌==◌, if◌then◌else◌, arith, Option, none, some,
}
use net_way.RichError.{Result, ok, err}
use net_way.Sdk.{Sdk, SdkState}
use net_way.Impl.{
  Impl, State, ConnectErrorState, DisconnectErrorState, ConnState, idle, connecting,
  get_effective_stop_signal, call, fields, now_ms_impl, turn_to_recovering, update_bad_status_time,
}
use net_way.Impl.Connected.{is_connected}
use net_way.Impl.Rounds.{
  Outcome, Round, finished, again, on_impl, timed_out, rounds, leaving, enter_task, leave_task,
  take_conn, release_conn, wall_budget_ns,
}

module _ {W : Type 0} (sdk : Sdk W) where
  -- The time is up: the library's own state decides, not the cache.
  unfoldable pub disconnect_last : State W → Outcome DisconnectErrorState × State W
  disconnect_last s =
      let (st, s1) = call sdk sdk.get_state s in
      if st.channel == sdk.channel_closed
      then (ok tt, on_impl (turn_to_recovering sdk) s1)
      else (let (status, s2) = call sdk sdk.disconnect_async s1 in
          (err DisconnectErrorState.timeout_notdisconnect, on_impl (turn_to_recovering sdk) s2))

  unfoldable pub disconnect_waits : (start deadline : ℕ) → State W → Round W DisconnectErrorState
  disconnect_waits start deadline s =
      let (late, s1) = timed_out sdk start deadline s in
      if late
      then (let (r, s2) = disconnect_last s1 in finished r s2)
      else if get_effective_stop_signal s1.impl
      then finished (err DisconnectErrorState.shutdown) s1
      else again (call sdk (sdk.wait_ms 50) s1).1

  -- A bad cached status starts the give-up clock once more.
  unfoldable pub note_cached : State W → State W
  note_cached s = if sdk.is_good (fields s.impl).status then s else update_bad_status_time sdk s

  -- After a good look at the state: done when the channel is closed.
  unfoldable pub disconnect_looks : (start deadline : ℕ) → State W → Round W DisconnectErrorState
  disconnect_looks start deadline s =
      let s1 = note_cached s in
      if (fields s.impl).channel == sdk.channel_closed
      then finished (ok tt) (on_impl (turn_to_recovering sdk) s1)
      else disconnect_waits start deadline s1

  unfoldable pub disconnect_round : (start deadline : ℕ) → State W → Round W DisconnectErrorState
  disconnect_round start deadline s =
      let (r, s1) = is_connected sdk 50 s in
      elim r [
        | ok healthy ↦ disconnect_looks start deadline s1
        | err ConnectErrorState.shutdown ↦ finished (err DisconnectErrorState.shutdown) s1
        | err other ↦ finished (err DisconnectErrorState.nullptr) s1
      ]

  unfoldable pub disconnect_taken : ℕ → State W → Option (Outcome DisconnectErrorState × State W)
  disconnect_taken fuel s =
      let (status, s1) = call sdk sdk.disconnect_async s in
      if sdk.is_good status
      then (let (start, s2) = now_ms_impl sdk s1 in
          let (wall, w) = sdk.wall_ns s2.world in
          rounds (disconnect_round start (wall + wall_budget_ns s2.m_config.timeout_ms)) fuel
            (record s2 { world = w }))
      else some (err DisconnectErrorState.disconnect_fail, on_impl (turn_to_recovering sdk) s1)

  unfoldable pub disconnect_inner : ℕ → State W → Option (Outcome DisconnectErrorState × State W)
  disconnect_inner fuel s =
      if s.m_impl
      then if get_effective_stop_signal s.impl
        then some (err DisconnectErrorState.shutdown, s)
        else elim s.m_conn_state [
          | idle ↦ leaving release_conn (disconnect_taken fuel (on_impl take_conn s))
          | connecting ↦ some (err DisconnectErrorState.threadbusy, s)
        ]
      else some (err DisconnectErrorState.nullptr, s)

  unfoldable pub disconnect : ℕ → State W → Option (Outcome DisconnectErrorState × State W)
  disconnect fuel s = leaving leave_task (disconnect_inner fuel (on_impl enter_task s))
