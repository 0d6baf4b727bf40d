-- ===== src/Impl/Connect.antt =====
-- `Impl::connect`: single flight through `m_connState`, then rounds of `isConnected` until the
-- state triple is ready, the time is up or the client stops.
pub mod Bound
pub mod Results
pub mod Guards
pub mod Total
pub mod Opening
pub mod Succeeds
use net_way.Prelude.{
  ℕ, zero, suc, ◌+◌, ◌-◌, ◌*◌, ◌%◌, ◌^◌, ◌≡◌, refl, Bool, true, false, not, ◌&&◌, ◌||◌, ltb, leb,
  ◌==◌, if◌then◌else◌, arith, Option, none, some, List, [], ◌∷◌,
}
use net_way.RichError.{Result, ok, err}
use net_way.Sdk.{Event, Reply, Sdk, SdkState}
use net_way.Impl.{
  Impl, State, ConnectErrorState, ConnState, idle, connecting, get_effective_stop_signal, call,
  call_run_iterate, fields, triple_ready, is_healthy_cached, now_ms_impl, turn_to_running,
  turn_to_recovering,
}
use net_way.Impl.Connected.{is_connected}
use net_way.Impl.Rounds.{
  Outcome, Round, finished, again, on_impl, timed_out, rounds, leaving, enter_task, leave_task,
  take_conn, release_conn, wall_budget_ns,
}

module _ {W : Type 0} (sdk : Sdk W) where
  unfoldable pub connect_gives_up : State W → Outcome ConnectErrorState × State W
  connect_gives_up s =
      let (status, s1) = call sdk sdk.disconnect_async s in
      (err ConnectErrorState.timeout_notconnect, on_impl (turn_to_recovering sdk) s1)

  -- The last look after the time is up.
  unfoldable pub connect_last : State W → Outcome ConnectErrorState × State W
  connect_last s =
      let (r, s1) = is_connected sdk 50 s in
      elim r [
        | ok healthy ↦
            if is_healthy_cached sdk s1.impl
            then (ok tt, on_impl turn_to_running s1)
            else connect_gives_up s1
        | err ConnectErrorState.shutdown ↦ (err ConnectErrorState.shutdown, s1)
        | err ConnectErrorState.nullptr ↦ (err ConnectErrorState.nullptr, s1)
        | err other ↦ connect_gives_up s1
      ]

  unfoldable pub connect_waits : (start deadline : ℕ) → State W → Round W ConnectErrorState
  connect_waits start deadline s =
      let (late, s1) = timed_out sdk start deadline s in
      if late
      then (let (r, s2) = connect_last s1 in finished r s2)
      else if get_effective_stop_signal s1.impl
      then finished (err ConnectErrorState.shutdown) s1
      else again s1

  unfoldable pub connect_round : (start deadline : ℕ) → State W → Round W ConnectErrorState
  connect_round start deadline s =
      let (r, s1) = is_connected sdk 50 s in
      elim r [
        | ok healthy ↦
            if triple_ready sdk s1.impl
            then finished (ok tt) (on_impl turn_to_running s1)
            else connect_waits start deadline s1
        | err ConnectErrorState.shutdown ↦ finished (err ConnectErrorState.shutdown) s1
        | err ConnectErrorState.nullptr ↦ finished (err ConnectErrorState.nullptr) s1
        | err other ↦ connect_waits start deadline s1
      ]

  -- From the call of `connectAsync`, the connection slot taken.
  unfoldable pub connect_taken : ℕ → State W → Option (Outcome ConnectErrorState × State W)
  connect_taken fuel s =
      let (status, s1) = call sdk sdk.connect_async s in
      if sdk.is_good status
      then (let (start, s2) = now_ms_impl sdk s1 in
          let (wall, w) = sdk.wall_ns s2.world in
          rounds (connect_round start (wall + wall_budget_ns s2.m_config.timeout_ms)) fuel
            (record s2 { world = w }))
      else some (err ConnectErrorState.connect_failed, on_impl (turn_to_recovering sdk) s1)

  unfoldable pub connect_inner : ℕ → State W → Option (Outcome ConnectErrorState × State W)
  connect_inner fuel s =
      if get_effective_stop_signal s.impl
      then some (err ConnectErrorState.shutdown, s)
      else if s.m_impl
      then elim s.m_conn_state [
        | idle ↦ leaving release_conn (connect_taken fuel (on_impl take_conn s))
        | connecting ↦ some (err ConnectErrorState.threadbusy, s)
      ]
      else some (err ConnectErrorState.nullptr, s)

  -- `none` is a loop that has used up its fuel.
  unfoldable pub connect : ℕ → State W → Option (Outcome ConnectErrorState × State W)
  connect fuel s = leaving leave_task (connect_inner fuel (on_impl enter_task s))
