-- ===== src/Impl/Watchdog.antt =====
-- The watchdog of `ua.cpp`: backoff, the interruptible delay, one decision, and one turn of the
-- thread's loop. The catch clauses of the loop are not followed: no exception is raised here.
pub mod Loop
pub mod Kept
pub mod Passes
pub mod Backoff
pub mod Decision
pub mod GiveUp
pub mod Total
pub mod Turn
pub mod Stuck
pub mod Restores
use net_way.Prelude.{
  ℕ, zero, suc, ◌+◌, ◌-◌, ◌*◌, ◌%◌, ◌^◌, ◌≡◌, refl, Bool, true, false, not, ◌&&◌, ◌||◌, ltb, leb,
  ◌==◌, min, if◌then◌else◌, arith, ◌⊎◌, inl, inr, Option, none, some,
}
use net_way.Config.{ClientConfig}
use net_way.Life.{LifeState, running, recovering, given_up, same_life}
use net_way.RichError.{Result, ok, err}
use net_way.Sdk.{Sdk}
use net_way.Impl.{
  Impl, State, ConnectErrorState, DisconnectErrorState, get_effective_stop_signal, call,
  call_run_iterate, fields, now_ms_impl, turn_to_running, turn_to_recovering, turn_to_giveup,
  update_bad_status_time, should_trigger_give_up, is_channel_closed, is_connect_bad,
  is_healthy_cached,
}
use net_way.Impl.Connected.{is_connected}
use net_way.Impl.Rounds.{Outcome, on_impl}
use net_way.Impl.Connect.{connect}
use net_way.Impl.Disconnect.{disconnect}

-- `calculateBackoff`, the shift in an `uint64_t`.
unfoldable pub calculate_backoff : ClientConfig → ℕ → ℕ
calculate_backoff c retry =
    let delay = c.retry_backoff_base_ms * 2 ^ retry % 2 ^ 64 in
    if leb 32 retry
    then c.retry_max_backoff_ms
    else if ltb c.retry_max_backoff_ms delay
    then c.retry_max_backoff_ms
    else delay

module _ {W : Type 0} (sdk : Sdk W) where
  -- The segments of 100 ms of `delayFunction`; the last may be shorter.
  unfoldable pub delay_loop : ℕ → (backoff elapsed : ℕ) → State W → Option (State W)
  delay_loop zero backoff elapsed s = none
  delay_loop (suc fuel) backoff elapsed s =
      let segment = min 100 (backoff - elapsed) in
      let rest = delay_loop fuel backoff (elapsed + segment) (call sdk (sdk.wait_ms segment) s).1 in
      if ltb elapsed backoff
      then if get_effective_stop_signal s.impl then some s else rest
      else some s

  unfoldable pub delay_function : ℕ → ℕ → State W → Option (State W)
  delay_function fuel retry s =
      let backoff = calculate_backoff s.m_config retry in
      if backoff == 0 then some s else delay_loop fuel backoff 0 s

  -- What a decision makes of the result of its `connect`.
  unfoldable pub after_connect : Outcome ConnectErrorState → State W → State W
  after_connect (ok _) s = on_impl turn_to_running s
  after_connect (err ConnectErrorState.shutdown) s =
      on_impl (turn_to_recovering sdk) (turn_to_giveup sdk s)
  after_connect (err ConnectErrorState.nullptr) s =
      on_impl (turn_to_recovering sdk) (turn_to_giveup sdk s)
  after_connect (err ConnectErrorState.threadbusy) s = s
  after_connect (err other) s = on_impl (turn_to_recovering sdk) s

  unfoldable pub reconnect : ℕ → State W → Option (State W)
  reconnect fuel s = elim (connect sdk fuel s) [
    | none ↦ none
    | some (r, s1) ↦ some (after_connect r s1)
  ]

  -- `connect` only once the channel is closed.
  unfoldable pub reconnect_if_closed : ℕ → State W → Option (State W)
  reconnect_if_closed fuel s =
      let s1 = call_run_iterate sdk 1 s in
      if is_channel_closed sdk s1.impl
      then reconnect fuel s1
      else some (on_impl (turn_to_recovering sdk) s1)

  unfoldable pub after_disconnect : ℕ → Outcome DisconnectErrorState → State W → Option (State W)
  after_disconnect fuel (err DisconnectErrorState.shutdown) s = some (turn_to_giveup sdk s)
  after_disconnect fuel (err DisconnectErrorState.nullptr) s = some (turn_to_giveup sdk s)
  after_disconnect fuel r s = reconnect_if_closed fuel s

  unfoldable pub drop_and_reconnect : ℕ → State W → Option (State W)
  drop_and_reconnect fuel s = elim (disconnect sdk fuel s) [
    | none ↦ none
    | some (r, s1) ↦ after_disconnect fuel r s1
  ]

  -- The bookkeeping that every unhealthy branch does first: start the clock, and give up if the
  -- window is used up.
  unfoldable pub within_window : (State W → Option (State W)) → State W → Option (State W)
  within_window repair s =
      let (late, s1) = should_trigger_give_up sdk (update_bad_status_time sdk s) in
      if late then some (turn_to_giveup sdk s1) else repair s1

  unfoldable pub iterate_then_drop : ℕ → State W → Option (State W)
  iterate_then_drop fuel s =
      let s1 = call_run_iterate sdk 1 s in
      if is_healthy_cached sdk s1.impl
      then some (on_impl turn_to_running s1)
      else drop_and_reconnect fuel s1

  -- The three repairs, by what the cached state shows.
  unfoldable pub repair : ℕ → State W → Option (State W)
  repair fuel s =
      if s.connection_lost || not ((fields s.impl).session == sdk.session_activated)
      then within_window (drop_and_reconnect fuel) s
      else if not (is_channel_closed sdk s.impl)
      then within_window (reconnect_if_closed fuel) s
      else if is_connect_bad sdk s.impl || not (is_healthy_cached sdk s.impl)
      then within_window (iterate_then_drop fuel) s
      else some (on_impl turn_to_running s)

  unfoldable pub do_watchdog_decision : ℕ → State W → Option (State W)
  do_watchdog_decision fuel s =
      let (r, s1) = is_connected sdk 0 s in
      if get_effective_stop_signal s.impl
      then some s
      else if s.m_impl
      then elim r [
        | ok healthy ↦ if healthy then some (on_impl turn_to_running s1) else repair fuel s1
        | err ConnectErrorState.nullptr ↦ some s1
        | err ConnectErrorState.shutdown ↦ some s1
        | err other ↦ repair fuel s1
      ]
      else some s

  -- `delayFunction(++retryCounter)` while recovering.
  unfoldable pub delay_if_recovering : ℕ → ℕ → State W → Option (ℕ × State W)
  delay_if_recovering fuel retry s =
      if same_life s.m_life_state recovering
      then elim (delay_function fuel ((retry + 1) % 2 ^ 32) s) [
        | none ↦ none
        | some s1 ↦ some ((retry + 1) % 2 ^ 32, s1)
      ]
      else some (retry, s)

  -- The counter after a decision.
  abbrev pub count_retry : LifeState → ℕ → ℕ
  count_retry recovering retry = (retry + 1) % 2 ^ 32
  count_retry life retry = 0

  -- A decision, if the interval has passed: the new decision time, counter and state.
  unfoldable pub decide_if_due : ℕ → (last retry : ℕ) → State W → Option (ℕ × ℕ × State W)
  decide_if_due fuel last retry s =
      let (now, s1) = now_ms_impl sdk s in
      if leb (last + s.m_config.watchdog_interval_ms) now
      then elim (do_watchdog_decision fuel s1) [
        | none ↦ none
        | some s2 ↦ some (now, count_retry s2.m_life_state retry, s2)
      ]
      else some (last, retry, s1)

  -- One turn of the loop of `runWatchdog`: `inl` when the thread returns.
  unfoldable pub watchdog_turn :
      ℕ → (last retry : ℕ) → State W → Option (State W ⊎ (ℕ × ℕ × State W))
  watchdog_turn fuel last retry s =
      if get_effective_stop_signal s.impl
      then some (inl s)
      else if s.m_impl
      then elim (delay_if_recovering fuel retry (call_run_iterate sdk 0 s)) [
        | none ↦ none
        | some (retry', s1) ↦ elim (decide_if_due fuel last retry' s1) [
          | none ↦ none
          | some (last', retry'', s2) ↦
              some (inr (last', retry'', (call sdk (sdk.wait_ms 100) s2).1))
        ]
      ]
      else some (inl s)
