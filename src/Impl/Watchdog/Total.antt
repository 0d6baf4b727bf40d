-- ===== src/Impl/Watchdog/Total.antt =====
-- A decision of the watchdog ends.
use net_way.Prelude.{
  ℕ, ◌<◌, ◌≡◌, refl, sym, subst, Bool, true, false, not, ◌||◌, ◌==◌, if◌then◌else◌, Option, some,
  if-keeps,
}
use net_way.RichError.{Result, ok, err}
use net_way.Sdk.{Sdk, Ticks}
use net_way.Impl.{
  Impl, State, ConnectErrorState, DisconnectErrorState, get_effective_stop_signal, call_run_iterate,
  fields, turn_to_running, turn_to_recovering, turn_to_giveup, update_bad_status_time,
  should_trigger_give_up, is_channel_closed, is_connect_bad, is_healthy_cached,
}
use net_way.Impl.Frame.{
  Frame, Frame-trans, call_run_iterate-Frame, is_connected-Frame, update_bad_status_time-Frame,
  should_trigger-Frame,
}
use net_way.Impl.Connected.{is_connected}
use net_way.Impl.Rounds.{Outcome, on_impl, wall_budget_ns}
use net_way.Impl.Connect.Total.{connect-Returns}
use net_way.Impl.Disconnect.Total.{disconnect-Returns}
use net_way.Impl.Disconnect.Guards.{disconnect-Frame}
use net_way.Impl.Watchdog.{
  after_connect, reconnect, reconnect_if_closed, after_disconnect, drop_and_reconnect,
  within_window, iterate_then_drop, repair, do_watchdog_decision,
}

module _ {W : Type 0} (sdk : Sdk W) (time : W → ℕ) (ticks : Ticks sdk time) where
  abbrev Ends : Option (State W) → Type 0
  Ends o = (t : State W) × (o ≡ some t)

  -- The fuel is enough for a waiting loop of the client.
  abbrev IsEnough : ℕ → Impl → Type 0
  IsEnough fuel i = wall_budget_ns i.m_config.timeout_ms < fuel

  still : (fuel : ℕ) {i j : Impl} → Frame i j → IsEnough fuel i → IsEnough fuel j
  still fuel f h = subst (λ c. wall_budget_ns c.timeout_ms < fuel) (sym f.same_config) h

  reconnect-Ends : (fuel : ℕ) (s : State W) → IsEnough fuel s.impl → Ends (reconnect sdk fuel s)
  unfolding reconnect
  reconnect-Ends fuel s h =
      let ((r, s1), e) = connect-Returns sdk time ticks fuel s h in
      (after_connect sdk r s1, rw (reconnect, e) refl)

  reconnect_if_closed-Ends :
      (fuel : ℕ) (s : State W) → IsEnough fuel s.impl → Ends (reconnect_if_closed sdk fuel s)
  unfolding reconnect_if_closed
  reconnect_if_closed-Ends fuel s h =
      let s1 = call_run_iterate sdk 1 s in
      if-keeps Ends (is_channel_closed sdk s1.impl)
        (reconnect-Ends fuel s1 (still fuel (call_run_iterate-Frame sdk 1 s) h))
        (on_impl (turn_to_recovering sdk) s1, refl)

  after_disconnect-Ends :
      (fuel : ℕ) (r : Outcome DisconnectErrorState) (s : State W)
      → IsEnough fuel s.impl
      → Ends (after_disconnect sdk fuel r s)
  unfolding after_disconnect
  after_disconnect-Ends fuel (err DisconnectErrorState.shutdown) s h = (turn_to_giveup sdk s, refl)
  after_disconnect-Ends fuel (err DisconnectErrorState.nullptr) s h = (turn_to_giveup sdk s, refl)
  after_disconnect-Ends fuel (err DisconnectErrorState.threadbusy) s h =
      reconnect_if_closed-Ends fuel s h
  after_disconnect-Ends fuel (err DisconnectErrorState.timeout_notdisconnect) s h =
      reconnect_if_closed-Ends fuel s h
  after_disconnect-Ends fuel (err DisconnectErrorState.disconnect_fail) s h =
      reconnect_if_closed-Ends fuel s h
  after_disconnect-Ends fuel (err DisconnectErrorState.unknown) s h =
      reconnect_if_closed-Ends fuel s h
  after_disconnect-Ends fuel (ok u) s h = reconnect_if_closed-Ends fuel s h

  drop_and_reconnect-Ends :
      (fuel : ℕ) (s : State W) → IsEnough fuel s.impl → Ends (drop_and_reconnect sdk fuel s)
  unfolding drop_and_reconnect
  drop_and_reconnect-Ends fuel s h =
      let ((r, s1), e) = disconnect-Returns sdk time ticks fuel s h in
      rw (drop_and_reconnect, e)
        (after_disconnect-Ends fuel r s1 (still fuel (disconnect-Frame sdk fuel s e) h))

  iterate_then_drop-Ends :
      (fuel : ℕ) (s : State W) → IsEnough fuel s.impl → Ends (iterate_then_drop sdk fuel s)
  unfolding iterate_then_drop
  iterate_then_drop-Ends fuel s h =
      let s1 = call_run_iterate sdk 1 s in
      if-keeps Ends (is_healthy_cached sdk s1.impl) (on_impl turn_to_running s1, refl)
        (drop_and_reconnect-Ends fuel s1 (still fuel (call_run_iterate-Frame sdk 1 s) h))

  within_window-Ends :
      (fuel : ℕ) (fix : State W → Option (State W))
      → ((s : State W) → IsEnough fuel s.impl → Ends (fix s))
      → (s : State W) → IsEnough fuel s.impl
      → Ends (within_window sdk fix s)
  unfolding within_window
  within_window-Ends fuel fix ends s h =
      let s0 = update_bad_status_time sdk s in
      let (late, s1) = should_trigger_give_up sdk s0 in
      let f = Frame-trans (update_bad_status_time-Frame sdk s) (should_trigger-Frame sdk s0) in
      if-keeps Ends late (turn_to_giveup sdk s1, refl) (ends s1 (still fuel f h))

  repair-Ends : (fuel : ℕ) (s : State W) → IsEnough fuel s.impl → Ends (repair sdk fuel s)
  unfolding repair
  repair-Ends fuel s h =
      if-keeps Ends (s.connection_lost || not ((fields s.impl).session == sdk.session_activated))
        (within_window-Ends fuel (drop_and_reconnect sdk fuel) (drop_and_reconnect-Ends fuel) s h)
        (if-keeps Ends (not (is_channel_closed sdk s.impl))
          (within_window-Ends fuel (reconnect_if_closed sdk fuel) (reconnect_if_closed-Ends fuel) s
            h)
          (if-keeps Ends (is_connect_bad sdk s.impl || not (is_healthy_cached sdk s.impl))
            (within_window-Ends fuel (iterate_then_drop sdk fuel) (iterate_then_drop-Ends fuel) s h)
            (on_impl turn_to_running s, refl)))

  -- With fuel for the nanoseconds of one wall clock bound, a watchdog decision ends, whatever the
  -- library and the other threads do. The steady clock does not go back and advances between two
  -- readings.
  pub decision_ends :
      (fuel : ℕ) (s : State W)
      → wall_budget_ns s.m_config.timeout_ms < fuel
      → (t : State W) × (do_watchdog_decision sdk fuel s ≡ some t)
  unfolding do_watchdog_decision
  decision_ends fuel s h =
      let (r, s1) = is_connected sdk 0 s in
      let enough = still fuel (is_connected-Frame sdk 0 s) h in
      if-keeps Ends (get_effective_stop_signal s.impl) (s, refl)
        (if-keeps Ends s.m_impl (answered r s1 enough) (s, refl))
    where
      answered :
          (r : Result Bool ConnectErrorState) (s1 : State W)
          → IsEnough fuel s1.impl
          → Ends (elim r [
            | ok healthy ↦ if healthy then some (on_impl turn_to_running s1) else repair sdk fuel s1
            | err ConnectErrorState.nullptr ↦ some s1
            | err ConnectErrorState.shutdown ↦ some s1
            | err other ↦ repair sdk fuel s1
          ])
      answered (ok true) s1 k = (on_impl turn_to_running s1, refl)
      answered (ok false) s1 k = repair-Ends fuel s1 k
      answered (err ConnectErrorState.nullptr) s1 k = (s1, refl)
      answered (err ConnectErrorState.shutdown) s1 k = (s1, refl)
      answered (err ConnectErrorState.threadbusy) s1 k = repair-Ends fuel s1 k
      answered (err ConnectErrorState.unknown) s1 k = repair-Ends fuel s1 k
      answered (err ConnectErrorState.connect_failed) s1 k = repair-Ends fuel s1 k
      answered (err ConnectErrorState.timeout_notconnect) s1 k = repair-Ends fuel s1 k
