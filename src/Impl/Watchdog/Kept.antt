-- ===== src/Impl/Watchdog/Kept.antt =====
-- What a decision of the watchdog leaves alone.
use net_way.Prelude.{ℕ, zero, suc, ◌+◌, ◌-◌, Option, none, some, arith, min, match_cases}
use net_way.RichError.{ok, err}
use net_way.Sdk.{Sdk}
use net_way.Impl.{Impl, State, ConnectErrorState, DisconnectErrorState, call, call_run_iterate}
use net_way.Impl.Frame.{
  Frame, Frame-refl, Frame-trans, turn_to_running-Frame, turn_to_recovering-Frame,
  turn_to_giveup-Frame, call-Frame, call_run_iterate-Frame, is_connected-Frame,
}
use net_way.Impl.Rounds.{Outcome}
use net_way.Impl.Connected.{is_connected}
use net_way.Impl.Connect.{connect}
use net_way.Impl.Connect.Guards.{connect-Frame}
use net_way.Impl.Disconnect.{disconnect}
use net_way.Impl.Disconnect.Guards.{disconnect-Frame}
use net_way.Impl.Watchdog.{
  calculate_backoff, delay_loop, delay_function, after_connect, reconnect, reconnect_if_closed,
  after_disconnect, drop_and_reconnect, within_window, iterate_then_drop, repair,
  do_watchdog_decision,
}
use net_way.Impl.Watchdog.Decision.{windowed, windowed-Frame}

module _ {W : Type 0} (sdk : Sdk W) where
  abbrev pub Keeps : Impl → Option (State W) → Type 0
  Keeps i none = Unit {0}
  Keeps i (some s) = Frame i s.impl

  pub Keeps-after : (i j : Impl) (o : Option (State W)) → Frame i j → Keeps j o → Keeps i o
  Keeps-after i j none f h = tt
  Keeps-after i j (some s) f h = Frame-trans f h

  delay_loop-Keeps : (fuel b e : ℕ) (s : State W) → Keeps s.impl (delay_loop sdk fuel b e s)
  unfolding delay_loop
  delay_loop-Keeps zero b e s = tt
  delay_loop-Keeps (suc fuel) b e s =
      let n = min 100 (b - e) in
      let s1 = (call sdk (sdk.wait_ms n) s).1 in
      let rest =
        Keeps-after s.impl s1.impl (delay_loop sdk fuel b (e + n) s1)
          (call-Frame sdk (sdk.wait_ms n) s) (delay_loop-Keeps fuel b (e + n) s1) in
      ground (arith, rest, Frame-refl s.impl)

  pub delay_function-Keeps :
      (fuel retry : ℕ) (s : State W) → Keeps s.impl (delay_function sdk fuel retry s)
  unfolding delay_function
  delay_function-Keeps fuel retry s =
      ground
        (arith, Frame-refl s.impl, delay_loop-Keeps fuel (calculate_backoff s.m_config retry) 0 s)

  after_connect-Frame :
      (r : Outcome ConnectErrorState) (s : State W) → Frame s.impl (after_connect sdk r s).impl
  unfolding after_connect
  after_connect-Frame (ok u) s = turn_to_running-Frame s.impl
  after_connect-Frame (err ConnectErrorState.shutdown) s =
      Frame-trans (turn_to_giveup-Frame sdk s) (turn_to_recovering-Frame sdk _)
  after_connect-Frame (err ConnectErrorState.nullptr) s =
      Frame-trans (turn_to_giveup-Frame sdk s) (turn_to_recovering-Frame sdk _)
  after_connect-Frame (err ConnectErrorState.threadbusy) s = Frame-refl s.impl
  after_connect-Frame (err ConnectErrorState.unknown) s = turn_to_recovering-Frame sdk _
  after_connect-Frame (err ConnectErrorState.connect_failed) s = turn_to_recovering-Frame sdk _
  after_connect-Frame (err ConnectErrorState.timeout_notconnect) s = turn_to_recovering-Frame sdk _

  reconnect-Keeps : (fuel : ℕ) (s : State W) → Keeps s.impl (reconnect sdk fuel s)
  unfolding reconnect
  reconnect-Keeps fuel s =
      match_cases (Keeps s.impl) (connect sdk fuel s) (λ e. tt)
        (λ (r, s1) e. Frame-trans (connect-Frame sdk fuel s e) (after_connect-Frame r s1))

  reconnect_if_closed-Keeps :
      (fuel : ℕ) (s : State W) → Keeps s.impl (reconnect_if_closed sdk fuel s)
  unfolding reconnect_if_closed
  reconnect_if_closed-Keeps fuel s =
      let s1 = call_run_iterate sdk 1 s in
      let f = call_run_iterate-Frame sdk 1 s in
      ground (
        arith,
        Keeps-after s.impl s1.impl (reconnect sdk fuel s1) f (reconnect-Keeps fuel s1),
        Frame-trans f (turn_to_recovering-Frame sdk s1.impl),
      )

  after_disconnect-Keeps :
      (fuel : ℕ) (r : Outcome DisconnectErrorState) (s : State W)
      → Keeps s.impl (after_disconnect sdk fuel r s)
  unfolding after_disconnect
  after_disconnect-Keeps fuel (err DisconnectErrorState.shutdown) s = turn_to_giveup-Frame sdk s
  after_disconnect-Keeps fuel (err DisconnectErrorState.nullptr) s = turn_to_giveup-Frame sdk s
  after_disconnect-Keeps fuel (ok u) s = reconnect_if_closed-Keeps fuel s
  after_disconnect-Keeps fuel (err other) s = reconnect_if_closed-Keeps fuel s

  drop_and_reconnect-Keeps : (fuel : ℕ) (s : State W) → Keeps s.impl (drop_and_reconnect sdk fuel s)
  unfolding drop_and_reconnect
  drop_and_reconnect-Keeps fuel s =
      match_cases (Keeps s.impl) (disconnect sdk fuel s) (λ e. tt)
        (λ (r, s1) e.
          Keeps-after s.impl s1.impl (after_disconnect sdk fuel r s1)
            (disconnect-Frame sdk fuel s e) (after_disconnect-Keeps fuel r s1))

  iterate_then_drop-Keeps : (fuel : ℕ) (s : State W) → Keeps s.impl (iterate_then_drop sdk fuel s)
  unfolding iterate_then_drop
  iterate_then_drop-Keeps fuel s =
      let s1 = call_run_iterate sdk 1 s in
      let f = call_run_iterate-Frame sdk 1 s in
      ground (
        arith,
        Frame-trans f (turn_to_running-Frame s1.impl),
        Keeps-after s.impl s1.impl (drop_and_reconnect sdk fuel s1) f
            (drop_and_reconnect-Keeps fuel s1),
      )

  within_window-Keeps :
      (f : State W → Option (State W)) (s : State W)
      → ((t : State W) → Keeps t.impl (f t))
      → Keeps s.impl (within_window sdk f s)
  unfolding within_window
  within_window-Keeps f s h =
      let s1 = windowed sdk s in
      let w = windowed-Frame sdk s in
      ground (
        arith,
        Frame-trans w (turn_to_giveup-Frame sdk s1),
        Keeps-after s.impl s1.impl (f s1) w (h s1),
      )

  repair-Keeps : (fuel : ℕ) (s : State W) → Keeps s.impl (repair sdk fuel s)
  unfolding repair
  repair-Keeps fuel s = ground (
    arith,
    within_window-Keeps (drop_and_reconnect sdk fuel) s (drop_and_reconnect-Keeps fuel),
    within_window-Keeps (reconnect_if_closed sdk fuel) s (reconnect_if_closed-Keeps fuel),
    within_window-Keeps (iterate_then_drop sdk fuel) s (iterate_then_drop-Keeps fuel),
    turn_to_running-Frame s.impl,
  )

  pub decision-Keeps : (fuel : ℕ) (s : State W) → Keeps s.impl (do_watchdog_decision sdk fuel s)
  unfolding do_watchdog_decision
  decision-Keeps fuel s =
      let s1 = (is_connected sdk 0 s).1 in
      let f = is_connected-Frame sdk 0 s in
      ground (
        arith,
        f,
        Frame-refl s.impl,
        Frame-trans f (turn_to_running-Frame s1.impl),
        Keeps-after s.impl s1.impl (repair sdk fuel s1) f (repair-Keeps fuel s1),
      )
