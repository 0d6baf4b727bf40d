-- ===== src/Impl/Watchdog/Decision.antt =====
-- What one decision of the watchdog guarantees.
use net_way.Prelude.{
  ℕ, ◌≡◌, refl, true, false, if◌then◌else◌, arith, Option, none, some, subst, ◌∙◌,
}
use net_way.Life.{given_up}
use net_way.RichError.{ok, err}
use net_way.Sdk.{Sdk}
use net_way.Impl.{
  Impl, State, idle, ConnectErrorState, DisconnectErrorState, get_effective_stop_signal,
  call_run_iterate, turn_to_running, turn_to_giveup, update_bad_status_time, should_trigger_give_up,
  is_healthy_cached, triple_ready,
}
use net_way.Impl.Connected.{is_connected, refresh}
use net_way.Impl.Frame.{
  Frame, Frame-trans, should_trigger-Frame, update_bad_status_time-Frame, call_run_iterate-Frame,
  refresh-Frame,
}
use net_way.Impl.Turns.{
  Revived, RunningIsHealthy, turn_to_recovering-Contract, turn_to_running-Revived,
  triple_ready-turn_to_running, triple_ready_of_healthy, healthy_of_ready,
}
use net_way.Impl.Rounds.{Outcome, on_impl}
use net_way.Impl.Connect.{connect}
use net_way.Impl.Connect.Results.{Settled, connect-Settled}
use net_way.Impl.Disconnect.{disconnect}
use net_way.Impl.Disconnect.Guards.{disconnect-Frame}
use net_way.Impl.Watchdog.{
  after_connect, reconnect, reconnect_if_closed, after_disconnect, drop_and_reconnect,
  within_window, iterate_then_drop, repair, do_watchdog_decision,
}

pub turn_to_giveup-GivenUp :
    {W : Type 0} (sdk : Sdk W) (s : State W) → (turn_to_giveup sdk s).m_life_state ≡ given_up
unfolding turn_to_giveup
turn_to_giveup-GivenUp sdk s = ground arith

module _ {W : Type 0} (sdk : Sdk W) where
  abbrev Sound : Option (State W) → Type 0
  Sound none = Unit {0}
  Sound (some s) = RunningIsHealthy sdk s.impl

  running-Sound : (i : Impl) → triple_ready sdk i ≡ true → RunningIsHealthy sdk (turn_to_running i)
  running-Sound i h =
      let ready = triple_ready-turn_to_running sdk i h in
      ground (arith, turn_to_running-Revived i, healthy_of_ready sdk (turn_to_running i) ready)

  giveup-Sound : (s : State W) → RunningIsHealthy sdk (turn_to_giveup sdk s).impl
  giveup-Sound s = ground (arith, turn_to_giveup-GivenUp sdk s)

  after_connect-Sound :
      (r : Outcome ConnectErrorState) (s : State W)
      → Settled sdk r s.impl
      → RunningIsHealthy sdk (after_connect sdk r s).impl
  unfolding after_connect
  after_connect-Sound (ok _) s h = running-Sound s.impl h.0
  after_connect-Sound (err ConnectErrorState.shutdown) s h = turn_to_recovering-Contract sdk _
  after_connect-Sound (err ConnectErrorState.nullptr) s h = turn_to_recovering-Contract sdk _
  after_connect-Sound (err ConnectErrorState.threadbusy) s h = absurd h
  after_connect-Sound (err ConnectErrorState.unknown) s h = absurd h
  after_connect-Sound (err ConnectErrorState.connect_failed) s h = turn_to_recovering-Contract sdk _
  after_connect-Sound (err ConnectErrorState.timeout_notconnect) s h =
      turn_to_recovering-Contract sdk _

  reconnect-Sound : (fuel : ℕ) (s : State W) → s.m_conn_state ≡ idle → Sound (reconnect sdk fuel s)
  unfolding reconnect
  reconnect-Sound fuel s e = go (connect sdk fuel s) refl
    where
      go :
          (o : Option (Outcome ConnectErrorState × State W))
          → connect sdk fuel s ≡ o
          → Sound (elim o [ none ↦ none | some (r, s1) ↦ some (after_connect sdk r s1) ])
      go none p = tt
      go (some (r, s1)) p = after_connect-Sound r s1 (connect-Settled sdk fuel s e p)

  reconnect_if_closed-Sound :
      (fuel : ℕ) (s : State W) → s.m_conn_state ≡ idle → Sound (reconnect_if_closed sdk fuel s)
  unfolding reconnect_if_closed
  reconnect_if_closed-Sound fuel s e =
      let s1 = call_run_iterate sdk 1 s in
      let free = (call_run_iterate-Frame sdk 1 s).same_conn ∙ e in
      ground (arith, turn_to_recovering-Contract sdk s1.impl, reconnect-Sound fuel s1 free)

  after_disconnect-Sound :
      (fuel : ℕ) (r : Outcome DisconnectErrorState) (s : State W)
      → s.m_conn_state ≡ idle
      → Sound (after_disconnect sdk fuel r s)
  unfolding after_disconnect
  after_disconnect-Sound fuel (err DisconnectErrorState.shutdown) s e = giveup-Sound s
  after_disconnect-Sound fuel (err DisconnectErrorState.nullptr) s e = giveup-Sound s
  after_disconnect-Sound fuel (ok _) s e = reconnect_if_closed-Sound fuel s e
  after_disconnect-Sound fuel (err other) s e = reconnect_if_closed-Sound fuel s e

  drop_and_reconnect-Sound :
      (fuel : ℕ) (s : State W) → s.m_conn_state ≡ idle → Sound (drop_and_reconnect sdk fuel s)
  unfolding drop_and_reconnect
  drop_and_reconnect-Sound fuel s e = go (disconnect sdk fuel s) refl
    where
      go :
          (o : Option (Outcome DisconnectErrorState × State W))
          → disconnect sdk fuel s ≡ o
          → Sound (elim o [ none ↦ none | some (r, s1) ↦ after_disconnect sdk fuel r s1 ])
      go none p = tt
      go (some (r, s1)) p =
          after_disconnect-Sound fuel r s1 ((disconnect-Frame sdk fuel s p).same_conn ∙ e)

  iterate_then_drop-Sound :
      (fuel : ℕ) (s : State W) → s.m_conn_state ≡ idle → Sound (iterate_then_drop sdk fuel s)
  unfolding iterate_then_drop
  iterate_then_drop-Sound fuel s e =
      let s1 = call_run_iterate sdk 1 s in
      let free = (call_run_iterate-Frame sdk 1 s).same_conn ∙ e in
      ground (
        arith,
        triple_ready_of_healthy sdk s1.impl,
        running-Sound s1.impl,
        drop_and_reconnect-Sound fuel s1 free,
      )

  -- The state in which a repair starts, or gives up.
  abbrev pub windowed : State W → State W
  windowed s = (should_trigger_give_up sdk (update_bad_status_time sdk s)).1

  pub windowed-Frame : (s : State W) → Frame s.impl (windowed s).impl
  windowed-Frame s =
      Frame-trans (update_bad_status_time-Frame sdk s)
        (should_trigger-Frame sdk (update_bad_status_time sdk s))

  within_window-Sound :
      (f : State W → Option (State W)) (s : State W)
      → s.m_conn_state ≡ idle
      → ((t : State W) → t.m_conn_state ≡ idle → Sound (f t))
      → Sound (within_window sdk f s)
  unfolding within_window
  within_window-Sound f s e h =
      let s1 = windowed s in
      ground (arith, giveup-Sound s1, h s1 ((windowed-Frame s).same_conn ∙ e))

  repair-Sound : (fuel : ℕ) (s : State W) → s.m_conn_state ≡ idle → Sound (repair sdk fuel s)
  unfolding repair
  repair-Sound fuel s e = ground (
    arith,
    within_window-Sound (drop_and_reconnect sdk fuel) s e (drop_and_reconnect-Sound fuel),
    within_window-Sound (reconnect_if_closed sdk fuel) s e (reconnect_if_closed-Sound fuel),
    within_window-Sound (iterate_then_drop sdk fuel) s e (iterate_then_drop-Sound fuel),
    triple_ready_of_healthy sdk s.impl,
    running-Sound s.impl,
  )

  -- Past its guards a decision works on the refreshed state.
  pub decision_past_guards :
      (fuel : ℕ) (s : State W)
      → get_effective_stop_signal s.impl ≡ false
      → s.m_impl ≡ true
      → let s1 = refresh sdk 0 s in
        do_watchdog_decision sdk fuel s ≡ (
          if is_healthy_cached sdk s1.impl
          then some (on_impl turn_to_running s1)
          else repair sdk fuel s1)
  unfolding do_watchdog_decision is_connected
  decision_past_guards fuel s go set = ground arith

  decision-Sound :
      (fuel : ℕ) (s : State W)
      → get_effective_stop_signal s.impl ≡ false
      → s.m_impl ≡ true
      → s.m_conn_state ≡ idle
      → Sound (do_watchdog_decision sdk fuel s)
  decision-Sound fuel s go set e =
      let s1 = refresh sdk 0 s in
      let free = (refresh-Frame sdk 0 s).same_conn ∙ e in
      rw (decision_past_guards fuel s go set) (
        ground (
          arith,
          triple_ready_of_healthy sdk s1.impl,
          running-Sound s1.impl,
          repair-Sound fuel s1 free,
        ))

  -- The contract of RUNNING. A watchdog decision that starts with a client, no stop signal and a
  -- free connection slot leaves RUNNING only to a client whose cached state is healthy.
  pub decision_keeps_contract :
      (fuel : ℕ) (s : State W)
      → get_effective_stop_signal s.impl ≡ false
      → s.m_impl ≡ true
      → s.m_conn_state ≡ idle
      → {t : State W} → do_watchdog_decision sdk fuel s ≡ some t
      → RunningIsHealthy sdk t.impl
  decision_keeps_contract fuel s go set e h = subst Sound h (decision-Sound fuel s go set e)

  -- Under the stop signal (a shutdown, or GIVEN_UP) and without a client a decision does nothing. A
  -- client found healthy is RUNNING, with the loss flag and the give-up clock cleared, or GIVEN_UP,
  -- and is not reconnected: the outside world is as the look at the state left it.
  pub decision_quiet :
      (fuel : ℕ) (s : State W)
      → (get_effective_stop_signal s.impl ≡ true → do_watchdog_decision sdk fuel s ≡ some s)
        × (s.m_impl ≡ false → do_watchdog_decision sdk fuel s ≡ some s)
        × (get_effective_stop_signal s.impl ≡ false
            → s.m_impl ≡ true
            → is_healthy_cached sdk (refresh sdk 0 s).impl ≡ true
            → (t : State W) × (do_watchdog_decision sdk fuel s ≡ some t)
              × Revived t.impl
              × (t.world ≡ (refresh sdk 0 s).world))
  unfolding do_watchdog_decision
  decision_quiet fuel s =
      let s1 = refresh sdk 0 s in
      (
        λ h. ground arith,
        λ n. ground arith,
        λ go set healthy. (
          on_impl turn_to_running s1,
          decision_past_guards fuel s go set ∙ rw healthy,
          turn_to_running-Revived s1.impl,
          refl,
        ),
      )
