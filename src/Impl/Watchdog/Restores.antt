-- ===== src/Impl/Watchdog/Restores.antt =====
-- What a watchdog decision comes to when the library opens connections in time.
use net_way.Prelude.{
  ℕ, ◌+◌, ◌*◌, ◌≤◌, ◌<◌, ◌≡◌, refl, ap, sym, ◌∙◌, Bool, true, false, not, ◌||◌, ◌==◌, if◌then◌else◌,
  Option, some, arith, subst, ◌⊎◌, inl, inr, Bool-cases,
}
use net_way.RichError.{ok, err}
use net_way.Life.{given_up}
use net_way.Sdk.{Sdk, Ticks}
use net_way.Impl.{
  Impl, State, DisconnectErrorState, idle, call_run_iterate, triple_ready, is_channel_closed,
  is_connect_bad, is_healthy_cached, fields, turn_to_running, turn_to_recovering, turn_to_giveup,
  update_bad_status_time, should_trigger_give_up,
}
use net_way.Impl.Turns.{triple_ready-turn_to_running, triple_ready_of_healthy}
use net_way.Impl.Calm.{
  IsRunning, turn_to_running-IsRunning, GoesOn, Calm, iterate-GoesOn, refresh-GoesOn,
  update_bad-GoesOn, should_trigger-GoesOn,
}
use net_way.Impl.Frame.{Frame, call_run_iterate-Frame, refresh-Frame}
use net_way.Impl.Connected.{refresh}
use net_way.Impl.Rounds.{Outcome, on_impl, wall_budget_ns}
use net_way.Impl.Connect.Opening.{Opens}
use net_way.Impl.Connect.Succeeds.{allowance, connect_succeeds}
use net_way.Impl.Disconnect.Goes.{disconnect-GoesOn}
use net_way.Impl.Disconnect.Guards.{disconnect-Frame}
use net_way.Impl.Disconnect.Results.{Settled, disconnect-Settled}
use net_way.Impl.Disconnect.Total.{disconnect-Returns}
use net_way.Impl.Watchdog.{
  after_connect, reconnect, reconnect_if_closed, after_disconnect, drop_and_reconnect,
  within_window, iterate_then_drop, repair, do_watchdog_decision,
}
use net_way.Impl.Watchdog.Decision.{
  windowed, windowed-Frame, decision_past_guards, turn_to_giveup-GivenUp,
}
use net_way.Impl.Watchdog.GiveUp.{unhealthy_is_dropped}

module _ {W : Type 0} (sdk : Sdk W) where
  abbrev pub IsRestored : Impl → Type 0
  IsRestored i = (triple_ready sdk i ≡ true) × IsRunning i

  -- Connected; or given up; or the channel is still there.
  abbrev pub Left : Impl → Type 0
  Left i = IsRestored i ⊎ ((i.m_life_state ≡ given_up) ⊎ (is_channel_closed sdk i ≡ false))

  abbrev pub Ends : Option (State W) → Type 0
  Ends o = (t : State W) × (o ≡ some t) × Left t.impl

  running-IsRestored :
      (i : Impl) → triple_ready sdk i ≡ true → GoesOn i → IsRestored (turn_to_running i)
  running-IsRestored i h g = (triple_ready-turn_to_running sdk i h, turn_to_running-IsRunning i g)

  again-IsRestored : (i : Impl) → IsRestored i → IsRestored (turn_to_running i)
  unfolding turn_to_running
  again-IsRestored i (h, live) = (triple_ready-turn_to_running sdk i h, ground arith)

  one_of-Ends :
      (a b c : Bool) (x y z w : Option (State W))
      → Ends x
      → Ends y
      → Ends z
      → (c ≡ false → ⊥)
      → Ends (if a then x else if b then y else if c then z else w)
  one_of-Ends true b c x y z w hx hy hz n = hx
  one_of-Ends false true c x y z w hx hy hz n = hy
  one_of-Ends false false true x y z w hx hy hz n = hz
  one_of-Ends false false false x y z w hx hy hz n = absurd (n refl)

  windowed-GoesOn : (s : State W) → GoesOn s.impl → GoesOn (windowed sdk s).impl
  windowed-GoesOn s g =
      should_trigger-GoesOn sdk (update_bad_status_time sdk s) (update_bad-GoesOn sdk s g)

  module _ (phase ms ns : W → ℕ) (d e n : ℕ) (o : Opens sdk phase ms ns d e n) (calm : Calm sdk)
      (time : W → ℕ) (ticks : Ticks sdk time) (fuel : ℕ) (many : n < fuel) where
    -- What a repair needs.
    pub record IsAble (i : Impl) : Type 0 where
      pub goes_on : GoesOn i
      pub free : i.m_conn_state ≡ idle
      pub time_enough : allowance n d + 2 * d ≤ i.m_config.timeout_ms
      pub wall_enough : allowance n e + e < wall_budget_ns i.m_config.timeout_ms
      pub fuel_enough : wall_budget_ns i.m_config.timeout_ms < fuel

    IsAble-Frame : {i j : Impl} → Frame i j → GoesOn j → IsAble i → IsAble j
    IsAble-Frame {i} {j} f g a =
        let same = ap (λ c. c.timeout_ms) f.same_config in
        record {
          goes_on = g;
          free = f.same_conn ∙ a.free;
          time_enough = subst (λ t. allowance n d + 2 * d ≤ t) (sym same) a.time_enough;
          wall_enough = subst (λ t. allowance n e + e < wall_budget_ns t) (sym same) a.wall_enough;
          fuel_enough = subst (λ t. wall_budget_ns t < fuel) (sym same) a.fuel_enough;
        }

    reconnect-Ends : (s : State W) → IsAble s.impl → Ends (reconnect sdk fuel s)
    unfolding reconnect after_connect
    reconnect-Ends s a =
        let (s1, done, ready, alive) =
          connect_succeeds sdk phase ms ns d e n o fuel s many a.goes_on.0 a.goes_on.1 a.free
            a.time_enough a.wall_enough in
        (
          on_impl turn_to_running s1,
          rw (reconnect, done) refl,
          inl (again-IsRestored s1.impl (ready, alive)),
        )

    iterated-IsAble : (t : ℕ) (s : State W) → IsAble s.impl → IsAble (call_run_iterate sdk t s).impl
    iterated-IsAble t s a =
        IsAble-Frame (call_run_iterate-Frame sdk t s) (iterate-GoesOn sdk calm t s a.goes_on) a

    recovering-closed :
        (i : Impl) → is_channel_closed sdk (turn_to_recovering sdk i) ≡ is_channel_closed sdk i
    unfolding turn_to_recovering is_channel_closed
    recovering-closed i = refl

    reconnect_if_closed-Ends : (s : State W) → IsAble s.impl → Ends (reconnect_if_closed sdk fuel s)
    unfolding reconnect_if_closed
    reconnect_if_closed-Ends s a =
        let s1 = call_run_iterate sdk 1 s in
        elim (Bool-cases (is_channel_closed sdk s1.impl)) [
          | inl h ↦ rw h (reconnect-Ends s1 (iterated-IsAble 1 s a))
          | inr h ↦ (
            on_impl (turn_to_recovering sdk) s1,
            rw h refl,
            inr (inr (recovering-closed s1.impl ∙ h)),
          )
        ]

    after_disconnect-Ends :
        (r : Outcome DisconnectErrorState) (s : State W)
        → Settled sdk r s.impl
        → IsAble s.impl
        → Ends (after_disconnect sdk fuel r s)
    unfolding after_disconnect
    after_disconnect-Ends (ok u) s h a = reconnect_if_closed-Ends s a
    after_disconnect-Ends (err DisconnectErrorState.shutdown) s h a = ground (arith, a.goes_on.0)
    after_disconnect-Ends (err DisconnectErrorState.nullptr) s h a = ground (arith, a.goes_on.1)
    after_disconnect-Ends (err DisconnectErrorState.threadbusy) s h a = absurd h
    after_disconnect-Ends (err DisconnectErrorState.timeout_notdisconnect) s h a =
        reconnect_if_closed-Ends s a
    after_disconnect-Ends (err DisconnectErrorState.disconnect_fail) s h a =
        reconnect_if_closed-Ends s a
    after_disconnect-Ends (err DisconnectErrorState.unknown) s h a = absurd h

    drop_and_reconnect-Ends : (s : State W) → IsAble s.impl → Ends (drop_and_reconnect sdk fuel s)
    unfolding drop_and_reconnect
    drop_and_reconnect-Ends s a =
        let (p, done) = disconnect-Returns sdk time ticks fuel s a.fuel_enough in
        let (r, s1) = p in
        rw (drop_and_reconnect, done)
          (after_disconnect-Ends r s1 (disconnect-Settled sdk fuel s a.free done) (
            IsAble-Frame (disconnect-Frame sdk fuel s done)
              (disconnect-GoesOn sdk calm fuel s done a.goes_on) a))

    within_window-Ends :
        (f : State W → Option (State W)) (s : State W)
        → ((t : State W) → IsAble t.impl → Ends (f t))
        → IsAble s.impl
        → Ends (within_window sdk f s)
    unfolding within_window
    within_window-Ends f s h a =
        let (late, s1) = should_trigger_give_up sdk (update_bad_status_time sdk s) in
        elim (Bool-cases late) [
          | inl e ↦ (turn_to_giveup sdk s1, rw e refl, inr (inl (turn_to_giveup-GivenUp sdk s1)))
          | inr e ↦
              rw e (h s1 (IsAble-Frame (windowed-Frame sdk s) (windowed-GoesOn s a.goes_on) a))
        ]

    iterate_then_drop-Ends : (s : State W) → IsAble s.impl → Ends (iterate_then_drop sdk fuel s)
    unfolding iterate_then_drop
    iterate_then_drop-Ends s a =
        let s1 = call_run_iterate sdk 1 s in
        elim (Bool-cases (is_healthy_cached sdk s1.impl)) [
          | inl h ↦ (
            on_impl turn_to_running s1,
            rw h refl,
            inl (
                running-IsRestored s1.impl (triple_ready_of_healthy sdk s1.impl h)
                  (iterated-IsAble 1 s a).goes_on),
          )
          | inr h ↦ rw h (drop_and_reconnect-Ends s1 (iterated-IsAble 1 s a))
        ]

    repair-Ends :
        (s : State W)
        → is_healthy_cached sdk s.impl ≡ false
        → IsAble s.impl
        → Ends (repair sdk fuel s)
    unfolding repair
    repair-Ends s sick a =
        let bad = is_connect_bad sdk s.impl in
        let healthy = is_healthy_cached sdk s.impl in
        one_of-Ends (s.connection_lost || not ((fields s.impl).session == sdk.session_activated))
          (not (is_channel_closed sdk s.impl)) (bad || not healthy) _ _ _
          (some (on_impl turn_to_running s))
          (within_window-Ends (drop_and_reconnect sdk fuel) s drop_and_reconnect-Ends a)
          (within_window-Ends (reconnect_if_closed sdk fuel) s reconnect_if_closed-Ends a)
          (within_window-Ends (iterate_then_drop sdk fuel) s iterate_then_drop-Ends a)
          (unhealthy_is_dropped bad healthy sick)

    -- A watchdog decision does not leave a closed channel behind. Take a library that, once asked,
    -- opens a connection within `n + 1` iterations and in the time that the settings allow, whose
    -- steady clock advances, and in whose calls nobody gives up or shuts down. A decision on a client
    -- without a stop signal and with a free connection slot comes to an end, with fuel for `n + 1`
    -- rounds and for the nanoseconds of the wall clock bound; and it leaves the client connected
    -- (GOOD, OPEN and ACTIVATED, and RUNNING with the loss flag and the give-up clock cleared), or
    -- GIVEN_UP, or with a cached channel that is not CLOSED.
    pub decision_restores :
        (s : State W)
        → IsAble s.impl
        → (t : State W) × (do_watchdog_decision sdk fuel s ≡ some t) × Left t.impl
    decision_restores s a =
        let s1 = refresh sdk 0 s in
        elim (Bool-cases (is_healthy_cached sdk s1.impl)) [
          | inl h ↦ (
            on_impl turn_to_running s1,
            decision_past_guards sdk fuel s a.goes_on.0 a.goes_on.1 ∙ rw h refl,
            inl (
                running-IsRestored s1.impl (triple_ready_of_healthy sdk s1.impl h)
                  (refresh-GoesOn sdk calm 0 s a.goes_on)),
          )
          | inr h ↦
              rw (decision_past_guards sdk fuel s a.goes_on.0 a.goes_on.1, h)
                (repair-Ends s1 h
                  (IsAble-Frame (refresh-Frame sdk 0 s) (refresh-GoesOn sdk calm 0 s a.goes_on) a))
        ]
