-- ===== src/Impl/Connect/Guards.antt =====
-- The guards of `connect`: early refusals, the connection slot and the task counter.
use net_way.Prelude.{ℕ, ◌+◌, ◌≡◌, refl, true, false, arith, some, subst}
use net_way.RichError.{err}
use net_way.Sdk.{Sdk}
use net_way.Impl.{
  State, ConnectErrorState, connecting, call, get_effective_stop_signal, now_ms_impl,
}
use net_way.Impl.Connected.{is_connected}
use net_way.Impl.Rounds.{
  Outcome, on_impl, timed_out, wall_budget_ns, enter_task, leave_task, take_conn, Framed,
  RoundFrame, RoundFrame-after, Framed-after, rounds-Framed, slot-Framed, task-Framed, rounds,
}
use net_way.Impl.Connect.{
  connect_gives_up, connect_last, connect_waits, connect_round, connect_taken, connect_inner,
  connect,
}
use net_way.Impl.Frame.{
  Frame, Frame-refl, Frame-trans, turn_to_running-Frame, turn_to_recovering-Frame, call-Frame,
  is_connected-Frame,
}

module _ {W : Type 0} (sdk : Sdk W) where
  -- `connect` is refused before any call of the library, and leaves the client as it was: SHUTDOWN
  -- under the stop signal (a shutdown, or GIVEN_UP), NULLPTR without a client, THREADBUSY while
  -- the connection slot is taken.
  pub connect_refused :
      (fuel : ℕ) (s : State W)
      → (get_effective_stop_signal s.impl ≡ true
          → connect sdk fuel s ≡ some (err ConnectErrorState.shutdown, s))
        × (get_effective_stop_signal s.impl ≡ false
            → s.m_impl ≡ false
            → connect sdk fuel s ≡ some (err ConnectErrorState.nullptr, s))
        × (get_effective_stop_signal s.impl ≡ false
            → s.m_impl ≡ true
            → s.m_conn_state ≡ connecting
            → connect sdk fuel s ≡ some (err ConnectErrorState.threadbusy, s))
  unfolding connect connect_inner get_effective_stop_signal enter_task leave_task
  connect_refused fuel s = (λ h. ground arith, λ h n. ground arith, λ h n c. ground arith)

  timed_out-Frame : (a b : ℕ) (s : State W) → (timed_out sdk a b s).1.impl ≡ s.impl
  unfolding timed_out now_ms_impl
  timed_out-Frame a b s = refl

  gives_up-Frame : (s : State W) → Frame s.impl (connect_gives_up sdk s).1.impl
  unfolding connect_gives_up
  gives_up-Frame s =
      Frame-trans (call-Frame sdk sdk.disconnect_async s) (turn_to_recovering-Frame sdk _)

  last-Frame : (s : State W) → Frame s.impl (connect_last sdk s).1.impl
  unfolding connect_last
  last-Frame s =
      let s1 = (is_connected sdk 50 s).1 in
      let start = is_connected-Frame sdk 50 s in
      ground (
        arith,
        start,
        Frame-trans start (turn_to_running-Frame s1.impl),
        Frame-trans start (gives_up-Frame s1),
      )

  waits-Frame : (a b : ℕ) (s : State W) → RoundFrame s.impl (connect_waits sdk a b s)
  unfolding connect_waits
  waits-Frame a b s =
      let s1 = (timed_out sdk a b s).1 in
      ground (arith, timed_out-Frame a b s, last-Frame s1, Frame-refl s.impl)

  round-Frame : (a b : ℕ) (s : State W) → RoundFrame s.impl (connect_round sdk a b s)
  unfolding connect_round
  round-Frame a b s =
      let s1 = (is_connected sdk 50 s).1 in
      let start = is_connected-Frame sdk 50 s in
      ground (
        arith,
        start,
        Frame-trans start (turn_to_running-Frame s1.impl),
        RoundFrame-after s.impl s1.impl (connect_waits sdk a b s1) start (waits-Frame a b s1),
      )

  taken-Frame : (fuel : ℕ) (s : State W) → Framed s.impl (connect_taken sdk fuel s)
  unfolding connect_taken now_ms_impl
  taken-Frame fuel s =
      let (status, s1) = call sdk sdk.connect_async s in
      let (start, s2) = now_ms_impl sdk s1 in
      let (wall, w) = sdk.wall_ns s2.world in
      let s3 = record s2 { world = w } in
      let called = call-Frame sdk sdk.connect_async s in
      let deadline = wall + wall_budget_ns s2.m_config.timeout_ms in
      let body = connect_round sdk start deadline in
      ground (
        arith,
        Frame-trans called (turn_to_recovering-Frame sdk s1.impl),
        Framed-after s.impl s3.impl (rounds body fuel s3) called
            (rounds-Framed body (round-Frame start deadline) fuel s3),
      )

  inner-Frame : (fuel : ℕ) (s : State W) → Framed s.impl (connect_inner sdk fuel s)
  unfolding connect_inner
  inner-Frame fuel s =
      let s' = on_impl take_conn s in
      ground (
        arith,
        Frame-refl s.impl,
        slot-Framed s.impl (connect_taken sdk fuel s'),
        taken-Frame fuel s',
      )

  connect-Framed : (fuel : ℕ) (s : State W) → Framed s.impl (connect sdk fuel s)
  unfolding connect
  connect-Framed fuel s =
      let s' = on_impl enter_task s in
      task-Framed s.impl (connect_inner sdk fuel s') (inner-Frame fuel s')

  -- Whatever `connect` returns, the connection slot and the task counter are as they were before
  -- the call, the client pointer, the settings, the stop flag and the watchdog are untouched, and a
  -- client that was GIVEN_UP stays so.
  pub connect-Frame :
      (fuel : ℕ) (s : State W) {r : Outcome ConnectErrorState} {s1 : State W}
      → connect sdk fuel s ≡ some (r, s1)
      → Frame s.impl s1.impl
  connect-Frame fuel s h = subst (Framed s.impl) h (connect-Framed fuel s)
