-- ===== src/Impl/Disconnect/Guards.antt =====
-- The guards of `disconnect` and its frame.
use net_way.Prelude.{ℕ, ◌+◌, ◌≡◌, refl, true, false, arith, some, subst}
use net_way.RichError.{err}
use net_way.Sdk.{Sdk}
use net_way.Impl.{
  State, DisconnectErrorState, connecting, get_effective_stop_signal, call, now_ms_impl,
}
use net_way.Impl.Connected.{is_connected}
use net_way.Impl.Frame.{
  Frame, Frame-refl, Frame-trans, turn_to_recovering-Frame, call-Frame, is_connected-Frame,
  update_bad_status_time-Frame,
}
use net_way.Impl.Rounds.{
  Outcome, on_impl, timed_out, rounds, enter_task, leave_task, take_conn, wall_budget_ns, Framed,
  RoundFrame, RoundFrame-after, Framed-after, rounds-Framed, slot-Framed, task-Framed,
}
use net_way.Impl.Disconnect.{
  disconnect_last, disconnect_waits, note_cached, disconnect_looks, disconnect_round,
  disconnect_taken, disconnect_inner, disconnect,
}

module _ {W : Type 0} (sdk : Sdk W) where
  -- `disconnect` is refused before any call of the library, and leaves the client as it was: NULLPTR
  -- without a client, else SHUTDOWN under the stop signal (a shutdown, or GIVEN_UP), else THREADBUSY
  -- while the connection slot is taken.
  pub disconnect_refused :
      (fuel : ℕ) (s : State W)
      → (s.m_impl ≡ false → disconnect sdk fuel s ≡ some (err DisconnectErrorState.nullptr, s))
        × (s.m_impl ≡ true
            → get_effective_stop_signal s.impl ≡ true
            → disconnect sdk fuel s ≡ some (err DisconnectErrorState.shutdown, s))
        × (s.m_impl ≡ true
            → get_effective_stop_signal s.impl ≡ false
            → s.m_conn_state ≡ connecting
            → disconnect sdk fuel s ≡ some (err DisconnectErrorState.threadbusy, s))
  unfolding disconnect disconnect_inner get_effective_stop_signal enter_task leave_task
  disconnect_refused fuel s = (λ n. ground arith, λ n h. ground arith, λ n h c. ground arith)

  timed_out-Frame : (a b : ℕ) (s : State W) → (timed_out sdk a b s).1.impl ≡ s.impl
  unfolding timed_out
  timed_out-Frame a b s = refl

  last-Frame : (s : State W) → Frame s.impl (disconnect_last sdk s).1.impl
  unfolding disconnect_last
  last-Frame s =
      let s1 = (call sdk sdk.get_state s).1 in
      let s2 = (call sdk sdk.disconnect_async s1).1 in
      let looked = call-Frame sdk sdk.get_state s in
      let asked = Frame-trans looked (call-Frame sdk sdk.disconnect_async s1) in
      ground (
        arith,
        Frame-trans looked (turn_to_recovering-Frame sdk s1.impl),
        Frame-trans asked (turn_to_recovering-Frame sdk s2.impl),
      )

  waits-Frame : (a b : ℕ) (s : State W) → RoundFrame s.impl (disconnect_waits sdk a b s)
  unfolding disconnect_waits
  waits-Frame a b s =
      let s1 = (timed_out sdk a b s).1 in
      ground (
        arith,
        timed_out-Frame a b s,
        last-Frame s1,
        Frame-refl s.impl,
        call-Frame sdk (sdk.wait_ms 50) s1,
      )

  note_cached-Frame : (s : State W) → Frame s.impl (note_cached sdk s).impl
  unfolding note_cached
  note_cached-Frame s = ground (arith, Frame-refl s.impl, update_bad_status_time-Frame sdk s)

  looks-Frame : (a b : ℕ) (s : State W) → RoundFrame s.impl (disconnect_looks sdk a b s)
  unfolding disconnect_looks
  looks-Frame a b s =
      let s1 = note_cached sdk s in
      let noted = note_cached-Frame s in
      ground (
        arith,
        Frame-trans noted (turn_to_recovering-Frame sdk s1.impl),
        RoundFrame-after s.impl s1.impl (disconnect_waits sdk a b s1) noted (waits-Frame a b s1),
      )

  round-Frame : (a b : ℕ) (s : State W) → RoundFrame s.impl (disconnect_round sdk a b s)
  unfolding disconnect_round
  round-Frame a b s =
      let s1 = (is_connected sdk 50 s).1 in
      let start = is_connected-Frame sdk 50 s in
      ground (
        arith,
        start,
        RoundFrame-after s.impl s1.impl (disconnect_looks sdk a b s1) start (looks-Frame a b s1),
      )

  taken-Frame : (fuel : ℕ) (s : State W) → Framed s.impl (disconnect_taken sdk fuel s)
  unfolding disconnect_taken now_ms_impl
  taken-Frame fuel s =
      let s1 = (call sdk sdk.disconnect_async s).1 in
      let (start, s2) = now_ms_impl sdk s1 in
      let (wall, w) = sdk.wall_ns s2.world in
      let s3 = record s2 { world = w } in
      let called = call-Frame sdk sdk.disconnect_async s in
      let deadline = wall + wall_budget_ns s2.m_config.timeout_ms in
      let body = disconnect_round sdk start deadline in
      ground (
        arith,
        Frame-trans called (turn_to_recovering-Frame sdk s1.impl),
        Framed-after s.impl s3.impl (rounds body fuel s3) called
            (rounds-Framed body (round-Frame start deadline) fuel s3),
      )

  inner-Frame : (fuel : ℕ) (s : State W) → Framed s.impl (disconnect_inner sdk fuel s)
  unfolding disconnect_inner
  inner-Frame fuel s =
      let s' = on_impl take_conn s in
      ground (
        arith,
        Frame-refl s.impl,
        slot-Framed s.impl (disconnect_taken sdk fuel s'),
        taken-Frame fuel s',
      )

  disconnect-Framed : (fuel : ℕ) (s : State W) → Framed s.impl (disconnect sdk fuel s)
  unfolding disconnect
  disconnect-Framed fuel s =
      let s' = on_impl enter_task s in
      task-Framed s.impl (disconnect_inner sdk fuel s') (inner-Frame fuel s')

  -- Whatever `disconnect` returns, the connection slot and the task counter are as they were before
  -- the call, the client pointer, the settings, the stop flag and the watchdog are untouched, and a
  -- client that was GIVEN_UP stays so.
  pub disconnect-Frame :
      (fuel : ℕ) (s : State W) {r : Outcome DisconnectErrorState} {s1 : State W}
      → disconnect sdk fuel s ≡ some (r, s1)
      → Frame s.impl s1.impl
  disconnect-Frame fuel s h = subst (Framed s.impl) h (disconnect-Framed fuel s)
