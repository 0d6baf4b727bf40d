-- ===== src/Impl/Disconnect/Total.antt =====
-- `disconnect` ends by the wall clock bound that it shares with `connect`.
use net_way.Prelude.{ℕ, ◌+◌, ◌≤◌, ◌<◌, ◌≡◌, refl, ap, arith, Option, some}
use net_way.RichError.{err}
use net_way.Sdk.{Sdk, Ticks}
use net_way.Impl.{
  State, DisconnectErrorState, ConnState, idle, connecting, get_effective_stop_signal, call,
  now_ms_impl,
}
use net_way.Impl.Connected.{is_connected}
use net_way.Impl.Frame.{call-Frame}
use net_way.Impl.Rounds.{
  Outcome, on_impl, timed_out, leaving, enter_task, leave_task, take_conn, release_conn,
  wall_budget_ns, Returns, if-Returns, leaving-Returns, Advances, Advances-earlier, rounds-Returns,
}
use net_way.Impl.Disconnect.{
  disconnect_waits, note_cached, disconnect_looks, disconnect_round, disconnect_taken,
  disconnect_inner, disconnect,
}
use net_way.Impl.Connect.Total.{is_connected-later, bad-later}

module _ {W : Type 0} (sdk : Sdk W) (time : W → ℕ) (ticks : Ticks sdk time) where
  waits-Advances :
      (a b : ℕ) (s : State W) → Advances time b (time s.world) (disconnect_waits sdk a b s)
  unfolding disconnect_waits timed_out call
  waits-Advances a b s =
      let w = (sdk.now_ms s.world).1 in
      let v = (sdk.wall_ns w).1 in
      ground
        (arith, ticks.now_ms_later s.world, ticks.reads w, ticks.ticks w, ticks.wait_later 50 v)

  note-later : (s : State W) → time s.world ≤ time (note_cached sdk s).world
  unfolding note_cached
  note-later s = ground (arith, bad-later sdk time ticks s)

  looks-Advances :
      (a b : ℕ) (s : State W) → Advances time b (time s.world) (disconnect_looks sdk a b s)
  unfolding disconnect_looks
  looks-Advances a b s =
      let s1 = note_cached sdk s in
      ground (
        arith,
        Advances-earlier time b (time s.world) (time s1.world) (disconnect_waits sdk a b s1)
            (note-later s) (waits-Advances a b s1),
      )

  round-Advances :
      (a b : ℕ) (s : State W) → Advances time b (time s.world) (disconnect_round sdk a b s)
  unfolding disconnect_round
  round-Advances a b s =
      let s1 = (is_connected sdk 50 s).1 in
      ground (
        arith,
        Advances-earlier time b (time s.world) (time s1.world) (disconnect_looks sdk a b s1)
            (is_connected-later sdk time ticks 50 s) (looks-Advances a b s1),
      )

  taken-Returns :
      (fuel : ℕ) (s : State W)
      → wall_budget_ns s.m_config.timeout_ms < fuel
      → Returns (disconnect_taken sdk fuel s)
  unfolding disconnect_taken now_ms_impl
  taken-Returns fuel s h =
      let (status, s1) = call sdk sdk.disconnect_async s in
      let (start, s2) = now_ms_impl sdk s1 in
      let (wall, w) = sdk.wall_ns s2.world in
      let same : s2.m_config.timeout_ms ≡ s.m_config.timeout_ms =
        ap (λ c. c.timeout_ms) (call-Frame sdk sdk.disconnect_async s).same_config in
      let budget : wall_budget_ns s2.m_config.timeout_ms < fuel = rw same h in
      let deadline = wall + wall_budget_ns s2.m_config.timeout_ms in
      if-Returns (sdk.is_good status)
        (rounds-Returns time deadline (disconnect_round sdk start deadline)
          (round-Advances start deadline) fuel (record s2 { world = w }) (omega arith)
          (omega (arith, ticks.reads s2.world, ticks.ticks s2.world)))
        (_, refl)

  slot-Returns :
      (c : ConnState) (s : State W) (o : Option (Outcome DisconnectErrorState × State W))
      → Returns o
      → Returns (elim c [
        | idle ↦ leaving release_conn o
        | connecting ↦ some (err DisconnectErrorState.threadbusy, s)
      ])
  slot-Returns idle s o h = leaving-Returns release_conn o h
  slot-Returns connecting s o h = (_, refl)

  inner-Returns :
      (fuel : ℕ) (s : State W)
      → wall_budget_ns s.m_config.timeout_ms < fuel
      → Returns (disconnect_inner sdk fuel s)
  unfolding disconnect_inner take_conn
  inner-Returns fuel s h =
      let s' = on_impl take_conn s in
      if-Returns s.m_impl
        (if-Returns (get_effective_stop_signal s.impl) (_, refl)
          (slot-Returns s.m_conn_state s _ (taken-Returns fuel s' h)))
        (_, refl)

  -- With fuel for the nanoseconds of the wall clock bound, `disconnect` returns. The steady clock
  -- does not go back and advances between two readings; the library's own clock may stand still.
  pub disconnect-Returns :
      (fuel : ℕ) (s : State W)
      → wall_budget_ns s.m_config.timeout_ms < fuel
      → Returns (disconnect sdk fuel s)
  unfolding disconnect enter_task
  disconnect-Returns fuel s h =
      let s' = on_impl enter_task s in
      leaving-Returns leave_task (disconnect_inner sdk fuel s') (inner-Returns fuel s' h)
