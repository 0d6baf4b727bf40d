-- ===== src/Impl/Connect/Total.antt =====
-- `connect` ends: its wall clock bound suffices, whatever the virtual clock does.
use net_way.Prelude.{ℕ, ◌+◌, ◌≤◌, ◌<◌, ◌≡◌, refl, ap, arith, Option, some}
use net_way.RichError.{err}
use net_way.Sdk.{Sdk, Ticks}
use net_way.Impl.{
  State, ConnState, ConnectErrorState, idle, connecting, call, call_run_iterate,
  get_effective_stop_signal, try_publish_if_unchanged, now_ms_impl, update_bad_status_time,
}
use net_way.Impl.Connected.{is_connected, refresh, note_status}
use net_way.Impl.Rounds.{
  Outcome, on_impl, timed_out, wall_budget_ns, enter_task, leave_task, take_conn, release_conn,
  Returns, if-Returns, leaving-Returns, Advances, Advances-earlier, rounds-Returns, leaving,
}
use net_way.Impl.Connect.{connect_waits, connect_round, connect_taken, connect_inner, connect}
use net_way.Impl.Frame.{call-Frame}

module _ {W : Type 0} (sdk : Sdk W) (time : W → ℕ) (ticks : Ticks sdk time) where
  now-later : (s : State W) → time s.world ≤ time (now_ms_impl sdk s).1.world
  unfolding now_ms_impl
  now-later s = ticks.now_ms_later s.world

  pub bad-later : (s : State W) → time s.world ≤ time (update_bad_status_time sdk s).world
  unfolding update_bad_status_time
  bad-later s = ground (arith, now-later s)

  note-later : (t : ℕ) (s : State W) → time s.world ≤ time (note_status sdk t s).world
  unfolding note_status
  note-later t s = ground (arith, bad-later s)

  pub refresh-later : (t : ℕ) (s : State W) → time s.world ≤ time (refresh sdk t s).world
  unfolding refresh call call_run_iterate
  refresh-later t s =
      let s1 = call_run_iterate sdk t s in
      let g = call sdk sdk.get_state s1 in
      let e = s1.state_packed in
      let p = try_publish_if_unchanged e g.0.status g.0.channel g.0.session g.1.impl in
      omega (
        arith,
        ticks.iterate_later t s.world,
        ticks.state_later s1.world,
        note-later g.0.status (record g.1 { impl = p.1 }),
      )

  pub is_connected-later :
      (t : ℕ) (s : State W) → time s.world ≤ time (is_connected sdk t s).1.world
  unfolding is_connected
  is_connected-later t s = ground (arith, refresh-later t s)

  waits-Advances :
      (a b : ℕ) (s : State W) → Advances time b (time s.world) (connect_waits sdk a b s)
  unfolding connect_waits timed_out now_ms_impl
  waits-Advances a b s =
      let w = (sdk.now_ms s.world).1 in
      ground (arith, ticks.now_ms_later s.world, ticks.reads w, ticks.ticks w)

  round-Advances :
      (a b : ℕ) (s : State W) → Advances time b (time s.world) (connect_round sdk a b s)
  unfolding connect_round
  round-Advances a b s =
      let s1 = (is_connected sdk 50 s).1 in
      ground (
        arith,
        Advances-earlier time b (time s.world) (time s1.world) (connect_waits sdk a b s1)
            (is_connected-later 50 s) (waits-Advances a b s1),
      )

  taken-Returns :
      (fuel : ℕ) (s : State W)
      → wall_budget_ns s.m_config.timeout_ms < fuel
      → Returns (connect_taken sdk fuel s)
  unfolding connect_taken now_ms_impl
  taken-Returns fuel s h =
      let (status, s1) = call sdk sdk.connect_async s in
      let (start, s2) = now_ms_impl sdk s1 in
      let (wall, w) = sdk.wall_ns s2.world in
      let same : s2.m_config.timeout_ms ≡ s.m_config.timeout_ms =
        ap (λ c. c.timeout_ms) (call-Frame sdk sdk.connect_async s).same_config in
      let budget : wall_budget_ns s2.m_config.timeout_ms < fuel = rw same h in
      let deadline = wall + wall_budget_ns s2.m_config.timeout_ms in
      if-Returns (sdk.is_good status)
        (rounds-Returns time deadline (connect_round sdk start deadline)
          (round-Advances start deadline) fuel (record s2 { world = w }) (omega arith)
          (omega (arith, ticks.reads s2.world, ticks.ticks s2.world)))
        (_, refl)

  slot-Returns :
      (c : ConnState) (s : State W) (o : Option (Outcome ConnectErrorState × State W))
      → Returns o
      → Returns (elim c [
        | idle ↦ leaving release_conn o
        | connecting ↦ some (err ConnectErrorState.threadbusy, s)
      ])
  slot-Returns idle s o h = leaving-Returns release_conn o h
  slot-Returns connecting s o h = (_, refl)

  inner-Returns :
      (fuel : ℕ) (s : State W)
      → wall_budget_ns s.m_config.timeout_ms < fuel
      → Returns (connect_inner sdk fuel s)
  unfolding connect_inner take_conn
  inner-Returns fuel s h =
      let s' = on_impl take_conn s in
      if-Returns (get_effective_stop_signal s.impl) (_, refl)
        (if-Returns s.m_impl (slot-Returns s.m_conn_state s _ (taken-Returns fuel s' h)) (_, refl))

  -- With fuel for the nanoseconds of the wall clock bound, `connect` returns. The steady clock does
  -- not go back and advances between two readings; the library's own clock may stand still.
  pub connect-Returns :
      (fuel : ℕ) (s : State W)
      → wall_budget_ns s.m_config.timeout_ms < fuel
      → Returns (connect sdk fuel s)
  unfolding connect enter_task
  connect-Returns fuel s h =
      let s' = on_impl enter_task s in
      leaving-Returns leave_task (connect_inner sdk fuel s') (inner-Returns fuel s' h)
