-- ===== src/Impl/Connect/Results.antt =====
-- What each result of `connect` means for the state that it leaves.
use net_way.Prelude.{ℕ, ◌+◌, ◌≡◌, true, false, arith, some, subst}
use net_way.RichError.{ok, err}
use net_way.Sdk.{Sdk}
use net_way.Impl.{
  Impl, State, ConnectErrorState, idle, turn_to_running, triple_ready, is_healthy_cached, call,
  get_effective_stop_signal, now_ms_impl,
}
use net_way.Impl.Connected.{is_connected}
use net_way.Impl.Connected.Answers.{is_connected-Says}
use net_way.Impl.Rounds.{
  Outcome, on_impl, timed_out, wall_budget_ns, enter_task, leave_task, take_conn, release_conn,
  Finally, RoundEnds, leaving-Finally, rounds-Finally,
}
use net_way.Impl.Connect.{
  connect_gives_up, connect_last, connect_waits, connect_round, connect_taken, connect_inner,
  connect,
}
use net_way.Impl.Turns.{
  Revived, RunningIsHealthy, turn_to_running-Revived, turn_to_recovering-Contract,
  triple_ready-turn_to_running, triple_ready_of_healthy,
}

module _ {W : Type 0} (sdk : Sdk W) where
  -- What a result says of the members that are left behind.
  abbrev pub Settled : Outcome ConnectErrorState → Impl → Type 0
  Settled (ok _) i = (triple_ready sdk i ≡ true) × Revived i
  Settled (err ConnectErrorState.connect_failed) i = RunningIsHealthy sdk i
  Settled (err ConnectErrorState.timeout_notconnect) i = RunningIsHealthy sdk i
  Settled (err ConnectErrorState.shutdown) i = get_effective_stop_signal i ≡ true
  Settled (err ConnectErrorState.nullptr) i = i.m_impl ≡ false
  Settled (err _) i = ⊥

  succeeds :
      (s : State W) → triple_ready sdk s.impl ≡ true → Settled (ok tt) (turn_to_running s.impl)
  succeeds s h = (triple_ready-turn_to_running sdk s.impl h, turn_to_running-Revived s.impl)

  gives_up-Settled : (s : State W) → let (r, s1) = connect_gives_up sdk s in Settled r s1.impl
  unfolding connect_gives_up
  gives_up-Settled s = turn_to_recovering-Contract sdk _

  last-Settled : (s : State W) → let (r, s1) = connect_last sdk s in Settled r s1.impl
  unfolding connect_last
  last-Settled s =
      let (r, s1) = is_connected sdk 50 s in
      ground (
        arith,
        is_connected-Says sdk 50 s,
        succeeds s1,
        triple_ready_of_healthy sdk s1.impl,
        gives_up-Settled s1,
      )

  waits-Settled : (a b : ℕ) (s : State W) → RoundEnds Settled (connect_waits sdk a b s)
  unfolding connect_waits
  waits-Settled a b s = ground (arith, last-Settled (timed_out sdk a b s).1)

  round-Settled : (a b : ℕ) (s : State W) → RoundEnds Settled (connect_round sdk a b s)
  unfolding connect_round
  round-Settled a b s =
      let (r, s1) = is_connected sdk 50 s in
      ground (arith, is_connected-Says sdk 50 s, succeeds s1, waits-Settled a b s1)

  taken-Settled : (fuel : ℕ) (s : State W) → Finally Settled (connect_taken sdk fuel s)
  unfolding connect_taken
  taken-Settled fuel s =
      let (status, s1) = call sdk sdk.connect_async s in
      let (start, s2) = now_ms_impl sdk s1 in
      let (wall, w) = sdk.wall_ns s2.world in
      let deadline = wall + wall_budget_ns s2.m_config.timeout_ms in
      ground (
        arith,
        turn_to_recovering-Contract sdk s1.impl,
        rounds-Finally Settled (connect_round sdk start deadline) (round-Settled start deadline)
            fuel (record s2 { world = w }),
      )

  release-Settled :
      (r : Outcome ConnectErrorState) (i : Impl) → Settled r i → Settled r (release_conn i)
  unfolding release_conn get_effective_stop_signal triple_ready is_healthy_cached
  release-Settled r i h = ground arith

  leave-Settled :
      (r : Outcome ConnectErrorState) (i : Impl) → Settled r i → Settled r (leave_task i)
  unfolding leave_task get_effective_stop_signal triple_ready is_healthy_cached
  leave-Settled r i h = ground arith

  inner-Settled :
      (fuel : ℕ) (s : State W) → s.m_conn_state ≡ idle → Finally Settled (connect_inner sdk fuel s)
  unfolding connect_inner
  inner-Settled fuel s e =
      let s' = on_impl take_conn s in
      ground (
        arith,
        leaving-Finally Settled release_conn release-Settled (connect_taken sdk fuel s')
            (taken-Settled fuel s'),
      )

  connect-Finally :
      (fuel : ℕ) (s : State W) → s.m_conn_state ≡ idle → Finally Settled (connect sdk fuel s)
  unfolding connect enter_task
  connect-Finally fuel s e =
      leaving-Finally Settled leave_task leave-Settled _
        (inner-Settled fuel (on_impl enter_task s) e)

  -- From a free connection slot, every result that `connect` returns tells the truth about the state
  -- that it leaves. On success the cached triple is GOOD, OPEN and ACTIVATED, and the client is
  -- RUNNING with the loss flag and the give-up clock cleared, or was given up meanwhile. After
  -- CONNECT_FAILED and TIMEOUT_NOTCONNECT a client that still says RUNNING is healthy. SHUTDOWN means
  -- that the stop signal is on, NULLPTR that there is no client; THREADBUSY and UNKNOWN are not
  -- returned.
  pub connect-Settled :
      (fuel : ℕ) (s : State W)
      → s.m_conn_state ≡ idle
      → {r : Outcome ConnectErrorState} {s1 : State W} → connect sdk fuel s ≡ some (r, s1)
      → Settled r s1.impl
  connect-Settled fuel s e h = subst (Finally Settled) h (connect-Finally fuel s e)
