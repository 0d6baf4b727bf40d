-- ===== src/Impl/Disconnect/Results.antt =====
-- What each result of `disconnect` means, what it leaves alone, and that it ends.
use net_way.Prelude.{ℕ, ◌+◌, ◌≡◌, true, false, arith, some, subst}
use net_way.RichError.{ok, err}
use net_way.Sdk.{Sdk}
use net_way.Impl.{
  Impl, State, DisconnectErrorState, idle, get_effective_stop_signal, call, now_ms_impl,
  is_healthy_cached,
}
use net_way.Impl.Connected.{is_connected}
use net_way.Impl.Connected.Answers.{is_connected-Says}
use net_way.Impl.Turns.{RunningIsHealthy, turn_to_recovering-Contract}
use net_way.Impl.Rounds.{
  Outcome, on_impl, timed_out, enter_task, leave_task, take_conn, release_conn, wall_budget_ns,
  Finally, RoundEnds, leaving-Finally, rounds-Finally,
}
use net_way.Impl.Disconnect.{
  disconnect_last, disconnect_waits, note_cached, disconnect_looks, disconnect_round,
  disconnect_taken, disconnect_inner, disconnect,
}

module _ {W : Type 0} (sdk : Sdk W) where
  -- What a result says of the members that are left behind.
  abbrev pub Settled : Outcome DisconnectErrorState → Impl → Type 0
  Settled (ok _) i = RunningIsHealthy sdk i
  Settled (err DisconnectErrorState.disconnect_fail) i = RunningIsHealthy sdk i
  Settled (err DisconnectErrorState.timeout_notdisconnect) i = RunningIsHealthy sdk i
  Settled (err DisconnectErrorState.shutdown) i = get_effective_stop_signal i ≡ true
  Settled (err DisconnectErrorState.nullptr) i = i.m_impl ≡ false
  Settled (err _) i = ⊥

  last-Settled : (s : State W) → let (r, s1) = disconnect_last sdk s in Settled r s1.impl
  unfolding disconnect_last
  last-Settled s =
      let s1 = (call sdk sdk.get_state s).1 in
      let s2 = (call sdk sdk.disconnect_async s1).1 in
      ground
        (arith, turn_to_recovering-Contract sdk s1.impl, turn_to_recovering-Contract sdk s2.impl)

  waits-Settled : (a b : ℕ) (s : State W) → RoundEnds Settled (disconnect_waits sdk a b s)
  unfolding disconnect_waits
  waits-Settled a b s = ground (arith, last-Settled (timed_out sdk a b s).1)

  looks-Settled : (a b : ℕ) (s : State W) → RoundEnds Settled (disconnect_looks sdk a b s)
  unfolding disconnect_looks
  looks-Settled a b s =
      let s1 = note_cached sdk s in
      ground (arith, turn_to_recovering-Contract sdk s1.impl, waits-Settled a b s1)

  round-Settled : (a b : ℕ) (s : State W) → RoundEnds Settled (disconnect_round sdk a b s)
  unfolding disconnect_round
  round-Settled a b s =
      let (r, s1) = is_connected sdk 50 s in
      ground (arith, is_connected-Says sdk 50 s, looks-Settled a b s1)

  taken-Settled : (fuel : ℕ) (s : State W) → Finally Settled (disconnect_taken sdk fuel s)
  unfolding disconnect_taken
  taken-Settled fuel s =
      let s1 = (call sdk sdk.disconnect_async s).1 in
      let (start, s2) = now_ms_impl sdk s1 in
      let (wall, w) = sdk.wall_ns s2.world in
      let deadline = wall + wall_budget_ns s2.m_config.timeout_ms in
      ground (
        arith,
        turn_to_recovering-Contract sdk s1.impl,
        rounds-Finally Settled (disconnect_round sdk start deadline) (round-Settled start deadline)
            fuel (record s2 { world = w }),
      )

  release-Settled :
      (r : Outcome DisconnectErrorState) (i : Impl) → Settled r i → Settled r (release_conn i)
  unfolding release_conn get_effective_stop_signal is_healthy_cached
  release-Settled r i h = ground arith

  leave-Settled :
      (r : Outcome DisconnectErrorState) (i : Impl) → Settled r i → Settled r (leave_task i)
  unfolding leave_task get_effective_stop_signal is_healthy_cached
  leave-Settled r i h = ground arith

  inner-Settled :
      (fuel : ℕ) (s : State W)
      → s.m_conn_state ≡ idle
      → Finally Settled (disconnect_inner sdk fuel s)
  unfolding disconnect_inner
  inner-Settled fuel s e =
      let s' = on_impl take_conn s in
      ground (
        arith,
        leaving-Finally Settled release_conn release-Settled (disconnect_taken sdk fuel s')
            (taken-Settled fuel s'),
      )

  disconnect-Finally :
      (fuel : ℕ) (s : State W) → s.m_conn_state ≡ idle → Finally Settled (disconnect sdk fuel s)
  unfolding disconnect enter_task
  disconnect-Finally fuel s e =
      leaving-Finally Settled leave_task leave-Settled _
        (inner-Settled fuel (on_impl enter_task s) e)

  -- From a free connection slot, `disconnect` returns success, DISCONNECT_FAIL or
  -- TIMEOUT_NOTDISCONNECT, after which a client that still says RUNNING is healthy; or SHUTDOWN, and
  -- the stop signal is on; or NULLPTR, and there is no client.
  pub disconnect-Settled :
      (fuel : ℕ) (s : State W)
      → s.m_conn_state ≡ idle
      → {r : Outcome DisconnectErrorState} {s1 : State W} → disconnect sdk fuel s ≡ some (r, s1)
      → Settled r s1.impl
  disconnect-Settled fuel s e h = subst (Finally Settled) h (disconnect-Finally fuel s e)
