-- ===== src/Impl/Disconnect/Goes.antt =====
-- `disconnect` leaves a client that may go on to go on, if nobody gives up or shuts down meanwhile.
use net_way.Prelude.{ℕ, zero, suc, ◌≡◌, ◌+◌, Option, none, some, arith, subst}
use net_way.Sdk.{Sdk}
use net_way.Impl.{Impl, State, DisconnectErrorState, get_effective_stop_signal, call, now_ms_impl}
use net_way.Impl.Calm.{
  GoesOn, Calm, call-GoesOn, update_bad-GoesOn, recovering-GoesOn, is_connected-GoesOn,
}
use net_way.Impl.Connected.{is_connected}
use net_way.Impl.Rounds.{
  Outcome, Round, finished, again, on_impl, rounds, leaving, timed_out, enter_task, leave_task,
  take_conn, release_conn, wall_budget_ns,
}
use net_way.Impl.Disconnect.{
  disconnect_last, disconnect_waits, note_cached, disconnect_looks, disconnect_round,
  disconnect_taken, disconnect_inner, disconnect,
}

module _ {W E : Type 0} where
  abbrev Goes : Option (Outcome E × State W) → Type 0
  Goes none = Unit {0}
  Goes (some (r, s)) = GoesOn s.impl

  abbrev RoundGoes : Round W E → Type 0
  RoundGoes (finished r s) = GoesOn s.impl
  RoundGoes (again s) = GoesOn s.impl

  rounds-Goes :
      (body : State W → Round W E)
      → ((s : State W) → GoesOn s.impl → RoundGoes (body s))
      → (fuel : ℕ) (s : State W) → GoesOn s.impl
      → Goes (rounds body fuel s)
  unfolding rounds
  rounds-Goes body h zero s g = tt
  rounds-Goes body h (suc fuel) s g = go (body s) (h s g) (rounds-Goes body h fuel)
    where
      go :
          (r : Round W E)
          → RoundGoes r
          → ((s1 : State W) → GoesOn s1.impl → Goes (rounds body fuel s1))
          → Goes (elim r [ finished o s1 ↦ some (o, s1) | again s1 ↦ rounds body fuel s1 ])
      go (finished o s1) e ih = e
      go (again s1) e ih = ih s1 e

  leaving-Goes :
      (f : Impl → Impl)
      → ((i : Impl) → GoesOn i → GoesOn (f i))
      → (o : Option (Outcome E × State W)) → Goes o
      → Goes (leaving f o)
  leaving-Goes f keep none h = tt
  leaving-Goes f keep (some (r, s)) h = keep s.impl h

release-GoesOn : (i : Impl) → GoesOn i → GoesOn (release_conn i)
unfolding release_conn get_effective_stop_signal
release-GoesOn i g = g

leave-GoesOn : (i : Impl) → GoesOn i → GoesOn (leave_task i)
unfolding leave_task get_effective_stop_signal
leave-GoesOn i g = ground arith

module _ {W : Type 0} (sdk : Sdk W) (calm : Calm sdk) where
  last-GoesOn : (s : State W) → GoesOn s.impl → GoesOn (disconnect_last sdk s).1.impl
  unfolding disconnect_last
  last-GoesOn s g =
      let s1 = (call sdk sdk.get_state s).1 in
      let g1 = call-GoesOn sdk sdk.get_state s (calm.asked_calmly s.world) g in
      let s2 = (call sdk sdk.disconnect_async s1).1 in
      let g2 = call-GoesOn sdk sdk.disconnect_async s1 (calm.disconnects_calmly s1.world) g1 in
      ground (arith, recovering-GoesOn sdk s1.impl g1, recovering-GoesOn sdk s2.impl g2)

  timed_out-GoesOn : (a b : ℕ) (s : State W) → GoesOn s.impl → GoesOn (timed_out sdk a b s).1.impl
  unfolding timed_out
  timed_out-GoesOn a b s g = g

  waits-Goes : (a b : ℕ) (s : State W) → GoesOn s.impl → RoundGoes (disconnect_waits sdk a b s)
  unfolding disconnect_waits
  waits-Goes a b s g =
      let s1 = (timed_out sdk a b s).1 in
      let g1 = timed_out-GoesOn a b s g in
      ground (
        arith,
        last-GoesOn s1 g1,
        call-GoesOn sdk (sdk.wait_ms 50) s1 (calm.waits_calmly 50 s1.world) g1,
      )

  note_cached-GoesOn : (s : State W) → GoesOn s.impl → GoesOn (note_cached sdk s).impl
  unfolding note_cached
  note_cached-GoesOn s g = ground (arith, update_bad-GoesOn sdk s g)

  looks-Goes : (a b : ℕ) (s : State W) → GoesOn s.impl → RoundGoes (disconnect_looks sdk a b s)
  unfolding disconnect_looks
  looks-Goes a b s g =
      let s1 = note_cached sdk s in
      let g1 = note_cached-GoesOn s g in
      ground (arith, recovering-GoesOn sdk s1.impl g1, waits-Goes a b s1 g1)

  round-Goes : (a b : ℕ) (s : State W) → GoesOn s.impl → RoundGoes (disconnect_round sdk a b s)
  unfolding disconnect_round
  round-Goes a b s g =
      let s1 = (is_connected sdk 50 s).1 in
      let g1 = is_connected-GoesOn sdk calm 50 s g in ground (arith, g1, looks-Goes a b s1 g1)

  taken-Goes : (fuel : ℕ) (s : State W) → GoesOn s.impl → Goes (disconnect_taken sdk fuel s)
  unfolding disconnect_taken now_ms_impl
  taken-Goes fuel s g =
      let s1 = (call sdk sdk.disconnect_async s).1 in
      let g1 = call-GoesOn sdk sdk.disconnect_async s (calm.disconnects_calmly s.world) g in
      let (start, s2) = now_ms_impl sdk s1 in
      let (wall, w) = sdk.wall_ns s2.world in
      let s3 = record s2 { world = w } in
      let deadline = wall + wall_budget_ns s2.m_config.timeout_ms in
      ground (
        arith,
        recovering-GoesOn sdk s1.impl g1,
        rounds-Goes (disconnect_round sdk start deadline) (round-Goes start deadline) fuel s3 g1,
      )

  inner-Goes : (fuel : ℕ) (s : State W) → GoesOn s.impl → Goes (disconnect_inner sdk fuel s)
  unfolding disconnect_inner take_conn get_effective_stop_signal
  inner-Goes fuel s g =
      let s' = on_impl take_conn s in
      ground (
        arith,
        leaving-Goes release_conn release-GoesOn (disconnect_taken sdk fuel s')
            (taken-Goes fuel s' g),
      )

  pub disconnect-GoesOn :
      (fuel : ℕ) (s : State W) {r : Outcome DisconnectErrorState} {s1 : State W}
      → disconnect sdk fuel s ≡ some (r, s1)
      → GoesOn s.impl
      → GoesOn s1.impl
  unfolding disconnect enter_task get_effective_stop_signal
  disconnect-GoesOn fuel s h g = subst Goes h (
      leaving-Goes leave_task leave-GoesOn (disconnect_inner sdk fuel (on_impl enter_task s))
        (inner-Goes fuel (on_impl enter_task s) g))
