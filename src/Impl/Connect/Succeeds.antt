-- ===== src/Impl/Connect/Succeeds.antt =====
-- `connect` connects: with a library that opens the connection within the time that is allowed.
use net_way.Prelude.{
  ℕ, zero, suc, ◌+◌, ◌*◌, ◌≤◌, ◌<◌, ◌≡◌, refl, ap, true, false, some, arith, ◌⊎◌, inl, inr,
  Bool-cases, if◌then◌else◌,
}
use net_way.RichError.{ok, err}
use net_way.Sdk.{Sdk}
use net_way.Impl.{
  Impl, State, ConnectErrorState, idle, get_effective_stop_signal, call, deliver, now_ms_impl,
  triple_ready, turn_to_running,
}
use net_way.Impl.Frame.{deliver-Frame, refresh-Frame}
use net_way.Impl.Connected.{refresh}
use net_way.Impl.Rounds.{
  Round, finished, again, on_impl, rounds, wall_budget_ns, timed_out, enter_task, leave_task,
  take_conn, release_conn,
}
use net_way.Impl.Connect.Results.{connect-Settled}
use net_way.Impl.Calm.{GoesOn, IsRunning, turn_to_running-IsRunning, deliver-GoesOn}
use net_way.Impl.Connect.Opening.{Opens, looks, refresh-Looked, refresh-ready}
use net_way.Impl.Connect.{connect_waits, connect_round, connect_taken, connect_inner, connect}

-- The time for `k` rounds that a call's cost allows.
abbrev pub allowance : ℕ → ℕ → ℕ
allowance zero c = 0
allowance (suc k) c = 5 * c + allowance k c

released-IsRunning : (i : Impl) → IsRunning i → IsRunning (leave_task (release_conn i))
unfolding leave_task release_conn
released-IsRunning i h = ground arith

module _ {W : Type 0} (sdk : Sdk W) (phase ms ns : W → ℕ) (d e n : ℕ)
    (o : Opens sdk phase ms ns d e n) where
  module _ (start deadline : ℕ) where
    -- A loop with at most `k` rounds before the last.
    record Goes (k : ℕ) (s : State W) : Type 0 where
      goes_on : GoesOn s.impl
      near : phase s.world ≤ suc k
      few : k ≤ n
      time_left : ms s.world + allowance k d ≤ start + s.m_config.timeout_ms
      wall_left : ns s.world + allowance k e < deadline

    waits-Goes :
        (k : ℕ) (s : State W)
        → GoesOn s.impl
        → phase s.world ≤ suc k
        → k ≤ n
        → ms s.world + 2 * d + allowance k d ≤ start + s.m_config.timeout_ms
        → ns s.world + 2 * e + allowance k e < deadline
        → (s1 : State W) × (connect_waits sdk start deadline s ≡ again s1) × Goes k s1
    unfolding connect_waits timed_out now_ms_impl
    waits-Goes k s g p f a b =
        let (now, v) = sdk.now_ms s.world in
        let (wall, u) = sdk.wall_ns v in
        let s1 : State W = record s { world = u } in
        let first = o.now_lasts s.world in
        let second = o.wall_lasts v in
        (
          s1,
          ground (arith, g.0, o.shows_ms s.world, o.shows_ns v, first.short_ns),
          record {
            goes_on = g;
            near = omega (arith, o.now_keeps s.world, o.wall_keeps v);
            few = f;
            time_left = omega (arith, first.short_ms, second.short_ms);
            wall_left = omega (arith, first.short_ns, second.short_ns);
          },
        )

    -- A round finds the connection open, or goes on with one round less before it.
    abbrev Proceeds : ℕ → Round W ConnectErrorState → Type 0
    Proceeds zero r = (s1 : State W) × (r ≡ finished (ok tt) s1) × IsRunning s1.impl
    Proceeds (suc k) r =
        ((s1 : State W) × (r ≡ finished (ok tt) s1) × IsRunning s1.impl)
        ⊎ ((s1 : State W) × (r ≡ again s1) × Goes k s1)

    round_when :
        (s : State W)
        → GoesOn s.impl
        → let s1 = refresh sdk 50 s in
          connect_round sdk start deadline s ≡ (
            if triple_ready sdk s1.impl
            then finished (ok tt) (on_impl turn_to_running s1)
            else connect_waits sdk start deadline s1)
    unfolding connect_round
    round_when s g =
        ap
          (λ p. elim p.0 [
            | ok healthy ↦
                if triple_ready sdk p.1.impl
                then finished (ok tt) (on_impl turn_to_running p.1)
                else connect_waits sdk start deadline p.1
            | err ConnectErrorState.shutdown ↦ finished (err ConnectErrorState.shutdown) p.1
            | err ConnectErrorState.nullptr ↦ finished (err ConnectErrorState.nullptr) p.1
            | err other ↦ connect_waits sdk start deadline p.1
          ])
          (looks sdk s g)

    round-Proceeds :
        (k : ℕ) (s : State W) → Goes k s → Proceeds k (connect_round sdk start deadline s)
    round-Proceeds zero s h =
        let s1 = refresh sdk 50 s in
        let l = refresh-Looked sdk phase ms ns d e n o s (omega (arith, h.near)) h.goes_on in
        let ready = refresh-ready sdk phase ms ns d e n o s h.near in
        (
          on_impl turn_to_running s1,
          rw (round_when s h.goes_on, ready) refl,
          turn_to_running-IsRunning s1.impl l.goes_on,
        )
    round-Proceeds (suc k) s h =
        let s1 = refresh sdk 50 s in
        let l = refresh-Looked sdk phase ms ns d e n o s (omega (arith, h.near, h.few)) h.goes_on in
        let same = ap (λ c. c.timeout_ms) (refresh-Frame sdk 50 s).same_config in
        elim (Bool-cases (triple_ready sdk s1.impl)) [
          | inl e ↦ inl (
            on_impl turn_to_running s1,
            rw (round_when s h.goes_on, e) refl,
            turn_to_running-IsRunning s1.impl l.goes_on,
          )
          | inr e ↦
              let (s2, goes, next) =
                waits-Goes k s1 l.goes_on (omega (arith, l.fewer, h.near)) (omega (arith, h.few))
                  (omega (arith, l.in_ms, h.time_left, same))
                  (omega (arith, l.in_ns, h.wall_left)) in
              inr (s2, rw (round_when s h.goes_on, e) goes, next)
        ]

    rounds-succeed :
        (k fuel : ℕ) (s : State W)
        → k < fuel
        → Goes k s
        → (s1 : State W) × (rounds (connect_round sdk start deadline) fuel s ≡ some (ok tt, s1))
          × IsRunning s1.impl
    unfolding rounds
    rounds-succeed k zero s f h = absurd (omega arith)
    rounds-succeed zero (suc fuel) s f h =
        let (s1, e, live) = round-Proceeds zero s h in (s1, rw (rounds, e) refl, live)
    rounds-succeed (suc k) (suc fuel) s f h = elim (round-Proceeds (suc k) s h) [
      | inl (s1, e, live) ↦ (s1, rw (rounds, e) refl, live)
      | inr (s1, e, g) ↦
          let (s2, done, live) = rounds-succeed k fuel s1 (omega arith) g in
          (s2, rw (rounds, e) done, live)
    ]

  taken-succeeds :
      (fuel : ℕ) (s : State W)
      → n < fuel
      → GoesOn s.impl
      → allowance n d + 2 * d ≤ s.m_config.timeout_ms
      → allowance n e + e < wall_budget_ns s.m_config.timeout_ms
      → (s1 : State W) × (connect_taken sdk fuel s ≡ some (ok tt, s1)) × IsRunning s1.impl
  unfolding connect_taken call now_ms_impl
  taken-succeeds fuel s f g a b =
      let c = sdk.connect_async s.world in
      let s1 : State W = record { impl = deliver c.events s.impl; world = c.world } in
      let (start, v) = sdk.now_ms c.world in
      let (wall, u) = sdk.wall_ns v in
      let same : s1.m_config.timeout_ms ≡ s.m_config.timeout_ms =
        ap (λ x. x.timeout_ms) (deliver-Frame c.events s.impl).same_config in
      let deadline = wall + wall_budget_ns s1.m_config.timeout_ms in
      let first = o.now_lasts c.world in
      let second = o.wall_lasts v in
      let budget : allowance n e + e < wall_budget_ns s1.m_config.timeout_ms = rw same b in
      let h : Goes start deadline n (record s1 { world = u }) = record {
        goes_on = deliver-GoesOn c.events s.impl (o.accepted_calmly s.world) g;
        near = omega (arith, o.begins s.world, o.now_keeps c.world, o.wall_keeps v);
        few = omega arith;
        time_left = omega (arith, o.shows_ms c.world, first.short_ms, second.short_ms, same);
        wall_left = omega (arith, o.shows_ns v, second.short_ns, budget);
      } in
      let (s2, done, live) = rounds-succeed start deadline n fuel (record s1 { world = u }) f h in
      (s2, rw (o.accepts s.world) done, live)

  -- `connect` connects. Take a library that accepts the call and then opens the connection within
  -- `n + 1` iterations, where nobody gives up or shuts down and no call takes more than `d`
  -- milliseconds of its clock and `e` nanoseconds of the steady clock. If `(5 * n + 2) * d`
  -- milliseconds are within the time-out and `(5 * n + 1) * e` nanoseconds within the wall clock
  -- bound, then `connect` on a client without a stop signal and with a free slot, with fuel for
  -- `n + 1` rounds, returns success. The cached triple is then GOOD, OPEN and ACTIVATED, and the
  -- client is RUNNING with the loss flag and the give-up clock cleared.
  pub connect_succeeds :
      (fuel : ℕ) (s : State W)
      → n < fuel
      → get_effective_stop_signal s.impl ≡ false
      → s.m_impl ≡ true
      → s.m_conn_state ≡ idle
      → allowance n d + 2 * d ≤ s.m_config.timeout_ms
      → allowance n e + e < wall_budget_ns s.m_config.timeout_ms
      → (s1 : State W) × (connect sdk fuel s ≡ some (ok tt, s1))
        × (triple_ready sdk s1.impl ≡ true)
        × IsRunning s1.impl
  unfolding connect connect_inner enter_task take_conn get_effective_stop_signal
  connect_succeeds fuel s f g i c a b =
      let (s1, done, live) =
        taken-succeeds fuel (on_impl take_conn (on_impl enter_task s)) f (g, i) a b in
      let s2 = on_impl leave_task (on_impl release_conn s1) in
      let runs : connect sdk fuel s ≡ some (ok tt, s2) = rw (g, i, c, done) refl in
      (s2, runs, (connect-Settled sdk fuel s c runs).0, released-IsRunning s1.impl live)
