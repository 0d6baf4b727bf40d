-- ===== src/Impl/Watchdog/GiveUp.antt =====
-- A decision that finds the repair taking too long gives the client up.
use net_way.Prelude.{
  ℕ, ◌≡◌, ◌≢◌, refl, Bool, true, false, not, ◌||◌, ◌==◌, if◌then◌else◌, arith, Option, some,
}
use net_way.Life.{given_up}
use net_way.Sdk.{Sdk}
use net_way.Impl.{
  State, get_effective_stop_signal, fields, turn_to_running, turn_to_giveup, update_bad_status_time,
  should_trigger_give_up, reaches, is_channel_closed, is_connect_bad, is_healthy_cached,
}
use net_way.Impl.Connected.{refresh}
use net_way.Impl.Rounds.{on_impl}
use net_way.Impl.Watchdog.{
  reconnect_if_closed, drop_and_reconnect, within_window, iterate_then_drop, repair,
  do_watchdog_decision,
}
use net_way.Impl.Watchdog.Decision.{windowed, decision_past_guards, turn_to_giveup-GivenUp}

pub unhealthy_is_dropped : (bad healthy : Bool) → healthy ≡ false → (bad || not healthy) ≡ false → ⊥
unhealthy_is_dropped bad healthy sick well = ground arith

module _ {W : Type 0} (sdk : Sdk W) where
  -- The clock runs and the window is used up at the next reading of the library's time.
  abbrev pub IsLate : State W → Type 0
  IsLate s =
      (s.m_last_bad_status_ms ≢ 0)
      × (reaches (sdk.now_ms s.world).0 s.m_last_bad_status_ms s.m_config.give_up_threshold_ms
          ≡ true)

  late-triggers :
      (s : State W)
      → IsLate s
      → (should_trigger_give_up sdk (update_bad_status_time sdk s)).0 ≡ true
  unfolding should_trigger_give_up update_bad_status_time
  late-triggers s (set, late) = ground arith

  abbrev GivesUp : Option (State W) → Type 0
  GivesUp o = (t : State W) × (o ≡ some t) × (t.m_life_state ≡ given_up)

  late-GivesUp :
      (f : State W → Option (State W)) (s : State W) → IsLate s → GivesUp (within_window sdk f s)
  unfolding within_window
  late-GivesUp f s late = (
    turn_to_giveup sdk (windowed sdk s),
    rw (late-triggers s late),
    turn_to_giveup-GivenUp sdk (windowed sdk s),
  )

  one_of-GivesUp :
      (a b c : Bool) (x y z w : Option (State W))
      → GivesUp x
      → GivesUp y
      → GivesUp z
      → (c ≡ false → ⊥)
      → GivesUp (if a then x else if b then y else if c then z else w)
  one_of-GivesUp true b c x y z w hx hy hz n = hx
  one_of-GivesUp false true c x y z w hx hy hz n = hy
  one_of-GivesUp false false true x y z w hx hy hz n = hz
  one_of-GivesUp false false false x y z w hx hy hz n = absurd (n refl)

  repair-GivesUp :
      (fuel : ℕ) (s : State W)
      → is_healthy_cached sdk s.impl ≡ false
      → IsLate s
      → GivesUp (repair sdk fuel s)
  unfolding repair
  repair-GivesUp fuel s sick late =
      let bad = is_connect_bad sdk s.impl in
      let healthy = is_healthy_cached sdk s.impl in
      one_of-GivesUp (s.connection_lost || not ((fields s.impl).session == sdk.session_activated))
        (not (is_channel_closed sdk s.impl)) (bad || not healthy)
        (within_window sdk (drop_and_reconnect sdk fuel) s)
        (within_window sdk (reconnect_if_closed sdk fuel) s)
        (within_window sdk (iterate_then_drop sdk fuel) s) (some (on_impl turn_to_running s))
        (late-GivesUp (drop_and_reconnect sdk fuel) s late)
        (late-GivesUp (reconnect_if_closed sdk fuel) s late)
        (late-GivesUp (iterate_then_drop sdk fuel) s late) (unhealthy_is_dropped bad healthy sick)

  -- GIVEN_UP is reached. A decision that finds the client unhealthy, with the give-up clock started
  -- and the threshold passed, ends in GIVEN_UP, whichever of the three repairs it would have tried,
  -- and it needs no fuel since it makes no connection.
  pub decision_gives_up :
      (fuel : ℕ) (s : State W)
      → get_effective_stop_signal s.impl ≡ false
      → s.m_impl ≡ true
      → is_healthy_cached sdk (refresh sdk 0 s).impl ≡ false
      → IsLate (refresh sdk 0 s)
      → (t : State W) × (do_watchdog_decision sdk fuel s ≡ some t) × (t.m_life_state ≡ given_up)
  decision_gives_up fuel s go set sick late =
      rw (decision_past_guards sdk fuel s go set, sick)
        (repair-GivesUp fuel (refresh sdk 0 s) sick late)
