-- ===== src/Tests/Settings.antt =====
-- The settings and the life state on concrete values.
use net_way.Prelude.{
  ◌≤◌, ◌<◌, ◌+◌, ◌*◌, ◌≡◌, ◌↔◌, refl, Bool, true, false, List, [], ◌∷◌, none, arith,
}
use net_way.Prelude.Int.{pos}
use net_way.Config.{
  ClientConfig, default_config, check, check_errors, check_link, check_give_up, check_wait,
  check_budget,
}
use net_way.Config.Check.{Fits, IsSound, check_iff}
use net_way.Life.{
  running, recovering, given_up, Attempt, disturb, stored, spurious, quiet, turn_to_running_loop,
  turn_to_giveup_loop, set_give_up_loop, turn_to_recovering_loop,
}
use net_way.Life.Races.{attempts, Respects, give_up_is_final}
use net_way.Impl.Rounds.{wall_budget_ns}
use net_way.Impl.Connect.Bound.{wall_budget_lem}
use net_way.Tests.{settings}

default_config-Fits : Fits default_config
default_config-Fits = record {
  timeout_fits = omega arith;
  session_fits = omega arith;
  wait_fits = omega arith;
}

check_iff_example : (check default_config ≡ none) ↔ IsSound default_config
check_iff_example = check_iff default_config default_config-Fits

-- Accepted settings with a give-up threshold below the longest wait.
abbrev hasty : ClientConfig
hasty = record settings { timeout_ms = 5000; give_up_threshold_ms = pos 10000 }

hasty_accepted : check hasty ≡ none
unfolding check check_errors check_link check_give_up check_wait check_budget
hasty_accepted = refl

-- Two rounds: another thread gives up again, and an exchange fails for no reason.
abbrev tries : List (Bool × Attempt)
tries = (true, stored given_up) ∷ (false, spurious) ∷ []

tries-Respects : Respects (attempts tries) given_up
unfolding disturb
tries-Respects = (λ h. refl, (λ h. refl, tt))

give_up_is_final_example :
    (turn_to_running_loop recovering (attempts tries) given_up ≡ (false, given_up))
    × (turn_to_giveup_loop recovering (attempts tries) given_up ≡ given_up)
    × (set_give_up_loop recovering (attempts tries) given_up ≡ (false, given_up))
    × (turn_to_recovering_loop recovering tries false true quiet given_up ≡ given_up)
    × (turn_to_recovering_loop running [] false true (stored given_up) running ≡ given_up)
give_up_is_final_example = give_up_is_final recovering tries false true quiet tries-Respects

-- A timeout of about 24 days and a session of about 49.
abbrev long_settings : ClientConfig
long_settings = record {
  timeout_ms = 2147483646;
  session_timeout_ms = 4294967295;
  secure_channel_life_time_ms = 4294967295;
  max_total_wait_ms = 4294967293;
  give_up_threshold_ms = pos 4294967294;
  max_retries = 0;
  retry_backoff_base_ms = 500;
  retry_max_backoff_ms = 4000;
  log_level = 400;
  connectivity_check_interval_ms = 10000;
  watchdog_interval_ms = 5000;
}

long_settings-Fits : Fits long_settings
long_settings-Fits = record {
  timeout_fits = omega arith;
  session_fits = omega arith;
  wait_fits = omega arith;
}

long_settings_pass : check long_settings ≡ none
unfolding check check_errors check_link check_give_up check_wait check_budget
long_settings_pass = refl

wall_budget_example :
    (2147483646 ≤ 2147483397 → wall_budget_ns 2147483646 ≡ (2 * 2147483646 + 500) * 1000000)
    × (2147483397 < 2147483646 → wall_budget_ns 2147483646 < 500 * 1000000)
wall_budget_example = wall_budget_lem long_settings long_settings-Fits long_settings_pass
