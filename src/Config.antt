-- ===== src/Config.antt =====
-- `ClientConfig` of `include/OPCUAPacking/Types.h`: the settings, the presets, the read-only check
-- and the explicit repair. The texts of the messages are left out: each message of `check` is a
-- constructor of `ConfigError`. `giveUpThresholdMs` is the one signed setting.
pub mod Check
use net_way.Prelude.{
  Option, none, some, ◌-◌, ℕ, ◌+◌, ◌*◌, ◌%◌, ◌^◌, ◌<◌, ◌≡◌, refl, Bool, true, false, not, ◌&&◌,
  ◌||◌, List, [], ◌∷◌, arith, ltb, leb, ◌==◌, if◌then◌else◌,
}
use net_way.Prelude.Int.{ℤ, pos, negsuc, leb_ℤ}
use net_way.RichError.{ErrorCode, Result, ok, err, invalid_config}

pub record ClientConfig : Type 0 where
  pub timeout_ms : ℕ
  pub session_timeout_ms : ℕ
  pub secure_channel_life_time_ms : ℕ
  pub max_total_wait_ms : ℕ
  pub give_up_threshold_ms : ℤ
  pub max_retries : ℕ
  pub retry_backoff_base_ms : ℕ
  pub retry_max_backoff_ms : ℕ
  pub log_level : ℕ
  pub connectivity_check_interval_ms : ℕ
  pub watchdog_interval_ms : ℕ

abbrev pub log_trace : ℕ
log_trace = 100

abbrev pub log_warning : ℕ
log_warning = 400

abbrev pub log_fatal : ℕ
log_fatal = 600

-- The member initialisers.
abbrev pub default_config : ClientConfig
default_config = record {
  timeout_ms = 10000;
  session_timeout_ms = 600000;
  secure_channel_life_time_ms = 600000;
  max_total_wait_ms = 0;
  give_up_threshold_ms = pos 60000;
  max_retries = 3;
  retry_backoff_base_ms = 1000;
  retry_max_backoff_ms = 8000;
  log_level = log_warning;
  connectivity_check_interval_ms = 10000;
  watchdog_interval_ms = 5000;
}

pub data NetworkProfile : Type 0 where
  profile_local profile_remote profile_mobile profile_unstable : NetworkProfile

unfoldable pub apply_profile : NetworkProfile → ClientConfig → ClientConfig
apply_profile profile_local c = record c {
  timeout_ms = 5000;
  session_timeout_ms = 600000;
  secure_channel_life_time_ms = 600000;
  max_retries = 2;
  retry_backoff_base_ms = 500;
  retry_max_backoff_ms = 4000;
  max_total_wait_ms = 30000;
  connectivity_check_interval_ms = 30000;
  watchdog_interval_ms = 10000;
  give_up_threshold_ms = pos 60000;
}
apply_profile profile_remote c = record c {
  timeout_ms = 15000;
  session_timeout_ms = 600000;
  secure_channel_life_time_ms = 600000;
  max_retries = 3;
  retry_backoff_base_ms = 1000;
  retry_max_backoff_ms = 10000;
  max_total_wait_ms = 120000;
  connectivity_check_interval_ms = 15000;
  watchdog_interval_ms = 8000;
  give_up_threshold_ms = pos 180000;
}
apply_profile profile_mobile c = record c {
  timeout_ms = 30000;
  session_timeout_ms = 600000;
  secure_channel_life_time_ms = 600000;
  max_retries = 4;
  retry_backoff_base_ms = 2000;
  retry_max_backoff_ms = 20000;
  max_total_wait_ms = 300000;
  connectivity_check_interval_ms = 10000;
  watchdog_interval_ms = 5000;
  give_up_threshold_ms = pos 360000;
}
apply_profile profile_unstable c = record c {
  timeout_ms = 20000;
  session_timeout_ms = 300000;
  secure_channel_life_time_ms = 300000;
  max_retries = 5;
  retry_backoff_base_ms = 1000;
  retry_max_backoff_ms = 15000;
  max_total_wait_ms = 240000;
  connectivity_check_interval_ms = 5000;
  watchdog_interval_ms = 3000;
  give_up_threshold_ms = pos 270000;
}

-- The messages of `check`, in the order of the tests.
pub data ConfigError : Type 0 where
  timeout_zero session_zero channel_life_short retries_high watchdog_range : ConfigError
  watchdog_session backoff_zero backoff_max_low connectivity_low : ConfigError
  connectivity_session backoff_session timeout_session backoff_timeout log_range : ConfigError
  give_up_watchdog give_up_nonpositive give_up_session : ConfigError
  wait_timeout wait_session wait_retry wait_overflow wait_budget wait_zero : ConfigError

abbrev pub u32_mod : ℕ
u32_mod = 2 ^ 32

-- `if (test) add_error(e);` followed by the later tests.
abbrev pub add_error : Bool → ConfigError → List ConfigError → List ConfigError
add_error test e later = if test then e ∷ later else later

-- The `uint64_t` product in `check`.
abbrev pub required_budget : ClientConfig → ℕ
required_budget c = 2 * c.timeout_ms % 2 ^ 64 * (c.max_retries + 1) % 2 ^ 64

unfoldable pub check_budget : ClientConfig → List ConfigError
check_budget c =
    if ltb (u32_mod - 1) (required_budget c)
    then wait_overflow ∷ []
    else add_error (ltb c.max_total_wait_ms (required_budget c)) wait_budget []

-- The sum under `maxRetries > 0` is one of `uint32_t`s.
unfoldable pub check_wait : ClientConfig → List ConfigError
check_wait c =
    if ltb 0 c.max_total_wait_ms
    then add_error (leb c.max_total_wait_ms c.timeout_ms) wait_timeout (
        add_error (leb c.session_timeout_ms c.max_total_wait_ms && ltb 0 c.session_timeout_ms)
          wait_session
          (add_error
            (ltb 0 c.max_retries
              && ltb c.max_total_wait_ms ((c.timeout_ms + c.retry_max_backoff_ms) % u32_mod))
            wait_retry (check_budget c)))
    else wait_zero ∷ []

unfoldable pub check_give_up : ClientConfig → List ConfigError
check_give_up c =
    add_error (not (leb_ℤ (pos (c.watchdog_interval_ms * 2)) c.give_up_threshold_ms))
      give_up_watchdog
      (add_error (leb_ℤ c.give_up_threshold_ms (pos 0)) give_up_nonpositive (
        add_error
          (ltb 0 c.session_timeout_ms && leb_ℤ (pos c.session_timeout_ms) c.give_up_threshold_ms)
          give_up_session (check_wait c)))

unfoldable pub check_link : ClientConfig → List ConfigError
check_link c = add_error (ltb c.connectivity_check_interval_ms 1000) connectivity_low (
    add_error
      (leb c.session_timeout_ms c.connectivity_check_interval_ms && ltb 0 c.session_timeout_ms)
      connectivity_session
      (add_error (leb c.session_timeout_ms c.retry_backoff_base_ms && ltb 0 c.session_timeout_ms)
        backoff_session
        (add_error (leb c.session_timeout_ms c.timeout_ms && ltb 0 c.session_timeout_ms)
          timeout_session
          (add_error (leb c.timeout_ms c.retry_max_backoff_ms && ltb 0 c.timeout_ms) backoff_timeout
            (add_error (ltb c.log_level log_trace || ltb log_fatal c.log_level) log_range
              (check_give_up c))))))

unfoldable pub check_errors : ClientConfig → List ConfigError
check_errors c = add_error (c.timeout_ms == 0) timeout_zero (
    add_error (c.session_timeout_ms == 0) session_zero (
      add_error (ltb c.secure_channel_life_time_ms c.session_timeout_ms) channel_life_short (
        add_error (ltb 10 c.max_retries) retries_high (
          add_error (ltb c.watchdog_interval_ms 1000 || ltb 30000 c.watchdog_interval_ms)
            watchdog_range
            (add_error
              (leb c.session_timeout_ms c.watchdog_interval_ms && ltb 0 c.session_timeout_ms)
              watchdog_session
              (add_error (c.retry_backoff_base_ms == 0) backoff_zero (
                add_error (ltb c.retry_max_backoff_ms c.retry_backoff_base_ms) backoff_max_low
                  (check_link c))))))))

-- `std::nullopt` when no test fires, and otherwise the messages together.
unfoldable pub check : ClientConfig → Option (List ConfigError)
check c = elim (check_errors c) [ [] ↦ none | e ∷ es ↦ some (e ∷ es) ]

unfoldable pub after_fix : Option (List ConfigError) → Result Bool ErrorCode
after_fix none = ok true
after_fix (some es) = err invalid_config

-- The member function changes the configuration in place, also where it fails.
unfoldable pub apply_default_if_invalid : ClientConfig → Result Bool ErrorCode × ClientConfig
apply_default_if_invalid c = elim (check c) [
  | none ↦ (ok false, c)
  | some es ↦ (after_fix (check (apply_profile profile_local c)), apply_profile profile_local c)
]
