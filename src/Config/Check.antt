-- ===== src/Config/Check.antt =====
-- What `check` accepts, said by plain inequalities.
use net_way.Prelude.{
  ◌+◌, ◌*◌, ◌%◌, ◌^◌, ◌≤◌, ◌<◌, ◌≡◌, refl, true, false, List, [], arith, ◌↔◌, none, some,
  Option-cases, ap, ◌∙◌, inl, inr,
}
use net_way.Prelude.Int.{pos, ◌≤ℤ◌}
use net_way.RichError.{ok, err, invalid_config}
use net_way.Config.{
  ClientConfig, ConfigError, NetworkProfile, profile_local, apply_profile, check_budget, check_wait,
  check_give_up, check_link, check_errors, check, u32_mod, required_budget,
  apply_default_if_invalid, after_fix, log_trace, log_fatal,
}

-- The `uint32_t` settings that `check` multiplies or adds.
pub record Fits (c : ClientConfig) : Type 0 where
  pub timeout_fits : c.timeout_ms < 2 ^ 32
  pub session_fits : c.session_timeout_ms < 2 ^ 32
  pub wait_fits : c.max_total_wait_ms < 2 ^ 32

pub record IsSound (c : ClientConfig) : Type 0 where
  pub retries_bounded : c.max_retries ≤ 10
  pub channel_outlives : c.session_timeout_ms ≤ c.secure_channel_life_time_ms
  pub watchdog_low : 1000 ≤ c.watchdog_interval_ms
  pub watchdog_high : c.watchdog_interval_ms ≤ 30000
  pub watchdog_in_session : c.watchdog_interval_ms < c.session_timeout_ms
  pub backoff_positive : 0 < c.retry_backoff_base_ms
  pub backoff_ordered : c.retry_backoff_base_ms ≤ c.retry_max_backoff_ms
  pub backoff_in_timeout : c.retry_max_backoff_ms < c.timeout_ms
  pub connectivity_floor : 1000 ≤ c.connectivity_check_interval_ms
  pub connectivity_in_session : c.connectivity_check_interval_ms < c.session_timeout_ms
  pub log_low : log_trace ≤ c.log_level
  pub log_high : c.log_level ≤ log_fatal
  pub give_up_low : pos (2 * c.watchdog_interval_ms) ≤ℤ c.give_up_threshold_ms
  pub give_up_high : ¬ (pos c.session_timeout_ms ≤ℤ c.give_up_threshold_ms)
  pub wait_covers : 2 * c.timeout_ms * (c.max_retries + 1) ≤ c.max_total_wait_ms
  pub wait_in_session : c.max_total_wait_ms < c.session_timeout_ms

-- With at most ten retries the 64-bit product does not wrap.
budget_exact :
    (c : ClientConfig)
    → c.timeout_ms < 2 ^ 32
    → c.max_retries ≤ 10
    → required_budget c ≡ 2 * c.timeout_ms * (c.max_retries + 1)
budget_exact c t r =
    let double : 2 * c.timeout_ms % 2 ^ 64 ≡ 2 * c.timeout_ms = omega arith in
    let bound : 2 * c.timeout_ms * (c.max_retries + 1) < 2 ^ 64 = grind arith in
    rw double (omega (arith, bound))

-- Each stage of `check` is clean exactly when its own tests pass and the next stage is clean.
budget_clean :
    (c : ClientConfig)
    → c.timeout_ms < 2 ^ 32
    → c.max_retries ≤ 10
    → c.max_total_wait_ms < 2 ^ 32
    → (check_budget c ≡ []) ↔ (2 * c.timeout_ms * (c.max_retries + 1) ≤ c.max_total_wait_ms)
unfolding check_budget
budget_clean c t r w = rw (budget_exact c t r) (ground arith)

wait_clean :
    (c : ClientConfig)
    → (check_wait c ≡ []) ↔ (
        (c.timeout_ms < c.max_total_wait_ms)
        × ((0 < c.session_timeout_ms) → c.max_total_wait_ms < c.session_timeout_ms)
        × ((0 < c.max_retries)
            → (c.timeout_ms + c.retry_max_backoff_ms) % u32_mod ≤ c.max_total_wait_ms)
        × (check_budget c ≡ []))
unfolding check_wait
wait_clean c = ground arith

give_up_clean :
    (c : ClientConfig)
    → (check_give_up c ≡ []) ↔ (
        (pos (c.watchdog_interval_ms * 2) ≤ℤ c.give_up_threshold_ms)
        × ¬ (c.give_up_threshold_ms ≤ℤ pos 0)
        × ((0 < c.session_timeout_ms) → ¬ (pos c.session_timeout_ms ≤ℤ c.give_up_threshold_ms))
        × (check_wait c ≡ []))
unfolding check_give_up
give_up_clean c = ground arith

link_clean :
    (c : ClientConfig)
    → (check_link c ≡ []) ↔ (
        (1000 ≤ c.connectivity_check_interval_ms)
        × ((0 < c.session_timeout_ms) → c.connectivity_check_interval_ms < c.session_timeout_ms)
        × ((0 < c.session_timeout_ms) → c.retry_backoff_base_ms < c.session_timeout_ms)
        × ((0 < c.session_timeout_ms) → c.timeout_ms < c.session_timeout_ms)
        × ((0 < c.timeout_ms) → c.retry_max_backoff_ms < c.timeout_ms)
        × (log_trace ≤ c.log_level)
        × (c.log_level ≤ log_fatal)
        × (check_give_up c ≡ []))
unfolding check_link
link_clean c = ground arith

errors_clean :
    (c : ClientConfig)
    → (check_errors c ≡ []) ↔ (
        (0 < c.timeout_ms)
        × (0 < c.session_timeout_ms)
        × (c.session_timeout_ms ≤ c.secure_channel_life_time_ms)
        × (c.max_retries ≤ 10)
        × (1000 ≤ c.watchdog_interval_ms)
        × (c.watchdog_interval_ms ≤ 30000)
        × ((0 < c.session_timeout_ms) → c.watchdog_interval_ms < c.session_timeout_ms)
        × (0 < c.retry_backoff_base_ms)
        × (c.retry_backoff_base_ms ≤ c.retry_max_backoff_ms)
        × (check_link c ≡ []))
unfolding check_errors
errors_clean c = ground arith

check_clean : (c : ClientConfig) → (check c ≡ none) ↔ (check_errors c ≡ [])
unfolding check
check_clean c = ground arith

IsSound-of_check : (c : ClientConfig) → Fits c → check c ≡ none → IsSound c
IsSound-of_check c f h =
    let e = (errors_clean c).0 ((check_clean c).0 h) in
    let l = (link_clean c).0 e.9 in
    let g = (give_up_clean c).0 l.7 in
    let w = (wait_clean c).0 g.3 in
    let b = (budget_clean c f.timeout_fits e.3 f.wait_fits).0 w.3 in ground arith

check_of_sound : (c : ClientConfig) → Fits c → IsSound c → check c ≡ none
check_of_sound c f s =
    let double : 2 * c.timeout_ms ≤ 2 * c.timeout_ms * (c.max_retries + 1) = grind arith in
    let b = (budget_clean c f.timeout_fits s.retries_bounded f.wait_fits).1 s.wait_covers in
    let w = (wait_clean c).1 (omega arith, λ _. omega arith, λ _. omega arith, b) in
    let g = (give_up_clean c).1 (omega arith, omega arith, λ _. s.give_up_high, w) in
    let l = (link_clean c).1 (
      omega arith,
      λ _. omega arith,
      λ _. omega arith,
      λ _. omega arith,
      λ _. omega arith,
      omega arith,
      omega arith,
      g,
    ) in
    (check_clean c).1 (
      (errors_clean c).1 (
        omega arith,
        omega arith,
        omega arith,
        omega arith,
        omega arith,
        omega arith,
        λ _. omega arith,
        omega arith,
        omega arith,
        l,
      ))

-- `check` reports nothing exactly for the settings that satisfy the inequalities of IsSound, all taken
-- without wrap-around, when the three `uint32_t` settings that enter sums and products are below
-- 2 ^ 32. They bound giveUpThresholdMs by the watchdog interval and the session; that it be at least
-- maxTotalWaitMs, as comments of the presets say, is not among them.
pub check_iff : (c : ClientConfig) → Fits c → (check c ≡ none) ↔ IsSound c
check_iff c f = (IsSound-of_check c f, check_of_sound c f)

profile-IsSound :
    (p : NetworkProfile) (c : ClientConfig)
    → log_trace ≤ c.log_level
    → c.log_level ≤ log_fatal
    → IsSound (apply_profile p c)
unfolding apply_profile
profile-IsSound profile_local c lo hi = omega arith
profile-IsSound p c lo hi = omega arith

profile-Fits : (p : NetworkProfile) (c : ClientConfig) → Fits (apply_profile p c)
unfolding apply_profile
profile-Fits profile_local c = omega arith
profile-Fits p c = omega arith

log_level-apply_profile :
    (p : NetworkProfile) (c : ClientConfig) → (apply_profile p c).log_level ≡ c.log_level
unfolding apply_profile
log_level-apply_profile profile_local c = refl
log_level-apply_profile p c = refl

-- Every preset passes `check` exactly when the log level, which no preset sets, is one of the
-- levels 100 to 600.
pub check-apply_profile :
    (p : NetworkProfile) (c : ClientConfig)
    → (check (apply_profile p c) ≡ none) ↔ ((log_trace ≤ c.log_level) × (c.log_level ≤ log_fatal))
check-apply_profile p c =
    let same = log_level-apply_profile p c in
    let sound = check_iff (apply_profile p c) (profile-Fits p c) in
    (
      λ h. let s = sound.0 h in (omega (arith, same, s.log_low), omega (arith, same, s.log_high)),
      λ h. sound.1 (profile-IsSound p c h.0 h.1),
    )

pub repair_none : (c : ClientConfig) → check c ≡ none → apply_default_if_invalid c ≡ (ok false, c)
unfolding apply_default_if_invalid
repair_none c e = rw (e, apply_default_if_invalid)

pub repair_some :
    (c : ClientConfig) {es : List ConfigError}
    → check c ≡ some es
    → apply_default_if_invalid c
      ≡ (after_fix (check (apply_profile profile_local c)), apply_profile profile_local c)
unfolding apply_default_if_invalid
repair_some c e = rw (e, apply_default_if_invalid)

refused_profile :
    (c : ClientConfig)
    → ¬ ((log_trace ≤ c.log_level) × (c.log_level ≤ log_fatal))
    → after_fix (check (apply_profile profile_local c)) ≡ err invalid_config
unfolding after_fix
refused_profile c n = elim (Option-cases (check (apply_profile profile_local c))) [
  | inl e ↦ absurd (n ((check-apply_profile profile_local c).0 e))
  | inr (es, e) ↦ rw (e, after_fix)
]

-- The repair: sound settings are left alone; others become the local preset, and the call
-- succeeds if the log level was a level of 100 to 600, and fails with INVALID_CONFIG otherwise,
-- the settings replaced all the same.
pub apply_default_if_invalid_lem :
    (c : ClientConfig)
    → Fits c
    → (IsSound c → apply_default_if_invalid c ≡ (ok false, c))
      × (¬ IsSound c
          → (log_trace ≤ c.log_level) × (c.log_level ≤ log_fatal)
          → (apply_default_if_invalid c ≡ (ok true, apply_profile profile_local c))
            × IsSound (apply_profile profile_local c))
      × (¬ ((log_trace ≤ c.log_level) × (c.log_level ≤ log_fatal))
          → apply_default_if_invalid c ≡ (err invalid_config, apply_profile profile_local c))
unfolding after_fix
apply_default_if_invalid_lem c f = elim (Option-cases (check c)) [
  | inl e ↦ (
    λ s. repair_none c e,
    λ n l. absurd (n (IsSound-of_check c f e)),
    λ n. let s = IsSound-of_check c f e in absurd (n (s.log_low, s.log_high)),
  )
  | inr (es, e) ↦ (
    λ s. let ok_now = check_of_sound c f s in cc,
    λ n l. (
      repair_some c e ∙ rw ((check-apply_profile profile_local c).1 l, after_fix),
      profile-IsSound profile_local c l.0 l.1,
    ),
    λ n. repair_some c e ∙ ap (λ r. (r, apply_profile profile_local c)) (refused_profile c n),
  )
]
