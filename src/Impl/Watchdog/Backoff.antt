-- ===== src/Impl/Watchdog/Backoff.antt =====
-- The backoff is the documented formula, and the delay ends.
use net_way.Prelude.{
  ℕ, zero, suc, ◌+◌, ◌-◌, ◌*◌, ◌%◌, ◌^◌, ◌≤◌, ◌<◌, ◌≡◌, refl, min, ltb, leb, ◌==◌, arith, some,
  leb→le, Bool-cases, inl, inr,
}
use native.Mathlib.Nat.{pow-suc}
use net_way.Config.{ClientConfig}
use net_way.Sdk.{Sdk}
use net_way.Impl.Frame.{Frame, Frame-refl, Frame-trans, call-Frame}
use net_way.Impl.{State, get_effective_stop_signal, call}
use net_way.Impl.Watchdog.{calculate_backoff, delay_loop, delay_function}

pow_mono : (a b : ℕ) → a ≤ b → 2 ^ a ≤ 2 ^ b
pow_mono zero zero h = omega arith
pow_mono zero (suc b) h = omega (arith, pow-suc 2 b, pow_mono zero b (omega arith))
pow_mono (suc a) zero h = absurd (omega arith)
pow_mono (suc a) (suc b) h = omega (arith, pow-suc 2 a, pow-suc 2 b, pow_mono a b (omega arith))

-- The delay before retry `n` is `retryBackoffBaseMs * 2 ^ n`, at most `retryMaxBackoffMs`, for
-- every n and without overflow, when the base is positive and both are `uint32_t`s.
pub calculate_backoff_lem :
    (c : ClientConfig) (retry : ℕ)
    → 0 < c.retry_backoff_base_ms
    → c.retry_backoff_base_ms < 2 ^ 32
    → c.retry_max_backoff_ms < 2 ^ 32
    → calculate_backoff c retry ≡ min (c.retry_backoff_base_ms * 2 ^ retry) c.retry_max_backoff_ms
unfolding calculate_backoff
calculate_backoff_lem c retry p b m = elim (Bool-cases (leb 32 retry)) [
  | inl far ↦
      let grown : 2 ^ 32 ≤ 2 ^ retry = pow_mono 32 retry (leb→le 32 retry far) in
      let product : 2 ^ retry ≤ c.retry_backoff_base_ms * 2 ^ retry = grind arith in
      rw far (omega arith)
  | inr near ↦
      let small : 2 ^ retry ≤ 2 ^ 31 = pow_mono retry 31 (ground arith) in
      let product : c.retry_backoff_base_ms * 2 ^ retry ≤ c.retry_backoff_base_ms * 2 ^ 31 =
        grind arith in
      let exact : c.retry_backoff_base_ms * 2 ^ retry % 2 ^ 64
          ≡ c.retry_backoff_base_ms * 2 ^ retry =
        omega arith in
      rw (near, exact) (ground arith)
]

backoff_bounded :
    (c : ClientConfig) (retry : ℕ) → calculate_backoff c retry ≤ c.retry_max_backoff_ms
unfolding calculate_backoff
backoff_bounded c retry = ground arith

module _ {W : Type 0} (sdk : Sdk W) where
  delay_loop-Frame :
      (fuel backoff elapsed : ℕ) (s : State W)
      → backoff < fuel + elapsed
      → elapsed ≤ backoff
      → (s1 : State W) × (delay_loop sdk fuel backoff elapsed s ≡ some s1) × Frame s.impl s1.impl
  unfolding delay_loop
  delay_loop-Frame zero backoff elapsed s h k = absurd (omega arith)
  delay_loop-Frame (suc fuel) backoff elapsed s h k =
      let segment = min 100 (backoff - elapsed) in
      let waited = (call sdk (sdk.wait_ms segment) s).1 in
      elim (Bool-cases (ltb elapsed backoff)) [
        | inl more ↦
            let (s1, e, f) =
              delay_loop-Frame fuel backoff (elapsed + segment) waited (ground arith)
                (ground arith) in
            elim (Bool-cases (get_effective_stop_signal s.impl)) [
              | inl stop ↦ (s, rw (more, stop) refl, Frame-refl s.impl)
              | inr go ↦
                  (s1, rw (more, go) e, Frame-trans (call-Frame sdk (sdk.wait_ms segment) s) f)
            ]
        | inr done ↦ (s, rw done refl, Frame-refl s.impl)
      ]

  -- With more fuel than `retryMaxBackoffMs` the delay before any retry ends, and it leaves the
  -- configuration, the connection slot and the task counter alone and GIVEN_UP in place.
  pub delay_function-Returns :
      (fuel retry : ℕ) (s : State W)
      → s.m_config.retry_max_backoff_ms < fuel
      → (s1 : State W) × (delay_function sdk fuel retry s ≡ some s1) × Frame s.impl s1.impl
  unfolding delay_function
  delay_function-Returns fuel retry s h =
      let small = backoff_bounded s.m_config retry in
      let (s1, e, f) =
        delay_loop-Frame fuel (calculate_backoff s.m_config retry) 0 s (omega (arith, small))
          (omega arith) in
      elim (Bool-cases (calculate_backoff s.m_config retry == 0)) [
        | inl none' ↦ (s, rw none' refl, Frame-refl s.impl)
        | inr some' ↦ (s1, rw some' e, f)
      ]
