-- ===== src/Impl/Watchdog/Turn.antt =====
-- One turn of the watchdog's loop.
use net_way.Prelude.{
  ℕ, ◌+◌, ◌%◌, ◌^◌, ◌<◌, ◌≡◌, refl, ap, ◌∙◌, sym, subst, Bool, true, false, leb, if◌then◌else◌,
  Option, none, some, arith, Bool-cases, inl, inr, ◌⊎◌, if-keeps,
}
use net_way.Life.{recovering, same_life}
use net_way.Sdk.{Sdk, Ticks}
use net_way.Impl.{State, get_effective_stop_signal, call, call_run_iterate, now_ms_impl}
use net_way.Impl.Frame.{Frame, Frame-refl, call_run_iterate-Frame}
use net_way.Impl.Rounds.{wall_budget_ns}
use net_way.Impl.Watchdog.{delay_if_recovering, count_retry, decide_if_due, watchdog_turn}
use net_way.Impl.Watchdog.Backoff.{delay_function-Returns}
use net_way.Impl.Watchdog.Total.{decision_ends}

if_true : {A : Type 0} (b : Bool) (x y : A) → b ≡ true → (if b then x else y) ≡ x
if_true true x y h = refl
if_true false x y h = absurd (ground arith)

if_false : {A : Type 0} (b : Bool) (x y : A) → b ≡ false → (if b then x else y) ≡ y
if_false true x y h = absurd (ground arith)
if_false false x y h = refl

module _ {W : Type 0} (sdk : Sdk W) where
  delay_if_recovering-Frame :
      (fuel retry : ℕ) (s : State W)
      → s.m_config.retry_max_backoff_ms < fuel
      → (n : ℕ) × (t : State W) × (delay_if_recovering sdk fuel retry s ≡ some (n, t))
        × Frame s.impl t.impl
  unfolding delay_if_recovering
  delay_if_recovering-Frame fuel retry s h =
      let (t, e, f) = delay_function-Returns sdk fuel ((retry + 1) % 2 ^ 32) s h in
      elim (Bool-cases (same_life s.m_life_state recovering)) [
        | inl slow ↦ ((retry + 1) % 2 ^ 32, t, rw (delay_if_recovering, slow, e) refl, f)
        | inr fast ↦ (retry, s, rw (delay_if_recovering, fast) refl, Frame-refl s.impl)
      ]

module _ {W : Type 0} (sdk : Sdk W) (time : W → ℕ) (ticks : Ticks sdk time) where
  decide_if_due_ends :
      (fuel last retry : ℕ) (s : State W)
      → wall_budget_ns s.m_config.timeout_ms < fuel
      → (r : ℕ × ℕ × State W) × (decide_if_due sdk fuel last retry s ≡ some r)
  unfolding decide_if_due now_ms_impl
  decide_if_due_ends fuel last retry s h =
      let (now, s1) = now_ms_impl sdk s in
      let (t, e) = decision_ends sdk time ticks fuel s1 h in
      elim (Bool-cases (leb (last + s.m_config.watchdog_interval_ms) now)) [
        | inl due ↦
            ((now, count_retry sdk t.m_life_state retry, t), rw (decide_if_due, due, e) refl)
        | inr early ↦ ((last, retry, s1), rw (decide_if_due, early) refl)
      ]

  -- With fuel for a wall clock bound and for the longest backoff, a turn of the watchdog's loop
  -- ends. Under the stop signal, and without a client, the thread returns and everything is as it
  -- was; otherwise it goes on to a next turn. The steady clock does not go back and advances between
  -- two readings.
  pub watchdog_turn_ends :
      (fuel last retry : ℕ) (s : State W)
      → wall_budget_ns s.m_config.timeout_ms < fuel
      → s.m_config.retry_max_backoff_ms < fuel
      → (get_effective_stop_signal s.impl ≡ true
          → watchdog_turn sdk fuel last retry s ≡ some (inl s))
        × (s.m_impl ≡ false → watchdog_turn sdk fuel last retry s ≡ some (inl s))
        × (get_effective_stop_signal s.impl ≡ false
            → s.m_impl ≡ true
            → (r : ℕ × ℕ × State W) × (watchdog_turn sdk fuel last retry s ≡ some (inr r)))
  unfolding watchdog_turn
  watchdog_turn_ends fuel last retry s h k =
      let s0 = call_run_iterate sdk 0 s in
      let f0 = call_run_iterate-Frame sdk 0 s in
      let (n, s1, e, f) =
        delay_if_recovering-Frame sdk fuel retry s0
          (subst (λ c. c.retry_max_backoff_ms < fuel) (sym f0.same_config) k) in
      let ((last', n', s2), e2) = decide_if_due_ends fuel last n s1 (
        subst (λ c. wall_budget_ns c.timeout_ms < fuel) (sym (f.same_config ∙ f0.same_config)) h) in
      (
        λ stop. if_true (get_effective_stop_signal s.impl) _ _ stop,
        λ gone.
            if-keeps (λ o. o ≡ some (inl s)) (get_effective_stop_signal s.impl) refl
              (if_false s.m_impl _ _ gone),
        λ go here. (
          (last', n', (call sdk (sdk.wait_ms 100) s2).1),
          if_false (get_effective_stop_signal s.impl) _ _ go
              ∙ (if_true s.m_impl _ _ here ∙ (ap (after_delay fuel last) e ∙ ap after_decision e2)),
        ),
      )
    where
      after_decision : Option (ℕ × ℕ × State W) → Option (State W ⊎ (ℕ × ℕ × State W))
      after_decision o = elim o [
        | none ↦ none
        | some (last', retry'', s2) ↦ some (inr (last', retry'', (call sdk (sdk.wait_ms 100) s2).1))
      ]

      after_delay : ℕ → ℕ → Option (ℕ × State W) → Option (State W ⊎ (ℕ × ℕ × State W))
      after_delay fuel last o = elim o [
        | none ↦ none
        | some (retry', s1) ↦ after_decision (decide_if_due sdk fuel last retry' s1)
      ]
