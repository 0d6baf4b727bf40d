-- ===== src/Impl/Watchdog/Passes.antt =====
-- What the watchdog's passes leave alone, however many there are, and how its thread ends.
use net_way.Prelude.{
  ℕ, ◌+◌, ◌%◌, ◌^◌, ◌≡◌, ◌⊎◌, inl, inr, subst, true, false, Option, none, some, arith, if-keeps,
  if_cases, match-keeps, match_cases,
}
use net_way.Life.{given_up}
use net_way.Sdk.{Sdk}
use net_way.ErrorMapping.{Exception, bad_alloc, system_error, std_exception, anything}
use net_way.Impl.{
  Impl, State, get_effective_stop_signal, call, turn_to_giveup, call_run_iterate, now_ms_impl,
}
use net_way.Impl.Frame.{
  Frame, Frame-refl, Frame-trans, turn_to_giveup-Frame, call-Frame, call_run_iterate-Frame,
}
use net_way.Impl.Watchdog.{delay_function, delay_if_recovering, decide_if_due, watchdog_turn}
use net_way.Impl.Watchdog.Decision.{turn_to_giveup-GivenUp}
use net_way.Impl.Watchdog.Kept.{delay_function-Keeps, decision-Keeps}
use net_way.Impl.Watchdog.Loop.{Position, after_exception, watchdog_pass, Watched, started, passed}

module _ {W : Type 0} (sdk : Sdk W) where
  abbrev PassKeeps : Impl → Option (State W ⊎ Position W) → Type 0
  PassKeeps i none = Unit {0}
  PassKeeps i (some (inl s)) = Frame i s.impl
  PassKeeps i (some (inr p)) = Frame i p.2.impl

  abbrev CountKeeps : Impl → Option (ℕ × State W) → Type 0
  CountKeeps i none = Unit {0}
  CountKeeps i (some (n, s)) = Frame i s.impl

  abbrev PlaceKeeps : Impl → Option (ℕ × ℕ × State W) → Type 0
  PlaceKeeps i none = Unit {0}
  PlaceKeeps i (some p) = Frame i p.2.impl

  delay_if_recovering-Keeps :
      (fuel retry : ℕ) (s : State W) → CountKeeps s.impl (delay_if_recovering sdk fuel retry s)
  unfolding delay_if_recovering
  delay_if_recovering-Keeps fuel retry s =
      ground (arith, Frame-refl s.impl, delay_function-Keeps sdk fuel ((retry + 1) % 2 ^ 32) s)

  decide_if_due-Keeps :
      (fuel last retry : ℕ) (s : State W) → PlaceKeeps s.impl (decide_if_due sdk fuel last retry s)
  unfolding decide_if_due now_ms_impl
  decide_if_due-Keeps fuel last retry s =
      ground (arith, Frame-refl s.impl, decision-Keeps sdk fuel (now_ms_impl sdk s).1)

  waited :
      (i : Impl) (o : Option (ℕ × ℕ × State W))
      → PlaceKeeps i o
      → PassKeeps i (elim o [
        | none ↦ none
        | some (l, r, s2) ↦ some (inr (l, r, (call sdk (sdk.wait_ms 100) s2).1))
      ])
  waited i none h = tt
  waited i (some (l, r, s2)) h = Frame-trans h (call-Frame sdk (sdk.wait_ms 100) s2)

  PlaceKeeps-after :
      (i j : Impl) (o : Option (ℕ × ℕ × State W)) → Frame i j → PlaceKeeps j o → PlaceKeeps i o
  PlaceKeeps-after i j none f h = tt
  PlaceKeeps-after i j (some p) f h = Frame-trans f h

  delayed :
      (fuel last : ℕ) (i j : Impl) (o : Option (ℕ × State W))
      → Frame i j
      → CountKeeps j o
      → PassKeeps i (elim o [
        | none ↦ none
        | some (retry', s1) ↦ elim (decide_if_due sdk fuel last retry' s1) [
          | none ↦ none
          | some (l, r, s2) ↦ some (inr (l, r, (call sdk (sdk.wait_ms 100) s2).1))
        ]
      ])
  delayed fuel last i j none f h = tt
  delayed fuel last i j (some (n, s1)) f h =
      waited i (decide_if_due sdk fuel last n s1)
        (PlaceKeeps-after i s1.impl _ (Frame-trans f h) (decide_if_due-Keeps fuel last n s1))

  turn-Keeps :
      (fuel last retry : ℕ) (s : State W) → PassKeeps s.impl (watchdog_turn sdk fuel last retry s)
  unfolding watchdog_turn
  turn-Keeps fuel last retry s =
      let s1 = call_run_iterate sdk 0 s in
      let go =
        delayed fuel last s.impl s1.impl (delay_if_recovering sdk fuel retry s1)
          (call_run_iterate-Frame sdk 0 s) (delay_if_recovering-Keeps fuel retry s1) in
      if-keeps (PassKeeps s.impl) (get_effective_stop_signal s.impl) (Frame-refl s.impl)
        (if-keeps (PassKeeps s.impl) s.m_impl go (Frame-refl s.impl))

  after_exception-Keeps :
      (fuel last retry : ℕ) (x : Exception) (s : State W)
      → PassKeeps s.impl (after_exception sdk fuel x last retry s)
  unfolding after_exception
  after_exception-Keeps fuel last retry bad_alloc s = turn_to_giveup-Frame sdk s
  after_exception-Keeps fuel last retry system_error s = turn_to_giveup-Frame sdk s
  after_exception-Keeps fuel last retry std_exception s =
      ground (arith, delay_function-Keeps sdk fuel ((retry + 1) % 2 ^ 32) s)
  after_exception-Keeps fuel last retry anything s =
      ground (arith, delay_function-Keeps sdk fuel ((retry + 1) % 2 ^ 32) s)

  PassKeeps-after :
      (i j : Impl) (o : Option (State W ⊎ Position W)) → Frame i j → PassKeeps j o → PassKeeps i o
  PassKeeps-after i j none f h = tt
  PassKeeps-after i j (some (inl s)) f h = Frame-trans f h
  PassKeeps-after i j (some (inr p)) f h = Frame-trans f h

  -- Where the thread ends, the stop signal is on or there is no client.
  abbrev EndsStopped : Option (State W ⊎ Position W) → Type 0
  EndsStopped none = Unit {0}
  EndsStopped (some (inl s)) = (get_effective_stop_signal s.impl ≡ true) ⊎ (s.m_impl ≡ false)
  EndsStopped (some (inr p)) = Unit {0}

  given_up-stops :
      (s : State W) → s.m_life_state ≡ given_up → get_effective_stop_signal s.impl ≡ true
  unfolding get_effective_stop_signal
  given_up-stops s h = ground arith

  after_exception-EndsStopped :
      (fuel last retry : ℕ) (x : Exception) (s : State W)
      → EndsStopped (after_exception sdk fuel x last retry s)
  unfolding after_exception
  after_exception-EndsStopped fuel last retry bad_alloc s =
      inl (given_up-stops (turn_to_giveup sdk s) (turn_to_giveup-GivenUp sdk s))
  after_exception-EndsStopped fuel last retry system_error s =
      inl (given_up-stops (turn_to_giveup sdk s) (turn_to_giveup-GivenUp sdk s))
  after_exception-EndsStopped fuel last retry std_exception s =
      match-keeps EndsStopped (delay_function sdk fuel ((retry + 1) % 2 ^ 32) s) tt (λ t. tt)
  after_exception-EndsStopped fuel last retry anything s =
      match-keeps EndsStopped (delay_function sdk fuel ((retry + 1) % 2 ^ 32) s) tt (λ t. tt)

  turn-EndsStopped :
      (fuel last retry : ℕ) (s : State W) → EndsStopped (watchdog_turn sdk fuel last retry s)
  unfolding watchdog_turn
  turn-EndsStopped fuel last retry s =
      if_cases EndsStopped (get_effective_stop_signal s.impl) (λ stop. inl stop)
        (λ go.
          if_cases EndsStopped s.m_impl
            (λ here.
              match-keeps EndsStopped
                (delay_if_recovering sdk fuel retry (call_run_iterate sdk 0 s)) tt
                (λ (n, s1).
                  match-keeps EndsStopped (decide_if_due sdk fuel last n s1) tt (λ q. tt)))
            (λ gone. inr gone))

  abbrev pub ThrownKeeps : Impl → Option (Exception × Position W) → Type 0
  ThrownKeeps i none = Unit {0}
  ThrownKeeps i (some (x, q)) = Frame i q.2.impl

  module _ (thrown : Position W → Option (Exception × Position W)) where
    pass-EndsStopped : (fuel : ℕ) (p : Position W) → EndsStopped (watchdog_pass sdk thrown fuel p)
    unfolding watchdog_pass
    pass-EndsStopped fuel (last, retry, s) =
        if_cases EndsStopped (get_effective_stop_signal s.impl) (λ stop. inl stop)
          (λ go.
            match-keeps EndsStopped (thrown (last, retry, s)) (turn-EndsStopped fuel last retry s)
              (λ (x, q). after_exception-EndsStopped fuel q.0 q.1 x q.2))

    -- The thread of the watchdog ends, by a return or by an exception, only where the stop signal
    -- is on (a shutdown, or GIVEN_UP) or there is no client: it never leaves a client behind that
    -- could run on unwatched.
    pub watchdog_ends_stopped :
        (fuel : ℕ) (p : Position W) {s : State W}
        → watchdog_pass sdk thrown fuel p ≡ some (inl s)
        → (get_effective_stop_signal s.impl ≡ true) ⊎ (s.m_impl ≡ false)
    watchdog_ends_stopped fuel p h = subst EndsStopped h (pass-EndsStopped fuel p)

    module _ (guarded : (p : Position W) → ThrownKeeps p.2.impl (thrown p)) where
      pass-Keeps :
          (fuel : ℕ) (p : Position W) → PassKeeps p.2.impl (watchdog_pass sdk thrown fuel p)
      unfolding watchdog_pass
      pass-Keeps fuel (last, retry, s) =
          if-keeps (PassKeeps s.impl) (get_effective_stop_signal s.impl) (Frame-refl s.impl) (
            match_cases (PassKeeps s.impl) (thrown (last, retry, s))
              (λ e. turn-Keeps fuel last retry s)
              (λ (x, q) e.
                PassKeeps-after s.impl q.2.impl (after_exception sdk fuel x q.0 q.1 q.2)
                  (subst (ThrownKeeps s.impl) e (guarded (last, retry, s)))
                  (after_exception-Keeps fuel q.0 q.1 x q.2)))

      start-Frame : (s : State W) → Frame s.impl (now_ms_impl sdk s).1.impl
      unfolding now_ms_impl
      start-Frame s = Frame-refl s.impl

      -- However many passes the watchdog has made, with whatever exceptions, the connection slot and
      -- the task counter are as they were when its thread started, the settings, the pointers, the
      -- stop flag and the thread itself are untouched, and GIVEN_UP has stayed. That an exception's
      -- way out releases what `connect` and `disconnect` took is a hypothesis.
      pub Watched-Frame :
          (fuel : ℕ) (s : State W) {p : Position W}
          → Watched sdk thrown fuel s p
          → Frame s.impl p.2.impl
      Watched-Frame fuel s started = start-Frame s
      Watched-Frame fuel s (passed {p = p} w e) =
          Frame-trans (Watched-Frame fuel s w) (subst (PassKeeps p.2.impl) e (pass-Keeps fuel p))
