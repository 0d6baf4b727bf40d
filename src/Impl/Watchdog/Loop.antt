-- ===== src/Impl/Watchdog/Loop.antt =====
-- `runWatchdog`: the passes of its loop, each a turn or an exception, and their sequences.
use net_way.Prelude.{ℕ, ◌+◌, ◌%◌, ◌^◌, ◌≡◌, ◌⊎◌, inl, inr, if◌then◌else◌, Option, none, some}
use net_way.ErrorMapping.{Exception, bad_alloc, system_error, std_exception, anything}
use net_way.Sdk.{Sdk}
use net_way.Impl.{State, get_effective_stop_signal, turn_to_giveup, now_ms_impl}
use net_way.Impl.Watchdog.{delay_function, watchdog_turn}

-- What the loop carries along: the time of the last decision, the retry counter and the state.
abbrev pub Position : Type 0 → Type 0
Position W = ℕ × ℕ × State W

module _ {W : Type 0} (sdk : Sdk W) where
  -- The `catch` clauses: the thread gives the client up and ends, or waits and goes on.
  unfoldable pub after_exception :
      ℕ → Exception → (last retry : ℕ) → State W → Option (State W ⊎ Position W)
  after_exception fuel bad_alloc last retry s = some (inl (turn_to_giveup sdk s))
  after_exception fuel system_error last retry s = some (inl (turn_to_giveup sdk s))
  after_exception fuel std_exception last retry s =
      elim (delay_function sdk fuel ((retry + 1) % 2 ^ 32) s) [
        | none ↦ none
        | some s1 ↦ some (inr (last, (retry + 1) % 2 ^ 32, s1))
      ]
  after_exception fuel anything last retry s =
      elim (delay_function sdk fuel ((retry + 1) % 2 ^ 32) s) [
        | none ↦ none
        | some s1 ↦ some (inr (last, (retry + 1) % 2 ^ 32, s1))
      ]

  -- `thrown` says whether an exception ends the body of the loop, and where it leaves the loop.
  module _ (thrown : Position W → Option (Exception × Position W)) where
    -- `inl` when the thread ends.
    unfoldable pub watchdog_pass : ℕ → Position W → Option (State W ⊎ Position W)
    watchdog_pass fuel (last, retry, s) =
        if get_effective_stop_signal s.impl then some (inl s) else elim (thrown (last, retry, s)) [
          | none ↦ watchdog_turn sdk fuel last retry s
          | some (x, p) ↦ let (last', retry', s1) = p in after_exception fuel x last' retry' s1
        ]

    -- The thread starts by reading the clock, and has made some passes.
    pub data Watched (fuel : ℕ) (s : State W) : Position W → Type 0 where
      started : Watched fuel s ((now_ms_impl sdk s).0, 0, (now_ms_impl sdk s).1)
      passed :
          {p q : Position W}
          → Watched fuel s p
          → watchdog_pass fuel p ≡ some (inr q)
          → Watched fuel s q
