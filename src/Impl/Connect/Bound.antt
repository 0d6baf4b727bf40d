-- ===== src/Impl/Connect/Bound.antt =====
-- The wall clock bound of `connect` and `disconnect`, `2 * timeoutMs + 500` milliseconds.
use net_way.Prelude.{◌+◌, ◌*◌, ◌^◌, ◌≤◌, ◌<◌, ◌≡◌, none, arith}
use net_way.Config.{ClientConfig, check}
use net_way.Config.Check.{Fits, check_iff}
use net_way.Impl.Rounds.{wall_budget_ns}

-- For settings that `check` accepts, the bound is `2 * timeoutMs + 500` milliseconds up to a timeout
-- of 2147483397 ms. Above it the sum of `uint32_t`s wraps around, and the bound is less than half a
-- second.
pub wall_budget_lem :
    (c : ClientConfig)
    → Fits c
    → check c ≡ none
    → (c.timeout_ms ≤ 2147483397 → wall_budget_ns c.timeout_ms ≡ (2 * c.timeout_ms + 500) * 1000000)
      × (2147483397 < c.timeout_ms → wall_budget_ns c.timeout_ms < 500 * 1000000)
unfolding wall_budget_ns
wall_budget_lem c f h =
    let sound = (check_iff c f).0 h in
    let more : 2 * c.timeout_ms ≤ 2 * c.timeout_ms * (c.max_retries + 1) = grind arith in
    let small : 2 * c.timeout_ms < 2 ^ 32 = omega (arith, more, sound.wait_covers, f.wait_fits) in
    (λ k. omega (arith, small), λ k. omega (arith, small))
