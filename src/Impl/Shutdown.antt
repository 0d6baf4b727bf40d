-- ===== src/Impl/Shutdown.antt =====
-- The end of `OPC_UA_Client::Impl` in `src/OPCUAPacking/ua.cpp`: `shutdown`, `joinWatchdog`,
-- `doCleanup` and the destructor. Waiting for the watchdog thread to end is a parameter. The
-- exceptions that `shutdown` swallows are not followed.
pub mod Laws
use net_way.Prelude.{
  ℕ, ◌*◌, ◌%◌, ◌^◌, ◌≡◌, Bool, true, false, not, ◌&&◌, ◌==◌, max, if◌then◌else◌, arith,
}
use net_way.Sdk.{Sdk, Reply}
use net_way.Impl.{Impl, State, signal_shutdown, call}
use net_way.Impl.Rounds.{on_impl}

-- The wait for the tasks in flight, at most `max(timeoutMs, watchdogIntervalMs * 2)` of `uint32_t`s.
abbrev pub drain_timeout_ms : Impl → ℕ
drain_timeout_ms i = max i.m_config.timeout_ms (i.m_config.watchdog_interval_ms * 2 % 2 ^ 32)

module _ {W : Type 0} (sdk : Sdk W) (join : W → Reply W (Unit {0})) where
  -- `joinWatchdog`: joined, or, on the watchdog's own thread, detached.
  unfoldable pub join_watchdog : (is_watchdog : Bool) → State W → State W
  join_watchdog is_watchdog s =
      let s1 = if is_watchdog then s else (call sdk join s).1 in
      if s.m_watchdog_thread && s.watchdog_joinable
      then record s1 { impl = record s1.impl { watchdog_joinable = false } }
      else s

  -- The wait returns at once without a task, and after the time-out at the latest.
  unfoldable pub wait_for_tasks : State W → State W
  wait_for_tasks s =
      if s.m_task_counter == 0 then s else (call sdk (sdk.wait_ms (drain_timeout_ms s.impl)) s).1

  unfoldable pub shutdown_impl : (is_watchdog : Bool) → State W → State W
  unfolding join_watchdog wait_for_tasks
  shutdown_impl is_watchdog s =
      let s1 = join_watchdog is_watchdog (on_impl signal_shutdown s) in
      wait_for_tasks (record s1 { impl = record s1.impl { m_stop = true } })

  unfoldable pub do_cleanup : Impl → Impl
  do_cleanup i = record i { m_impl = false }

  -- `ThreadGuard`, which takes the thread over from `m_watchdogThread` and joins or detaches it.
  unfoldable pub thread_guard : (is_watchdog : Bool) → State W → State W
  unfolding join_watchdog
  thread_guard is_watchdog s =
      on_impl (λ i. record i { m_watchdog_thread = false }) (join_watchdog is_watchdog s)

  -- `~Impl`
  unfoldable pub destroy_impl : (is_watchdog : Bool) → State W → State W
  unfolding shutdown_impl thread_guard do_cleanup
  destroy_impl is_watchdog s =
      let s1 = if s.m_stop then s else shutdown_impl is_watchdog s in
      let s2 = on_impl (λ i. record i { m_shutdown = true; m_running = false }) s1 in
      on_impl do_cleanup (thread_guard is_watchdog s2)
