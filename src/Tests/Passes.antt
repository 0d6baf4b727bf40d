-- ===== src/Tests/Passes.antt =====
-- Passes of the watchdog's loop that end in an exception.
use net_way.Prelude.{ℕ, ◌≡◌, ◌⊎◌, inl, inr, refl, true, false, Option, some}
use net_way.Life.{running, given_up}
use net_way.ErrorMapping.{Exception, bad_alloc, anything}
use net_way.Impl.{
  State, get_effective_stop_signal, turn_to_giveup, update_bad_status_time, now_ms_impl, call,
  deliver,
}
use net_way.Impl.Watchdog.{delay_function, delay_loop, calculate_backoff}
use net_way.Impl.Watchdog.Loop.{Position, watchdog_pass, after_exception}
use net_way.Impl.Watchdog.Passes.{watchdog_ends_stopped}
use net_way.Tests.{up, client, open_word, running_client}

abbrev out_of_memory : Position ℕ → Option (Exception × Position ℕ)
out_of_memory p = some (bad_alloc, p)

abbrev stopped_client : State ℕ
stopped_client = record { impl = client given_up open_word 5; world = 5000000 }

ended : watchdog_pass up out_of_memory 5 (5, 0, running_client) ≡ some (inl stopped_client)
unfolding watchdog_pass after_exception get_effective_stop_signal turn_to_giveup
    update_bad_status_time now_ms_impl
ended = refl

watchdog_ends_stopped_example :
    (get_effective_stop_signal stopped_client.impl ≡ true) ⊎ (stopped_client.impl.m_impl ≡ false)
watchdog_ends_stopped_example =
    watchdog_ends_stopped up out_of_memory 5 (5, 0, running_client) ended

abbrev fails : Position ℕ → Option (Exception × Position ℕ)
fails p = some (anything, p)

abbrev delayed_client : State ℕ
delayed_client = record { impl = client running open_word 0; world = 1005000000 }

failed : watchdog_pass up fails 20 (5, 0, running_client) ≡ some (inr (5, 1, delayed_client))
unfolding watchdog_pass after_exception get_effective_stop_signal delay_function delay_loop
    calculate_backoff call deliver
failed = refl
