-- ===== src/Tests/HalfOpen.antt =====
-- A channel that is open on a client with a bad status.
use net_way.Prelude.{ℕ, ◌≡◌, refl, ap, false, some, ◌==◌, arith}
use net_way.Sdk.{Sdk}
use net_way.Packed.{pack_state, unpack_state}
use net_way.Impl.{
  State, get_effective_stop_signal, is_healthy_cached, call, call_run_iterate, deliver, on_event,
  update_packed, try_publish_if_unchanged, update_bad_status_time, now_ms_impl, is_channel_closed,
}
use net_way.Impl.Connected.{refresh, note_status, is_connected}
use net_way.Impl.Connected.Publish.{unpack-write}
use net_way.Impl.Watchdog.{do_watchdog_decision}
use net_way.Impl.Watchdog.Stuck.{IsHalfOpen, with_links, open_channel_stays}
use net_way.Tests.{server, running_client}

abbrev half_open : Sdk ℕ
half_open = server 3 4 2156527616

running_client-IsHalfOpen : IsHalfOpen half_open running_client
unfolding get_effective_stop_signal is_healthy_cached call call_run_iterate deliver on_event
    update_packed try_publish_if_unchanged update_bad_status_time now_ms_impl is_channel_closed
    refresh note_status is_connected pack_state unpack_state
running_client-IsHalfOpen = record {
  not_stopped = refl;
  has_client = refl;
  unhealthy = refl;
  not_lost = refl;
  activated = refl;
  channel_there = refl;
}

-- After any iteration the word says that the channel is open.
iterate_opens :
    (s : State ℕ) → is_channel_closed half_open (call_run_iterate half_open 1 s).impl ≡ false
unfolding call call_run_iterate deliver on_event update_packed is_channel_closed
iterate_opens s =
    ap (λ f. f.channel == 0)
      (unpack-write (record { channel = 3; session = 4; status = 2156527616 }) s.state_packed
        (record {
          status_fits = omega arith;
          channel_fits = omega arith;
          session_fits = omega arith;
        }))

open_channel_stays_example :
    (s2 : State ℕ) × (do_watchdog_decision half_open 7 running_client ≡ some s2)
    × (do_watchdog_decision
          (with_links half_open.disconnect_async half_open.connect_async half_open)
          0
          running_client
        ≡ some s2)
open_channel_stays_example =
    open_channel_stays half_open half_open.disconnect_async half_open.connect_async 7 running_client
      running_client-IsHalfOpen (λ s1 h. iterate_opens s1)
