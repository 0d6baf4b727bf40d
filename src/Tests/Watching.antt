-- ===== src/Tests/Watching.antt =====
-- Decisions of the watchdog.
use net_way.Prelude.{ℕ, ◌<◌, ◌≡◌, refl, false, some, arith}
use net_way.Life.{recovering, given_up}
use net_way.Impl.{
  State, get_effective_stop_signal, is_healthy_cached, call, call_run_iterate, deliver, on_event,
  update_packed, try_publish_if_unchanged, update_bad_status_time, now_ms_impl, reaches,
  triple_ready, turn_to_recovering, is_channel_closed, should_trigger_give_up,
}
use net_way.Packed.{pack_state, unpack_state}
use net_way.Impl.Turns.{RunningIsHealthy}
use net_way.Impl.Connected.{refresh, note_status, is_connected}
use net_way.Impl.Rounds.{
  wall_budget_ns, rounds, timed_out, enter_task, leave_task, take_conn, release_conn,
}
use net_way.Life.{turn_to_recovering_loop}
use net_way.Impl.Connect.{
  connect, connect_inner, connect_taken, connect_round, connect_waits, connect_last,
  connect_gives_up,
}
use net_way.Impl.Disconnect.{
  disconnect, disconnect_inner, disconnect_taken, disconnect_round, disconnect_looks, note_cached,
}
use net_way.Impl.Watchdog.{
  do_watchdog_decision, repair, within_window, drop_and_reconnect, after_disconnect,
  reconnect_if_closed, reconnect, after_connect,
}
use net_way.Impl.Watchdog.Decision.{decision_keeps_contract}
use net_way.Impl.Watchdog.GiveUp.{decision_gives_up, IsLate}
use net_way.Impl.Watchdog.Total.{decision_ends}
use net_way.Tests.{down, server-Ticks, client, running_client, late_client}

-- The server does not come back: the connection is dropped, and the attempt to connect times out.
abbrev tried : State ℕ
tried = record { impl = client recovering 2674604984238080 5; world = 156000003 }

decision_run : do_watchdog_decision down 5 running_client ≡ some tried
unfolding do_watchdog_decision repair within_window drop_and_reconnect after_disconnect
    reconnect_if_closed reconnect after_connect should_trigger_give_up is_channel_closed
    get_effective_stop_signal connect connect_inner connect_taken connect_round connect_waits
    connect_last connect_gives_up disconnect disconnect_inner disconnect_taken disconnect_round
    disconnect_looks note_cached rounds timed_out is_connected turn_to_recovering enter_task
    leave_task take_conn release_conn wall_budget_ns reaches triple_ready turn_to_recovering_loop
    refresh note_status call deliver on_event update_packed try_publish_if_unchanged
    update_bad_status_time call_run_iterate pack_state unpack_state now_ms_impl is_healthy_cached
decision_run = refl

decision_keeps_contract_example : RunningIsHealthy down tried.impl
unfolding get_effective_stop_signal
decision_keeps_contract_example =
    decision_keeps_contract down 5 running_client refl refl refl decision_run

budget : wall_budget_ns 1 < 600000000
unfolding wall_budget_ns
budget = omega arith

decision_ends_example :
    (t : State ℕ) × (do_watchdog_decision down 600000000 running_client ≡ some t)
decision_ends_example =
    decision_ends down (λ w. w) (server-Ticks 0 0 2156527616) 600000000 running_client budget

-- More than the threshold of 1000 ms after the first bad status.
late_unhealthy : is_healthy_cached down (refresh down 0 late_client).impl ≡ false
unfolding refresh note_status call deliver on_event update_packed try_publish_if_unchanged
    update_bad_status_time call_run_iterate pack_state unpack_state now_ms_impl is_healthy_cached
late_unhealthy = refl

late_client-IsLate : IsLate down (refresh down 0 late_client)
unfolding reaches refresh note_status call deliver on_event update_packed try_publish_if_unchanged
    update_bad_status_time call_run_iterate pack_state unpack_state now_ms_impl is_healthy_cached
late_client-IsLate = (λ h. absurd (ground arith), refl)

decision_gives_up_example :
    (t : State ℕ) × (do_watchdog_decision down 0 late_client ≡ some t)
    × (t.impl.m_life_state ≡ given_up)
unfolding get_effective_stop_signal
decision_gives_up_example =
    decision_gives_up down 0 late_client refl refl late_unhealthy late_client-IsLate
