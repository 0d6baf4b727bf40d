-- ===== src/Tests/Interface.antt =====
-- Runs of the interface: creation, calls, shutdown, re-creation and interleavings.
use net_way.Prelude.{ℕ, ◌+◌, ◌≡◌, ◌⊎◌, refl, Bool, true, false, [], Option, none, some, arith}
use net_way.RichError.{ok, err, already_terminated, not_connected, not_initialized}
use net_way.Config.{ClientConfig, apply_profile, profile_local}
use net_way.Impl.Configure.{configured}
use net_way.Life.{given_up, running, recovering}
use net_way.Sdk.{Reply}
use net_way.Impl.{idle, Impl, State, UaConfig, get_effective_stop_signal, deliver}
use net_way.Client.{Client}
use net_way.ErrorMapping.{Exception}
use net_way.Client.Lifetime.{fresh_sync, client_shutdown, create_with_sdk}
use net_way.Client.Recreation.{Others, recreate_give_up_client}
use net_way.Client.Api.{
  api_connect, is_healthy, api_disconnect, check_connected, check_life_state,
  api_set_give_up_signal, api_batch_read, api_batch_write, disconnect_body, while_running,
  connected_body, healthy_body, life_state_body, give_up_body, write_body,
}
use net_way.Client.{
  entry, attempt, lease_enter, lease_leave, shutdown_enter, shutdown_leave, recreate_enter,
  recreate_leave,
}
use net_way.Client.Api.{connect_body}
use net_way.RichError.{map_err}
use net_way.Client.Lifetime.{
  shutdown_internal, tear_down, set_up, guarded_set_up, set_up_watchdog, handed_out, construct,
  watched,
}
use net_way.Client.Recreation.{rebuild, drain, set_up_candidate, guarded, raise_candidate, adopt}
use net_way.Impl.Shutdown.{shutdown_impl, destroy_impl, join_watchdog, wait_for_tasks, do_cleanup}
use net_way.Impl.Configure.{
  configure_client, validate_configuration, apply_configuration, write_configuration, reset_atomics,
  new_impl, start_watchdog,
}
use net_way.Config.{
  check, check_errors, check_link, check_give_up, check_wait, check_budget,
  apply_default_if_invalid, after_fix,
}
use net_way.Impl.{
  call_run_iterate, call, on_event, update_packed, try_publish_if_unchanged, triple_ready,
  is_healthy_cached, turn_to_running, now_ms_impl, signal_shutdown,
}
use net_way.Packed.{unpack_state, pack_state}
use net_way.Impl.Rounds.{rounds, enter_task, take_conn, leave_task, release_conn}
use net_way.Impl.Connected.{is_connected, refresh, note_status}
use net_way.Impl.Connect.{connect, connect_inner, connect_taken, connect_round}
use net_way.Client.Lifetime.Create.{IsHandedOut, create_with_sdk-IsHandedOut}
use net_way.Client.Lifetime.Total.{create_with_sdk-Ends, enough_fuel}
use net_way.Client.Recreation.Total.{recreate_give_up_client-Ends}
use net_way.Client.Lifetime.End.{IsOver, shutdown_is_final}
use net_way.Client.Api.Laws.{calls-IsGated}
use net_way.Client.Api.Gates.{Ends, IsGated}
use net_way.Client.Api.Session.{connect_then_healthy}
use net_way.Batch.Run.{batch_read}
use net_way.Tests.Batches.{services, nodes, values}
use net_way.Tests.{up, server-Ticks, client, settings, closed_word, open_word}

abbrev pub joining : ℕ → Reply ℕ (Unit {0})
joining w = record { value = tt; events = []; world = w + 1 }

abbrev pub starting : ℕ → Bool
starting w = true

abbrev pub alone : Others ℕ
alone = record { flags = λ w y. y; client = λ w i. i }

abbrev pub calm : State ℕ → Option (Exception × State ℕ)
calm s = none

abbrev uncut : State ℕ → Option (Exception × Client ℕ)
uncut s = none

abbrev pub built : ℕ → Option (Exception × ℕ)
built w = none

abbrev pub library_config : UaConfig
library_config = record {
  timeout = 5000;
  requested_session_timeout = 1200000;
  secure_channel_life_time = 600000;
  no_reconnect = false;
  no_new_session = false;
  connectivity_check_interval = 0;
  callbacks_set = false;
}

abbrev pub holding : Impl → Client ℕ
holding i = record { sync = fresh_sync; p_impl = some i; world = 5000000 }

-- The client that every successful run leaves, by its settings and watchdog.
abbrev served_by : ClientConfig → (word : ℕ) → UaConfig → Impl
served_by config word u = record {
  m_impl = true;
  m_config = config;
  m_log_level = 400;
  m_conn_state = idle;
  m_life_state = running;
  m_running = true;
  m_shutdown = false;
  connection_lost = false;
  state_packed = word;
  m_stop = false;
  m_task_counter = 0;
  m_watchdog_thread = true;
  watchdog_joinable = true;
  m_last_bad_status_ms = 0;
  ua_config = u;
}

abbrev preset : ClientConfig
preset = apply_profile profile_local settings

abbrev pub new_client : (world : ℕ) → Client ℕ
new_client world = record {
  sync = fresh_sync;
  p_impl = some (served_by preset 1125899906843396 (configured preset));
  world = world;
}

abbrev reconnected : Client ℕ
reconnected = record {
  sync = fresh_sync;
  p_impl = some (client running 562949953422084 0);
  world = 55000001;
}

abbrev shut_client : Client ℕ
shut_client = record {
  sync = record fresh_sync { m_terminated = true };
  p_impl = none;
  world = 5000001;
}

connected :
    api_connect up calm 5 (holding (client recovering closed_word 0)) ≡ some (ok tt, reconnected)
unfolding api_connect entry attempt connect_body lease_enter lease_leave map_err connect
    connect_inner connect_taken connect_round rounds is_connected refresh note_status
    call_run_iterate call deliver on_event update_packed try_publish_if_unchanged triple_ready
    is_healthy_cached turn_to_running enter_task now_ms_impl take_conn unpack_state pack_state
    leave_task release_conn get_effective_stop_signal
connected = refl

shut :
    client_shutdown up joining false (holding (client running open_word 0)) ≡ (ok tt, shut_client)
unfolding client_shutdown shutdown_enter shutdown_leave shutdown_internal call tear_down
    shutdown_impl destroy_impl join_watchdog wait_for_tasks do_cleanup signal_shutdown
shut = refl

made :
    create_with_sdk up joining starting calm built uncut true 5 true true library_config settings
      5000000
    ≡ some (ok (new_client 105000001), 105000001)
unfolding create_with_sdk guarded_set_up set_up set_up_watchdog handed_out api_connect entry attempt
    connect_body lease_enter lease_leave map_err configure_client validate_configuration
    apply_configuration write_configuration configured reset_atomics new_impl check check_errors
    check_link check_give_up check_wait check_budget apply_default_if_invalid after_fix
    apply_profile construct watched start_watchdog connect connect_inner connect_taken connect_round
    rounds is_connected refresh note_status call_run_iterate call deliver on_event update_packed
    try_publish_if_unchanged triple_ready is_healthy_cached turn_to_running enter_task now_ms_impl
    take_conn unpack_state pack_state leave_task release_conn get_effective_stop_signal
made = refl

pub remade :
    recreate_give_up_client up joining starting alone calm built 5 library_config
      (holding (client given_up closed_word 7))
    ≡ some (ok tt, new_client 105000002)
unfolding recreate_give_up_client recreate_enter recreate_leave rebuild drain raise_candidate
    set_up_candidate guarded attempt connect_body map_err adopt configure_client
    validate_configuration apply_configuration write_configuration configured reset_atomics new_impl
    check check_errors check_link check_give_up check_wait check_budget apply_default_if_invalid
    after_fix apply_profile construct watched start_watchdog connect connect_inner connect_taken
    connect_round rounds is_connected refresh note_status call_run_iterate call deliver on_event
    update_packed try_publish_if_unchanged triple_ready is_healthy_cached turn_to_running enter_task
    now_ms_impl take_conn unpack_state pack_state leave_task release_conn get_effective_stop_signal
    tear_down shutdown_impl destroy_impl join_watchdog wait_for_tasks do_cleanup signal_shutdown
remade = refl

create_with_sdk-IsHandedOut_example :
    IsHandedOut up joining starting calm true fresh_sync (new_client 105000001)
create_with_sdk-IsHandedOut_example =
    create_with_sdk-IsHandedOut up joining starting calm built uncut true 5 true true library_config
      settings 5000000 made

create_with_sdk-Ends_example : Ends (
    create_with_sdk up joining starting calm built uncut true enough_fuel true true library_config
      settings 0)
create_with_sdk-Ends_example =
    create_with_sdk-Ends up joining starting calm (λ w. w) (server-Ticks 3 4 0) built uncut true
      enough_fuel true true library_config settings 0 (omega arith)

recreate_give_up_client-Ends_example : Ends (
    recreate_give_up_client up joining starting alone calm built enough_fuel library_config
      (holding (client given_up closed_word 7)))
recreate_give_up_client-Ends_example =
    recreate_give_up_client-Ends up joining starting alone calm built (λ w. w) (server-Ticks 3 4 0)
      enough_fuel library_config (holding (client given_up closed_word 7)) (omega arith)

shutdown_is_final_example :
    IsOver up joining services calm starting alone built 5 nodes values library_config false
      shut_client
shutdown_is_final_example =
    shutdown_is_final up joining services calm starting alone built 5 nodes values library_config
      false (holding (client running open_word 0)) shut

calls-IsGated_example :
    IsGated already_terminated
      (attempt calm (connect_body up 5))
      reconnected
      (api_connect up calm 5 reconnected)
    × IsGated already_terminated
        (attempt calm (disconnect_body up 5))
        reconnected
        (api_disconnect up calm 5 reconnected)
    × IsGated already_terminated
        (while_running calm (connected_body up))
        reconnected
        (check_connected up calm reconnected)
    × IsGated already_terminated
        (while_running calm (healthy_body up))
        reconnected
        (is_healthy up calm reconnected)
    × IsGated already_terminated
        (attempt calm life_state_body)
        reconnected
        (check_life_state up calm reconnected)
    × IsGated not_initialized
        (attempt calm give_up_body)
        reconnected
        (api_set_give_up_signal up calm reconnected)
    × IsGated already_terminated
        (attempt calm (batch_read services up 5 nodes))
        reconnected
        (api_batch_read up calm services 5 nodes reconnected)
    × IsGated already_terminated
        (attempt calm (write_body up services values))
        reconnected
        (api_batch_write up calm services values reconnected)
calls-IsGated_example = calls-IsGated up services calm 5 nodes values reconnected

connect_then_healthy_example :
    (is_healthy up calm reconnected ≡ some (ok tt, reconnected))
    ⊎ (((j : Impl) × (reconnected.p_impl ≡ some j) × (get_effective_stop_signal j ≡ true))
        × (is_healthy up calm reconnected ≡ some (err not_connected, reconnected)))
connect_then_healthy_example =
    connect_then_healthy up calm 5 (holding (client recovering closed_word 0)) (λ s. refl) connected
