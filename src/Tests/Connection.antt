-- ===== src/Tests/Connection.antt =====
-- Runs of `connect` and `disconnect`, and of the status word.
use net_way.Prelude.{ℕ, ◌<◌, ◌^◌, ◌≡◌, refl, true, List, [], ◌∷◌, some, length, All}
use net_way.RichError.{ok}
use net_way.Packed.{pack_state, unpack_state}
use net_way.Life.{running, recovering}
use net_way.Sdk.{SdkState}
use net_way.Impl.{
  State, triple_ready, call, call_run_iterate, deliver, on_event, update_packed, is_healthy_cached,
  now_ms_impl, turn_to_running, try_publish_if_unchanged, turn_to_recovering,
  update_bad_status_time, next_version, fields,
}
use net_way.Impl.Turns.{Revived, RunningIsHealthy}
use net_way.Impl.Rounds.{rounds, enter_task, leave_task, take_conn, release_conn}
use net_way.Impl.Connected.{refresh, is_connected, note_status}
use net_way.Impl.Connected.Publish.{refresh_publishes, callbacks, Fits, writes, last}
use net_way.Impl.Connect.{connect, connect_inner, connect_taken, connect_round}
use net_way.Impl.Disconnect.{
  disconnect, disconnect_inner, disconnect_taken, disconnect_round, disconnect_looks, note_cached,
}
use net_way.Impl.Connect.Results.{connect-Settled}
use net_way.Impl.Disconnect.Results.{disconnect-Settled}
use net_way.Tests.{up, down, client, recovering_client, running_client}

-- The callback and the look at the state have each written the word.
abbrev connected : State ℕ
connected = record { impl = client running 562949953422084 0; world = 55000001 }

connect_run : connect up 5 recovering_client ≡ some (ok tt, connected)
unfolding connect connect_inner connect_taken connect_round rounds is_connected refresh note_status
    call_run_iterate call deliver on_event update_packed try_publish_if_unchanged triple_ready
    is_healthy_cached turn_to_running enter_task now_ms_impl take_conn unpack_state pack_state
    leave_task release_conn
connect_run = refl

connect-Settled_example : (triple_ready up connected.impl ≡ true) × Revived connected.impl
connect-Settled_example = connect-Settled up 5 recovering_client refl connect_run

-- Disconnecting a healthy client from a server that closes at once.
abbrev disconnected : State ℕ
disconnected = record { impl = client recovering 704280147263488 55; world = 55000001 }

disconnect_run : disconnect down 5 running_client ≡ some (ok tt, disconnected)
unfolding disconnect disconnect_inner disconnect_taken disconnect_round disconnect_looks rounds
    is_connected refresh note_status note_cached call_run_iterate call deliver on_event
    update_packed try_publish_if_unchanged is_healthy_cached turn_to_recovering
    update_bad_status_time enter_task now_ms_impl take_conn unpack_state pack_state leave_task
    release_conn
disconnect_run = refl

disconnect-Settled_example : RunningIsHealthy down disconnected.impl
disconnect-Settled_example = disconnect-Settled down 5 running_client refl disconnect_run

refresh_publishes_example :
    let s1 = call_run_iterate up 50 recovering_client in
    let g = up.get_state s1.world in
    let u = unpack_state (refresh up 50 recovering_client).state_packed in
    (callbacks g.events ≡ []
      → Fits g.value
      → u ≡ record {
        status = g.value.status;
        channel = g.value.channel;
        session = g.value.session;
        version = next_version (fields s1.impl).version;
      })
    × ((c : SdkState) (cs : List SdkState)
        → callbacks g.events ≡ c ∷ cs
        → All Fits (c ∷ cs)
        → length (c ∷ cs) < 2 ^ 16
        → ((refresh up 50 recovering_client).state_packed ≡ writes (c ∷ cs) s1.state_packed)
          × (u.status ≡ (last c cs).status)
          × (u.channel ≡ (last c cs).channel)
          × (u.session ≡ (last c cs).session))
refresh_publishes_example = refresh_publishes up 50 recovering_client
