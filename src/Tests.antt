-- ===== src/Tests.antt =====
-- A small server and client on which the theorems are tried: the world is the steady clock in
-- nanoseconds, and the server is always in the state it is given.
pub mod Connection
pub mod Watching
pub mod Settings
pub mod Batches
pub mod Passes
pub mod Interface
pub mod Threads
pub mod Conversions
pub mod Flights
pub mod Atomics
pub mod Pools
pub mod Reconnecting
pub mod HalfOpen
use net_way.Prelude.{
  ℕ, ◌+◌, ◌*◌, ◌≤◌, ◌<◌, ◌≡◌, refl, Bool, true, false, List, [], ◌∷◌, leb, ◌==◌, arith,
}
use net_way.Prelude.Int.{pos}
use net_way.Config.{ClientConfig}
use net_way.Life.{LifeState, running, recovering}
use net_way.Sdk.{Event, state_changed, Reply, SdkState, Sdk, Ticks}
use net_way.Impl.{Impl, State, UaConfig, idle}
use Prim.Native.Nat.{◌/◌}

-- Closed is 0 for both, open 3 and activated 4; a status below 2 ^ 30 is good.
abbrev pub server : (channel session status : ℕ) → Sdk ℕ
server channel session status = record {
  is_good = λ c. leb c 1073741823;
  is_bad = λ c. leb 2147483648 c;
  bad_not_connected = 2156527616;
  channel_closed = 0;
  channel_open = 3;
  session_closed = 0;
  session_activated = 4;
  client_new = λ w. record { value = true; events = []; world = w };
  connect_async = λ w. record { value = 0; events = []; world = w };
  disconnect_async = λ w. record { value = 0; events = []; world = w };
  run_iterate = λ t w. record {
    value = tt;
    events = state_changed channel session status ∷ [];
    world = w + t * 1000000;
  };
  get_state = λ w. record {
    value = record { channel = channel; session = session; status = status };
    events = [];
    world = w;
  };
  get_config = λ w. true;
  now_ms = λ w. (w / 1000000, w);
  wall_ns = λ w. (w, w + 1);
  wait_ms = λ t w. record { value = tt; events = []; world = w + t * 1000000 };
}

abbrev pub up : Sdk ℕ
up = server 3 4 0

abbrev pub down : Sdk ℕ
down = server 0 0 2156527616

-- The steady clock of every such server.
pub server-Ticks : (channel session status : ℕ) → Ticks (server channel session status) (λ w. w)
server-Ticks channel session status = record {
  reads = λ w. refl;
  ticks = λ w. omega arith;
  now_ms_later = λ w. omega arith;
  connect_later = λ w. omega arith;
  disconnect_later = λ w. omega arith;
  iterate_later = λ t w. omega arith;
  state_later = λ w. omega arith;
  wait_later = λ t w. omega arith;
}

abbrev pub settings : ClientConfig
settings = record {
  timeout_ms = 1;
  session_timeout_ms = 600000;
  secure_channel_life_time_ms = 600000;
  max_total_wait_ms = 60000;
  give_up_threshold_ms = pos 1000;
  max_retries = 2;
  retry_backoff_base_ms = 500;
  retry_max_backoff_ms = 4000;
  log_level = 400;
  connectivity_check_interval_ms = 10000;
  watchdog_interval_ms = 5000;
}

-- A client that is not connected and has seen a bad status first at the given time.
abbrev pub client : (life : LifeState) (word bad_since : ℕ) → Impl
client life word bad_since = record {
  m_impl = true;
  m_config = settings;
  m_log_level = 400;
  m_conn_state = idle;
  m_life_state = life;
  m_running = true;
  m_shutdown = false;
  connection_lost = false;
  state_packed = word;
  m_stop = false;
  m_task_counter = 0;
  m_watchdog_thread = true;
  watchdog_joinable = true;
  m_last_bad_status_ms = bad_since;
  ua_config = record {
    timeout = 1;
    requested_session_timeout = 600000;
    secure_channel_life_time = 600000;
    no_reconnect = true;
    no_new_session = true;
    connectivity_check_interval = 10000;
    callbacks_set = true;
  };
}

-- The word of a closed connection with BADNOTCONNECTED, and of an open and activated one.
abbrev pub closed_word : ℕ
closed_word = 141330193842176

abbrev pub open_word : ℕ
open_word = 772

abbrev pub late_client : State ℕ
late_client = record { impl = client recovering closed_word 1; world = 5000000000 }

abbrev pub recovering_client : State ℕ
recovering_client = record { impl = client recovering closed_word 0; world = 5000000 }

abbrev pub running_client : State ℕ
running_client = record { impl = client running open_word 0; world = 5000000 }
