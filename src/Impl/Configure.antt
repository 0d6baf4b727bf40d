-- ===== src/Impl/Configure.antt =====
-- The start of `OPC_UA_Client::Impl` in `src/OPCUAPacking/ua.cpp`: its constructor,
-- `validateConfiguration`, `applyConfiguration`, `configureClient` and `startWatchdog`. Whether the
-- operating system starts a thread is a parameter; the logger's callback is left out.
pub mod Laws
use net_way.Prelude.{
  ℕ, ◌≡◌, Bool, true, false, not, ◌&&◌, if◌then◌else◌, Option, none, some, arith, List,
}
use net_way.RichError.{
  ErrorCode, Result, ok, err, not_initialized, invalid_state, sdk_error, invalid_config,
}
use net_way.Packed.{pack_state}
use net_way.Config.{ClientConfig, check, apply_default_if_invalid}
use net_way.Life.{running}
use net_way.Sdk.{Sdk}
use net_way.Impl.{Impl, State, idle, UaConfig}
use net_way.Impl.Connected.{is_connected}

-- A test of `validateResult.has_value()`.
abbrev pub has_errors : {A : Type 0} → Option A → Bool
has_errors none = false
has_errors (some e) = true

-- The settings that `applyConfiguration` writes.
unfoldable pub configured : ClientConfig → UaConfig
configured c = record {
  timeout = c.timeout_ms;
  requested_session_timeout = c.session_timeout_ms;
  secure_channel_life_time = c.secure_channel_life_time_ms;
  no_reconnect = true;
  no_new_session = true;
  connectivity_check_interval = c.connectivity_check_interval_ms;
  callbacks_set = true;
}

-- The atomic members that `applyConfiguration` sets to their first values.
unfoldable pub reset_atomics : Impl → Impl
reset_atomics i = record i {
  m_conn_state = idle;
  m_life_state = running;
  m_running = true;
  m_shutdown = false;
  connection_lost = false;
}

-- `startWatchdog`; `none` is the `std::system_error` of a thread that does not start.
unfoldable pub start_watchdog : (spawns : Bool) → Impl → Option (Result (Unit {0}) ErrorCode) × Impl
start_watchdog spawns i =
    if i.m_watchdog_thread && i.watchdog_joinable
    then (some (ok tt), i)
    else if spawns
    then (
      some (ok tt),
      record i { m_running = true; m_watchdog_thread = true; watchdog_joinable = true },
    )
    else (none, record i { m_running = true })

module _ {W : Type 0} (sdk : Sdk W) where
  -- The constructor on a client of the library, whose settings are still the library's own.
  unfoldable pub new_impl : ClientConfig → UaConfig → Impl
  new_impl c u = record {
    m_impl = true;
    m_config = c;
    m_log_level = c.log_level;
    m_conn_state = idle;
    m_life_state = running;
    m_running = true;
    m_shutdown = false;
    connection_lost = false;
    state_packed = pack_state sdk.bad_not_connected sdk.channel_closed sdk.session_closed 0;
    m_stop = false;
    m_task_counter = 0;
    m_watchdog_thread = false;
    watchdog_joinable = false;
    m_last_bad_status_ms = 0;
    ua_config = u;
  }

  unfoldable pub validate_configuration :
      (use_default : Bool) → State W → Result (Unit {0}) ErrorCode
  validate_configuration use_default s =
      if not s.m_impl
      then err not_initialized
      else if s.m_watchdog_thread
      then err invalid_state
      else if not (sdk.get_config s.world)
      then err sdk_error
      else if has_errors (check s.m_config) && not use_default
      then err invalid_config
      else ok tt

  -- What `applyConfiguration` does once the settings stand.
  unfoldable pub write_configuration : State W → State W
  unfolding configured reset_atomics
  write_configuration s =
      let i =
        reset_atomics (record s.impl {
          ua_config = configured s.m_config;
          m_log_level = s.m_config.log_level;
        }) in
      (is_connected sdk 50 (record s { impl = i })).1

  unfoldable pub apply_configuration :
      (use_default : Bool) → State W → Result (Unit {0}) ErrorCode × State W
  unfolding write_configuration
  apply_configuration use_default s =
      if not (sdk.get_config s.world)
      then (err sdk_error, s)
      else if use_default
      then (let (r, c) = apply_default_if_invalid s.m_config in
          let s1 = record s { impl = record s.impl { m_config = c } } in
          elim r [ err e ↦ (err e, s1) | ok fixed ↦ (ok tt, write_configuration s1) ])
      else (ok tt, write_configuration s)

  unfoldable pub configure_client :
      (use_default : Bool) → State W → Result (Unit {0}) ErrorCode × State W
  unfolding validate_configuration apply_configuration
  configure_client use_default s = elim (validate_configuration use_default s) [
    | err e ↦ (err e, s)
    | ok _ ↦ apply_configuration use_default s
  ]
