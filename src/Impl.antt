-- ===== src/Impl.antt =====
-- `OPC_UA_Client::Impl` of `ua.cpp`: its members, the callbacks, and the small operations on them.
-- One thread's calls are followed; what the others do enters as events of the calls.
pub mod Calm
pub mod Connected
pub mod Connect
pub mod Disconnect
pub mod Watchdog
pub mod Frame
pub mod Rounds
pub mod Turns
pub mod Configure
pub mod Shutdown
pub mod Flight
pub mod Publication
use net_way.Prelude.{
  ℕ, ◌+◌, ◌-◌, ◌%◌, ◌^◌, ◌≡◌, ◌<◌, refl, Bool, true, false, not, ◌&&◌, ◌||◌, List, [], ◌∷◌, ltb,
  leb, ◌==◌, if◌then◌else◌, arith,
}
use net_way.Prelude.Int.{ℤ, pos, negsuc}
use net_way.RichError.{ErrorCode, Result, ok, err, givenup_ing}
use net_way.Packed.{StateFields, pack, pack_state, unpack_state}
use net_way.Config.{ClientConfig}
use net_way.Life.{
  LifeState, running, recovering, given_up, same_life, turn_to_running_loop, turn_to_giveup_loop,
  set_give_up_loop, turn_to_recovering_loop, Attempt, quiet,
}
use net_way.Sdk.{Event, state_changed, inactive, give_up_requested, shutdown_requested, Reply, Sdk}

pub data ConnState : Type 0 where
  idle connecting : ConnState

pub data ConnectErrorState : Type 0 where
  shutdown nullptr threadbusy unknown connect_failed timeout_notconnect : ConnectErrorState

pub data DisconnectErrorState : Type 0 where
  shutdown nullptr threadbusy timeout_notdisconnect disconnect_fail unknown : DisconnectErrorState

-- What `applyConfiguration` writes into the library's `UA_ClientConfig`.
pub record UaConfig : Type 0 where
  pub timeout : ℕ
  pub requested_session_timeout : ℕ
  pub secure_channel_life_time : ℕ
  pub no_reconnect : Bool
  pub no_new_session : Bool
  pub connectivity_check_interval : ℕ
  pub callbacks_set : Bool

-- `m_impl` and `m_watchdogThread` say whether the pointer is set, and `watchdog_joinable` whether the
-- thread can be joined; mutexes and condition variables have no state of their own here.
pub record Impl : Type 0 where
  pub m_impl : Bool
  pub m_config : ClientConfig
  pub m_log_level : ℕ
  pub m_conn_state : ConnState
  pub m_life_state : LifeState
  pub m_running : Bool
  pub m_shutdown : Bool
  pub connection_lost : Bool
  pub state_packed : ℕ
  pub m_stop : Bool
  pub m_task_counter : ℕ
  pub m_watchdog_thread : Bool
  pub watchdog_joinable : Bool
  pub m_last_bad_status_ms : ℕ
  pub ua_config : UaConfig

-- The wrapper together with everything outside of it.
pub record State (W : Type 0) : Type 0 where
  pub impl : Impl
  pub open impl use *
  pub world : W

unfoldable pub get_effective_stop_signal : Impl → Bool
get_effective_stop_signal i = (i.m_shutdown && not i.m_running) || same_life i.m_life_state given_up

abbrev pub fields : Impl → StateFields
fields i = unpack_state i.state_packed

-- `static_cast<uint16_t>(version + 1)`
abbrev pub next_version : ℕ → ℕ
next_version v = (v + 1) % 2 ^ 16

-- `updatePacked` with the callback's assignment of all three fields. No other thread writes
-- between the load and the exchange here, see `Impl.Connected.Publish`.
unfoldable pub update_packed : (channel session status : ℕ) → Impl → Impl
update_packed channel session status i = record i {
  state_packed = pack_state status channel session (next_version (fields i).version);
}

-- `tryPublishIfUnchanged`
unfoldable pub try_publish_if_unchanged : ℕ → (status channel session : ℕ) → Impl → Bool × Impl
try_publish_if_unchanged expected status channel session i =
    if i.state_packed == expected
    then (
      true,
      record i {
        state_packed =
            pack_state status channel session (next_version (unpack_state expected).version);
      },
    )
    else (false, i)

unfoldable pub set_give_up_signal : Impl → Result (Unit {0}) ErrorCode × Impl
unfolding set_give_up_loop
set_give_up_signal i =
    let (won, life) = set_give_up_loop i.m_life_state [] i.m_life_state in
    (if won then ok tt else err givenup_ing, record i { m_life_state = life })

-- The flags of `signalShutdown`; the notifications wake the waits, which end early anyhow.
unfoldable pub signal_shutdown : Impl → Impl
signal_shutdown i = if i.m_shutdown then i else record i { m_running = false; m_shutdown = true }

-- The two callbacks that `applyConfiguration` registers, and the requests of other threads.
unfoldable pub on_event : Event → Impl → Impl
unfolding update_packed get_effective_stop_signal set_give_up_signal signal_shutdown
on_event (state_changed channel session status) i = update_packed channel session status i
on_event inactive i = if get_effective_stop_signal i then i else record i { connection_lost = true }
on_event give_up_requested i = (set_give_up_signal i).1
on_event shutdown_requested i = signal_shutdown i

unfoldable pub deliver : List Event → Impl → Impl
deliver [] i = i
deliver (e ∷ es) i = deliver es (on_event e i)

-- `resetGiveUpTimer`: zero if it was not, and zero anyway.
unfoldable pub reset_give_up_timer : Impl → Impl
reset_give_up_timer i =
    if i.m_last_bad_status_ms == 0 then i else record i { m_last_bad_status_ms = 0 }

-- `TurnToRunning`
unfoldable pub turn_to_running : Impl → Impl
unfolding turn_to_running_loop reset_give_up_timer
turn_to_running i =
    let (won, life) = turn_to_running_loop i.m_life_state [] i.m_life_state in
    if won
    then reset_give_up_timer (record i { m_life_state = life; connection_lost = false })
    else record i { m_life_state = life }

-- now - since >= threshold, where the threshold is signed.
unfoldable pub reaches : ℕ → ℕ → ℤ → Bool
reaches now since (pos t) = leb (since + t) now
reaches now since (negsuc t) = leb since (now + t + 1)

module _ {W : Type 0} (sdk : Sdk W) where
  unfoldable pub is_healthy_cached : Impl → Bool
  is_healthy_cached i =
      if i.connection_lost
      then false
      else sdk.is_good (fields i).status
        && ((fields i).channel == sdk.channel_open)
        && ((fields i).session == sdk.session_activated)

  -- The test of `connect`'s loop: the triple without `connectionLost`.
  unfoldable pub triple_ready : Impl → Bool
  triple_ready i =
      sdk.is_good (fields i).status
      && ((fields i).channel == sdk.channel_open)
      && ((fields i).session == sdk.session_activated)

  unfoldable pub is_channel_closed : Impl → Bool
  is_channel_closed i = (fields i).channel == sdk.channel_closed

  unfoldable pub is_connect_bad : Impl → Bool
  is_connect_bad i = sdk.is_bad (fields i).status

  unfoldable pub is_session_closed : Impl → Bool
  is_session_closed i = (fields i).session == sdk.session_closed

  -- `TurnToRecovring`
  unfoldable pub turn_to_recovering : Impl → Impl
  unfolding turn_to_recovering_loop
  turn_to_recovering i =
      let healthy = is_healthy_cached i in
      record i {
        m_life_state =
            turn_to_recovering_loop i.m_life_state [] healthy healthy quiet i.m_life_state;
      }

  -- `nowMsImpl`
  unfoldable pub now_ms_impl : State W → ℕ × State W
  now_ms_impl s = let (now, w) = sdk.now_ms s.world in (now, record s { world = w })

  -- `updateBadStatusTime`: the first bad status starts the clock.
  unfoldable pub update_bad_status_time : State W → State W
  unfolding now_ms_impl
  update_bad_status_time s =
      let (now, s') = now_ms_impl s in
      if s.m_last_bad_status_ms == 0
      then record s' { impl = record s'.impl { m_last_bad_status_ms = now } }
      else s

  -- `TurnToGiveup`
  unfoldable pub turn_to_giveup : State W → State W
  unfolding turn_to_giveup_loop update_bad_status_time
  turn_to_giveup s =
      let t = update_bad_status_time s in
      let life = turn_to_giveup_loop t.m_life_state [] t.m_life_state in
      record t { impl = record t.impl { m_life_state = life } }

  -- `(now - ts) >= giveUpThresholdMs` on signed numbers, each moved to the side where it adds.
  unfoldable pub should_trigger_give_up : State W → Bool × State W
  unfolding now_ms_impl reaches
  should_trigger_give_up s =
      let (now, s') = now_ms_impl s in
      if s.m_last_bad_status_ms == 0
      then (false, s)
      else (reaches now s.m_last_bad_status_ms s.m_config.give_up_threshold_ms, s')

  -- A call into the library, with what happens before it returns.
  unfoldable pub call : {A : Type 0} → (W → Reply W A) → State W → A × State W
  unfolding deliver
  call f s =
      let r = f s.world in (r.value, record { impl = deliver r.events s.impl; world = r.world })

  -- `callRunIterate`
  unfoldable pub call_run_iterate : ℕ → State W → State W
  unfolding call
  call_run_iterate timeout s = (call (sdk.run_iterate timeout) s).1
