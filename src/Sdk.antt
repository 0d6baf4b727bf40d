-- ===== src/Sdk.antt =====
-- `src/OPCUAPacking/detail/Isdk.h` and what `ua.cpp` takes from open62541 beside it: the calls, the
-- clocks, the predicates and constants are a parameter. `W` is whatever the library, the server and
-- the other threads keep between calls.
pub mod Real
use net_way.Prelude.{ℕ, ◌≤◌, ◌<◌, ◌≡◌, Bool, List, Option}

-- What happens to the wrapper while a call into the library or a wait is under way: the two
-- callbacks, which run inside the call, and the two requests that other threads may make.
pub data Event : Type 0 where
  state_changed : (channel session status : ℕ) → Event
  inactive give_up_requested shutdown_requested : Event

pub record Reply (W A : Type 0) : Type 0 where
  pub value : A
  pub events : List Event
  pub world : W

-- The three values that `getState` writes.
pub record SdkState : Type 0 where
  pub channel : ℕ
  pub session : ℕ
  pub status : ℕ

-- A request is kept as the list of its items, each of a type that the caller chooses.
pub record ReadResponse (Variant : Type 0) : Type 0 where
  pub service_result : ℕ
  pub results_size : ℕ
  pub results : Option (List (ℕ × Variant))

pub record WriteResponse : Type 0 where
  pub service_result : ℕ
  pub results_size : ℕ
  pub results : Option (List ℕ)

pub record Sdk (W : Type 0) : Type 0 where
  -- `UA_StatusCode_isGood`, `UA_StatusCode_isBad` and the constants that `ua.cpp` names
  pub is_good : ℕ → Bool
  pub is_bad : ℕ → Bool
  pub bad_not_connected : ℕ
  pub channel_closed : ℕ
  pub channel_open : ℕ
  pub session_closed : ℕ
  pub session_activated : ℕ
  -- `ISdk`
  pub client_new : W → Reply W Bool
  pub connect_async : W → Reply W ℕ
  pub disconnect_async : W → Reply W ℕ
  pub run_iterate : ℕ → W → Reply W (Unit {0})
  pub get_state : W → Reply W SdkState
  pub get_config : W → Bool
  pub now_ms : W → ℕ × W
  -- `std::chrono::steady_clock` in nanoseconds, and a timed wait in milliseconds
  pub wall_ns : W → ℕ × W
  pub wait_ms : ℕ → W → Reply W (Unit {0})

-- The steady clock never goes back and a reading of it takes time.
pub record Ticks {W : Type 0} (sdk : Sdk W) (time : W → ℕ) : Type 0 where
  pub reads : (w : W) → (sdk.wall_ns w).0 ≡ time w
  pub ticks : (w : W) → time w < time (sdk.wall_ns w).1
  pub now_ms_later : (w : W) → time w ≤ time (sdk.now_ms w).1
  pub connect_later : (w : W) → time w ≤ time (sdk.connect_async w).world
  pub disconnect_later : (w : W) → time w ≤ time (sdk.disconnect_async w).world
  pub iterate_later : (t : ℕ) (w : W) → time w ≤ time (sdk.run_iterate t w).world
  pub state_later : (w : W) → time w ≤ time (sdk.get_state w).world
  pub wait_later : (t : ℕ) (w : W) → time w ≤ time (sdk.wait_ms t w).world
