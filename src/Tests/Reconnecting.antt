-- ===== src/Tests/Reconnecting.antt =====
-- A server that is there after two iterations, and a client with time for it.
use net_way.Prelude.{
  ℕ, zero, suc, ◌+◌, ◌-◌, ◌*◌, ◌≤◌, ◌<◌, ◌≡◌, refl, ap, true, false, [], some, arith, leb,
  if◌then◌else◌,
}
use net_way.Life.{recovering}
use net_way.RichError.{ok}
use net_way.Sdk.{Sdk, SdkState, Ticks}
use net_way.Impl.{State, get_effective_stop_signal, triple_ready}
use net_way.Impl.Calm.{Calm, IsRunning}
use net_way.Impl.Connected.Publish.{Fits}
use net_way.Impl.Rounds.{Returns, wall_budget_ns}
use net_way.Impl.Connect.{connect}
use net_way.Impl.Connect.Total.{connect-Returns}
use net_way.Impl.Connect.Opening.{Opens}
use net_way.Impl.Connect.Succeeds.{connect_succeeds}
use net_way.Impl.Watchdog.{do_watchdog_decision}
use net_way.Impl.Watchdog.Restores.{Left, decision_restores}
use net_way.Tests.{settings, client, closed_word}

-- The iterations that are still needed, 9 without a connection, and the two clocks.
record World : Type 0 where
  phase : ℕ
  ms : ℕ
  ns : ℕ

abbrev shown : ℕ → SdkState
shown zero = record { channel = 3; session = 4; status = 0 }
shown (suc n) = record { channel = 0; session = 0; status = 0 }

-- Without a connection an iteration has nothing to do.
abbrev iterated : ℕ → ℕ
iterated n = if leb 3 n then n else n - 1

abbrev slow : Sdk World
slow = record {
  is_good = λ c. leb c 1073741823;
  is_bad = λ c. leb 2147483648 c;
  bad_not_connected = 2156527616;
  channel_closed = 0;
  channel_open = 3;
  session_closed = 0;
  session_activated = 4;
  client_new = λ w. record { value = true; events = []; world = w };
  connect_async = λ w. record { value = 0; events = []; world = record w { phase = 2 } };
  disconnect_async = λ w. record { value = 0; events = []; world = record w { phase = 9 } };
  run_iterate = λ t w. record {
    value = tt;
    events = [];
    world = record { phase = iterated w.phase; ms = w.ms + t; ns = w.ns + t * 1000000 };
  };
  get_state = λ w. record { value = shown w.phase; events = []; world = w };
  get_config = λ w. true;
  now_ms = λ w. (w.ms, w);
  wall_ns = λ w. (w.ns, record w { ns = w.ns + 1 });
  wait_ms = λ t w. record {
    value = tt;
    events = [];
    world = record { phase = w.phase; ms = w.ms + t; ns = w.ns + t * 1000000 };
  };
}

shown-Fits : (n : ℕ) → Fits (shown n)
shown-Fits zero = record {
  status_fits = omega arith;
  channel_fits = omega arith;
  session_fits = omega arith;
}
shown-Fits (suc n) = record {
  status_fits = omega arith;
  channel_fits = omega arith;
  session_fits = omega arith;
}

iterated_less : (n : ℕ) → n ≤ 2 → iterated n ≤ n - 1
iterated_less n h = ground arith

slow-Opens : Opens slow (λ w. w.phase) (λ w. w.ms) (λ w. w.ns) 50 50000000 1
slow-Opens = record {
  accepts = λ w. refl;
  accepted_calmly = λ w. tt;
  begins = λ w. omega arith;
  iterates = λ w h. iterated_less w.phase h;
  iterated_calmly = λ w. tt;
  iterate_lasts = λ w. record { short_ms = omega arith; short_ns = omega arith };
  asked_quietly = λ w. refl;
  state_keeps = λ w. omega arith;
  state_lasts = λ w. record { short_ms = omega arith; short_ns = omega arith };
  fits = λ w. shown-Fits w.phase;
  good = λ w e. ap (λ n. leb (shown n).status 1073741823) e;
  open_channel = λ w e. ap (λ n. (shown n).channel) e;
  activated = λ w e. ap (λ n. (shown n).session) e;
  shows_ms = λ w. refl;
  now_keeps = λ w. omega arith;
  now_lasts = λ w. record { short_ms = omega arith; short_ns = omega arith };
  shows_ns = λ w. refl;
  wall_keeps = λ w. omega arith;
  wall_lasts = λ w. record { short_ms = omega arith; short_ns = omega arith };
}

slow-Calm : Calm slow
slow-Calm = record {
  connects_calmly = λ w. tt;
  disconnects_calmly = λ w. tt;
  iterates_calmly = λ t w. tt;
  asked_calmly = λ w. tt;
  waits_calmly = λ t w. tt;
}

slow-Ticks : Ticks slow (λ w. w.ns)
slow-Ticks = record {
  reads = λ w. refl;
  ticks = λ w. omega arith;
  now_ms_later = λ w. omega arith;
  connect_later = λ w. omega arith;
  disconnect_later = λ w. omega arith;
  iterate_later = λ t w. omega arith;
  state_later = λ w. omega arith;
  wait_later = λ t w. omega arith;
}

abbrev patient_client : State World
patient_client = record {
  impl = record (client recovering closed_word 0) {
    m_config = record settings { timeout_ms = 350 };
  };
  world = record { phase = 9; ms = 5; ns = 7 };
}

not_stopped : get_effective_stop_signal patient_client.impl ≡ false
unfolding get_effective_stop_signal
not_stopped = refl

wall_time : 300000000 < wall_budget_ns 350
unfolding wall_budget_ns
wall_time = omega arith

fuel_time : wall_budget_ns 350 < 2000000000
unfolding wall_budget_ns
fuel_time = omega arith

connect-Returns_example : Returns (connect slow 2000000000 patient_client)
connect-Returns_example =
    connect-Returns slow (λ w. w.ns) slow-Ticks 2000000000 patient_client fuel_time

connect_succeeds_example :
    (s1 : State World) × (connect slow 2 patient_client ≡ some (ok tt, s1))
    × (triple_ready slow s1.impl ≡ true)
    × IsRunning s1.impl
connect_succeeds_example =
    connect_succeeds slow (λ w. w.phase) (λ w. w.ms) (λ w. w.ns) 50 50000000 1 slow-Opens 2
      patient_client (omega arith) not_stopped refl refl (omega arith) wall_time

decision_restores_example :
    (t : State World) × (do_watchdog_decision slow 2000000000 patient_client ≡ some t)
    × Left slow t.impl
decision_restores_example =
    decision_restores slow (λ w. w.phase) (λ w. w.ms) (λ w. w.ns) 50 50000000 1 slow-Opens slow-Calm
      (λ w. w.ns) slow-Ticks 2000000000 (omega arith) patient_client
      (record {
        goes_on = (not_stopped, refl);
        free = refl;
        time_enough = omega arith;
        wall_enough = wall_time;
        fuel_enough = fuel_time;
      })
