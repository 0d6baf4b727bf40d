-- ===== src/Tests/Flights.antt =====
-- Threads inside one client, and the loops that take effect at one point.
use net_way.Prelude.{◌≡◌, refl, true}
use net_way.Life.{running}
use net_way.Impl.{Impl, get_effective_stop_signal, signal_shutdown}
use net_way.Impl.Rounds.{enter_task}
use net_way.Impl.Flight.{
  waiting, emptied, Flight, empty, FlightStep, FlightReach, here, next, task_begins, closes,
  wait_over,
}
use net_way.Impl.Flight.Invariant.{IsCounted, single_flight}
use net_way.Impl.Flight.Ended.{IsQuieter, stopped_lets_none_in, IsDeserted, emptied_is_final}
use net_way.Impl.Flight.Progress.{IsNearer, shutdown_can_empty}
use net_way.Impl.Flight.Overlap.{IsOpen, served_and_connecting, service_overlaps_connection}
use net_way.Tests.{up, client, open_word}

abbrev ready : Impl
ready = client running open_word 0

ready-IsOpen : IsOpen ready
unfolding get_effective_stop_signal
ready-IsOpen = record {
  idle_still = record { slot = refl; tasks = refl; open_still = refl };
  not_stopped = refl;
  has_client = refl;
}

-- Two calls are in the service beside a connection.
abbrev crowded : Flight
crowded = served_and_connecting ready 2

crowded_reached : FlightReach up (empty ready) crowded
crowded_reached = service_overlaps_connection up ready ready-IsOpen 2

single_flight_example : IsCounted crowded
single_flight_example = single_flight up ready crowded ready-IsOpen.idle_still crowded_reached

-- `shutdown` is called meanwhile.
abbrev closing : Flight
closing = record crowded { impl = signal_shutdown crowded.impl; closer = waiting }

shutdown_can_empty_example :
    ((q : Flight) → FlightStep up closing q → IsNearer closing q)
    × ((q : Flight) × FlightReach up closing q × (q.closer ≡ emptied))
shutdown_can_empty_example =
    shutdown_can_empty up ready closing ready-IsOpen.idle_still
      (next crowded_reached (closes refl refl)) refl

closing_stops : get_effective_stop_signal closing.impl ≡ true
unfolding signal_shutdown get_effective_stop_signal
closing_stops = refl

stopped_lets_none_in_example : IsQuieter closing closing
stopped_lets_none_in_example = stopped_lets_none_in up closing closing closing_stops here

-- A shutdown that meets nobody, and a caller after it.
abbrev shut : Flight
shut = record (empty ready) { impl = signal_shutdown ready; closer = emptied }

abbrev visited : Flight
visited = record shut { impl = enter_task (signal_shutdown ready); arrived = 1 }

shut_reached : FlightReach up (empty ready) shut
unfolding signal_shutdown
shut_reached =
    let meets : FlightStep up (empty ready)
        (record (empty ready) { impl = signal_shutdown ready; closer = waiting }) =
      closes refl refl in
    next (next here meets) (wait_over refl refl refl)

emptied_is_final_example : IsDeserted up visited
emptied_is_final_example =
    emptied_is_final up ready shut visited ready-IsOpen.idle_still shut_reached refl
      (next here (task_begins refl))
