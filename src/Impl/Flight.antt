-- ===== src/Impl/Flight.antt =====
-- The threads inside one `OPC_UA_Client::Impl` of `src/OPCUAPacking/ua.cpp`: the tasks that
-- `InFlightGuard` counts, the connection slot that `connect` and `disconnect` take by their exchange
-- on `m_connState`, the moves of the life state, and the wait of `shutdown`. A step is one atomic
-- action of one thread, in any order.
pub mod Invariant
pub mod Ended
pub mod Overlap
pub mod Progress
use net_way.Prelude.{ℕ, ◌+◌, ◌-◌, ◌<◌, ◌≡◌, true, false, arith}
use net_way.Sdk.{Sdk, Event}
use net_way.Impl.{
  Impl, idle, connecting, get_effective_stop_signal, on_event, signal_shutdown, turn_to_running,
  turn_to_recovering,
}
use net_way.Impl.Rounds.{enter_task, leave_task, take_conn, release_conn}

-- The thread in `shutdown`: not there, in the wait for the tasks, or past it, because the counter
-- was at zero or because the time was up.
pub data Closer : Type 0 where
  nobody waiting emptied expired : Closer

-- The shared members, and the threads that have passed the constructor of `InFlightGuard`: those
-- before the tests of the stop signal, those past them, those in a call of the read or write service,
-- those of `batchRead` between two attempts, under the one guard of both, those that hold the connection slot, and those on their way out.
pub record Flight : Type 0 where
  pub impl : Impl
  pub open impl use *
  pub arrived : ℕ
  pub admitted : ℕ
  pub serving : ℕ
  pub retrying : ℕ
  pub flying : ℕ
  pub departing : ℕ
  pub closer : Closer

-- Before the first call.
abbrev pub empty : Impl → Flight
empty i = record {
  impl = i;
  arrived = 0;
  admitted = 0;
  serving = 0;
  retrying = 0;
  flying = 0;
  departing = 0;
  closer = nobody;
}

-- The steps of `batchRead` and `batchWrite` past the tests of the stop signal and of the pointer:
-- `service_begins` is the last test before the service, which only looks at the slot, and
-- `service_ends` the return of the service with which the call is over. After an error of the connection
-- `batchRead` tries again (`service_failed`): it waits and tests the stop signal once more
-- (`let_in_again`), or it is done, by the signal, its attempts or its budget (`given_up_on`).
-- `refused` is the exit at a later test: the stop signal, the life state, the budget, or what fails
-- before the service.
pub data BatchStep (p q : Flight) : Type 0 where
  service_begins :
      0 < p.admitted
      → p.m_conn_state ≡ idle
      → q ≡ record p { admitted = p.admitted - 1; serving = p.serving + 1 }
      → BatchStep p q
  service_ends :
      0 < p.serving
      → q ≡ record p { serving = p.serving - 1; departing = p.departing + 1 }
      → BatchStep p q
  service_failed :
      0 < p.serving
      → q ≡ record p { serving = p.serving - 1; retrying = p.retrying + 1 }
      → BatchStep p q
  let_in_again :
      0 < p.retrying
      → get_effective_stop_signal p.impl ≡ false
      → q ≡ record p { retrying = p.retrying - 1; admitted = p.admitted + 1 }
      → BatchStep p q
  given_up_on :
      0 < p.retrying
      → q ≡ record p { retrying = p.retrying - 1; departing = p.departing + 1 }
      → BatchStep p q
  refused :
      0 < p.admitted
      → q ≡ record p { admitted = p.admitted - 1; departing = p.departing + 1 }
      → BatchStep p q

module _ {W : Type 0} (sdk : Sdk W) where
  -- `task_begins` and `task_ends` are the two ends of `InFlightGuard`; `turned_away` a task that
  -- a test refuses; `let_in` the tests of the stop signal and of the pointer under `m_lock`;
  -- `slot_taken` and `slot_busy` the exchange of `connect` and `disconnect`, won and lost;
  -- `slot_released` the destructor of `CASGuard`; `of_batch` a step of a batch call, which `slot_busy`
  -- also refuses. `revived` and `recovered` are `TurnToRunning` and `TurnToRecovring`, by the holder of
  -- the slot or by the watchdog, and `happens` a callback or a request. The rest is `shutdown`: its
  -- signal, and the two ways in which its wait ends.
  pub data FlightStep (p q : Flight) : Type 0 where
    task_begins :
        q ≡ record p { impl = enter_task p.impl; arrived = p.arrived + 1 } → FlightStep p q
    turned_away :
        0 < p.arrived
        → q ≡ record p { arrived = p.arrived - 1; departing = p.departing + 1 }
        → FlightStep p q
    let_in :
        0 < p.arrived
        → get_effective_stop_signal p.impl ≡ false
        → p.m_impl ≡ true
        → q ≡ record p { arrived = p.arrived - 1; admitted = p.admitted + 1 }
        → FlightStep p q
    slot_taken :
        0 < p.admitted
        → p.m_conn_state ≡ idle
        → q ≡ record p { impl = take_conn p.impl; admitted = p.admitted - 1; flying = p.flying + 1 }
        → FlightStep p q
    slot_busy :
        0 < p.admitted
        → p.m_conn_state ≡ connecting
        → q ≡ record p { admitted = p.admitted - 1; departing = p.departing + 1 }
        → FlightStep p q
    slot_released :
        0 < p.flying
        → q ≡ record p {
          impl = release_conn p.impl;
          flying = p.flying - 1;
          departing = p.departing + 1;
        }
        → FlightStep p q
    of_batch : BatchStep p q → FlightStep p q
    task_ends :
        0 < p.departing
        → q ≡ record p { impl = leave_task p.impl; departing = p.departing - 1 }
        → FlightStep p q
    revived : q ≡ record p { impl = turn_to_running p.impl } → FlightStep p q
    recovered : q ≡ record p { impl = turn_to_recovering sdk p.impl } → FlightStep p q
    happens : (e : Event) → q ≡ record p { impl = on_event e p.impl } → FlightStep p q
    closes :
        p.closer ≡ nobody
        → q ≡ record p { impl = signal_shutdown p.impl; closer = waiting }
        → FlightStep p q
    wait_over :
        p.closer ≡ waiting
        → p.m_task_counter ≡ 0
        → q ≡ record p { closer = emptied }
        → FlightStep p q
    wait_expired : p.closer ≡ waiting → q ≡ record p { closer = expired } → FlightStep p q

  pub data FlightReach (p : Flight) : Flight → Type 0 where
    here : FlightReach p p
    next : {q r : Flight} → FlightReach p q → FlightStep q r → FlightReach p r
