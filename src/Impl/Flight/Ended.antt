-- ===== src/Impl/Flight/Ended.antt =====
-- What the stop signal means to the threads inside one client: nobody is let in any more, and the
-- connections that are under way come to an end.
use net_way.Prelude.{ℕ, ◌+◌, ◌≤◌, ◌≡◌, true, arith}
use net_way.Sdk.{Sdk}
use net_way.Impl.{
  Impl, idle, get_effective_stop_signal, signal_shutdown, turn_to_running, turn_to_recovering,
  reset_give_up_timer,
}
use net_way.Impl.Rounds.{enter_task, leave_task, take_conn, release_conn}
use net_way.Impl.Shutdown.Laws.{on_event-stops}
use net_way.Impl.Flight.{
  of_batch, emptied, Flight, empty, FlightStep, FlightReach, here, next, task_begins, turned_away,
  let_in, slot_taken, slot_busy, slot_released, service_begins, service_ends, service_failed,
  let_in_again, given_up_on, refused, task_ends, revived, recovered, happens, closes, wait_over,
  wait_expired,
}
use net_way.Impl.Flight.Invariant.{IsIdle, IsCounted, single_flight}

turn_to_running-stops :
    (i : Impl)
    → get_effective_stop_signal i ≡ true
    → get_effective_stop_signal (turn_to_running i) ≡ true
unfolding turn_to_running reset_give_up_timer get_effective_stop_signal
turn_to_running-stops i h = ground arith

signal_shutdown-keeps :
    (i : Impl)
    → get_effective_stop_signal i ≡ true
    → get_effective_stop_signal (signal_shutdown i) ≡ true
unfolding signal_shutdown get_effective_stop_signal
signal_shutdown-keeps i h = ground arith

-- The calls that have passed the tests, are in a service or hold the slot.
abbrev pub under_way : Flight → ℕ
under_way p = p.admitted + p.serving + p.flying

-- With the stop signal on, nobody is let in.
abbrev pub IsQuieter : Flight → Flight → Type 0
IsQuieter p q = (get_effective_stop_signal q.impl ≡ true) × (under_way q ≤ under_way p)

module _ {W : Type 0} (sdk : Sdk W) where
  turn_to_recovering-stops :
      (i : Impl)
      → get_effective_stop_signal i ≡ true
      → get_effective_stop_signal (turn_to_recovering sdk i) ≡ true
  unfolding turn_to_recovering get_effective_stop_signal
  turn_to_recovering-stops i h = ground arith

  Step-IsQuieter :
      {p q : Flight} → FlightStep sdk p q → get_effective_stop_signal p.impl ≡ true → IsQuieter p q
  unfolding enter_task leave_task take_conn release_conn get_effective_stop_signal
  Step-IsQuieter (task_begins e) s = ground arith
  Step-IsQuieter (turned_away h e) s = ground arith
  Step-IsQuieter (let_in h f m e) s = ground arith
  Step-IsQuieter (slot_taken h f e) s = ground arith
  Step-IsQuieter (slot_busy h f e) s = ground arith
  Step-IsQuieter (slot_released h e) s = ground arith
  Step-IsQuieter (of_batch (service_begins h f e)) s = ground arith
  Step-IsQuieter (of_batch (service_ends h e)) s = ground arith
  Step-IsQuieter (of_batch (service_failed h e)) s = ground arith
  Step-IsQuieter (of_batch (let_in_again h f e)) s = ground arith
  Step-IsQuieter (of_batch (given_up_on h e)) s = ground arith
  Step-IsQuieter (of_batch (refused h e)) s = ground arith
  Step-IsQuieter (task_ends h e) s = ground arith
  Step-IsQuieter {p = p} (revived e) s = rw e (turn_to_running-stops p.impl s, omega arith)
  Step-IsQuieter {p = p} (recovered e) s = rw e (turn_to_recovering-stops p.impl s, omega arith)
  Step-IsQuieter {p = p} (happens v e) s = rw e (on_event-stops v p.impl s, omega arith)
  Step-IsQuieter {p = p} (closes h e) s = rw e (signal_shutdown-keeps p.impl s, omega arith)
  Step-IsQuieter (wait_over h z e) s = ground arith
  Step-IsQuieter (wait_expired h e) s = ground arith

  -- Once the stop signal is on, a shutdown or GIVEN_UP, it stays on, and the calls that are past its
  -- tests, in a service or holding the slot only become fewer: nobody is let in any more.
  pub stopped_lets_none_in :
      (p q : Flight) → get_effective_stop_signal p.impl ≡ true → FlightReach sdk p q → IsQuieter p q
  stopped_lets_none_in p q s here = (s, omega arith)
  stopped_lets_none_in p q s (next r st) =
      let before = stopped_lets_none_in p _ s r in
      let after = Step-IsQuieter st before.0 in (after.0, omega (arith, before.1, after.1))

  Step-emptied : {p q : Flight} → FlightStep sdk p q → p.closer ≡ emptied → q.closer ≡ emptied
  Step-emptied (task_begins e) c = ground arith
  Step-emptied (turned_away h e) c = ground arith
  Step-emptied (let_in h f m e) c = ground arith
  Step-emptied (slot_taken h f e) c = ground arith
  Step-emptied (slot_busy h f e) c = ground arith
  Step-emptied (slot_released h e) c = ground arith
  Step-emptied (of_batch (service_begins h f e)) c = ground arith
  Step-emptied (of_batch (service_ends h e)) c = ground arith
  Step-emptied (of_batch (service_failed h e)) c = ground arith
  Step-emptied (of_batch (let_in_again h f e)) c = ground arith
  Step-emptied (of_batch (given_up_on h e)) c = ground arith
  Step-emptied (of_batch (refused h e)) c = ground arith
  Step-emptied (task_ends h e) c = ground arith
  Step-emptied (revived e) c = ground arith
  Step-emptied (recovered e) c = ground arith
  Step-emptied (happens v e) c = ground arith
  Step-emptied (closes h e) c = ground arith
  Step-emptied (wait_over h z e) c = ground arith
  Step-emptied (wait_expired h e) c = ground arith

  Reach-emptied : {p q : Flight} → FlightReach sdk p q → p.closer ≡ emptied → q.closer ≡ emptied
  Reach-emptied here c = c
  Reach-emptied (next r st) c = Step-emptied st (Reach-emptied r c)

  pub Reach-then :
      {p q r : Flight} → FlightReach sdk p q → FlightReach sdk q r → FlightReach sdk p r
  Reach-then a here = a
  Reach-then a (next b st) = next (Reach-then a b) st

  -- What a shutdown whose wait ended with the counter at zero has made certain.
  pub record IsDeserted (p : Flight) : Type 0 where
    pub stop_signal : get_effective_stop_signal p.impl ≡ true
    pub none_admitted : p.admitted ≡ 0
    pub none_serving : p.serving ≡ 0
    pub none_retrying : p.retrying ≡ 0
    pub none_flying : p.flying ≡ 0
    pub slot_free : p.m_conn_state ≡ idle
    pub visitors : p.m_task_counter ≡ p.arrived + p.departing

  emptied-IsDeserted : (p : Flight) → IsCounted p → p.closer ≡ emptied → IsDeserted p
  unfolding get_effective_stop_signal
  emptied-IsDeserted p c e = ground arith

  -- A shutdown whose wait ends because the counter is at zero ends for good: in every later state the
  -- stop signal is on, nobody is past its tests, in a service, between two attempts or holding the slot,
  -- and the tasks that are counted are callers that are still to be turned away or are on their way out.
  pub emptied_is_final :
      (i : Impl) (p q : Flight)
      → IsIdle i
      → FlightReach sdk (empty i) p
      → p.closer ≡ emptied
      → FlightReach sdk p q
      → IsDeserted q
  emptied_is_final i p q h r e later =
      emptied-IsDeserted q (single_flight sdk i q h (Reach-then r later)) (Reach-emptied later e)
