-- ===== src/Impl/Flight/Invariant.antt =====
-- What holds in every state that the threads inside one client reach.
use net_way.Prelude.{ℕ, ◌+◌, ◌≡◌, ◌⊎◌, true, false, arith}
use net_way.Sdk.{Sdk, Event, state_changed, inactive, give_up_requested, shutdown_requested}
use net_way.Impl.{
  Impl, idle, connecting, get_effective_stop_signal, on_event, signal_shutdown, turn_to_running,
  turn_to_recovering, reset_give_up_timer,
}
use net_way.Impl.Rounds.{enter_task, leave_task, take_conn, release_conn}
use net_way.Impl.Flight.{
  of_batch, Closer, nobody, waiting, emptied, expired, Flight, empty, FlightStep, FlightReach, here,
  next, task_begins, turned_away, let_in, slot_taken, slot_busy, slot_released, service_begins,
  service_ends, service_failed, let_in_again, given_up_on, refused, task_ends, revived, recovered,
  happens, closes, wait_over, wait_expired,
}

-- A client before its first call: the slot is free, no task is counted, and no shutdown is signalled.
pub record IsIdle (i : Impl) : Type 0 where
  pub slot : i.m_conn_state ≡ idle
  pub tasks : i.m_task_counter ≡ 0
  pub open_still : i.m_shutdown ≡ false

-- Once `shutdown` has signalled, the flags say so; once its wait has found no task, no call is past
-- the tests.
abbrev pub Signalled : Closer → Impl → (admitted serving retrying flying : ℕ) → Type 0
Signalled nobody i admitted serving retrying flying = Unit {0}
Signalled waiting i admitted serving retrying flying = i.m_shutdown ≡ true
Signalled expired i admitted serving retrying flying = i.m_shutdown ≡ true
Signalled emptied i admitted serving retrying flying =
    (i.m_shutdown ≡ true) × (admitted ≡ 0) × (serving ≡ 0) × (retrying ≡ 0) × (flying ≡ 0)

-- The task counter counts the threads inside; the slot says whether one holds it, and no two do.
pub record IsCounted (p : Flight) : Type 0 where
  pub tasks :
      p.m_task_counter ≡ p.arrived + p.admitted + p.serving + p.retrying + p.flying + p.departing
  pub single :
      ((p.m_conn_state ≡ idle) × (p.flying ≡ 0)) ⊎ ((p.m_conn_state ≡ connecting) × (p.flying ≡ 1))
  pub stopped : (p.m_shutdown ≡ false) ⊎ (p.m_running ≡ false)
  pub signalled : Signalled p.closer p.impl p.admitted p.serving p.retrying p.flying

pub empty-IsCounted : (i : Impl) → IsIdle i → IsCounted (empty i)
empty-IsCounted i h = ground arith

-- The members that the invariant reads.
pub record Same (i j : Impl) : Type 0 where
  pub slot : j.m_conn_state ≡ i.m_conn_state
  pub tasks : j.m_task_counter ≡ i.m_task_counter
  pub flags :
      ((j.m_shutdown ≡ i.m_shutdown) × (j.m_running ≡ i.m_running))
      ⊎ ((j.m_shutdown ≡ true) × (j.m_running ≡ false))

pub turn_to_running-Same : (i : Impl) → Same i (turn_to_running i)
unfolding turn_to_running reset_give_up_timer
turn_to_running-Same i = ground arith

pub on_event-Same : (e : Event) (i : Impl) → Same i (on_event e i)
unfolding on_event
on_event-Same (state_changed c n st) i = ground arith
on_event-Same inactive i = ground arith
on_event-Same give_up_requested i = ground arith
on_event-Same shutdown_requested i = ground arith

pub signal_shutdown-Same : (i : Impl) → Same i (signal_shutdown i)
unfolding signal_shutdown
signal_shutdown-Same i = ground arith

signal_shutdown-signals : (i : Impl) → (signal_shutdown i).m_shutdown ≡ true
unfolding signal_shutdown
signal_shutdown-signals i = ground arith

-- A move that keeps those members keeps the invariant.
moved : (p : Flight) (j : Impl) → Same p.impl j → IsCounted p → IsCounted (record p { impl = j })
moved p j s c = ground arith

module _ {W : Type 0} (sdk : Sdk W) where
  pub turn_to_recovering-Same : (i : Impl) → Same i (turn_to_recovering sdk i)
  unfolding turn_to_recovering
  turn_to_recovering-Same i = ground arith

  pub Step-IsCounted : {p q : Flight} → FlightStep sdk p q → IsCounted p → IsCounted q
  unfolding enter_task leave_task take_conn release_conn get_effective_stop_signal
  Step-IsCounted (task_begins e) c = ground arith
  Step-IsCounted (turned_away h e) c = ground arith
  Step-IsCounted (let_in h s m e) c = ground arith
  Step-IsCounted (slot_taken h f e) c = ground arith
  Step-IsCounted (slot_busy h f e) c = ground arith
  Step-IsCounted (slot_released h e) c = ground arith
  Step-IsCounted (of_batch (service_begins h f e)) c = ground arith
  Step-IsCounted (of_batch (service_ends h e)) c = ground arith
  Step-IsCounted (of_batch (service_failed h e)) c = ground arith
  Step-IsCounted (of_batch (let_in_again h f e)) c = ground arith
  Step-IsCounted (of_batch (given_up_on h e)) c = ground arith
  Step-IsCounted (of_batch (refused h e)) c = ground arith
  Step-IsCounted (task_ends h e) c = ground arith
  Step-IsCounted {p = p} (revived e) c = rw e (moved p _ (turn_to_running-Same p.impl) c)
  Step-IsCounted {p = p} (recovered e) c = rw e (moved p _ (turn_to_recovering-Same p.impl) c)
  Step-IsCounted {p = p} (happens v e) c = rw e (moved p _ (on_event-Same v p.impl) c)
  Step-IsCounted {p = p} (closes h e) c =
      ground (arith, signal_shutdown-Same p.impl, signal_shutdown-signals p.impl)
  Step-IsCounted (wait_over h z e) c = ground arith
  Step-IsCounted (wait_expired h e) c = ground arith

  -- Single flight: in every interleaving of the threads inside a client, `m_taskCounter` is the
  -- number of the threads inside; the slot says CONNECTING exactly while a thread holds it, and never
  -- do two hold it; and after the signal of a shutdown m_shutdown is set.
  pub single_flight : (i : Impl) (p : Flight) → IsIdle i → FlightReach sdk (empty i) p → IsCounted p
  single_flight i p h here = empty-IsCounted i h
  single_flight i p h (next r st) = Step-IsCounted st (single_flight i _ h r)
