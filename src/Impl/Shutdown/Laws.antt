-- ===== src/Impl/Shutdown/Laws.antt =====
-- What `shutdown` and the destructor leave behind.
use net_way.Prelude.{
  ◌≡◌, refl, Bool, true, false, ◌&&◌, List, [], ◌∷◌, arith, if-keeps, if_cases, ap, ◌∙◌,
  if◌then◌else◌, ◌==◌,
}
use net_way.Sdk.{Event, state_changed, inactive, give_up_requested, shutdown_requested, Reply, Sdk}
use net_way.Impl.{Impl, State, signal_shutdown, on_event, deliver, get_effective_stop_signal, call}
use net_way.Impl.Frame.{Frame, on_event-Frame}
use net_way.Impl.Rounds.{on_impl}
use net_way.Impl.Shutdown.{drain_timeout_ms, join_watchdog, wait_for_tasks, shutdown_impl}

-- The stop signal is on, the loops have been told, and there is no thread left to join.
pub record IsStopped (i : Impl) : Type 0 where
  pub stop_signal : get_effective_stop_signal i ≡ true
  pub stop_flag : i.m_stop ≡ true
  pub joined : (i.m_watchdog_thread && i.watchdog_joinable) ≡ false

pub on_event-stops :
    (e : Event) (i : Impl)
    → get_effective_stop_signal i ≡ true
    → get_effective_stop_signal (on_event e i) ≡ true
unfolding on_event get_effective_stop_signal
on_event-stops (state_changed c n st) i h = ground arith
on_event-stops inactive i h = ground arith
on_event-stops give_up_requested i h = ground arith
on_event-stops shutdown_requested i h = ground arith

Frame-IsStopped :
    (i j : Impl) → Frame i j → get_effective_stop_signal j ≡ true → IsStopped i → IsStopped j
Frame-IsStopped i j f h k = record {
  stop_signal = h;
  stop_flag = f.same_stop ∙ k.stop_flag;
  joined =
      ap (λ b. b && j.watchdog_joinable) f.same_thread
      ∙ ap (λ b. i.m_watchdog_thread && b) f.same_joinable
      ∙ k.joined;
}

on_event-IsStopped : (e : Event) (i : Impl) → IsStopped i → IsStopped (on_event e i)
on_event-IsStopped e i h =
    Frame-IsStopped i (on_event e i) (on_event-Frame e i) (on_event-stops e i h.stop_signal) h

-- Nothing that happens later turns the stop signal off again.
pub deliver-IsStopped : (es : List Event) (i : Impl) → IsStopped i → IsStopped (deliver es i)
unfolding deliver
deliver-IsStopped [] i h = h
deliver-IsStopped (e ∷ es) i h = deliver-IsStopped es (on_event e i) (on_event-IsStopped e i h)

pub deliver-stops :
    (es : List Event) (i : Impl)
    → get_effective_stop_signal i ≡ true
    → get_effective_stop_signal (deliver es i) ≡ true
unfolding deliver
deliver-stops [] i h = h
deliver-stops (e ∷ es) i h = deliver-stops es (on_event e i) (on_event-stops e i h)

signal_shutdown-stops :
    (i : Impl)
    → (i.m_shutdown ≡ true → i.m_running ≡ false)
    → get_effective_stop_signal (signal_shutdown i) ≡ true
unfolding signal_shutdown get_effective_stop_signal
signal_shutdown-stops i h = ground arith

-- No thread is joinable and the stop signal is on.
IsJoined : Impl → Type 0
IsJoined i =
    (get_effective_stop_signal i ≡ true) × ((i.m_watchdog_thread && i.watchdog_joinable) ≡ false)

and_false : (b : Bool) → (b && false) ≡ false
and_false true = refl
and_false false = refl

set_stop-IsStopped : (i : Impl) → IsJoined i → IsStopped (record i { m_stop = true })
unfolding IsJoined get_effective_stop_signal
set_stop-IsStopped i h = record { stop_signal = h.0; stop_flag = refl; joined = h.1 }

module _ {W : Type 0} (sdk : Sdk W) (join : W → Reply W (Unit {0})) where
  call-stops :
      {A : Type 0} (f : W → Reply W A) (s : State W)
      → get_effective_stop_signal s.impl ≡ true
      → get_effective_stop_signal (call sdk f s).1.impl ≡ true
  unfolding call
  call-stops f s h = deliver-stops (f s.world).events s.impl h

  detached-IsJoined :
      (s : State W)
      → get_effective_stop_signal s.impl ≡ true
      → IsJoined (record s.impl { watchdog_joinable = false })
  unfolding IsJoined get_effective_stop_signal
  detached-IsJoined s h = (h, and_false s.m_watchdog_thread)

  join_watchdog-IsJoined :
      (b : Bool) (s : State W)
      → get_effective_stop_signal s.impl ≡ true
      → IsJoined (join_watchdog sdk join b s).impl
  unfolding join_watchdog IsJoined
  join_watchdog-IsJoined b s h =
      let s1 = if b then s else (call sdk join s).1 in
      let stops =
        if-keeps (λ (t : State W). get_effective_stop_signal t.impl ≡ true) b h
          (call-stops join s h) in
      if_cases (λ (t : State W). IsJoined t.impl) (s.m_watchdog_thread && s.watchdog_joinable)
        (λ e. detached-IsJoined s1 stops) (λ e. (h, e))

  wait_for_tasks-IsStopped :
      (s : State W) → IsStopped s.impl → IsStopped (wait_for_tasks sdk join s).impl
  unfolding wait_for_tasks call
  wait_for_tasks-IsStopped s h =
      if-keeps (λ (t : State W). IsStopped t.impl) (s.m_task_counter == 0) h
        (deliver-IsStopped (sdk.wait_ms (drain_timeout_ms s.impl) s.world).events s.impl h)

  -- `shutdown` on a client whose m_shutdown is only set together with a cleared m_running (as all
  -- of its code does): afterwards the stop signal is on, m_stop is set and no watchdog is left to
  -- join, and no later callback or request of another thread changes that.
  pub shutdown_impl-IsStopped :
      (b : Bool) (s : State W) (es : List Event)
      → (s.m_shutdown ≡ true → s.m_running ≡ false)
      → IsStopped (deliver es (shutdown_impl sdk join b s).impl)
  unfolding shutdown_impl
  shutdown_impl-IsStopped b s es h =
      let j =
        join_watchdog-IsJoined b (on_impl signal_shutdown s) (signal_shutdown-stops s.impl h) in
      let s1 = join_watchdog sdk join b (on_impl signal_shutdown s) in
      deliver-IsStopped es _ (
        wait_for_tasks-IsStopped (record s1 { impl = record s1.impl { m_stop = true } })
          (set_stop-IsStopped s1.impl j))
