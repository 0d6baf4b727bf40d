-- ===== src/Impl/Frame.antt =====
-- What the operations below `connect` leave alone, and that they never leave GIVEN_UP.
use net_way.Prelude.{ℕ, ◌≡◌, List, [], ◌∷◌, arith}
use net_way.Life.{given_up}
use net_way.Sdk.{Event, state_changed, inactive, give_up_requested, shutdown_requested, Reply, Sdk}
use net_way.Impl.{
  Impl, State, on_event, deliver, call, call_run_iterate, turn_to_running, turn_to_recovering,
  turn_to_giveup, update_bad_status_time, try_publish_if_unchanged, should_trigger_give_up,
}
use net_way.Impl.Connected.{note_status, refresh, is_connected}

-- The members that only the outer operations write, and that GIVEN_UP stays.
pub record Frame (i j : Impl) : Type 0 where
  pub same_impl : j.m_impl ≡ i.m_impl
  pub same_config : j.m_config ≡ i.m_config
  pub same_conn : j.m_conn_state ≡ i.m_conn_state
  pub same_stop : j.m_stop ≡ i.m_stop
  pub same_counter : j.m_task_counter ≡ i.m_task_counter
  pub same_thread : j.m_watchdog_thread ≡ i.m_watchdog_thread
  pub same_joinable : j.watchdog_joinable ≡ i.watchdog_joinable
  pub same_ua_config : j.ua_config ≡ i.ua_config
  pub same_log_level : j.m_log_level ≡ i.m_log_level
  pub keeps_given_up : i.m_life_state ≡ given_up → j.m_life_state ≡ given_up

pub Frame-refl : (i : Impl) → Frame i i
Frame-refl i = ground arith

pub Frame-trans : {i j k : Impl} → Frame i j → Frame j k → Frame i k
Frame-trans f g = ground arith

pub on_event-Frame : (e : Event) (i : Impl) → Frame i (on_event e i)
unfolding on_event
on_event-Frame (state_changed c n st) i = ground arith
on_event-Frame inactive i = ground arith
on_event-Frame give_up_requested i = ground arith
on_event-Frame shutdown_requested i = ground arith

pub deliver-Frame : (es : List Event) (i : Impl) → Frame i (deliver es i)
unfolding deliver
deliver-Frame [] i = Frame-refl i
deliver-Frame (e ∷ es) i = Frame-trans (on_event-Frame e i) (deliver-Frame es (on_event e i))

pub turn_to_running-Frame : (i : Impl) → Frame i (turn_to_running i)
unfolding turn_to_running
turn_to_running-Frame i = ground arith

module _ {W : Type 0} (sdk : Sdk W) where
  pub turn_to_recovering-Frame : (i : Impl) → Frame i (turn_to_recovering sdk i)
  unfolding turn_to_recovering
  turn_to_recovering-Frame i = ground arith

  pub update_bad_status_time-Frame :
      (s : State W) → Frame s.impl (update_bad_status_time sdk s).impl
  unfolding update_bad_status_time
  update_bad_status_time-Frame s = ground arith

  pub turn_to_giveup-Frame : (s : State W) → Frame s.impl (turn_to_giveup sdk s).impl
  unfolding turn_to_giveup
  turn_to_giveup-Frame s = ground arith

  pub should_trigger-Frame : (s : State W) → Frame s.impl (should_trigger_give_up sdk s).1.impl
  unfolding should_trigger_give_up
  should_trigger-Frame s = ground arith

  pub call-Frame :
      {A : Type 0} (f : W → Reply W A) (s : State W) → Frame s.impl (call sdk f s).1.impl
  unfolding call
  call-Frame f s = deliver-Frame (f s.world).events s.impl

  pub call_run_iterate-Frame : (t : ℕ) (s : State W) → Frame s.impl (call_run_iterate sdk t s).impl
  unfolding call_run_iterate
  call_run_iterate-Frame t s = call-Frame (sdk.run_iterate t) s

  try_publish-Frame : (e a b c : ℕ) (i : Impl) → Frame i (try_publish_if_unchanged e a b c i).1
  unfolding try_publish_if_unchanged
  try_publish-Frame e a b c i = ground arith

  note_status-Frame : (t : ℕ) (s : State W) → Frame s.impl (note_status sdk t s).impl
  unfolding note_status
  note_status-Frame t s = ground (arith, update_bad_status_time-Frame s)

  pub refresh-Frame : (t : ℕ) (s : State W) → Frame s.impl (refresh sdk t s).impl
  unfolding refresh
  refresh-Frame t s =
      let s1 = call_run_iterate sdk t s in
      let g = call sdk sdk.get_state s1 in
      let e = s1.state_packed in
      let p = try_publish_if_unchanged e g.0.status g.0.channel g.0.session g.1.impl in
      Frame-trans (call_run_iterate-Frame t s) (
        Frame-trans (call-Frame sdk.get_state s1) (
          Frame-trans (try_publish-Frame e g.0.status g.0.channel g.0.session g.1.impl)
            (note_status-Frame g.0.status (record g.1 { impl = p.1 }))))

  pub is_connected-Frame : (t : ℕ) (s : State W) → Frame s.impl (is_connected sdk t s).1.impl
  unfolding is_connected
  is_connected-Frame t s = ground (arith, refresh-Frame t s)
