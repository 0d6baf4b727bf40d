-- ===== src/Impl/Calm.antt =====
-- A client that may go on, and a library under which it stays so.
use net_way.Prelude.{ℕ, ◌≡◌, true, false, List, [], ◌∷◌, All, arith}
use net_way.Life.{running}
use net_way.Sdk.{Event, state_changed, inactive, give_up_requested, shutdown_requested, Sdk, Reply}
use net_way.Impl.{
  Impl, State, get_effective_stop_signal, call, call_run_iterate, deliver, on_event,
  update_bad_status_time, should_trigger_give_up, turn_to_recovering, turn_to_running,
  try_publish_if_unchanged,
}
use net_way.Impl.Connected.{refresh, note_status, is_connected}

-- Nobody gives up or shuts down meanwhile.
abbrev pub IsCalm : Event → Type 0
IsCalm (state_changed c n st) = Unit {0}
IsCalm inactive = Unit {0}
IsCalm give_up_requested = ⊥
IsCalm shutdown_requested = ⊥

-- A client that may go on.
abbrev pub GoesOn : Impl → Type 0
GoesOn i = (get_effective_stop_signal i ≡ false) × (i.m_impl ≡ true)

pub on_event-GoesOn : (e : Event) (i : Impl) → IsCalm e → GoesOn i → GoesOn (on_event e i)
unfolding on_event get_effective_stop_signal
on_event-GoesOn (state_changed c n st) i calm g = ground arith
on_event-GoesOn inactive i calm g = ground arith
on_event-GoesOn give_up_requested i calm g = absurd calm
on_event-GoesOn shutdown_requested i calm g = absurd calm

pub deliver-GoesOn : (es : List Event) (i : Impl) → All IsCalm es → GoesOn i → GoesOn (deliver es i)
unfolding deliver
deliver-GoesOn [] i calm g = g
deliver-GoesOn (e ∷ es) i calm g =
    deliver-GoesOn es (on_event e i) calm.1 (on_event-GoesOn e i calm.0 g)

pub publish-GoesOn :
    (w a b c : ℕ) (i : Impl) → GoesOn i → GoesOn (try_publish_if_unchanged w a b c i).1
unfolding try_publish_if_unchanged get_effective_stop_signal
publish-GoesOn w a b c i g = ground arith

-- RUNNING, with the loss flag and the give-up clock cleared.
abbrev pub IsRunning : Impl → Type 0
IsRunning i =
    (i.m_life_state ≡ running) × (i.connection_lost ≡ false) × (i.m_last_bad_status_ms ≡ 0)

pub turn_to_running-IsRunning : (i : Impl) → GoesOn i → IsRunning (turn_to_running i)
unfolding turn_to_running get_effective_stop_signal
turn_to_running-IsRunning i g = ground arith

module _ {W : Type 0} (sdk : Sdk W) where
  -- A library in whose calls nobody gives up or shuts down.
  pub record Calm : Type 0 where
    pub connects_calmly : (w : W) → All IsCalm (sdk.connect_async w).events
    pub disconnects_calmly : (w : W) → All IsCalm (sdk.disconnect_async w).events
    pub iterates_calmly : (t : ℕ) (w : W) → All IsCalm (sdk.run_iterate t w).events
    pub asked_calmly : (w : W) → All IsCalm (sdk.get_state w).events
    pub waits_calmly : (t : ℕ) (w : W) → All IsCalm (sdk.wait_ms t w).events

  pub recovering-GoesOn : (i : Impl) → GoesOn i → GoesOn (turn_to_recovering sdk i)
  unfolding turn_to_recovering get_effective_stop_signal
  recovering-GoesOn i g = ground arith

  pub update_bad-GoesOn : (s : State W) → GoesOn s.impl → GoesOn (update_bad_status_time sdk s).impl
  unfolding update_bad_status_time get_effective_stop_signal
  update_bad-GoesOn s g = ground arith

  pub should_trigger-GoesOn :
      (s : State W) → GoesOn s.impl → GoesOn (should_trigger_give_up sdk s).1.impl
  unfolding should_trigger_give_up
  should_trigger-GoesOn s g = ground arith

  pub call-GoesOn :
      {A : Type 0} (f : W → Reply W A) (s : State W)
      → All IsCalm (f s.world).events
      → GoesOn s.impl
      → GoesOn (call sdk f s).1.impl
  unfolding call
  call-GoesOn f s calm g = deliver-GoesOn (f s.world).events s.impl calm g

  note_status-GoesOn : (t : ℕ) (s : State W) → GoesOn s.impl → GoesOn (note_status sdk t s).impl
  unfolding note_status
  note_status-GoesOn t s g = ground (arith, update_bad-GoesOn s g)

  module _ (calm : Calm) where
    pub iterate-GoesOn :
        (t : ℕ) (s : State W) → GoesOn s.impl → GoesOn (call_run_iterate sdk t s).impl
    unfolding call_run_iterate
    iterate-GoesOn t s g = call-GoesOn (sdk.run_iterate t) s (calm.iterates_calmly t s.world) g

    pub refresh-GoesOn : (t : ℕ) (s : State W) → GoesOn s.impl → GoesOn (refresh sdk t s).impl
    unfolding refresh
    refresh-GoesOn t s g =
        let s1 = call_run_iterate sdk t s in
        let (st, s2) = call sdk sdk.get_state s1 in
        let p = try_publish_if_unchanged s1.state_packed st.status st.channel st.session s2.impl in
        note_status-GoesOn st.status (record s2 { impl = p.1 })
          (publish-GoesOn s1.state_packed st.status st.channel st.session s2.impl
            (call-GoesOn sdk.get_state s1 (calm.asked_calmly s1.world) (iterate-GoesOn t s g)))

    pub is_connected-GoesOn :
        (t : ℕ) (s : State W) → GoesOn s.impl → GoesOn (is_connected sdk t s).1.impl
    unfolding is_connected
    is_connected-GoesOn t s g = ground (arith, refresh-GoesOn t s g)
