-- ===== src/Impl/Watchdog/Stuck.antt =====
-- The branch of `doWatchdogDecision` for a channel that is not closed, on a client whose status is
-- bad although its session is activated.
use net_way.Prelude.{
  ℕ, ◌≡◌, refl, ap, ◌∙◌, true, false, ◌==◌, some, arith, if◌then◌else◌, zero, Bool-cases, inl, inr,
}
use net_way.RichError.{ok}
use net_way.Packed.{unpack_state}
use net_way.Sdk.{Sdk, Reply}
use net_way.Impl.{
  State, fields, get_effective_stop_signal, is_channel_closed, is_healthy_cached, call,
  call_run_iterate, update_bad_status_time, should_trigger_give_up, now_ms_impl, turn_to_giveup,
  turn_to_recovering,
}
use net_way.Impl.Rounds.{on_impl}
use net_way.Impl.Connected.{is_connected, refresh, note_status}
use net_way.Impl.Watchdog.{do_watchdog_decision, repair, within_window, reconnect_if_closed}

module _ {W : Type 0} where
  -- The same library, with other ways to open and to close a connection.
  abbrev pub with_links : (connect disconnect : W → Reply W ℕ) → Sdk W → Sdk W
  with_links f g sdk = record sdk { connect_async = f; disconnect_async = g }

module _ {W : Type 0} (sdk : Sdk W) where
  -- What the look at the state shows: unhealthy, the session activated, the channel not closed, no
  -- loss reported.
  pub record IsHalfOpen (s : State W) : Type 0 where
    pub not_stopped : get_effective_stop_signal s.impl ≡ false
    pub has_client : s.m_impl ≡ true
    pub unhealthy : (is_connected sdk 0 s).0 ≡ ok false
    pub not_lost : (is_connected sdk 0 s).1.connection_lost ≡ false
    pub activated : ((fields (is_connected sdk 0 s).1.impl).session == sdk.session_activated) ≡ true
    pub channel_there : is_channel_closed sdk (is_connected sdk 0 s).1.impl ≡ false

  triggered-word :
      (s : State W)
      → (should_trigger_give_up sdk (update_bad_status_time sdk s)).1.state_packed ≡ s.state_packed
  unfolding should_trigger_give_up update_bad_status_time
  triggered-word s = ground arith

  -- The decision that is left.
  abbrev waits : State W → State W
  waits s =
      let (late, s1) = should_trigger_give_up sdk (update_bad_status_time sdk s) in
      if late
      then turn_to_giveup sdk s1
      else on_impl (turn_to_recovering sdk) (call_run_iterate sdk 1 s1)

  left_open :
      (fuel : ℕ) (s : State W)
      → is_channel_closed sdk s.impl ≡ false
      → ((s1 : State W)
          → is_channel_closed sdk s1.impl ≡ false
          → is_channel_closed sdk (call_run_iterate sdk 1 s1).impl ≡ false)
      → within_window sdk (reconnect_if_closed sdk fuel) s ≡ some (waits s)
  unfolding within_window reconnect_if_closed is_channel_closed
  left_open fuel s h stays =
      let (late, s1) = should_trigger_give_up sdk (update_bad_status_time sdk s) in
      let there : is_channel_closed sdk s1.impl ≡ false =
        ap (λ w. (unpack_state w).channel == sdk.channel_closed) (triggered-word s) ∙ h in
      elim (Bool-cases late) [ inl e ↦ rw e refl | inr e ↦ rw (e, stays s1 there) refl ]

  stuck_decision :
      (fuel : ℕ) (s : State W)
      → IsHalfOpen s
      → ((s1 : State W)
          → is_channel_closed sdk s1.impl ≡ false
          → is_channel_closed sdk (call_run_iterate sdk 1 s1).impl ≡ false)
      → do_watchdog_decision sdk fuel s ≡ some (waits (is_connected sdk 0 s).1)
  unfolding do_watchdog_decision repair
  stuck_decision fuel s h stays =
      ground (arith, left_open fuel (is_connected sdk 0 s).1 h.channel_there stays)

module _ {W : Type 0} (sdk : Sdk W) where
  -- A channel that stays open is not repaired: where a look at the state finds the session activated
  -- and the channel not closed but the client unhealthy, without a reported loss, and iterating does
  -- not close the channel, a watchdog decision comes to a result that no `connectAsync` and no
  -- `disconnectAsync` has a part in: it is the same, and at once, whatever these two would do.
  pub open_channel_stays :
      (f g : W → Reply W ℕ) (fuel : ℕ) (s : State W)
      → IsHalfOpen sdk s
      → ((s1 : State W)
          → is_channel_closed sdk s1.impl ≡ false
          → is_channel_closed sdk (call_run_iterate sdk 1 s1).impl ≡ false)
      → (s2 : State W) × (do_watchdog_decision sdk fuel s ≡ some s2)
        × (do_watchdog_decision (with_links f g sdk) zero s ≡ some s2)
  unfolding is_connected refresh note_status call call_run_iterate update_bad_status_time
      should_trigger_give_up now_ms_impl turn_to_giveup turn_to_recovering is_channel_closed
      is_healthy_cached
  open_channel_stays f g fuel s h stays = (
    _,
    stuck_decision sdk fuel s h stays,
    stuck_decision (with_links f g sdk) zero s
        (record {
          not_stopped = h.not_stopped;
          has_client = h.has_client;
          unhealthy = h.unhealthy;
          not_lost = h.not_lost;
          activated = h.activated;
          channel_there = h.channel_there;
        })
        stays,
  )
