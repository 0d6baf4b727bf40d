-- ===== src/Client/Lifetime/End.antt =====
-- `shutdown` of the interface, and what every call answers afterwards.
use net_way.Prelude.{
  ℕ, ◌+◌, ◌≡◌, refl, ap, sym, ◌∙◌, Bool, true, false, Option, none, some, arith, subst, List,
}
use net_way.RichError.{ErrorCode, Result, ok, err, already_terminated, recreating, not_initialized}
use net_way.Sdk.{Sdk, Reply}
use net_way.Impl.{Impl, State, UaConfig}
use net_way.Batch.{NodeId, WriteValue, Services}
use net_way.Client.{RecreateSync, Client, shutdown_enter, shutdown_leave, lease_enter, attempt}
use net_way.ErrorMapping.{Exception}
use net_way.Batch.Run.{batch_read}
use net_way.Client.Api.{
  Body, connect_body, disconnect_body, connected_body, healthy_body, while_running, life_state_body,
  give_up_body, write_body, api_connect, api_disconnect, check_connected, is_healthy,
  check_life_state, api_set_give_up_signal, api_batch_read, api_batch_write, pump_watchdog_for_test,
}
use net_way.Client.Api.Laws.{calls-IsGated}
use net_way.Client.Api.Gates.{IsGated, Gated}
use net_way.Client.Lifetime.{shutdown_internal, client_shutdown}
use net_way.Client.Recreation.{Others, recreate_give_up_client}
use net_way.Client.Recreation.Laws.{recreate_refused}

leave_restores :
    (y : RecreateSync)
    → shutdown_leave (record y { m_shutdown_in_flight = y.m_shutdown_in_flight + 1 }) ≡ y
unfolding shutdown_leave
leave_restores y = ground arith

module _ {W : Type 0} (sdk : Sdk W) (join : W → Reply W (Unit {0})) where
  -- The object at its end.
  pub record IsEnded (before after : Client W) : Type 0 where
    pub gone : after.p_impl ≡ none
    pub marked : after.sync.m_terminated ≡ true
    pub no_recreation : after.sync.m_recreating ≡ false
    pub same_leases : after.sync.m_in_flight ≡ before.sync.m_in_flight
    pub same_closers : after.sync.m_shutdown_in_flight ≡ before.sync.m_shutdown_in_flight

  -- The answer of `shutdown` by the two flags.
  abbrev pub Shuts :
      (recreating terminated : Bool) → Client W → Result (Unit {0}) ErrorCode × Client W → Type 0
  Shuts true t c p = p ≡ (err recreating, c)
  Shuts false true c p = p ≡ (ok tt, c)
  Shuts false false c p = (p.0 ≡ ok tt) × IsEnded c p.1

  abbrev client_of : (re t : Bool) (n k : ℕ) → Option Impl → W → Client W
  client_of re t n k o w = record {
    sync = record {
      m_recreating = re;
      m_terminated = t;
      m_in_flight = n;
      m_shutdown_in_flight = k;
    };
    p_impl = o;
    world = w;
  }

  closed :
      (n k : ℕ) (o : Option Impl) (w v : W) (y : RecreateSync)
      → y ≡ record {
        m_recreating = false;
        m_terminated = true;
        m_in_flight = n;
        m_shutdown_in_flight = k;
      }
      → IsEnded (client_of false false n k o w) (record { sync = y; p_impl = none; world = v })
  closed n k o w v y e = record {
    gone = refl;
    marked = ap (λ y. y.m_terminated) e;
    no_recreation = ap (λ y. y.m_recreating) e;
    same_leases = ap (λ y. y.m_in_flight) e;
    same_closers = ap (λ y. y.m_shutdown_in_flight) e;
  }

  client_shutdown_cases :
      (b re t : Bool) (n k : ℕ) (o : Option Impl) (w : W)
      → Shuts re t (client_of re t n k o w) (client_shutdown sdk join b (client_of re t n k o w))
  unfolding client_shutdown shutdown_enter shutdown_internal
  client_shutdown_cases b true t n k o w = refl
  client_shutdown_cases b false true n k o w = refl
  client_shutdown_cases b false false n k none w = (refl, closed n k none w w _ (leave_restores _))
  client_shutdown_cases b false false n k (some i) w =
      (refl, closed n k (some i) w _ _ (leave_restores _))

  -- `shutdown`: RECREATING and no change during a re-creation; success and no change after an
  -- earlier shutdown; otherwise success, after which the object holds no client and is marked as
  -- ended, with the leases and the count of closing calls as before.
  pub client_shutdown-Shuts :
      (b : Bool) (c : Client W)
      → Shuts c.sync.m_recreating c.sync.m_terminated c (client_shutdown sdk join b c)
  client_shutdown-Shuts b c =
      client_shutdown_cases b c.sync.m_recreating c.sync.m_terminated c.sync.m_in_flight
        c.sync.m_shutdown_in_flight c.p_impl c.world

  ended_by :
      (re t : Bool) (c : Client W) (p : Result (Unit {0}) ErrorCode × Client W) {c1 : Client W}
      → c.sync.m_recreating ≡ re
      → c.sync.m_terminated ≡ t
      → Shuts re t c p
      → p ≡ (ok tt, c1)
      → (c1.sync.m_terminated ≡ true) × (c1.sync.m_recreating ≡ false)
  ended_by true t c p re e h k = absurd (ground arith)
  ended_by false true c p re e h k =
      let same = ap (λ q. q.1.sync) (sym h ∙ k) in
      (ap (λ y. y.m_terminated) (sym same) ∙ e, ap (λ y. y.m_recreating) (sym same) ∙ re)
  ended_by false false c p re e h k =
      let same = ap (λ q. q.1.sync) k in
      (
        ap (λ y. y.m_terminated) (sym same) ∙ h.1.marked,
        ap (λ y. y.m_recreating) (sym same) ∙ h.1.no_recreation,
      )

  ended_of_ok :
      (b : Bool) (c : Client W) {c1 : Client W}
      → client_shutdown sdk join b c ≡ (ok tt, c1)
      → (c1.sync.m_terminated ≡ true) × (c1.sync.m_recreating ≡ false)
  ended_of_ok b c h =
      ended_by c.sync.m_recreating c.sync.m_terminated c _ refl refl (client_shutdown-Shuts b c) h

  module _ (lib : Services W) (thrown : State W → Option (Exception × State W)) (spawns : W → Bool)
      (others : Others W) (early : W → Option (Exception × W)) where
    refused_of_Gated :
        {A : Type 0} (missing : ErrorCode) (body : Body W A) (c : Client W)
        {a : Option (Result A ErrorCode × Client W)}
        → c.sync.m_terminated ≡ true
        → IsGated missing body c a
        → a ≡ some (err already_terminated, c)
    refused_of_Gated missing body c {a = a} t g =
        subst (λ b. Gated missing body b c.sync.m_recreating c.p_impl c a) t g

    -- Every call of the interface is refused with ALREADY_TERMINATED and changes nothing, but for a
    -- further shutdown, which succeeds and changes nothing, and the test hook, which does nothing.
    abbrev pub IsOver :
        (fuel : ℕ)
        → List NodeId
        → List WriteValue
        → UaConfig
        → (on_watchdog : Bool) → Client W
        → Type 0
    IsOver fuel nodes values u b c =
        (api_connect sdk thrown fuel c ≡ some (err already_terminated, c))
        × (api_disconnect sdk thrown fuel c ≡ some (err already_terminated, c))
        × (check_connected sdk thrown c ≡ some (err already_terminated, c))
        × (is_healthy sdk thrown c ≡ some (err already_terminated, c))
        × (check_life_state sdk thrown c ≡ some (err already_terminated, c))
        × (api_set_give_up_signal sdk thrown c ≡ some (err already_terminated, c))
        × (api_batch_read sdk thrown lib fuel nodes c ≡ some (err already_terminated, c))
        × (api_batch_write sdk thrown lib values c ≡ some (err already_terminated, c))
        × (pump_watchdog_for_test sdk fuel c ≡ some c)
        × (recreate_give_up_client sdk join spawns others thrown early fuel u c
            ≡ some (err already_terminated, c))
        × (client_shutdown sdk join b c ≡ (ok tt, c))

    pump_over :
        (fuel : ℕ) (c : Client W)
        → c.sync.m_terminated ≡ true
        → pump_watchdog_for_test sdk fuel c ≡ some c
    unfolding pump_watchdog_for_test lease_enter
    pump_over fuel c t = ground arith

    again_over :
        (b : Bool) (c : Client W)
        → c.sync.m_terminated ≡ true
        → c.sync.m_recreating ≡ false
        → client_shutdown sdk join b c ≡ (ok tt, c)
    again_over b c t re =
        let g1 =
          subst (λ x. Shuts x c.sync.m_terminated c (client_shutdown sdk join b c)) re
            (client_shutdown-Shuts b c) in
        subst (λ x. Shuts false x c (client_shutdown sdk join b c)) t g1

    -- After a `shutdown` that succeeds, the object is at its end for every call that may follow.
    pub shutdown_is_final :
        (fuel : ℕ) (nodes : List NodeId) (values : List WriteValue) (u : UaConfig) (b : Bool)
        (c : Client W) {c1 : Client W}
        → client_shutdown sdk join b c ≡ (ok tt, c1)
        → IsOver fuel nodes values u b c1
    shutdown_is_final fuel nodes values u b c {c1 = c1} h =
        let (t, re) = ended_of_ok b c h in
        let g = calls-IsGated sdk lib thrown fuel nodes values c1 in
        (
          refused_of_Gated already_terminated (attempt thrown (connect_body sdk fuel)) c1 t g.0,
          refused_of_Gated already_terminated (attempt thrown (disconnect_body sdk fuel)) c1 t g.1,
          refused_of_Gated already_terminated (while_running thrown (connected_body sdk)) c1 t g.2,
          refused_of_Gated already_terminated (while_running thrown (healthy_body sdk)) c1 t g.3,
          refused_of_Gated already_terminated (attempt thrown life_state_body) c1 t g.4,
          refused_of_Gated not_initialized (attempt thrown give_up_body) c1 t g.5,
          refused_of_Gated already_terminated (attempt thrown (batch_read lib sdk fuel nodes)) c1 t
              g.6,
          refused_of_Gated already_terminated (attempt thrown (write_body sdk lib values)) c1 t g.7,
          pump_over fuel c1 t,
          (recreate_refused sdk join spawns others thrown early fuel u c1).1 re t,
          again_over b c1 t re,
        )
