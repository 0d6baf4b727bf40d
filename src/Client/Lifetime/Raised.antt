-- ===== src/Client/Lifetime/Raised.antt =====
-- What a client is like that was configured, connected and watched.
use net_way.Prelude.{
  ℕ, ◌≡◌, refl, ap, sym, ◌∙◌, Bool, true, false, ◌&&◌, Option, none, some, arith, if_cases,
  if-keeps, match_cases,
}
use net_way.RichError.{ErrorCode, Result, ok, err}
use net_way.Config.{check}
use net_way.Sdk.{Sdk, Reply}
use net_way.Impl.{Impl, State, idle, triple_ready}
use net_way.Impl.Turns.{Revived}
use net_way.Impl.Connect.{connect}
use net_way.Impl.Connect.Guards.{connect-Frame}
use net_way.Impl.Connect.Results.{connect-Settled}
use net_way.Impl.Configure.{configure_client, configured, start_watchdog}
use net_way.Impl.Configure.Laws.{IsConfigured, Configures, configure_client-Configures}
use net_way.Client.Lifetime.{watched}

module _ {W : Type 0} (sdk : Sdk W) where
  -- The cached triple is GOOD, OPEN and ACTIVATED, the client RUNNING without a loss or given up
  -- meanwhile, the settings pass and are the library's, and no operation holds the slot.
  pub record IsRaised (i : Impl) : Type 0 where
    pub ready : triple_ready sdk i ≡ true
    pub revived : Revived i
    pub passes : check i.m_config ≡ none
    pub library_agrees : i.ua_config ≡ configured i.m_config
    pub slot_free : i.m_conn_state ≡ idle
    pub has_client : i.m_impl ≡ true

  abbrev pub Watching : Bool → Impl → Type 0
  Watching true i = (i.m_watchdog_thread && i.watchdog_joinable) ≡ true
  Watching false i = i.m_watchdog_thread ≡ false

  pub connect-IsRaised :
      (fuel : ℕ) (s : State W) {s1 : State W}
      → IsConfigured s.impl
      → connect sdk fuel s ≡ some (ok tt, s1)
      → IsRaised s1.impl × Watching false s1.impl
  connect-IsRaised fuel s configuration h =
      let f = connect-Frame sdk fuel s h in
      let settled = connect-Settled sdk fuel s configuration.slot_free h in
      (
        record {
          ready = settled.0;
          revived = settled.1;
          passes = ap check f.same_config ∙ configuration.passes;
          library_agrees =
              f.same_ua_config ∙ configuration.library_agrees ∙ ap configured (sym f.same_config);
          slot_free = f.same_conn ∙ configuration.slot_free;
          has_client = f.same_impl ∙ configuration.has_client;
        },
        f.same_thread ∙ configuration.not_started,
      )

  running-IsRaised :
      (i : Impl)
      → IsRaised i
      → IsRaised (record i { m_running = true; m_watchdog_thread = true; watchdog_joinable = true })
  unfolding triple_ready
  running-IsRaised i r = record {
    ready = r.ready;
    revived = r.revived;
    passes = r.passes;
    library_agrees = r.library_agrees;
    slot_free = r.slot_free;
    has_client = r.has_client;
  }

  start_watchdog-IsRaised :
      (b : Bool) (i : Impl)
      → IsRaised i
      → (start_watchdog b i).0 ≡ some (ok tt)
      → IsRaised (start_watchdog b i).1 × Watching true (start_watchdog b i).1
  unfolding start_watchdog
  start_watchdog-IsRaised b i r h =
      let P : Option (Result (Unit {0}) ErrorCode) × Impl → Type 0 =
        λ p. p.0 ≡ some (ok tt) → IsRaised p.1 × Watching true p.1 in
      if_cases P (i.m_watchdog_thread && i.watchdog_joinable) (λ e k. (r, e))
        (λ e. if-keeps P b (λ k. (running-IsRaised i r, refl)) (λ k. absurd (ground arith))) h

  pub configure_client-IsConfigured :
      (d : Bool) (s : State W)
      → (configure_client sdk d s).0 ≡ ok tt
      → IsConfigured (configure_client sdk d s).1.impl
  configure_client-IsConfigured d s h =
      go d (configure_client sdk d s) (configure_client-Configures sdk d s) h
    where
      go :
          (d : Bool) (p : Result (Unit {0}) ErrorCode × State W)
          → Configures sdk d s p
          → p.0 ≡ ok tt
          → IsConfigured p.1.impl
      go true (ok u, s1) k h = k
      go false (ok u, s1) k h = k.0
      go d (err e, s1) k h = absurd (ground arith)

  module _ (join : W → Reply W (Unit {0})) (spawns : W → Bool) where
    pub watched-IsRaised :
        (s : State W)
        → IsRaised s.impl
        → (watched sdk join spawns s).0 ≡ ok tt
        → IsRaised (watched sdk join spawns s).1.impl
          × Watching true (watched sdk join spawns s).1.impl
    unfolding watched
    watched-IsRaised s r h =
        let P : Result (Unit {0}) ErrorCode × State W → Type 0 =
          λ p. p.0 ≡ ok tt → IsRaised p.1.impl × Watching true p.1.impl in
        let b = spawns s.world in
        match_cases P (start_watchdog b s.impl).0 (λ e k. absurd (ground arith))
          (λ o e k. start_watchdog-IsRaised b s.impl r (e ∙ ap some k)) h
