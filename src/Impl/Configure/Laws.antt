-- ===== src/Impl/Configure/Laws.antt =====
-- What a configuration that succeeds establishes, and what one that fails leaves alone.
use net_way.Prelude.{
  ◌≡◌, refl, sym, ap, ◌∙◌, inl, inr, Bool, true, false, not, Option, none, some, arith, List,
  Option-cases, if-keeps,
}
use net_way.RichError.{ErrorCode, Result, ok, err, sdk_error}
use net_way.RichError.Laws.{result_keeps}
use net_way.Config.Check.{repair_none, repair_some}
use net_way.Config.{
  ClientConfig, ConfigError, check, apply_profile, profile_local, after_fix,
  apply_default_if_invalid,
}
use net_way.Sdk.{Sdk}
use net_way.Impl.{Impl, State, idle}
use net_way.Impl.Frame.{is_connected-Frame}
use net_way.Impl.Configure.{
  has_errors, configured, reset_atomics, validate_configuration, write_configuration,
  apply_configuration, configure_client,
}

-- A client of the library that is set up by settings that pass `check`, and on which no operation
-- is under way.
pub record IsConfigured (i : Impl) : Type 0 where
  pub has_client : i.m_impl ≡ true
  pub passes : check i.m_config ≡ none
  pub library_agrees : i.ua_config ≡ configured i.m_config
  pub level_agrees : i.m_log_level ≡ i.m_config.log_level
  pub slot_free : i.m_conn_state ≡ idle
  pub not_started : i.m_watchdog_thread ≡ false

after_fix-ok : (o : Option (List ConfigError)) {b : Bool} → after_fix o ≡ ok b → o ≡ none
unfolding after_fix
after_fix-ok none h = refl
after_fix-ok (some e) h = absurd (ground arith)

-- A repair that succeeds leaves settings that pass.
default-passes :
    (c : ClientConfig) {b : Bool} {c1 : ClientConfig}
    → apply_default_if_invalid c ≡ (ok b, c1)
    → check c1 ≡ none
default-passes c h = elim (Option-cases (check c)) [
  | inl e ↦ let eq = sym (repair_none c e) ∙ h in ap check (sym (ap (λ p. p.1) eq)) ∙ e
  | inr (x, e) ↦
      let eq = sym (repair_some c e) ∙ h in
      ap check (sym (ap (λ p. p.1) eq))
      ∙ after_fix-ok (check (apply_profile profile_local c)) (ap (λ p. p.0) eq)
]

has_errors-none : {A : Type 0} (o : Option A) → has_errors o ≡ false → o ≡ none
has_errors-none none h = refl
has_errors-none (some e) h = absurd (ground arith)

module _ {W : Type 0} (sdk : Sdk W) where
  write_configuration-IsConfigured :
      (s : State W)
      → s.m_impl ≡ true
      → s.m_watchdog_thread ≡ false
      → check s.m_config ≡ none
      → IsConfigured (write_configuration sdk s).impl
        × ((write_configuration sdk s).m_config ≡ s.m_config)
  unfolding write_configuration reset_atomics
  write_configuration-IsConfigured s client fresh passes =
      let i =
        reset_atomics (record s.impl {
          ua_config = configured s.m_config;
          m_log_level = s.m_config.log_level;
        }) in
      let f = is_connected-Frame sdk 50 (record s { impl = i }) in
      (
        record {
          has_client = f.same_impl ∙ client;
          passes = ap check f.same_config ∙ passes;
          library_agrees = f.same_ua_config ∙ ap configured (sym f.same_config);
          level_agrees = f.same_log_level ∙ ap (λ c. c.log_level) (sym f.same_config);
          slot_free = f.same_conn;
          not_started = f.same_thread ∙ fresh;
        },
        f.same_config,
      )

  -- What a configuration leaves: a client that is set up, with the settings it was given unless
  -- they may be repaired; or, on an error, the state as it was, but for repaired settings.
  abbrev pub Configures :
      (use_default : Bool) → State W → Result (Unit {0}) ErrorCode × State W → Type 0
  Configures true s (ok u, s1) = IsConfigured s1.impl
  Configures false s (ok u, s1) = IsConfigured s1.impl × (s1.m_config ≡ s.m_config)
  Configures true s (err e, s1) = s1 ≡ record s { impl = record s.impl { m_config = s1.m_config } }
  Configures false s (err e, s1) = s1 ≡ s

  refused-Configures : (d : Bool) (s : State W) (e : ErrorCode) → Configures d s (err e, s)
  refused-Configures true s e = refl
  refused-Configures false s e = refl

  repaired-Configures :
      (s : State W) (r : Result Bool ErrorCode) (c : ClientConfig)
      → s.m_impl ≡ true
      → s.m_watchdog_thread ≡ false
      → apply_default_if_invalid s.m_config ≡ (r, c)
      → (let s1 = record s { impl = record s.impl { m_config = c } } in
          Configures true s
            (elim r [ err e ↦ (err e, s1) | ok fixed ↦ (ok tt, write_configuration sdk s1) ]))
  repaired-Configures s (ok b) c client fresh eq =
      (write_configuration-IsConfigured (record s { impl = record s.impl { m_config = c } }) client
        fresh (default-passes s.m_config eq)).0
  repaired-Configures s (err e) c client fresh eq = refl

  apply_configuration-Configures :
      (d : Bool) (s : State W)
      → s.m_impl ≡ true
      → s.m_watchdog_thread ≡ false
      → (d ≡ false → check s.m_config ≡ none)
      → Configures d s (apply_configuration sdk d s)
  unfolding apply_configuration
  apply_configuration-Configures true s client fresh passes =
      if-keeps (Configures true s) (not (sdk.get_config s.world))
        (refused-Configures true s sdk_error)
        (repaired-Configures s (apply_default_if_invalid s.m_config).0
          (apply_default_if_invalid s.m_config).1 client fresh refl)
  apply_configuration-Configures false s client fresh passes =
      if-keeps (Configures false s) (not (sdk.get_config s.world))
        (refused-Configures false s sdk_error)
        (write_configuration-IsConfigured s client fresh (passes refl))

  -- What `validateConfiguration` has looked at when it succeeds.
  validate_configuration-ok :
      (d : Bool) (s : State W)
      → validate_configuration sdk d s ≡ ok tt
      → (s.m_impl ≡ true) × (s.m_watchdog_thread ≡ false) × (d ≡ false → check s.m_config ≡ none)
  unfolding validate_configuration
  validate_configuration-ok d s h = ground (arith, has_errors-none (check s.m_config))

  -- `configureClient`: on success the library's client has the settings of the wrapper, which pass
  -- `check`, the log level is theirs, no operation is under way and no watchdog started, and without
  -- useDefault the settings are the ones it was given; on an error without useDefault nothing has
  -- changed, and with it only the settings may have.
  pub configure_client-Configures :
      (d : Bool) (s : State W) → Configures d s (configure_client sdk d s)
  unfolding configure_client
  configure_client-Configures d s =
      result_keeps (Configures d s) (validate_configuration sdk d s)
        (λ e h. refused-Configures d s e)
        (λ u h.
          let v = validate_configuration-ok d s h in apply_configuration-Configures d s v.0 v.1 v.2)
