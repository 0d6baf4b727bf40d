-- ===== src/Sdk/Real.antt =====
-- `src/OPCUAPacking/detail/RealSdk.h`: `clientNew`, which sets up open62541's own configuration, and
-- `clientDelete`. The other members pass each call on. open62541 is a parameter; `W` is its memory,
-- `F` and `X` the types of a logger's function and context, `C` that of a client, and `P` whatever
-- else a configuration holds.
use net_way.Prelude.{
  ℕ, ◌+◌, ◌-◌, ◌≡◌, refl, Bool, false, ◌==◌, if◌then◌else◌, if_cases, Option, none, some,
  Option-cases, inl, inr, arith,
}

-- `UA_Logger`; `clear` says whether it has a function that frees it.
pub record Logger (F X : Type 0) : Type 0 where
  pub log : F
  pub context : X
  pub clear : Bool

pub record UaClientConfig (F X P : Type 0) : Type 0 where
  pub logging : Option (Logger F X)
  pub others : P

pub record Library (W F X P C : Type 0) : Type 0 where
  -- `memset` with zeros, and `UA_STATUSCODE_GOOD`
  pub blank : UaClientConfig F X P
  pub good : ℕ
  pub set_default : UaClientConfig F X P → W → (status : ℕ) × (config : UaClientConfig F X P) × W
  pub new_with_config : UaClientConfig F X P → W → Option C × W
  pub config_clear : UaClientConfig F X P → W → W
  pub delete : C → W → W

-- The plugins that a configuration owns: its logger, if that has a function that frees it, and those
-- of its other members.
abbrev pub owned : {F X P : Type 0} → (P → ℕ) → UaClientConfig F X P → ℕ
owned plugins c =
    plugins c.others + (elim c.logging [ none ↦ 0 | some l ↦ if l.clear then 1 else 0 ])

-- What open62541 documents of them: `held` counts the plugins that are allocated and belong to no
-- client. Setting the defaults allocates what the configuration then owns, also when it fails; a
-- client that is made takes over what its configuration owns, and one that is not leaves it; clearing
-- frees what the configuration that it is given owns.
pub record Ledger {W F X P C : Type 0} (lib : Library W F X P C) (plugins : P → ℕ) (held : W → ℕ)
    : Type 0 where
  pub allocates :
      (c : UaClientConfig F X P) (w : W)
      → held (lib.set_default c w).2 ≡ held w + owned plugins (lib.set_default c w).1
  pub takes_over :
      (c : UaClientConfig F X P) (w : W) (k : C)
      → (lib.new_with_config c w).0 ≡ some k
      → held (lib.new_with_config c w).1 ≡ held w - owned plugins c
  pub leaves :
      (c : UaClientConfig F X P) (w : W)
      → (lib.new_with_config c w).0 ≡ none
      → held (lib.new_with_config c w).1 ≡ held w
  pub frees :
      (c : UaClientConfig F X P) (w : W) → held (lib.config_clear c w) ≡ held w - owned plugins c

module _ {W F X P C : Type 0} (lib : Library W F X P C) (custom_logger : Logger F X) where
  -- The logger of the defaults is kept, with the function and the context of the wrapper's, so that
  -- its `clear` still frees it; without one the wrapper's own is used.
  unfoldable pub relogged : UaClientConfig F X P → UaClientConfig F X P
  relogged c = elim c.logging [
    | none ↦ record c { logging = some custom_logger }
    | some l ↦ record c {
      logging = some (record l { log = custom_logger.log; context = custom_logger.context });
    }
  ]

  -- `if (!client) UA_ClientConfig_clear(&cfg_)`
  unfoldable pub clear_unless_made : Option C → UaClientConfig F X P → W → W
  clear_unless_made none c w = lib.config_clear c w
  clear_unless_made (some k) c w = w

  unfoldable pub client_new : Option (UaClientConfig F X P) → W → Option C × W
  unfolding relogged clear_unless_made
  client_new (some cfg) w = lib.new_with_config cfg w
  client_new none w =
      let (status, c, w1) = lib.set_default lib.blank w in
      if status == lib.good
      then (let (client, w2) = lib.new_with_config (relogged c) w1 in
          (client, clear_unless_made client (relogged c) w2))
      else (none, lib.config_clear c w1)

  unfoldable pub client_delete : Option C → W → W
  client_delete none w = w
  client_delete (some k) w = lib.delete k w

  relogged-owns :
      (plugins : P → ℕ) (c : UaClientConfig F X P)
      → custom_logger.clear ≡ false
      → owned plugins (relogged c) ≡ owned plugins c
  unfolding relogged
  relogged-owns plugins c static = elim (Option-cases c.logging) [
    | inl e ↦ rw (e, static) refl
    | inr (l, e) ↦ rw e refl
  ]

  made-Ledger :
      {plugins : P → ℕ} {held : W → ℕ}
      → Ledger lib plugins held
      → (c : UaClientConfig F X P) (w : W)
      → let (client, w1) = lib.new_with_config c w in
        held (clear_unless_made client c w1) ≡ held w - owned plugins c
  unfolding clear_unless_made
  made-Ledger {held = held} l c w =
      let (client, w1) = lib.new_with_config c w in
      elim (Option-cases client) [
        | inl e ↦ rw e (omega (arith, l.leaves c w e, l.frees c w1))
        | inr (k, e) ↦ rw e (l.takes_over c w k e)
      ]

  -- Nothing leaks: whether the defaults fail, the client is not made or it is, `clientNew` without
  -- a configuration leaves no plugin behind that belongs to no client, the logger of the defaults
  -- included. The wrapper's own logger is static: it has no function that frees it.
  pub client_new_leaks_nothing :
      (plugins : P → ℕ) (held : W → ℕ)
      → custom_logger.clear ≡ false
      → Ledger lib plugins held
      → (w : W) → held (client_new none w).1 ≡ held w
  unfolding client_new
  client_new_leaks_nothing plugins held static l w =
      let (status, c, w1) = lib.set_default lib.blank w in
      let same = relogged-owns plugins c static in
      if_cases (λ (r : Option C × W). held r.1 ≡ held w) (status == lib.good)
        (λ e. omega (arith, made-Ledger l (relogged c) w1, l.allocates lib.blank w, same))
        (λ e. omega (arith, l.frees c w1, l.allocates lib.blank w))
