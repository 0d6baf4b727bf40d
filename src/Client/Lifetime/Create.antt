-- ===== src/Client/Lifetime/Create.antt =====
-- What `create` and `createWithSdk` hand out.
use net_way.Prelude.{
  ℕ, ◌≡◌, refl, sym, ◌∙◌, Bool, true, false, Option, none, some, arith, subst, if-keeps,
  match_cases, match-keeps, some_injective,
}
use net_way.RichError.{ErrorCode, Result, ok, err, already_terminated}
use net_way.RichError.Laws.{result_keeps}
use net_way.Config.{ClientConfig}
use net_way.Sdk.{Sdk, Reply}
use net_way.Impl.{Impl, State, UaConfig}
use net_way.Impl.Configure.{configure_client}
use net_way.Impl.Configure.Laws.{IsConfigured}
use net_way.Client.{state_of, RecreateSync, Client, attempt}
use net_way.ErrorMapping.{Exception, caught}
use net_way.Client.Api.{api_connect, connect_body}
use net_way.Client.Api.Laws.{entry-Admitted}
use net_way.Client.Api.Session.{connect_body-ok}
use net_way.Client.Lifetime.{
  fresh_sync, watched, construct, set_up_watchdog, set_up, handed_out, guarded_set_up,
  create_with_sdk,
}
use net_way.Client.Lifetime.Raised.{
  IsRaised, Watching, connect-IsRaised, watched-IsRaised, configure_client-IsConfigured,
}

module _ {W : Type 0} (sdk : Sdk W) (join : W → Reply W (Unit {0})) (spawns : W → Bool)
    (thrown : State W → Option (Exception × State W)) where
  -- A client that callers may use: no call is under way, nothing has ended.
  pub record IsHandedOut (enable : Bool) (y : RecreateSync) (c : Client W) : Type 0 where
    pub held : Impl
    pub holds : c.p_impl ≡ some held
    pub flags : c.sync ≡ y
    pub raised : IsRaised sdk held
    pub watching : Watching sdk enable held

  abbrev Sets : Bool → RecreateSync → Option (Result (Unit {0}) ErrorCode × Client W) → Type 0
  Sets enable y none = Unit {0}
  Sets enable y (some (err e, c)) = Unit {0}
  Sets enable y (some (ok u, c)) = IsHandedOut enable y c

  attempt-ok :
      {A : Type 0} (body : State W → Option (Result A ErrorCode × State W)) (s : State W) {a : A}
      {s1 : State W}
      → attempt thrown body s ≡ some (ok a, s1)
      → body s ≡ some (ok a, s1)
  unfolding attempt
  attempt-ok body s {a = a} {s1 = s1} h =
      let P : Option (Result _ ErrorCode × State W) → Type 0 =
        λ o. o ≡ some (ok a, s1) → body s ≡ some (ok a, s1) in
      match_cases P (thrown s) (λ e k. k) (λ p e k. absurd (ground arith)) h

  pub api_connect-ok :
      (fuel : ℕ) (y : RecreateSync) (s : State W) {c2 : Client W}
      → IsConfigured s.impl
      → api_connect sdk thrown fuel (record { sync = y; p_impl = some s.impl; world = s.world })
        ≡ some (ok tt, c2)
      → IsHandedOut false y c2
  unfolding api_connect
  api_connect-ok fuel y s configuration h =
      let a = entry-Admitted already_terminated (attempt thrown (connect_body sdk fuel)) _ h in
      let same = some_injective a.3.2 in
      let connected =
        connect_body-ok sdk fuel _
          (attempt-ok (connect_body sdk fuel) (state_of a.3.0 s.world) a.3.4) in
      let (raised, unwatched) =
        connect-IsRaised sdk fuel (state_of a.3.0 s.world) (subst IsConfigured same configuration)
          connected in
      record { held = a.3.1; holds = a.3.3; flags = a.2; raised = raised; watching = unwatched }

  some-Sets :
      (enable : Bool) (y : RecreateSync) (r : Result (Unit {0}) ErrorCode) (c : Client W)
      → (r ≡ ok tt → IsHandedOut enable y c)
      → Sets enable y (some (r, c))
  some-Sets enable y (ok u) c h = h refl
  some-Sets enable y (err e) c h = tt

  set_up_watchdog-Sets :
      (enable : Bool) (y : RecreateSync) (c : Client W)
      → IsHandedOut false y c
      → Sets enable y (set_up_watchdog sdk join spawns thrown enable c)
  unfolding set_up_watchdog
  set_up_watchdog-Sets false y c h = h
  set_up_watchdog-Sets true y c h =
      match_cases (Sets true y) c.p_impl (λ e. tt)
        (λ i e.
          let same = some_injective (sym h.holds ∙ e) in
          let s = state_of i c.world in
          some-Sets true y (watched sdk join spawns s).0 _ (λ k.
            let (raised, runs) =
              watched-IsRaised sdk join spawns s (subst (IsRaised sdk) same h.raised) k in
            record {
              held = (watched sdk join spawns s).1.impl;
              holds = refl;
              flags = h.flags;
              raised = raised;
              watching = runs;
            }))

  connected-Sets :
      (fuel : ℕ) (enable : Bool) (y : RecreateSync) (s : State W)
      (a : Option (Result (Unit {0}) ErrorCode × Client W))
      → IsConfigured s.impl
      → api_connect sdk thrown fuel (record { sync = y; p_impl = some s.impl; world = s.world }) ≡ a
      → Sets enable y (elim a [
        | none ↦ none
        | some (err e, c2) ↦ some (err e, c2)
        | some (ok _, c2) ↦ set_up_watchdog sdk join spawns thrown enable c2
      ])
  connected-Sets fuel enable y s none configuration h = tt
  connected-Sets fuel enable y s (some (err e, c2)) configuration h = tt
  connected-Sets fuel enable y s (some (ok u, c2)) configuration h =
      set_up_watchdog-Sets enable y c2 (api_connect-ok fuel y s configuration h)

  set_up-Sets :
      (fuel : ℕ) (d enable : Bool) (y : RecreateSync) (s : State W)
      → Sets enable y (set_up sdk join spawns thrown fuel d enable y s)
  unfolding set_up
  set_up-Sets fuel d enable y s =
      result_keeps (Sets enable y) (configure_client sdk d s).0 (λ e h. tt)
        (λ u h.
          connected-Sets fuel enable y (configure_client sdk d s).1 _
            (configure_client-IsConfigured sdk d s h) refl)

  abbrev Hands : Bool → Option (Result (Client W) ErrorCode × W) → Type 0
  Hands enable none = Unit {0}
  Hands enable (some (err e, w)) = Unit {0}
  Hands enable (some (ok c, w)) = IsHandedOut enable fresh_sync c

  handed_out-Hands :
      (enable : Bool) (o : Option (Result (Unit {0}) ErrorCode × Client W))
      → Sets enable fresh_sync o
      → Hands enable (handed_out sdk join spawns thrown o)
  unfolding handed_out
  handed_out-Hands enable none h = tt
  handed_out-Hands enable (some (ok u, c)) h = h
  handed_out-Hands enable (some (err e, c)) h = tt

  create_with_sdk-Hands :
      (early : W → Option (Exception × W)) (cut : State W → Option (Exception × Client W))
      (given : Bool) (fuel : ℕ) (d enable : Bool) (u : UaConfig) (config : ClientConfig) (w : W)
      → Hands enable
          (create_with_sdk sdk join spawns thrown early cut given fuel d enable u config w)
  unfolding create_with_sdk guarded_set_up
  create_with_sdk-Hands early cut given fuel d enable u config w =
      if-keeps (Hands enable) given
        (match-keeps (Hands enable) (early w)
          (match-keeps (Hands enable) (construct sdk join u config w).0 tt (λ s.
            match-keeps (Hands enable) (cut s)
              (handed_out-Hands enable _ (set_up-Sets fuel d enable fresh_sync s))
              (λ p. handed_out-Hands enable (some (err (caught p.0), p.1)) tt)))
          (λ p. tt))
        tt

  -- What `createWithSdk` and `create` (which enables the watchdog) hand out, whatever is thrown:
  -- a client with settings that pass `check` and that the library has too, whose cached
  -- triple is GOOD, OPEN and ACTIVATED, which is RUNNING with the loss flag and the give-up clock
  -- cleared or was given up meanwhile, with a free connection slot and no call under way, and whose
  -- watchdog runs if it is enabled and is not started otherwise.
  pub create_with_sdk-IsHandedOut :
      (early : W → Option (Exception × W)) (cut : State W → Option (Exception × Client W))
      (given : Bool) (fuel : ℕ) (d enable : Bool) (u : UaConfig) (config : ClientConfig) (w : W)
      {c : Client W} {w1 : W}
      → create_with_sdk sdk join spawns thrown early cut given fuel d enable u config w
        ≡ some (ok c, w1)
      → IsHandedOut enable fresh_sync c
  create_with_sdk-IsHandedOut early cut given fuel d enable u config w h =
      subst (Hands enable) h (create_with_sdk-Hands early cut given fuel d enable u config w)
