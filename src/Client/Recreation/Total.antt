-- ===== src/Client/Recreation/Total.antt =====
-- `recreateGiveUpClient` comes to a result.
use net_way.Prelude.{
  ℕ, ◌≤◌, refl, sym, Bool, true, not, Option, none, some, if-keeps, match-keeps, arith,
}
use net_way.RichError.{map_err, ErrorCode, Result, ok, err}
use net_way.RichError.Laws.{result_keeps}
use net_way.Config.{ClientConfig}
use net_way.Life.{same_life, given_up}
use net_way.Sdk.{Sdk, Reply, Ticks}
use net_way.ErrorMapping.{Exception, connect_error_code}
use net_way.Impl.{Impl, State, UaConfig}
use net_way.Impl.Rounds.{wall_budget_ns}
use net_way.Impl.Connect.Total.{connect-Returns}
use net_way.Impl.Configure.{configure_client}
use net_way.Client.{Client, attempt, recreate_enter, recreate_leave}
use net_way.Client.Api.{connect_body}
use net_way.Client.Api.Gates.{Ends, no_client, then-Ends}
use net_way.Client.Lifetime.{watched, construct}
use net_way.Client.Lifetime.Total.{enough_fuel}
use net_way.Client.Recreation.{
  Others, others_on, set_up_candidate, guarded, raise_candidate, drain, adopt, rebuild,
  recreate_give_up_client,
}

module _ {W : Type 0} (sdk : Sdk W) (join : W → Reply W (Unit {0})) (spawns : W → Bool)
    (others : Others W) (thrown : State W → Option (Exception × State W))
    (early : W → Option (Exception × W)) (time : W → ℕ) (ticks : Ticks sdk time) where
  connect_body-Ends : (fuel : ℕ) (s : State W) → enough_fuel ≤ fuel → Ends (connect_body sdk fuel s)
  unfolding wall_budget_ns connect_body
  connect_body-Ends fuel s h =
      then-Ends (λ r s1. (map_err connect_error_code r, s1))
        (connect-Returns sdk time ticks fuel s (omega arith))

  connected-Ends :
      (a : Option (Result (Unit {0}) ErrorCode × State W))
      → Ends a
      → Ends {A = Result (Unit {0}) ErrorCode × State W} (elim a [
        | none ↦ none
        | some (err e, s2) ↦ some (err e, s2)
        | some (ok _, s2) ↦ some (watched sdk join spawns s2)
      ])
  connected-Ends none h = absurd (no_client (sym h.1))
  connected-Ends (some (err e, s2)) h = (_, refl)
  connected-Ends (some (ok u, s2)) h = (_, refl)

  set_up_candidate-Ends :
      (fuel : ℕ) (s : State W)
      → enough_fuel ≤ fuel
      → Ends (attempt thrown (set_up_candidate sdk join spawns others thrown early fuel) s)
  unfolding attempt set_up_candidate
  set_up_candidate-Ends fuel s f =
      match-keeps Ends (thrown s)
        (result_keeps Ends (configure_client sdk true s).0 (λ e h. (_, refl))
          (λ x h. connected-Ends _ (connect_body-Ends fuel (configure_client sdk true s).1 f)))
        (λ p. (_, refl))

  guarded-Ends :
      (o : Option (Result (Unit {0}) ErrorCode × State W))
      → Ends o
      → Ends (guarded sdk join spawns others thrown early o)
  unfolding guarded
  guarded-Ends none h = absurd (no_client (sym h.1))
  guarded-Ends (some (err e, s)) h = (_, refl)
  guarded-Ends (some (ok u, s)) h = (_, refl)

  raise_candidate-Ends :
      (fuel : ℕ) (u : UaConfig) (config : ClientConfig) (w : W)
      → enough_fuel ≤ fuel
      → Ends (raise_candidate sdk join spawns others thrown early fuel u config w)
  unfolding raise_candidate
  raise_candidate-Ends fuel u config w f =
      match-keeps Ends (early w)
        (match-keeps Ends (construct sdk join u config w).0 (_, refl)
          (λ s. guarded-Ends _ (set_up_candidate-Ends fuel s f)))
        (λ x. (_, refl))

  raised-Ends :
      (old : Impl) (c : Client W) (o : Option (Result Impl ErrorCode × W))
      → Ends o
      → Ends {A = Result (Unit {0}) ErrorCode × Client W} (elim o [
        | none ↦ none
        | some (err e, w1) ↦
            some (err e, record c { p_impl = others_on others w1 (some old); world = w1 })
        | some (ok new, w1) ↦
            let now = others.client w1 old in
            some (
              adopt sdk join spawns others thrown early now new
                (record c { p_impl = some now; world = w1 }))
      ])
  raised-Ends old c none h = absurd (no_client (sym h.1))
  raised-Ends old c (some (err e, w1)) h = (_, refl)
  raised-Ends old c (some (ok new, w1)) h = (_, refl)

  rebuild-Ends :
      (fuel : ℕ) (u : UaConfig) (c : Client W)
      → enough_fuel ≤ fuel
      → Ends (rebuild sdk join spawns others thrown early fuel u c)
  unfolding rebuild
  rebuild-Ends fuel u c f =
      let (drained, c1) = drain sdk join spawns others thrown early c in
      if-keeps Ends (not drained) (_, refl)
        (match-keeps Ends c1.p_impl (_, refl)
          (λ old.
            if-keeps Ends (same_life old.m_life_state given_up)
              (raised-Ends old c1 _ (raise_candidate-Ends fuel u old.m_config c1.world f))
              (_, refl)))

  left-Ends :
      (o : Option (Result (Unit {0}) ErrorCode × Client W))
      → Ends o
      → Ends {A = Result (Unit {0}) ErrorCode × Client W} (elim o [
        | none ↦ none
        | some (r1, c1) ↦ some (r1, record c1 { sync = recreate_leave c1.sync })
      ])
  left-Ends none h = absurd (no_client (sym h.1))
  left-Ends (some (r1, c1)) h = (_, refl)

  -- With fuel for the longest wait that a `uint32_t` time-out allows, `recreateGiveUpClient` always
  -- comes to a result, whatever other threads do to the shared flags and to the clients and whatever
  -- is thrown. The steady clock does not go back and advances between two readings.
  pub recreate_give_up_client-Ends :
      (fuel : ℕ) (u : UaConfig) (c : Client W)
      → enough_fuel ≤ fuel
      → Ends (recreate_give_up_client sdk join spawns others thrown early fuel u c)
  unfolding recreate_give_up_client
  recreate_give_up_client-Ends fuel u c f =
      result_keeps Ends (recreate_enter c.sync).0 (λ e h. (_, refl))
        (λ x h. left-Ends _ (rebuild-Ends fuel u (record c { sync = (recreate_enter c.sync).1 }) f))
