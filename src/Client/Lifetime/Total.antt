-- ===== src/Client/Lifetime/Total.antt =====
-- `create` and `createWithSdk` come to a result.
use net_way.Prelude.{
  ℕ, ◌≡◌, ◌≤◌, refl, sym, ◌∙◌, Bool, false, Option, none, some, arith, if-keeps, match_cases,
  match-keeps,
}
use net_way.RichError.{map_err, ErrorCode, Result, ok, err, already_terminated}
use net_way.RichError.Laws.{result_keeps}
use net_way.Config.{ClientConfig}
use net_way.Sdk.{Sdk, Reply, Ticks}
use net_way.Impl.Connect.Total.{connect-Returns}
use net_way.Impl.Rounds.{wall_budget_ns}
use net_way.Impl.{State, UaConfig}
use net_way.Impl.Connect.{connect}
use net_way.Impl.Configure.{configure_client}
use net_way.Impl.Configure.Laws.{IsConfigured}
use net_way.ErrorMapping.{connect_error_code}
use net_way.Client.{RecreateSync, Client, attempt}
use net_way.ErrorMapping.{Exception, caught}
use net_way.Client.Api.{Body, api_connect, connect_body}
use net_way.Client.Api.Gates.{Ends, entry-Ends, then-Ends, no_client}
use net_way.Client.Lifetime.{
  fresh_sync, construct, set_up_watchdog, set_up, handed_out, guarded_set_up, create_with_sdk,
}
use net_way.Client.Lifetime.Raised.{configure_client-IsConfigured}
use net_way.Client.Lifetime.Create.{IsHandedOut, api_connect-ok}

-- Fuel for the largest bound that a `uint32_t` of milliseconds gives.
abbrev pub enough_fuel : ℕ
enough_fuel = 4294967296000000

module _ {W : Type 0} (sdk : Sdk W) (join : W → Reply W (Unit {0})) (spawns : W → Bool)
    (thrown : State W → Option (Exception × State W)) where
  module _ (time : W → ℕ) (ticks : Ticks sdk time) where
    connect-Ends : (fuel : ℕ) (s : State W) → enough_fuel ≤ fuel → Ends (connect sdk fuel s)
    unfolding wall_budget_ns
    connect-Ends fuel s h = connect-Returns sdk time ticks fuel s (omega arith)

    attempt-Ends :
        {A : Type 0} (body : Body W A) (s : State W) → Ends (body s) → Ends (attempt thrown body s)
    unfolding attempt
    attempt-Ends body s h = match-keeps Ends (thrown s) h (λ p. (_, refl))

    api_connect-Ends :
        (fuel : ℕ) (c : Client W) → enough_fuel ≤ fuel → Ends (api_connect sdk thrown fuel c)
    unfolding api_connect connect_body
    api_connect-Ends fuel c h =
        entry-Ends already_terminated (attempt thrown (connect_body sdk fuel)) c (λ s.
          attempt-Ends (connect_body sdk fuel) s
            (then-Ends (λ r s1. (map_err connect_error_code r, s1)) (connect-Ends fuel s h)))

    set_up_watchdog-Ends :
        (enable : Bool) (y : RecreateSync) (c : Client W)
        → IsHandedOut sdk join spawns thrown false y c
        → Ends (set_up_watchdog sdk join spawns thrown enable c)
    unfolding set_up_watchdog
    set_up_watchdog-Ends enable y c h =
        if-keeps Ends enable
          (match_cases Ends c.p_impl (λ e. absurd (no_client (sym h.holds ∙ e))) (λ i e. (_, refl)))
          (_, refl)

    connected-Ends :
        (fuel : ℕ) (enable : Bool) (y : RecreateSync) (s : State W)
        (a : Option (Result (Unit {0}) ErrorCode × Client W))
        → IsConfigured s.impl
        → api_connect sdk thrown fuel (record { sync = y; p_impl = some s.impl; world = s.world })
          ≡ a
        → Ends a
        → Ends (elim a [
          | none ↦ none
          | some (err e, c2) ↦ some (err e, c2)
          | some (ok _, c2) ↦ set_up_watchdog sdk join spawns thrown enable c2
        ])
    connected-Ends fuel enable y s none configuration h n = absurd (no_client (sym n.1))
    connected-Ends fuel enable y s (some (err e, c2)) configuration h n = (_, refl)
    connected-Ends fuel enable y s (some (ok u, c2)) configuration h n =
        set_up_watchdog-Ends enable y c2
          (api_connect-ok sdk join spawns thrown fuel y s configuration h)

    set_up-Ends :
        (fuel : ℕ) (d enable : Bool) (y : RecreateSync) (s : State W)
        → enough_fuel ≤ fuel
        → Ends (set_up sdk join spawns thrown fuel d enable y s)
    unfolding set_up
    set_up-Ends fuel d enable y s f =
        result_keeps Ends (configure_client sdk d s).0 (λ e h. (_, refl))
          (λ u h.
            connected-Ends fuel enable y (configure_client sdk d s).1 _
              (configure_client-IsConfigured sdk d s h) refl (api_connect-Ends fuel _ f))

    handed_out-Ends :
        (o : Option (Result (Unit {0}) ErrorCode × Client W))
        → Ends o
        → Ends (handed_out sdk join spawns thrown o)
    unfolding handed_out
    handed_out-Ends none h = absurd (no_client (sym h.1))
    handed_out-Ends (some (ok u, c)) h = (_, refl)
    handed_out-Ends (some (err e, c)) h = (_, refl)

    -- With fuel for the longest wait that a `uint32_t` time-out allows, `createWithSdk` and `create`
    -- always come to a result, a client or an error, whatever is thrown. The steady clock does not go
    -- back and advances between two readings.
    pub create_with_sdk-Ends :
        (early : W → Option (Exception × W)) (cut : State W → Option (Exception × Client W))
        (given : Bool) (fuel : ℕ) (d enable : Bool) (u : UaConfig) (config : ClientConfig) (w : W)
        → enough_fuel ≤ fuel
        → Ends (create_with_sdk sdk join spawns thrown early cut given fuel d enable u config w)
    unfolding create_with_sdk guarded_set_up
    create_with_sdk-Ends early cut given fuel d enable u config w f =
        if-keeps Ends given
          (match-keeps Ends (early w)
            (match-keeps Ends (construct sdk join u config w).0 (_, refl)
              (λ s.
                match-keeps Ends (cut s)
                  (handed_out-Ends _ (set_up-Ends fuel d enable fresh_sync s f))
                  (λ p. handed_out-Ends (some (err (caught p.0), p.1)) (_, refl))))
            (λ p. (_, refl)))
          (_, refl)
