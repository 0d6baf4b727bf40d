-- ===== src/Client/Api/Session.antt =====
-- How the calls of one caller fit together: a connection that succeeds, and the questions after it.
use net_way.Prelude.{
  ℕ, ◌≡◌, ◌⊎◌, inl, inr, refl, ap, sym, ◌∙◌, true, false, Option, none, some, arith,
}
use net_way.RichError.{ok, err, not_connected, already_terminated, map_err}
use net_way.Sdk.{Sdk}
use net_way.Impl.{Impl, State, idle, get_effective_stop_signal, triple_ready}
use net_way.Impl.Connect.{connect}
use net_way.Impl.Connect.Guards.{connect_refused}
use net_way.Impl.Connect.Results.{connect-Settled}
use net_way.Impl.Turns.{Revived, healthy_of_ready}
use net_way.Client.{state_of, Client, attempt}
use net_way.ErrorMapping.{Exception}
use net_way.Client.Api.{Body, api_connect, is_healthy, connect_body, healthy_body, while_running}
use net_way.Client.Api.Laws.{entry-Admitted, entry_free}

module _ {W : Type 0} (sdk : Sdk W) where
  idle_of_ok :
      (fuel : ℕ) (s : State W) {s1 : State W}
      → connect sdk fuel s ≡ some (ok tt, s1)
      → s.m_conn_state ≡ idle
  idle_of_ok fuel s h = let (stopped, missing, busy) = connect_refused sdk fuel s in ground arith

  pub connect_body-ok :
      (fuel : ℕ) (s : State W) {s1 : State W}
      → connect_body sdk fuel s ≡ some (ok tt, s1)
      → connect sdk fuel s ≡ some (ok tt, s1)
  unfolding connect_body map_err
  connect_body-ok fuel s h = ground arith

  attempt_calm :
      {A : Type 0} (thrown : State W → Option (Exception × State W)) (body : Body W A) (s : State W)
      → thrown s ≡ none
      → attempt thrown body s ≡ body s
  unfolding attempt
  attempt_calm thrown body s h = rw (attempt, h) refl

  connected_body-Settled :
      (thrown : State W → Option (Exception × State W)) (fuel : ℕ) (s : State W) {s1 : State W}
      → ((s : State W) → thrown s ≡ none)
      → attempt thrown (connect_body sdk fuel) s ≡ some (ok tt, s1)
      → (triple_ready sdk s1.impl ≡ true) × Revived s1.impl
  connected_body-Settled thrown fuel s calm h =
      let done =
        connect_body-ok fuel s (sym (attempt_calm thrown (connect_body sdk fuel) s (calm s)) ∙ h) in
      connect-Settled sdk fuel s (idle_of_ok fuel s done) done

  -- The answer that follows from what a successful `connect` has established.
  healthy_body-answers :
      (thrown : State W → Option (Exception × State W)) (i : Impl) (w : W)
      → ((s : State W) → thrown s ≡ none)
      → triple_ready sdk i ≡ true
      → Revived i
      → (while_running thrown (healthy_body sdk) (record { impl = i; world = w })
          ≡ some (ok tt, record { impl = i; world = w }))
        ⊎ ((get_effective_stop_signal i ≡ true)
            × (while_running thrown (healthy_body sdk) (record { impl = i; world = w })
                ≡ some (err not_connected, record { impl = i; world = w })))
  unfolding while_running healthy_body attempt get_effective_stop_signal
  healthy_body-answers thrown i w calm ready revived =
      ground (arith, calm (record { impl = i; world = w }), healthy_of_ready sdk i ready)

  -- The answer of `isHealthy` on an open gate, for a client that a `connect` has revived.
  pub health_answers :
      (thrown : State W → Option (Exception × State W)) (c : Client W) (j : Impl)
      → ((s : State W) → thrown s ≡ none)
      → c.sync.m_terminated ≡ false
      → c.sync.m_recreating ≡ false
      → c.p_impl ≡ some j
      → triple_ready sdk j ≡ true
      → Revived j
      → (is_healthy sdk thrown c ≡ some (ok tt, c))
        ⊎ (((j : Impl) × (c.p_impl ≡ some j) × (get_effective_stop_signal j ≡ true))
            × (is_healthy sdk thrown c ≡ some (err not_connected, c)))
  unfolding is_healthy
  health_answers thrown c j calm t re held ready revived =
      let asked = while_running thrown (healthy_body sdk) in
      elim (healthy_body-answers thrown j c.world calm ready revived) [
        | inl x ↦ inl (entry_free already_terminated asked c t re held x)
        | inr (stopped, x) ↦
            inr ((j, held, stopped), entry_free already_terminated asked c t re held x)
      ]

  -- After a successful `connect` on a free slot, where no exception is thrown, `isHealthy` answers
  -- with success, or with NOT_CONNECTED if the stop signal is on, a give-up or a shutdown that came
  -- in during the call; and asking changes nothing.
  pub connect_then_healthy :
      (thrown : State W → Option (Exception × State W)) (fuel : ℕ) (c : Client W) {c1 : Client W}
      → ((s : State W) → thrown s ≡ none)
      → api_connect sdk thrown fuel c ≡ some (ok tt, c1)
      → (is_healthy sdk thrown c1 ≡ some (ok tt, c1))
        ⊎ (((j : Impl) × (c1.p_impl ≡ some j) × (get_effective_stop_signal j ≡ true))
            × (is_healthy sdk thrown c1 ≡ some (err not_connected, c1)))
  unfolding api_connect
  connect_then_healthy thrown fuel c {c1 = c1} calm h =
      let a = entry-Admitted already_terminated (attempt thrown (connect_body sdk fuel)) c h in
      let settled = connected_body-Settled thrown fuel (state_of a.3.0 c.world) calm a.3.4 in
      let t = ap (λ y. y.m_terminated) a.2 ∙ a.0 in
      let re = ap (λ y. y.m_recreating) a.2 ∙ a.1 in
      health_answers thrown c1 a.3.1 calm t re a.3.3 settled.0 settled.1
