-- ===== src/Client/Api/Laws.antt =====
-- What the calls of the interface answer.
use net_way.Prelude.{
  ℕ, ◌≡◌, refl, ap, subst, sym, ◌∙◌, held, Bool, true, false, Option, none, some, arith, List,
}
use net_way.RichError.{ErrorCode, Result, ok, already_terminated, not_initialized}
use net_way.Sdk.{Sdk}
use net_way.Impl.{Impl, State}
use net_way.Batch.{NodeId, WriteValue, Services}
use net_way.Client.{Client, entry, attempt}
use net_way.ErrorMapping.{Exception}
use net_way.Batch.Run.{batch_read}
use net_way.Client.Api.{
  Body, api_connect, api_disconnect, check_connected, is_healthy, check_life_state,
  api_set_give_up_signal, api_batch_read, api_batch_write, connect_body, disconnect_body,
  connected_body, healthy_body, while_running, life_state_body, give_up_body, write_body,
}
use net_way.Client.Api.Gates.{Served, Gated, IsGated, entry-Gated}

module _ {W : Type 0} where
  -- A call that succeeds was admitted.
  abbrev pub Admitted :
      {A : Type 0} → Body W A → Bool → Bool → Option Impl → Client W → A → Client W → Type 0
  Admitted body t re o c v c1 =
      (t ≡ false)
      × (re ≡ false)
      × (c1.sync ≡ c.sync)
      × ((i : Impl) × (j : Impl) × (o ≡ some i)
          × (c1.p_impl ≡ some j)
          × (body (record { impl = i; world = c.world })
              ≡ some (ok v, record { impl = j; world = c1.world })))

  Admitted-of_Gated :
      {A : Type 0} (missing : ErrorCode) (body : Body W A) (t re : Bool) (o : Option Impl)
      (c : Client W) {v : A} {c1 : Client W}
      → Gated missing body t re o c (some (ok v, c1))
      → Admitted body t re o c v c1
  Admitted-of_Gated missing body true re o c h = absurd (ground arith)
  Admitted-of_Gated missing body false true o c h = absurd (ground arith)
  Admitted-of_Gated missing body false false none c h = absurd (ground arith)
  Admitted-of_Gated missing body false false (some i) c h =
      (refl, refl, h.0, (i, h.1.0, refl, h.1.1, h.1.2))

  pub entry-Admitted :
      {A : Type 0} (missing : ErrorCode) (body : Body W A) (c : Client W) {v : A} {c1 : Client W}
      → entry missing body c ≡ some (ok v, c1)
      → Admitted body c.sync.m_terminated c.sync.m_recreating c.p_impl c v c1
  entry-Admitted missing body c h =
      Admitted-of_Gated missing body c.sync.m_terminated c.sync.m_recreating c.p_impl c
        (subst (IsGated missing body c) h (entry-Gated missing body c))

  Client-ext : {c d : Client W} → c.sync ≡ d.sync → c.p_impl ≡ d.p_impl → c.world ≡ d.world → c ≡ d
  Client-ext p q r = λ i. record { sync = p i; p_impl = q i; world = r i }

  free_of_Served :
      {A : Type 0} (body : Body W A) (i : Impl) (c : Client W) (r : Result A ErrorCode)
      (a : Option (Result A ErrorCode × Client W))
      → Served body i c a
      → c.p_impl ≡ some i
      → body (record { impl = i; world = c.world }) ≡ some (r, record { impl = i; world = c.world })
      → a ≡ some (r, c)
  free_of_Served body i c r none g p h = absurd (ground arith)
  free_of_Served body i c r (some (r1, c1)) g p h =
      let eq = ap (held (r, record { impl = i; world = c.world })) (sym g.1.2 ∙ h) in
      let c_eq =
        Client-ext g.0 (g.1.1 ∙ ap (λ x. some (x.1.impl)) eq ∙ sym p) (ap (λ x. x.1.world) eq) in
      ap some (ap (λ x. (x.0, c1)) eq ∙ ap (λ x. (r, x)) c_eq)

  -- A client that is free is asked.
  pub entry_free :
      {A : Type 0} (missing : ErrorCode) (body : Body W A) (c : Client W) {i : Impl}
      {r : Result A ErrorCode}
      → c.sync.m_terminated ≡ false
      → c.sync.m_recreating ≡ false
      → c.p_impl ≡ some i
      → body (record { impl = i; world = c.world }) ≡ some (r, record { impl = i; world = c.world })
      → entry missing body c ≡ some (r, c)
  entry_free missing body c t re o h =
      let a = entry missing body c in
      let g1 =
        subst (λ b. Gated missing body b c.sync.m_recreating c.p_impl c a) t
          (entry-Gated missing body c) in
      let g2 = subst (λ b. Gated missing body false b c.p_impl c a) re g1 in
      free_of_Served body _ c _ a (subst (λ x. Gated missing body false false x c a) o g2) o h

module _ {W : Type 0} (sdk : Sdk W) (lib : Services W)
    (thrown : State W → Option (Exception × State W)) where
  -- The calls of the interface that give a result (`setGiveUpSignal` reports a missing client as
  -- NOT_INITIALIZED, the others as ALREADY_TERMINATED): each is refused with ALREADY_TERMINATED after
  -- the end and with RECREATING during a re-creation, and then nothing has changed; otherwise it gives
  -- what the operation on the client gives, an exception as the code of its `catch` clause, and the
  -- leases and the flags of the interface are as before the call.
  pub calls-IsGated :
      (fuel : ℕ) (nodes : List NodeId) (values : List WriteValue) (c : Client W)
      → IsGated already_terminated
          (attempt thrown (connect_body sdk fuel))
          c
          (api_connect sdk thrown fuel c)
        × IsGated already_terminated
            (attempt thrown (disconnect_body sdk fuel))
            c
            (api_disconnect sdk thrown fuel c)
        × IsGated already_terminated
            (while_running thrown (connected_body sdk))
            c
            (check_connected sdk thrown c)
        × IsGated already_terminated
            (while_running thrown (healthy_body sdk))
            c
            (is_healthy sdk thrown c)
        × IsGated already_terminated
            (attempt thrown life_state_body)
            c
            (check_life_state sdk thrown c)
        × IsGated not_initialized
            (attempt thrown give_up_body)
            c
            (api_set_give_up_signal sdk thrown c)
        × IsGated already_terminated
            (attempt thrown (batch_read lib sdk fuel nodes))
            c
            (api_batch_read sdk thrown lib fuel nodes c)
        × IsGated already_terminated
            (attempt thrown (write_body sdk lib values))
            c
            (api_batch_write sdk thrown lib values c)
  unfolding api_connect api_disconnect check_connected is_healthy check_life_state
      api_set_give_up_signal api_batch_read api_batch_write
  calls-IsGated fuel nodes values c = (
    entry-Gated already_terminated (attempt thrown (connect_body sdk fuel)) c,
    entry-Gated already_terminated (attempt thrown (disconnect_body sdk fuel)) c,
    entry-Gated already_terminated (while_running thrown (connected_body sdk)) c,
    entry-Gated already_terminated (while_running thrown (healthy_body sdk)) c,
    entry-Gated already_terminated (attempt thrown life_state_body) c,
    entry-Gated not_initialized (attempt thrown give_up_body) c,
    entry-Gated already_terminated (attempt thrown (batch_read lib sdk fuel nodes)) c,
    entry-Gated already_terminated (attempt thrown (write_body sdk lib values)) c,
  )
