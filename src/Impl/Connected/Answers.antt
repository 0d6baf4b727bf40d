-- ===== src/Impl/Connected/Answers.antt =====
-- What the answers of `isConnected` mean, and which of two competing writes of the state word it
-- lets stand.
use net_way.Prelude.{ℕ, ◌≡◌, Bool, true, false, arith}
use net_way.RichError.{Result, ok, err}
use net_way.Sdk.{Sdk}
use net_way.Impl.{Impl, State, ConnectErrorState, get_effective_stop_signal, is_healthy_cached}
use net_way.Impl.Connected.{is_connected}

module _ {W : Type 0} (sdk : Sdk W) where
  abbrev pub Says : Result Bool ConnectErrorState → Impl → Type 0
  Says (ok healthy) i = is_healthy_cached sdk i ≡ healthy
  Says (err ConnectErrorState.shutdown) i = get_effective_stop_signal i ≡ true
  Says (err ConnectErrorState.nullptr) i = i.m_impl ≡ false
  Says (err _) i = ⊥

  -- `isConnected` answers with the cached health of the state that it leaves, or with SHUTDOWN under
  -- the stop signal, or with NULLPTR without a client, and in no other way.
  pub is_connected-Says :
      (t : ℕ) (s : State W) → let (r, s1) = is_connected sdk t s in Says r s1.impl
  unfolding is_connected
  is_connected-Says t s = ground arith
