-- ===== src/Impl/Connected.antt =====
-- `Impl::isConnected`, and the guards that the service calls share.
pub mod Answers
pub mod Publish
use net_way.Prelude.{
  ℕ, ◌≡◌, refl, Bool, true, false, not, ◌&&◌, ◌||◌, List, [], ◌∷◌, if◌then◌else◌, arith,
}
use net_way.RichError.{Result, ok, err}
use net_way.Sdk.{Event, Reply, Sdk, SdkState}
use net_way.Impl.{
  Impl, State, ConnectErrorState, get_effective_stop_signal, call, call_run_iterate,
  try_publish_if_unchanged, update_bad_status_time, is_healthy_cached,
}

module _ {W : Type 0} (sdk : Sdk W) where
  -- What follows the publication: a bad status starts the give-up clock.
  unfoldable pub note_status : ℕ → State W → State W
  note_status status s = if sdk.is_good status then s else update_bad_status_time sdk s

  -- The state that the library reports is published only if no callback wrote the word since it
  -- was loaded.
  unfoldable pub refresh : ℕ → State W → State W
  unfolding note_status
  refresh timeout s =
      let s1 = call_run_iterate sdk timeout s in
      let (st, s2) = call sdk sdk.get_state s1 in
      let (won, i) =
        try_publish_if_unchanged s1.state_packed st.status st.channel st.session s2.impl in
      note_status st.status (record s2 { impl = i })

  unfoldable pub is_connected : ℕ → State W → Result Bool ConnectErrorState × State W
  is_connected timeout s =
      if get_effective_stop_signal s.impl
      then (err ConnectErrorState.shutdown, s)
      else if s.m_impl
      then (let s' = refresh timeout s in (ok (is_healthy_cached sdk s'.impl), s'))
      else (err ConnectErrorState.nullptr, s)
