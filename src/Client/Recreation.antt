-- ===== src/Client/Recreation.antt =====
-- `recreateGiveUpClient` of `OPC_UA_Client` in `src/OPCUAPacking/ua.cpp`. What other threads make of
-- the shared flags and of the client while a wait or a long step is under way is a parameter, as are
-- the exceptions that end the making of the new client. The end of the old one throws none.
pub mod Laws
pub mod Total
use net_way.Prelude.{ℕ, Bool, true, false, not, ◌==◌, if◌then◌else◌, Option, none, some}
use net_way.RichError.{
  ErrorCode, Result, ok, err, recreating, already_terminated, internal_error, sdk_error,
  not_initialized, invalid_config, in_flight_timeout, not_given_up,
}
use net_way.Config.{ClientConfig}
use net_way.Life.{same_life, given_up}
use net_way.Sdk.{Sdk, Reply}
use net_way.Impl.{Impl, State, UaConfig}
use net_way.Impl.Connect.{connect}
use net_way.Impl.Configure.{new_impl, configure_client, start_watchdog}
use net_way.Impl.Shutdown.{shutdown_impl, destroy_impl}
use net_way.Client.{
  RecreateSync, Client, attempt, recreate_enter, recreate_leave, shutdown_enter, shutdown_leave,
  destroy_enter,
}
use net_way.ErrorMapping.{Exception, caught}
use net_way.Client.Api.{Body, connect_body}
use net_way.Client.Lifetime.{construct, watched, tear_down}

-- What other threads make of the flags and of the client that the object holds, up to the given
-- state of the world.
pub record Others (W : Type 0) : Type 0 where
  pub flags : W → RecreateSync → RecreateSync
  pub client : W → Impl → Impl

abbrev pub others_on : {W : Type 0} → Others W → W → Option Impl → Option Impl
others_on others w none = none
others_on others w (some i) = some (others.client w i)

module _ {W : Type 0} (sdk : Sdk W) (join : W → Reply W (Unit {0})) (spawns : W → Bool)
    (others : Others W) (thrown : State W → Option (Exception × State W))
    (early : W → Option (Exception × W)) where
  -- The wait for the calls that hold a lease, at most 2000 ms. Meanwhile they act on the client.
  unfoldable pub drain : Client W → Bool × Client W
  drain c =
      if c.sync.m_in_flight == 0
      then (true, c)
      else let w = (sdk.wait_ms 2000 c.world).world in
        let y = others.flags w c.sync in
        (y.m_in_flight == 0, record { sync = y; p_impl = others_on others w c.p_impl; world = w })

  -- What makes the candidate usable: configured, connected and watched.
  unfoldable pub set_up_candidate : ℕ → Body W (Unit {0})
  set_up_candidate fuel s =
      let (configuration, s1) = configure_client sdk true s in
      elim configuration [
        | err e ↦ some (err invalid_config, s1)
        | ok _ ↦ elim (connect_body sdk fuel s1) [
          | none ↦ none
          | some (err e, s2) ↦ some (err e, s2)
          | some (ok _, s2) ↦ some (watched sdk join spawns s2)
        ]
      ]

  -- `CandidateGuard`: a candidate that is not adopted is torn down.
  unfoldable pub guarded :
      Option (Result (Unit {0}) ErrorCode × State W) → Option (Result Impl ErrorCode × W)
  guarded none = none
  guarded (some (err e, s)) = some (err e, tear_down sdk join false s)
  guarded (some (ok _, s)) = some (ok s.impl, s.world)

  -- The candidate, a client of its own. `early` says whether an exception ends its construction, and
  -- `thrown` whether one ends what follows it.
  unfoldable pub raise_candidate :
      ℕ → UaConfig → ClientConfig → W → Option (Result Impl ErrorCode × W)
  unfolding set_up_candidate guarded
  raise_candidate fuel u config w = elim (early w) [
    | some (x, w1) ↦ some (err (caught x), w1)
    | none ↦
        let (o, w1) = construct sdk join u config w in
        elim o [
          | none ↦ some (err sdk_error, w1)
          | some s ↦ guarded (attempt thrown (set_up_candidate fuel) s)
        ]
  ]

  -- The exchange, unless the object is being destroyed: the old client goes, or the candidate. While
  -- the old one is shut down the new one is at work.
  unfoldable pub adopt : Impl → Impl → Client W → Result (Unit {0}) ErrorCode × Client W
  adopt old candidate c =
      let y = others.flags c.world c.sync in
      if y.m_terminated
      then (
        err already_terminated,
        record c {
          sync = y;
          world = tear_down sdk join false (record { impl = candidate; world = c.world });
        },
      )
      else let w = tear_down sdk join false (record { impl = old; world = c.world }) in
        (
          ok tt,
          record {
            sync = others.flags w y;
            p_impl = others_on others w (some candidate);
            world = w;
          },
        )

  -- Between the two ends of the re-creation. The life state is read after the wait; the old client
  -- goes on while the candidate is made.
  unfoldable pub rebuild : ℕ → UaConfig → Client W → Option (Result (Unit {0}) ErrorCode × Client W)
  rebuild fuel u c =
      let (drained, c1) = drain c in
      if not drained then some (err in_flight_timeout, c1) else elim c1.p_impl [
        | none ↦ some (err not_given_up, c1)
        | some old ↦
            if same_life old.m_life_state given_up
            then elim (raise_candidate fuel u old.m_config c1.world) [
              | none ↦ none
              | some (err e, w) ↦
                  some (err e, record c1 { p_impl = others_on others w (some old); world = w })
              | some (ok candidate, w) ↦
                  let now = others.client w old in
                  some (adopt now candidate (record c1 { p_impl = some now; world = w }))
            ]
            else some (err not_given_up, c1)
      ]

  unfoldable pub recreate_give_up_client :
      ℕ → UaConfig → Client W → Option (Result (Unit {0}) ErrorCode × Client W)
  unfolding recreate_enter recreate_leave
  recreate_give_up_client fuel u c =
      let (r, y) = recreate_enter c.sync in
      elim r [
        | err e ↦ some (err e, c)
        | ok _ ↦ elim (rebuild fuel u (record c { sync = y })) [
          | none ↦ none
          | some (r1, c1) ↦ some (r1, record c1 { sync = recreate_leave c1.sync })
        ]
      ]
