-- ===== src/Client/Lifetime.antt =====
-- `OPC_UA_Client` in `src/OPCUAPacking/ua.cpp`: construction, `create` and `createWithSdk`,
-- `shutdown`, the destructor, and `recreateGiveUpClient`. Whether a thread starts, how joining one
-- goes and what other threads do to the shared flags meanwhile are parameters. Of the exceptions
-- outside of `connect`, the two that the code itself causes are followed: a client that is not
-- allocated and a thread that does not start.
pub mod Raised
pub mod Create
pub mod Total
pub mod End
use net_way.Prelude.{ℕ, Bool, true, false, not, ◌==◌, if◌then◌else◌, Option, none, some}
use net_way.RichError.{
  ErrorCode, Result, ok, err, recreating, already_terminated, internal_error, sdk_error,
  not_initialized, invalid_config, in_flight_timeout, not_given_up,
}
use net_way.Config.{ClientConfig}
use net_way.Life.{same_life, given_up}
use net_way.Sdk.{Sdk, Reply}
use net_way.Impl.{Impl, State, UaConfig}
use net_way.Impl.Connect.{connect}
use net_way.Impl.Configure.{new_impl, configure_client, start_watchdog}
use net_way.Impl.Shutdown.{shutdown_impl, destroy_impl}
use net_way.ErrorMapping.{connect_error_code}
use net_way.Client.{
  RecreateSync, Client, recreate_enter, recreate_leave, shutdown_enter, shutdown_leave,
  destroy_enter,
}
use net_way.ErrorMapping.{Exception, bad_alloc, caught}
use net_way.Client.Api.{api_connect}

abbrev pub fresh_sync : RecreateSync
fresh_sync = record {
  m_recreating = false;
  m_terminated = false;
  m_in_flight = 0;
  m_shutdown_in_flight = 0;
}

module _ {W : Type 0} (sdk : Sdk W) (join : W → Reply W (Unit {0})) where
  -- `Impl::shutdown`, and the destructor as the last pointer goes.
  unfoldable pub tear_down : (on_watchdog : Bool) → State W → W
  tear_down on_watchdog s =
      (destroy_impl sdk join on_watchdog (shutdown_impl sdk join on_watchdog s)).world

  unfoldable pub shutdown_internal : (on_watchdog : Bool) → Client W → Client W
  shutdown_internal on_watchdog c = elim c.p_impl [
    | none ↦ c
    | some i ↦ record c {
      p_impl = none;
      world = tear_down on_watchdog (record { impl = i; world = c.world });
    }
  ]

  unfoldable pub client_shutdown :
      (on_watchdog : Bool) → Client W → Result (Unit {0}) ErrorCode × Client W
  unfolding shutdown_enter shutdown_leave
  client_shutdown on_watchdog c =
      let (early, y) = shutdown_enter c.sync in
      elim early [
        | some r ↦ (r, c)
        | none ↦
            let c1 = shutdown_internal on_watchdog (record c { sync = y }) in
            (ok tt, record c1 { sync = shutdown_leave c1.sync })
      ]

  -- The destructor once its wait is over.
  unfoldable pub destroy_client : (on_watchdog : Bool) → Client W → Client W
  unfolding destroy_enter
  destroy_client on_watchdog c =
      shutdown_internal on_watchdog (record c { sync = destroy_enter c.sync })

  -- The private constructor, which makes `fresh_sync` too: the client, if the library gives one,
  -- whose settings are the library's.
  unfoldable pub construct : UaConfig → ClientConfig → W → Option (State W) × W
  construct u config w =
      let r = sdk.client_new w in
      if r.value
      then (some (record { impl = new_impl sdk config u; world = r.world }), r.world)
      else (none, r.world)

  module _ (spawns : W → Bool) where
    -- `startWatchdog` where it is called; a thread that does not start is caught as SDK_ERROR.
    unfoldable pub watched : State W → Result (Unit {0}) ErrorCode × State W
    watched s =
        let (o, i) = start_watchdog (spawns s.world) s.impl in
        elim o [
          | none ↦ (err sdk_error, record s { impl = i })
          | some r ↦ (r, record s { impl = i })
        ]

    module _ (thrown : State W → Option (Exception × State W)) where
      -- After the connection; without a client the code uses a null pointer, which has no result.
      unfoldable pub set_up_watchdog :
          (enable : Bool) → Client W → Option (Result (Unit {0}) ErrorCode × Client W)
      set_up_watchdog enable c =
          if enable
          then elim c.p_impl [
            | none ↦ none
            | some i ↦
                let (r, s) = watched (record { impl = i; world = c.world }) in
                some (r, record c { p_impl = some s.impl; world = s.world })
          ]
          else some (ok tt, c)

      -- Configuration, connection and watchdog of a client that was just constructed.
      unfoldable pub set_up :
          (fuel : ℕ)
          → (use_default enable : Bool) → RecreateSync
          → State W
          → Option (Result (Unit {0}) ErrorCode × Client W)
      set_up fuel use_default enable y s =
          let (configuration, s1) = configure_client sdk use_default s in
          let c1 : Client W = record { sync = y; p_impl = some s1.impl; world = s1.world } in
          elim configuration [
            | err e ↦ some (err e, c1)
            | ok _ ↦ elim (api_connect sdk thrown fuel c1) [
              | none ↦ none
              | some (err e, c2) ↦ some (err e, c2)
              | some (ok _, c2) ↦ set_up_watchdog enable c2
            ]
          ]

      -- A client that is not handed out is destroyed.
      unfoldable pub handed_out :
          Option (Result (Unit {0}) ErrorCode × Client W) → Option (Result (Client W) ErrorCode × W)
      handed_out none = none
      handed_out (some (ok _, c)) = some (ok c, c.world)
      handed_out (some (err e, c)) = some (err e, (destroy_client false c).world)

      -- `early` says whether an exception ends the construction, and `cut` whether one ends what
      -- follows it; the client is destroyed on the way out.
      module _ (early : W → Option (Exception × W))
          (cut : State W → Option (Exception × Client W)) where
        unfoldable pub guarded_set_up :
            (fuel : ℕ)
            → (use_default enable : Bool) → State W
            → Option (Result (Client W) ErrorCode × W)
        unfolding set_up handed_out
        guarded_set_up fuel use_default enable s = elim (cut s) [
          | some (x, c) ↦ handed_out (some (err (caught x), c))
          | none ↦ handed_out (set_up fuel use_default enable fresh_sync s)
        ]

        unfoldable pub create_with_sdk :
            (given : Bool)
            → (fuel : ℕ) → (use_default enable : Bool) → UaConfig
            → ClientConfig
            → W
            → Option (Result (Client W) ErrorCode × W)
        unfolding guarded_set_up
        create_with_sdk given fuel use_default enable u config w =
            if given
            then elim (early w) [
              | some (x, w1) ↦ some (err (caught x), w1)
              | none ↦
                  let (o, w1) = construct u config w in
                  elim o [
                    | none ↦ some (err (caught bad_alloc), w1)
                    | some s ↦ guarded_set_up fuel use_default enable s
                  ]
            ]
            else some (err not_initialized, w)

        -- `create` brings the library's interface with it, and always starts the watchdog.
        unfoldable pub create :
            (fuel : ℕ)
            → (use_default : Bool) → UaConfig
            → ClientConfig
            → W
            → Option (Result (Client W) ErrorCode × W)
        create fuel use_default = create_with_sdk true fuel use_default true
