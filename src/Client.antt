-- ===== src/Client.antt =====
-- `OPC_UA_Client` of `src/OPCUAPacking/ua.cpp` and `detail/RecreateSync.h`: the object that callers
-- hold, and the short critical sections under `m_recreateLock` that admit a call, a re-creation, a
-- shutdown and the destructor. The mutexes have no state of their own here, and the endpoint's URL
-- is left out.
pub mod Api
pub mod Lifetime
pub mod Recreation
pub mod Protocol
use net_way.Prelude.{
  ℕ, ◌+◌, ◌-◌, Bool, true, false, not, ◌&&◌, ltb, ◌==◌, if◌then◌else◌, Option, none, some,
}
use net_way.RichError.{
  ErrorCode, Result, ok, err, recreating, already_terminated, internal_error, sdk_error, unknown,
}
use net_way.ErrorMapping.{Exception, caught}
use net_way.Impl.{Impl, State}

pub record RecreateSync : Type 0 where
  pub m_recreating : Bool
  pub m_terminated : Bool
  pub m_in_flight : ℕ
  pub m_shutdown_in_flight : ℕ

-- The object, and everything outside of it.
pub record Client (W : Type 0) : Type 0 where
  pub sync : RecreateSync
  pub p_impl : Option Impl
  pub world : W

abbrev pub state_of : {W : Type 0} → Impl → W → State W
state_of i w = record { impl = i; world = w }

-- `ApiLease::Reason`
pub data Reason : Type 0 where
  active terminated under_recreation : Reason

-- `ApiLease`, its constructor and its destructor.
unfoldable pub lease_enter : RecreateSync → Reason × RecreateSync
lease_enter y =
    if y.m_terminated
    then (terminated, y)
    else if y.m_recreating
    then (under_recreation, y)
    else (active, record y { m_in_flight = y.m_in_flight + 1 })

unfoldable pub lease_leave : Reason → RecreateSync → RecreateSync
lease_leave active y = record y { m_in_flight = y.m_in_flight - 1 }
lease_leave terminated y = y
lease_leave under_recreation y = y

-- The entry of `recreateGiveUpClient`, and `RecreateGuard::reset`.
unfoldable pub recreate_enter : RecreateSync → Result (Unit {0}) ErrorCode × RecreateSync
recreate_enter y =
    if y.m_recreating
    then (err recreating, y)
    else if y.m_terminated
    then (err already_terminated, y)
    else (ok tt, record y { m_recreating = true })

unfoldable pub recreate_leave : RecreateSync → RecreateSync
recreate_leave y = record y { m_recreating = false }

-- The entry of `shutdown`: refused or done at once, or (`none`) the call that shuts down.
unfoldable pub shutdown_enter : RecreateSync → Option (Result (Unit {0}) ErrorCode) × RecreateSync
shutdown_enter y =
    if y.m_recreating
    then (some (err recreating), y)
    else if y.m_terminated
    then (some (ok tt), y)
    else (none, record y { m_terminated = true; m_shutdown_in_flight = y.m_shutdown_in_flight + 1 })

-- `~ShutdownCallGuard`
unfoldable pub shutdown_leave : RecreateSync → RecreateSync
shutdown_leave y =
    if ltb 0 y.m_shutdown_in_flight
    then record y { m_shutdown_in_flight = y.m_shutdown_in_flight - 1 }
    else y

-- The destructor marks the end, and waits until its condition holds.
unfoldable pub destroy_enter : RecreateSync → RecreateSync
destroy_enter y = record y { m_terminated = true }

unfoldable pub destroy_ready : RecreateSync → Bool
destroy_ready y = not y.m_recreating && (y.m_shutdown_in_flight == 0)

module _ {W A : Type 0} where
  -- `try` with the four `catch` clauses, where `thrown` says whether an exception ends the body,
  -- which one, and in which state.
  unfoldable pub attempt :
      (thrown : State W → Option (Exception × State W))
      → (State W → Option (Result A ErrorCode × State W))
      → State W
      → Option (Result A ErrorCode × State W)
  attempt thrown body s = elim (thrown s) [
    | none ↦ body s
    | some (x, s1) ↦ some (err (caught x), s1)
  ]

  -- What the calls of the interface share: the lease, held until the call returns, and the copy of
  -- the pointer, whose absence has a code of its own.
  unfoldable pub entry :
      (missing : ErrorCode)
      → (State W → Option (Result A ErrorCode × State W))
      → Client W
      → Option (Result A ErrorCode × Client W)
  unfolding lease_enter lease_leave
  entry missing body c =
      let (reason, y) = lease_enter c.sync in
      elim reason [
        | terminated ↦ some (err already_terminated, c)
        | under_recreation ↦ some (err recreating, c)
        | active ↦ elim c.p_impl [
          | none ↦ some (err missing, record c { sync = lease_leave active y })
          | some i ↦ elim (body (record { impl = i; world = c.world })) [
            | none ↦ none
            | some (r, s) ↦
                some
                  (r, record { sync = lease_leave active y; p_impl = some s.impl; world = s.world })
          ]
        ]
      ]
