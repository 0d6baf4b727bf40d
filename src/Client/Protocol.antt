-- ===== src/Client/Protocol.antt =====
-- The interleavings of the interface of `OPC_UA_Client` in `src/OPCUAPacking/ua.cpp`: any number of
-- threads call, re-create and shut down one object, and one destroys it. A step is one critical
-- section under `m_recreateLock` (or the copy of the pointer under `m_lock`), in any order.
pub mod Invariant
pub mod Gate
pub mod Overtaking
pub mod Progress
use net_way.Prelude.{ℕ, ◌+◌, ◌-◌, ◌<◌, ◌≡◌, Bool, true, false, Option, none, some, arith}
use net_way.RichError.{ok}
use net_way.Client.{
  RecreateSync, active, lease_enter, lease_leave, recreate_enter, recreate_leave, shutdown_enter,
  shutdown_leave, destroy_enter, destroy_ready,
}
use net_way.Client.Lifetime.{fresh_sync}

-- Where the thread stands that runs `recreateGiveUpClient` past its entry: in its wait for the
-- leases, or after that.
pub data Recreator : Type 0 where
  nobody draining rebuilding : Recreator

-- The destructor: not called, in its wait, or past it.
pub data Destroyer : Type 0 where
  not_called waiting destroying : Destroyer

-- The shared flags, and the threads that stand inside the interface: calls with a lease that have
-- not copied the pointer yet, calls that have, the re-creation, the shutdowns that won, and the
-- destructor.
pub record Object : Type 0 where
  pub sync : RecreateSync
  pub leased : ℕ
  pub holding : ℕ
  pub recreator : Recreator
  pub closers : ℕ
  pub destroyer : Destroyer

abbrev pub fresh : Object
fresh = record {
  sync = fresh_sync;
  leased = 0;
  holding = 0;
  recreator = nobody;
  closers = 0;
  destroyer = not_called;
}

-- One step of one thread: `call_begins` and `call_ends` are the two ends of `ApiLease`, with the copy
-- of `pImpl` under `m_lock` between them; `recreate_begins` the entry of `recreateGiveUpClient`,
-- `drained` and `drain_timeout` the end of its wait, and `recreate_ends` its `RecreateGuard`;
-- `shutdown_begins` the entry of `shutdown` that wins, and `shutdown_ends` its `ShutdownCallGuard`;
-- `destroy_begins` and `destroy_goes` the two ends of the destructor's wait.
pub data Step (p q : Object) : Type 0 where
  call_begins :
      (lease_enter p.sync).0 ≡ active
      → q ≡ record p { sync = (lease_enter p.sync).1; leased = p.leased + 1 }
      → Step p q
  pointer_copied :
      0 < p.leased → q ≡ record p { leased = p.leased - 1; holding = p.holding + 1 } → Step p q
  call_ends :
      0 < p.holding
      → q ≡ record p { sync = lease_leave active p.sync; holding = p.holding - 1 }
      → Step p q
  recreate_begins :
      (recreate_enter p.sync).0 ≡ ok tt
      → q ≡ record p { sync = (recreate_enter p.sync).1; recreator = draining }
      → Step p q
  drained :
      p.recreator ≡ draining
      → p.sync.m_in_flight ≡ 0
      → q ≡ record p { recreator = rebuilding }
      → Step p q
  drain_timeout :
      p.recreator ≡ draining
      → q ≡ record p { sync = recreate_leave p.sync; recreator = nobody }
      → Step p q
  recreate_ends :
      p.recreator ≡ rebuilding
      → q ≡ record p { sync = recreate_leave p.sync; recreator = nobody }
      → Step p q
  shutdown_begins :
      (shutdown_enter p.sync).0 ≡ none
      → q ≡ record p { sync = (shutdown_enter p.sync).1; closers = p.closers + 1 }
      → Step p q
  shutdown_ends :
      0 < p.closers
      → q ≡ record p { sync = shutdown_leave p.sync; closers = p.closers - 1 }
      → Step p q
  destroy_begins :
      p.destroyer ≡ not_called
      → q ≡ record p { sync = destroy_enter p.sync; destroyer = waiting }
      → Step p q
  destroy_goes :
      p.destroyer ≡ waiting
      → destroy_ready p.sync ≡ true
      → q ≡ record p { destroyer = destroying }
      → Step p q

pub data Reach (p : Object) : Object → Type 0 where
  here : Reach p p
  next : {q r : Object} → Reach p q → Step q r → Reach p r
