-- ===== src/Client/Protocol/Invariant.antt =====
-- What holds in every state that the interleavings reach.
use net_way.Prelude.{ℕ, ◌+◌, ◌≡◌, ◌⊎◌, Bool, true, false, arith}
use net_way.Client.{
  lease_enter, lease_leave, recreate_enter, recreate_leave, shutdown_enter, shutdown_leave,
  destroy_enter, destroy_ready,
}
use net_way.Client.Protocol.{
  Object, fresh, Recreator, nobody, draining, rebuilding, Destroyer, not_called, waiting,
  destroying, Step, Reach, here, next, call_begins, pointer_copied, call_ends, recreate_begins,
  drained, drain_timeout, recreate_ends, shutdown_begins, shutdown_ends, destroy_begins,
  destroy_goes,
}

-- Whether a re-creation is past its entry.
abbrev pub is_recreating : Recreator → Bool
is_recreating nobody = false
is_recreating draining = true
is_recreating rebuilding = true

-- The number of calls beside a re-creation.
abbrev pub Alone : Recreator → ℕ → Type 0
Alone nobody calls = Unit {0}
Alone draining calls = Unit {0}
Alone rebuilding calls = calls ≡ 0

-- What the destructor meets past its wait.
abbrev pub Undisturbed : Destroyer → Recreator → ℕ → Type 0
Undisturbed not_called recreator closers = Unit {0}
Undisturbed waiting recreator closers = Unit {0}
Undisturbed destroying recreator closers = (recreator ≡ nobody) × (closers ≡ 0)

-- The flags count the threads: `m_inFlight` the calls, `m_recreating` the re-creation and
-- `m_shutdownInFlight` the shutdowns. At most one shutdown runs, never beside a re-creation; no call
-- runs beside a re-creation past its wait; past its wait the destructor meets neither of the two.
pub record IsConsistent (p : Object) : Type 0 where
  pub leases : p.sync.m_in_flight ≡ p.leased + p.holding
  pub recreation : p.sync.m_recreating ≡ is_recreating p.recreator
  pub shutdowns : p.sync.m_shutdown_in_flight ≡ p.closers
  pub one_shutdown :
      (p.closers ≡ 0) ⊎ ((p.closers ≡ 1) × (p.recreator ≡ nobody) × (p.sync.m_terminated ≡ true))
  pub alone : Alone p.recreator (p.leased + p.holding)
  pub ended : (p.destroyer ≡ not_called) ⊎ (p.sync.m_terminated ≡ true)
  pub undisturbed : Undisturbed p.destroyer p.recreator p.closers

fresh-IsConsistent : IsConsistent fresh
fresh-IsConsistent = ground arith

pub Step-IsConsistent : {p q : Object} → Step p q → IsConsistent p → IsConsistent q
unfolding lease_enter lease_leave recreate_enter recreate_leave shutdown_enter shutdown_leave
    destroy_enter destroy_ready
Step-IsConsistent (call_begins h e) c = ground arith
Step-IsConsistent (pointer_copied h e) c = ground arith
Step-IsConsistent (call_ends h e) c = ground arith
Step-IsConsistent (recreate_begins h e) c = ground arith
Step-IsConsistent (drained h z e) c = ground arith
Step-IsConsistent (drain_timeout h e) c = ground arith
Step-IsConsistent (recreate_ends h e) c = ground arith
Step-IsConsistent (shutdown_begins h e) c = ground arith
Step-IsConsistent (shutdown_ends h e) c = ground arith
Step-IsConsistent (destroy_begins h e) c = ground arith
Step-IsConsistent (destroy_goes h r e) c = ground arith

-- In every interleaving the flags say who is inside. `m_inFlight` counts the calls, `m_recreating`
-- and `m_shutdownInFlight` the re-creation and the shutdown; at most one shutdown runs, after the
-- end is marked and never beside a re-creation; no call runs beside a re-creation that is past its
-- wait; and a destructor past its wait meets neither a re-creation nor a shutdown.
pub Reach-IsConsistent : {p : Object} → Reach fresh p → IsConsistent p
Reach-IsConsistent here = fresh-IsConsistent
Reach-IsConsistent (next r st) = Step-IsConsistent st (Reach-IsConsistent r)
