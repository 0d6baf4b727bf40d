-- ===== src/Client/Protocol/Gate.antt =====
-- What the interface promises, without its flags and threads: a gate for calls that a re-creation
-- takes for itself once the calls have left, and that closes for good.
use net_way.Prelude.{
  ℕ, ◌+◌, ◌-◌, ◌≡◌, ◌⊎◌, Bool-cases, inl, inr, refl, Bool, true, false, Option, none, some, arith,
  ltb, ◌==◌, if◌then◌else◌,
}
use net_way.Client.{
  lease_enter, lease_leave, recreate_enter, recreate_leave, shutdown_enter, shutdown_leave,
  destroy_enter, destroy_ready,
}
use net_way.Client.Protocol.{
  Object, fresh, Recreator, nobody, draining, rebuilding, Step, Reach, call_begins, pointer_copied,
  call_ends, recreate_begins, drained, drain_timeout, recreate_ends, shutdown_begins, shutdown_ends,
  destroy_begins, destroy_goes,
}
use net_way.Client.Protocol.Invariant.{IsConsistent, Reach-IsConsistent}

-- Calls are let in; a re-creation waits for the calls inside; it has the client to itself; the end,
-- where calls only leave. The end may be marked during a re-creation.
pub data Gate : Type 0 where
  open_to : ℕ → Gate
  reserved : (ended : Bool) → ℕ → Gate
  exclusive : (ended : Bool) → Gate
  closed_to : ℕ → Gate

pub data Act : Type 0 where
  enter leave reserve acquire release finish : Act

-- What the gate allows: `none` where it does not.
unfoldable pub act : Act → Gate → Option Gate
act enter (open_to n) = some (open_to (n + 1))
act enter (reserved e n) = none
act enter (exclusive e) = none
act enter (closed_to n) = none
act leave (open_to n) = if ltb 0 n then some (open_to (n - 1)) else none
act leave (reserved e n) = if ltb 0 n then some (reserved e (n - 1)) else none
act leave (exclusive e) = none
act leave (closed_to n) = if ltb 0 n then some (closed_to (n - 1)) else none
act reserve (open_to n) = some (reserved false n)
act reserve (reserved e n) = none
act reserve (exclusive e) = none
act reserve (closed_to n) = none
act acquire (open_to n) = none
act acquire (reserved e n) = if n == 0 then some (exclusive e) else none
act acquire (exclusive e) = none
act acquire (closed_to n) = none
act release (open_to n) = none
act release (reserved false n) = some (open_to n)
act release (reserved true n) = some (closed_to n)
act release (exclusive false) = some (open_to 0)
act release (exclusive true) = some (closed_to 0)
act release (closed_to n) = none
act finish (open_to n) = some (closed_to n)
act finish (reserved e n) = some (reserved true n)
act finish (exclusive e) = some (exclusive true)
act finish (closed_to n) = none

-- The gate that an object is, with the threads inside.
abbrev pub gate_of : Recreator → (terminated : Bool) → ℕ → Gate
gate_of nobody false n = open_to n
gate_of nobody true n = closed_to n
gate_of draining e n = reserved e n
gate_of rebuilding e n = exclusive e

abbrev pub gate : Object → Gate
gate p = gate_of p.recreator p.sync.m_terminated (p.leased + p.holding)

abbrev pub Refines : Gate → Gate → Type 0
Refines g h = (h ≡ g) ⊎ ((a : Act) × (act a g ≡ some h))

simulated : {p q : Object} → IsConsistent p → Step p q → Refines (gate p) (gate q)
unfolding lease_enter lease_leave recreate_enter recreate_leave shutdown_enter shutdown_leave
    destroy_enter destroy_ready act
simulated c (call_begins h e) = inr (enter, ground arith)
simulated c (pointer_copied h e) = inl (ground arith)
simulated c (call_ends h e) = inr (leave, ground arith)
simulated c (recreate_begins h e) = inr (reserve, ground arith)
simulated c (drained h z e) = inr (acquire, ground arith)
simulated c (drain_timeout h e) = inr (release, ground arith)
simulated c (recreate_ends h e) = inr (release, ground arith)
simulated c (shutdown_begins h e) = inr (finish, ground arith)
simulated c (shutdown_ends h e) = inl (ground arith)
simulated {p = p} c (destroy_begins h e) = elim (Bool-cases p.sync.m_terminated) [
  | inl t ↦ inl (ground arith)
  | inr t ↦ inr (finish, ground arith)
]
simulated c (destroy_goes h r e) = inl (ground arith)

-- The interleavings refine the gate: in every state that can be reached from a fresh object, which
-- is a gate that is open to nobody, a step of a thread is a step that the gate allows, or leaves the
-- gate as it is.
pub Step-Refines :
    (p q : Object) → Reach fresh p → Step p q → (gate fresh ≡ open_to 0) × Refines (gate p) (gate q)
Step-Refines p q r st = (refl, simulated (Reach-IsConsistent r) st)
