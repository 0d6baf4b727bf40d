-- ===== src/Tests/Threads.antt =====
-- Interleavings of the interface.
use net_way.Prelude.{◌≡◌, refl, true, false, arith}
use net_way.Client.{destroy_enter, recreate_enter}
use net_way.Client.Protocol.Progress.{destructor_can_go, recreation_can_go}
use net_way.Client.Protocol.{
  waiting, destroy_begins, Object, fresh, Reach, here, next, Step, pointer_copied, recreate_begins,
  drained, draining, rebuilding, destroying, not_called,
}
use net_way.Client.Protocol.Invariant.{IsConsistent, Reach-IsConsistent}
use net_way.Client.Protocol.Gate.{gate, Refines, Step-Refines, open_to}
use net_way.Client.Protocol.Overtaking.{leased_by, calls_begin, destructor_overtakes_calls}

-- A call has its lease, and copies the pointer.
abbrev one_copied : Object
one_copied = record (leased_by false not_called 1) { leased = 0; holding = 1 }

one_copies : Step (leased_by false not_called 1) one_copied
one_copies = pointer_copied (omega arith) refl

Step-Refines_example :
    (gate fresh ≡ open_to 0) × Refines (gate (leased_by false not_called 1)) (gate one_copied)
Step-Refines_example =
    Step-Refines (leased_by false not_called 1) one_copied (calls_begin 1) one_copies

-- A re-creation past its wait.
abbrev alone_inside : Object
alone_inside = record fresh {
  sync = record fresh.sync { m_recreating = true };
  recreator = rebuilding;
}

alone_reached : Reach fresh alone_inside
unfolding recreate_enter
alone_reached = next (next here (recreate_begins refl refl)) (drained refl refl refl)

Reach-IsConsistent_example : IsConsistent alone_inside
Reach-IsConsistent_example = Reach-IsConsistent alone_reached

destructor_overtakes_calls_example : Reach fresh (leased_by true destroying 3)
destructor_overtakes_calls_example = destructor_overtakes_calls 3

-- Two calls are inside when the destructor is called.
waits : Reach fresh (leased_by true waiting 2)
unfolding destroy_enter
waits = next (calls_begin 2) (destroy_begins refl refl)

destructor_can_go_example :
    (q : Object) × Reach (leased_by true waiting 2) q × (q.destroyer ≡ destroying)
destructor_can_go_example = destructor_can_go (leased_by true waiting 2) waits refl

-- A re-creation waits for two calls.
abbrev draining_two : Object
draining_two = record (leased_by false not_called 2) {
  sync = record (leased_by false not_called 2).sync { m_recreating = true };
  recreator = draining;
}

draining_reached : Reach fresh draining_two
unfolding recreate_enter
draining_reached = next (calls_begin 2) (recreate_begins refl refl)

recreation_can_go_example : (q : Object) × Reach draining_two q × (q.recreator ≡ rebuilding)
recreation_can_go_example = recreation_can_go draining_two draining_reached refl
