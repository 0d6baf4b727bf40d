-- ===== src/Client/Protocol/Overtaking.antt =====
-- What the destructor does not wait for: calls that hold a lease.
use net_way.Prelude.{ℕ, zero, suc, ◌+◌, ◌≡◌, refl, Bool, true, false, arith, ap}
use net_way.Client.{lease_enter, destroy_enter, destroy_ready}
use net_way.Client.Protocol.{
  Object, fresh, not_called, destroying, Reach, here, next, call_begins, destroy_begins,
  destroy_goes, Destroyer,
}

-- `n` calls hold a lease and have not copied the pointer yet.
abbrev pub leased_by : (terminated : Bool) → Destroyer → ℕ → Object
leased_by terminated d n = record fresh {
  sync = record fresh.sync { m_terminated = terminated; m_in_flight = n };
  leased = n;
  destroyer = d;
}

suc_add : (n : ℕ) → suc n ≡ n + 1
suc_add n = omega arith

more :
    (n : ℕ)
    → leased_by false not_called (suc n)
      ≡ record (leased_by false not_called (n + 1)) { leased = n + 1 }
more n = ap (leased_by false not_called) (suc_add n)

pub calls_begin : (n : ℕ) → Reach fresh (leased_by false not_called n)
unfolding lease_enter
calls_begin zero = here
calls_begin (suc n) = next (calls_begin n) (call_begins refl (more n))

-- For every number of calls that hold a lease and have still to read the object, the destructor can
-- get past its wait while they are inside: it waits for a re-creation and a shutdown only.
pub destructor_overtakes_calls : (n : ℕ) → Reach fresh (leased_by true destroying n)
unfolding destroy_enter destroy_ready
destructor_overtakes_calls n =
    next (next (calls_begin n) (destroy_begins refl refl)) (destroy_goes refl refl refl)
