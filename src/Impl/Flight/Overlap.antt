-- ===== src/Impl/Flight/Overlap.antt =====
-- The test of `batchRead` and `batchWrite` on the connection slot, and `connect` after it.
use net_way.Prelude.{ℕ, zero, suc, ◌≡◌, refl, true, false, arith, subst}
use net_way.Sdk.{Sdk}
use net_way.Impl.{Impl, connecting, get_effective_stop_signal}
use net_way.Impl.Rounds.{enter_task, take_conn}
use net_way.Impl.Flight.{
  of_batch, Flight, empty, FlightStep, FlightReach, here, next, task_begins, let_in, slot_taken,
  service_begins,
}
use net_way.Impl.Flight.Invariant.{IsIdle}

-- A client with `n` calls in the service.
abbrev pub served : Impl → ℕ → Flight
served i n = record (empty i) { impl = record i { m_task_counter = n }; serving = n }

-- The same with a connection under way.
abbrev pub served_and_connecting : Impl → ℕ → Flight
served_and_connecting i n = record (empty i) {
  impl = record i { m_task_counter = suc n; m_conn_state = connecting };
  serving = n;
  flying = 1;
}

-- A client that lets calls in.
pub record IsOpen (i : Impl) : Type 0 where
  pub idle_still : IsIdle i
  pub not_stopped : get_effective_stop_signal i ≡ false
  pub has_client : i.m_impl ≡ true

module _ {W : Type 0} (sdk : Sdk W) (i : Impl) (o : IsOpen i) where
  -- One more call arrives and passes the tests of the stop signal.
  abbrev let_in_by : ℕ → Flight
  let_in_by n = record (empty i) {
    impl = record i { m_task_counter = suc n };
    admitted = 1;
    serving = n;
  }

  lets_in :
      (n : ℕ) → FlightReach sdk (empty i) (served i n) → FlightReach sdk (empty i) (let_in_by n)
  unfolding enter_task get_effective_stop_signal
  lets_in n r =
      let arrived = record (let_in_by n) { arrived = 1; admitted = 0 } in
      let begins : FlightStep sdk (served i n) arrived = task_begins (ground arith) in
      let passes : FlightStep sdk arrived (let_in_by n) =
        let_in (omega arith) o.not_stopped o.has_client refl in
      next (next r begins) passes

  all_served : (n : ℕ) → FlightReach sdk (empty i) (served i n)
  all_served zero =
      subst
        (λ k.
          FlightReach sdk (empty i) (record (empty i) { impl = record i { m_task_counter = k } }))
        o.idle_still.tasks here
  all_served (suc n) =
      let serves : FlightStep sdk (let_in_by n) (served i (suc n)) =
        of_batch (service_begins (omega arith) o.idle_still.slot (ground arith)) in
      next (lets_in n (all_served n)) serves

  pub service_overlaps_connection : (n : ℕ) → FlightReach sdk (empty i) (served_and_connecting i n)
  unfolding take_conn
  service_overlaps_connection n =
      let takes : FlightStep sdk (let_in_by n) (served_and_connecting i n) =
        slot_taken (omega arith) o.idle_still.slot refl in
      next (lets_in n (all_served n)) takes
