-- ===== src/Impl/Flight/Progress.antt =====
-- The wait of `shutdown` can always end with the counter at zero.
use net_way.Prelude.{
  ℕ, zero, suc, true, ◌⊎◌, ◌+◌, ◌-◌, ◌*◌, ◌≤◌, ◌<◌, ◌≡◌, inl, inr, refl, arith, zero_or_more,
}
use net_way.Sdk.{Sdk}
use net_way.Impl.{Impl, get_effective_stop_signal}
use net_way.Impl.Rounds.{leave_task, take_conn, release_conn}
use net_way.Impl.Flight.{
  of_batch, waiting, emptied, Flight, empty, FlightStep, FlightReach, here, next, turned_away,
  slot_taken, slot_busy, slot_released, service_begins, service_ends, service_failed, let_in_again,
  given_up_on, refused, task_begins, let_in, revived, recovered, happens, closes, wait_expired,
  task_ends, wait_over,
}
use net_way.Impl.Flight.Invariant.{IsIdle, IsCounted, Step-IsCounted, single_flight}
use net_way.Impl.Flight.Ended.{Reach-then}

-- The steps that the threads inside have before them once the stop signal is on, at most.
abbrev steps_left : Flight → ℕ
steps_left p =
    2 * p.arrived + 4 * p.admitted + 3 * p.serving + 2 * p.retrying + 2 * p.flying + p.departing

-- A step takes the threads nearer to their end, or it is the arrival of one more, or not theirs.
abbrev pub IsNearer : Flight → Flight → Type 0
IsNearer p q =
    (steps_left q < steps_left p)
    ⊎ ((q.arrived ≡ suc p.arrived)
        ⊎ ((q.arrived ≡ p.arrived)
            × (q.admitted ≡ p.admitted)
            × (q.serving ≡ p.serving)
            × (q.retrying ≡ p.retrying)
            × (q.flying ≡ p.flying)
            × (q.departing ≡ p.departing)))

module _ {W : Type 0} (sdk : Sdk W) where
  abbrev Empties : Flight → Type 0
  Empties p = (q : Flight) × FlightReach sdk p q × (q.closer ≡ emptied)

  after : {p q : Flight} → FlightStep sdk p q → Empties q → Empties p
  after st (r, path, done) = (r, Reach-then sdk (next here st) path, done)

  module _ (n : ℕ)
      (rest : (q : Flight) → IsCounted q → q.closer ≡ waiting → steps_left q ≤ n → Empties q) where
    goes_on :
        {p : Flight} (q : Flight)
        → FlightStep sdk p q
        → IsCounted p
        → q.closer ≡ waiting
        → steps_left q ≤ n
        → Empties p
    goes_on q st c w h = after st (rest q (Step-IsCounted sdk st c) w h)

    -- Someone is past the tests: the slot is free for it, or it is turned away.
    admitted_goes :
        (p : Flight)
        → IsCounted p
        → p.closer ≡ waiting
        → steps_left p ≤ suc n
        → 0 < p.admitted
        → Empties p
    admitted_goes p c w h k = elim c.single [
      | inl f ↦
          goes_on
            (record p { impl = take_conn p.impl; admitted = p.admitted - 1; flying = p.flying + 1 })
            (slot_taken k f.0 refl) c w (omega arith)
      | inr f ↦
          goes_on (record p { admitted = p.admitted - 1; departing = p.departing + 1 })
            (slot_busy k f.0 refl) c w (omega arith)
    ]

    -- Nobody is past the tests of the slot: a service ends, a visitor is turned away, or all are gone.
    visitor_goes :
        (p : Flight)
        → IsCounted p
        → p.closer ≡ waiting
        → steps_left p ≤ suc n
        → p.flying ≡ 0
        → p.admitted ≡ 0
        → p.departing ≡ 0
        → Empties p
    visitor_goes p c w h f a d = elim (zero_or_more p.serving) [
      | inr k ↦
          goes_on (record p { serving = p.serving - 1; departing = p.departing + 1 })
            (of_batch (service_ends k refl)) c w (omega arith)
      | inl s ↦ elim (zero_or_more p.retrying) [
        | inr k ↦
            goes_on (record p { retrying = p.retrying - 1; departing = p.departing + 1 })
              (of_batch (given_up_on k refl)) c w (omega arith)
        | inl t ↦ elim (zero_or_more p.arrived) [
          | inr k ↦
              goes_on (record p { arrived = p.arrived - 1; departing = p.departing + 1 })
                (turned_away k refl) c w (omega arith)
          | inl e ↦ (
            record p { closer = emptied },
            next here (wait_over w (omega (arith, c.tasks)) refl),
            refl,
          )
        ]
      ]
    ]

    someone_goes :
        (p : Flight) → IsCounted p → p.closer ≡ waiting → steps_left p ≤ suc n → Empties p
    someone_goes p c w h = elim (zero_or_more p.departing) [
      | inr k ↦
          goes_on (record p { impl = leave_task p.impl; departing = p.departing - 1 })
            (task_ends k refl) c w (omega arith)
      | inl a ↦ elim (zero_or_more p.flying) [
        | inr k ↦
            goes_on
              (record p {
                impl = release_conn p.impl;
                flying = p.flying - 1;
                departing = p.departing + 1;
              })
              (slot_released k refl) c w (omega arith)
        | inl b ↦ elim (zero_or_more p.admitted) [
          | inr k ↦ admitted_goes p c w h k
          | inl d ↦ visitor_goes p c w h b d a
        ]
      ]
    ]

  empties : (n : ℕ) (p : Flight) → IsCounted p → p.closer ≡ waiting → steps_left p ≤ n → Empties p
  empties zero p c w h =
      (record p { closer = emptied }, next here (wait_over w (omega (arith, c.tasks)) refl), refl)
  empties (suc n) p c w h = someone_goes n (empties n) p c w h

  Step-IsNearer :
      {p q : Flight} → FlightStep sdk p q → get_effective_stop_signal p.impl ≡ true → IsNearer p q
  Step-IsNearer (task_begins e) s = ground arith
  Step-IsNearer (turned_away h e) s = ground arith
  Step-IsNearer (let_in h f m e) s = ground arith
  Step-IsNearer (slot_taken h f e) s = ground arith
  Step-IsNearer (slot_busy h f e) s = ground arith
  Step-IsNearer (slot_released h e) s = ground arith
  Step-IsNearer (of_batch (service_begins h f e)) s = ground arith
  Step-IsNearer (of_batch (service_ends h e)) s = ground arith
  Step-IsNearer (of_batch (service_failed h e)) s = ground arith
  Step-IsNearer (of_batch (let_in_again h f e)) s = ground arith
  Step-IsNearer (of_batch (given_up_on h e)) s = ground arith
  Step-IsNearer (of_batch (refused h e)) s = ground arith
  Step-IsNearer (task_ends h e) s = ground arith
  Step-IsNearer (revived e) s = ground arith
  Step-IsNearer (recovered e) s = ground arith
  Step-IsNearer (happens v e) s = ground arith
  Step-IsNearer (closes h e) s = ground arith
  Step-IsNearer (wait_over h z e) s = ground arith
  Step-IsNearer (wait_expired h e) s = ground arith

  signalled-stops :
      (p : Flight) → IsCounted p → p.closer ≡ waiting → get_effective_stop_signal p.impl ≡ true
  unfolding get_effective_stop_signal
  signalled-stops p c w = ground arith

  -- No task can hold up a shutdown for good, not even a `batchRead` with attempts left: in every
  -- state that the threads reach with a shutdown in its wait, each step of a thread inside takes the
  -- threads nearer to their end, unless one more arrives; and some steps of theirs end the wait with
  -- the counter at zero.
  pub shutdown_can_empty :
      (i : Impl) (p : Flight)
      → IsIdle i
      → FlightReach sdk (empty i) p
      → p.closer ≡ waiting
      → ((q : Flight) → FlightStep sdk p q → IsNearer p q)
        × ((q : Flight) × FlightReach sdk p q × (q.closer ≡ emptied))
  shutdown_can_empty i p h r w =
      let c = single_flight sdk i p h r in
      (λ q st. Step-IsNearer st (signalled-stops p c w), empties (steps_left p) p c w (omega arith))
