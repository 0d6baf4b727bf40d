-- ===== src/Tests/Atomics.antt =====
-- Loops that take effect at one point.
use net_way.Prelude.{ℕ, ◌≡◌, List, [], ◌∷◌, arith}
use net_way.Packed.{unpack_state}
use net_way.Life.{
  running, recovering, given_up, Attempt, stored, spurious, quiet, disturb, turn_to_running_loop,
  turn_to_giveup_loop, set_give_up_loop,
}
use net_way.Life.Atomic.{run_once, give_up_once, signal_once, loops_are_atomic}
use net_way.Sdk.{SdkState}
use net_way.Atomic.{TakesEffect}
use net_way.Impl.{Impl, next_version}
use net_way.Impl.Connected.Publish.{Fits}
use net_way.Impl.Publication.{
  called_back, Interference, written, overwrite, update_packed_loop, update_is_atomic,
}
use net_way.Tests.{client, open_word, closed_word}

-- A lost exchange, a store by another thread, and an exchange that fails for no reason.
abbrev disturbed : List Attempt
disturbed = stored recovering ∷ spurious ∷ stored given_up ∷ quiet ∷ []

loops_are_atomic_example :
    TakesEffect disturb run_once
      (λ r. r.1)
      disturbed
      running
      (turn_to_running_loop running disturbed running)
    × TakesEffect disturb give_up_once
        (λ l. l)
        disturbed
        running
        (turn_to_giveup_loop running disturbed running)
    × TakesEffect disturb signal_once
        (λ r. r.1)
        disturbed
        running
        (set_give_up_loop running disturbed running)
loops_are_atomic_example = loops_are_atomic disturbed running

abbrev opened : SdkState
opened = record { channel = 3; session = 4; status = 0 }

opened-Fits : Fits opened
opened-Fits = record {
  status_fits = omega arith;
  channel_fits = omega arith;
  session_fits = omega arith;
}

abbrev overwritten : List Interference
overwritten = written closed_word ∷ Interference.spurious ∷ written open_word ∷ []

abbrev waiting_client : Impl
waiting_client = client recovering closed_word 0

update_is_atomic_example :
    TakesEffect overwrite
      (called_back opened waiting_client)
      (λ v. v)
      overwritten
      closed_word
      (update_packed_loop opened closed_word overwritten closed_word)
    × ((w : ℕ)
        → unpack_state (called_back opened waiting_client w) ≡ record {
          status = 0;
          channel = 3;
          session = 4;
          version = next_version (unpack_state w).version;
        })
update_is_atomic_example = update_is_atomic opened overwritten waiting_client opened-Fits
