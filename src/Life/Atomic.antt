-- ===== src/Life/Atomic.antt =====
-- The loops on `m_lifeState` that end in one exchange are atomic, which is how `Impl` uses them.
use net_way.Prelude.{◌≡◌, refl, ◌⊎◌, inl, inr, Bool, true, false, List, []}
use net_way.Atomic.{Attempted, TakesEffect, takes_effect}
use net_way.Life.{
  LifeState, running, recovering, given_up, Attempt, stored, spurious, quiet, disturb, may_win,
  exchanges, turn_to_running_loop, turn_to_giveup_loop, set_give_up_loop,
}

-- An exchange on the value that was just loaded succeeds only if the interference has left it there.
exchange_cases :
    (a : Attempt) (life : LifeState)
    → ((exchanges life a life ≡ true) × (disturb a life ≡ life)) ⊎ (exchanges life a life ≡ false)
unfolding exchanges disturb may_win
exchange_cases (stored running) running = inl (refl, refl)
exchange_cases (stored recovering) recovering = inl (refl, refl)
exchange_cases (stored given_up) given_up = inl (refl, refl)
exchange_cases (stored running) recovering = inr refl
exchange_cases (stored running) given_up = inr refl
exchange_cases (stored recovering) running = inr refl
exchange_cases (stored recovering) given_up = inr refl
exchange_cases (stored given_up) running = inr refl
exchange_cases (stored given_up) recovering = inr refl
exchange_cases spurious life = inr refl
exchange_cases quiet running = inl (refl, refl)
exchange_cases quiet recovering = inl (refl, refl)
exchange_cases quiet given_up = inl (refl, refl)

-- The three operations as one step: RUNNING unless GIVEN_UP; GIVEN_UP; and GIVEN_UP with success
-- unless it was there.
abbrev pub run_once : LifeState → Bool × LifeState
run_once given_up = (false, given_up)
run_once life = (true, running)

abbrev pub give_up_once : LifeState → LifeState
give_up_once life = given_up

abbrev pub signal_once : LifeState → Bool × LifeState
signal_once given_up = (false, given_up)
signal_once life = (true, given_up)

running-Attempted :
    (a : Attempt) (rest : List Attempt) (life : LifeState)
    → Attempted disturb run_once (λ r. r.1) turn_to_running_loop a rest life
unfolding turn_to_running_loop
running-Attempted a rest given_up = inl (refl, refl)
running-Attempted a rest running = elim (exchange_cases a running) [
  | inl (won, same) ↦ inr (inl (rw won refl, same))
  | inr lost ↦ inr (inr (rw lost refl))
]
running-Attempted a rest recovering = elim (exchange_cases a recovering) [
  | inl (won, same) ↦ inr (inl (rw won refl, same))
  | inr lost ↦ inr (inr (rw lost refl))
]

running-undisturbed : (life : LifeState) → turn_to_running_loop life [] life ≡ run_once life
unfolding turn_to_running_loop
running-undisturbed running = refl
running-undisturbed recovering = refl
running-undisturbed given_up = refl

giveup-Attempted :
    (a : Attempt) (rest : List Attempt) (life : LifeState)
    → Attempted disturb give_up_once (λ l. l) turn_to_giveup_loop a rest life
unfolding turn_to_giveup_loop
giveup-Attempted a rest given_up = inl (refl, refl)
giveup-Attempted a rest running = elim (exchange_cases a running) [
  | inl (won, same) ↦ inr (inl (rw won refl, same))
  | inr lost ↦ inr (inr (rw lost refl))
]
giveup-Attempted a rest recovering = elim (exchange_cases a recovering) [
  | inl (won, same) ↦ inr (inl (rw won refl, same))
  | inr lost ↦ inr (inr (rw lost refl))
]

giveup-undisturbed : (life : LifeState) → turn_to_giveup_loop life [] life ≡ give_up_once life
unfolding turn_to_giveup_loop
giveup-undisturbed running = refl
giveup-undisturbed recovering = refl
giveup-undisturbed given_up = refl

signal-Attempted :
    (a : Attempt) (rest : List Attempt) (life : LifeState)
    → Attempted disturb signal_once (λ r. r.1) set_give_up_loop a rest life
unfolding set_give_up_loop
signal-Attempted a rest given_up = inl (refl, refl)
signal-Attempted a rest running = elim (exchange_cases a running) [
  | inl (won, same) ↦ inr (inl (rw won refl, same))
  | inr lost ↦ inr (inr (rw lost refl))
]
signal-Attempted a rest recovering = elim (exchange_cases a recovering) [
  | inl (won, same) ↦ inr (inl (rw won refl, same))
  | inr lost ↦ inr (inr (rw lost refl))
]

signal-undisturbed : (life : LifeState) → set_give_up_loop life [] life ≡ signal_once life
unfolding set_give_up_loop
signal-undisturbed running = refl
signal-undisturbed recovering = refl
signal-undisturbed given_up = refl

-- `TurnToRunning`, `TurnToGiveup` and `setGiveUpSignal` are atomic: however other threads store
-- states and exchanges fail, each gives the answer and leaves the state of one step, which leaves
-- GIVEN_UP alone, sets RUNNING, or sets GIVEN_UP. That step either writes nothing, or its exchange
-- goes over a state that nobody stored to since the loop read it, or the interference is over.
pub loops_are_atomic :
    (attempts : List Attempt) (life : LifeState)
    → TakesEffect disturb run_once
        (λ r. r.1)
        attempts
        life
        (turn_to_running_loop life attempts life)
      × TakesEffect disturb give_up_once
          (λ l. l)
          attempts
          life
          (turn_to_giveup_loop life attempts life)
      × TakesEffect disturb signal_once
          (λ r. r.1)
          attempts
          life
          (set_give_up_loop life attempts life)
loops_are_atomic attempts life = (
  takes_effect disturb run_once (λ r. r.1) turn_to_running_loop running-undisturbed
      running-Attempted attempts life,
  takes_effect disturb give_up_once (λ l. l) turn_to_giveup_loop giveup-undisturbed giveup-Attempted
      attempts life,
  takes_effect disturb signal_once (λ r. r.1) set_give_up_loop signal-undisturbed signal-Attempted
      attempts life,
)
