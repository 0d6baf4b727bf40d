-- ===== src/Life.antt =====
-- The life state of `Types.h` and the compare-and-swap loops of `ua.cpp` on `m_lifeState`, with the
-- writes of other threads between a load and the exchange as a list of attempts.
pub mod Races
pub mod Atomic
use net_way.Prelude.{◌≡◌, refl, Bool, true, false, List, [], ◌∷◌, not, ◌&&◌, if◌then◌else◌}

pub data LifeState : Type 0 where
  running recovering given_up : LifeState

abbrev pub same_life : LifeState → LifeState → Bool
same_life running running = true
same_life recovering recovering = true
same_life given_up given_up = true
same_life _ _ = false

-- What happens just before one `compare_exchange_weak`: another thread stores a state, or the
-- exchange fails for no reason, or neither.
pub data Attempt : Type 0 where
  stored : LifeState → Attempt
  spurious quiet : Attempt

-- The atomic as the exchange finds it.
unfoldable pub disturb : Attempt → LifeState → LifeState
disturb (stored l) life = l
disturb spurious life = life
disturb quiet life = life

unfoldable pub may_win : Attempt → Bool
may_win (stored l) = true
may_win spurious = false
may_win quiet = true

-- `compare_exchange_weak(expected, _)` after the attempt's disturbance: whether it exchanges.
unfoldable pub exchanges : LifeState → Attempt → LifeState → Bool
unfolding disturb may_win
exchanges expected a life = may_win a && same_life (disturb a life) expected

-- The loop of `TurnToRunning`: whether the exchange was won, and the state that is left. After the
-- listed attempts no thread interferes, so that the next round settles it.
unfoldable pub turn_to_running_loop : LifeState → List Attempt → LifeState → Bool × LifeState
turn_to_running_loop given_up rest life = (false, life)
turn_to_running_loop expected [] given_up = (false, given_up)
turn_to_running_loop expected [] life = (true, running)
turn_to_running_loop expected (a ∷ rest) life =
    let retry = turn_to_running_loop (disturb a life) rest (disturb a life) in
    if exchanges expected a life then (true, running) else retry

-- The loop of `TurnToGiveup`.
unfoldable pub turn_to_giveup_loop : LifeState → List Attempt → LifeState → LifeState
turn_to_giveup_loop given_up rest life = life
turn_to_giveup_loop expected [] life = given_up
turn_to_giveup_loop expected (a ∷ rest) life =
    let retry = turn_to_giveup_loop (disturb a life) rest (disturb a life) in
    if exchanges expected a life then given_up else retry

-- The loop of `setGiveUpSignal`: whether it succeeded.
unfoldable pub set_give_up_loop : LifeState → List Attempt → LifeState → Bool × LifeState
set_give_up_loop given_up rest life = (false, life)
set_give_up_loop expected [] given_up = (false, given_up)
set_give_up_loop expected [] life = (true, given_up)
set_give_up_loop expected (a ∷ rest) life =
    let retry = set_give_up_loop (disturb a life) rest (disturb a life) in
    if exchanges expected a life then (true, given_up) else retry

-- The second exchange of `TurnToRecovring`, a strong one, after the state was set to RECOVERING.
unfoldable pub return_to_running : Bool → LifeState → LifeState
return_to_running healthy recovering = if healthy then running else recovering
return_to_running healthy life = life

-- The loop of `TurnToRecovring`. Each attempt comes with the health that the loop's test reads;
-- `healthy` is the health at the last test, `again` the one read after the exchange, and `between`
-- what happens to the state before the second exchange.
unfoldable pub turn_to_recovering_loop :
    LifeState → List (Bool × Attempt) → Bool → Bool → Attempt → LifeState → LifeState
unfolding return_to_running disturb exchanges
turn_to_recovering_loop running [] healthy again between running =
    if healthy then running else return_to_running again (disturb between recovering)
turn_to_recovering_loop running [] healthy again between life = life
turn_to_recovering_loop running ((seen, a) ∷ rest) healthy again between life =
    let retry =
      turn_to_recovering_loop (disturb a life) rest healthy again between (disturb a life) in
    if seen
    then life
    else if exchanges running a life
    then return_to_running again (disturb between recovering)
    else retry
turn_to_recovering_loop expected rest healthy again between life = life
