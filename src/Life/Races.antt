-- ===== src/Life/Races.antt =====
-- What the loops on the life state guarantee against any other thread.
use net_way.Prelude.{◌≡◌, refl, Bool, true, false, List, [], ◌∷◌, arith, inl, inr, ◌⊎◌}
use net_way.Life.{
  LifeState, running, recovering, given_up, Attempt, stored, disturb, exchanges,
  turn_to_running_loop, turn_to_giveup_loop, set_give_up_loop, turn_to_recovering_loop,
  return_to_running,
}

-- No thread takes the state out of GIVEN_UP at these attempts.
abbrev pub Respects : List Attempt → LifeState → Type 0
Respects [] life = Unit {0}
Respects (a ∷ more) life =
    (life ≡ given_up → disturb a life ≡ given_up) × Respects more (disturb a life)

running_given_up :
    (e : LifeState) (tries : List Attempt)
    → Respects tries given_up
    → turn_to_running_loop e tries given_up ≡ (false, given_up)
unfolding turn_to_running_loop exchanges
running_given_up given_up tries h = refl
running_given_up running [] h = refl
running_given_up recovering [] h = refl
running_given_up running (a ∷ more) h = ground (arith, running_given_up (disturb a given_up) more)
running_given_up recovering (a ∷ more) h =
    ground (arith, running_given_up (disturb a given_up) more)

giveup_given_up :
    (e : LifeState) (tries : List Attempt)
    → Respects tries given_up
    → turn_to_giveup_loop e tries given_up ≡ given_up
unfolding turn_to_giveup_loop exchanges
giveup_given_up given_up tries h = refl
giveup_given_up running [] h = refl
giveup_given_up recovering [] h = refl
giveup_given_up running (a ∷ more) h = ground (arith, giveup_given_up (disturb a given_up) more)
giveup_given_up recovering (a ∷ more) h = ground (arith, giveup_given_up (disturb a given_up) more)

signal_given_up :
    (e : LifeState) (tries : List Attempt)
    → Respects tries given_up
    → set_give_up_loop e tries given_up ≡ (false, given_up)
unfolding set_give_up_loop exchanges
signal_given_up given_up tries h = refl
signal_given_up running [] h = refl
signal_given_up recovering [] h = refl
signal_given_up running (a ∷ more) h = ground (arith, signal_given_up (disturb a given_up) more)
signal_given_up recovering (a ∷ more) h = ground (arith, signal_given_up (disturb a given_up) more)

abbrev pub attempts : List (Bool × Attempt) → List Attempt
attempts [] = []
attempts ((seen, a) ∷ more) = a ∷ attempts more

recovering_given_up :
    (e : LifeState) (tries : List (Bool × Attempt)) (healthy again : Bool) (between : Attempt)
    → Respects (attempts tries) given_up
    → turn_to_recovering_loop e tries healthy again between given_up ≡ given_up
unfolding turn_to_recovering_loop exchanges
recovering_given_up given_up tries healthy again between h = refl
recovering_given_up recovering tries healthy again between h = refl
recovering_given_up running [] healthy again between h = refl
recovering_given_up running ((seen, a) ∷ more) healthy again between h =
    ground (arith, recovering_given_up (disturb a given_up) more healthy again between)

-- Once GIVEN_UP has been stored, no loop of the wrapper overwrites it, whatever state the loop had
-- loaded before and however its exchanges are disturbed, if the other threads keep GIVEN_UP too:
-- `TurnToRunning` and `setGiveUpSignal` report no exchange, and all four loops leave GIVEN_UP. So
-- does `TurnToRecovring` when GIVEN_UP is stored between its two exchanges.
pub give_up_is_final :
    (e : LifeState) (tries : List (Bool × Attempt)) (healthy again : Bool) (between : Attempt)
    → Respects (attempts tries) given_up
    → (turn_to_running_loop e (attempts tries) given_up ≡ (false, given_up))
      × (turn_to_giveup_loop e (attempts tries) given_up ≡ given_up)
      × (set_give_up_loop e (attempts tries) given_up ≡ (false, given_up))
      × (turn_to_recovering_loop e tries healthy again between given_up ≡ given_up)
      × (turn_to_recovering_loop running [] false again (stored given_up) running ≡ given_up)
unfolding turn_to_recovering_loop return_to_running disturb
give_up_is_final e tries healthy again between h = (
  running_given_up e (attempts tries) h,
  giveup_given_up e (attempts tries) h,
  signal_given_up e (attempts tries) h,
  recovering_given_up e tries healthy again between h,
  refl,
)

-- An expected value of GIVEN_UP was loaded while the state was GIVEN_UP.
abbrev Loaded : LifeState → LifeState → Type 0
Loaded e life = e ≡ given_up → life ≡ given_up

signal_settles :
    (e life : LifeState) (tries : List Attempt)
    → Loaded e life
    → (set_give_up_loop e tries life).1 ≡ given_up
unfolding set_give_up_loop exchanges
signal_settles given_up life tries l = ground arith
signal_settles running running [] l = refl
signal_settles running recovering [] l = refl
signal_settles running given_up [] l = refl
signal_settles recovering running [] l = refl
signal_settles recovering recovering [] l = refl
signal_settles recovering given_up [] l = refl
signal_settles running life (a ∷ more) l =
    ground (arith, signal_settles (disturb a life) (disturb a life) more (λ e. e))
signal_settles recovering life (a ∷ more) l =
    ground (arith, signal_settles (disturb a life) (disturb a life) more (λ e. e))

giveup_settles :
    (e life : LifeState) (tries : List Attempt)
    → Loaded e life
    → turn_to_giveup_loop e tries life ≡ given_up
unfolding turn_to_giveup_loop exchanges
giveup_settles given_up life tries l = ground arith
giveup_settles running life [] l = refl
giveup_settles recovering life [] l = refl
giveup_settles running life (a ∷ more) l =
    ground (arith, giveup_settles (disturb a life) (disturb a life) more (λ e. e))
giveup_settles recovering life (a ∷ more) l =
    ground (arith, giveup_settles (disturb a life) (disturb a life) more (λ e. e))

running_settles :
    (e life : LifeState) (tries : List Attempt)
    → Loaded e life
    → (turn_to_running_loop e tries life ≡ (true, running))
      ⊎ (turn_to_running_loop e tries life ≡ (false, given_up))
unfolding turn_to_running_loop exchanges
running_settles given_up life tries l = inr (ground arith)
running_settles running running [] l = inl refl
running_settles running recovering [] l = inl refl
running_settles running given_up [] l = inr refl
running_settles recovering running [] l = inl refl
running_settles recovering recovering [] l = inl refl
running_settles recovering given_up [] l = inr refl
running_settles running life (a ∷ more) l =
    ground (arith, running_settles (disturb a life) (disturb a life) more (λ e. e))
running_settles recovering life (a ∷ more) l =
    ground (arith, running_settles (disturb a life) (disturb a life) more (λ e. e))

-- From a freshly loaded state and under any finite interference, both ways of giving up end in
-- GIVEN_UP, and `TurnToRunning` either won its exchange and left RUNNING or gave way to GIVEN_UP.
pub loops_settle :
    (life : LifeState) (tries : List Attempt)
    → ((set_give_up_loop life tries life).1 ≡ given_up)
      × (turn_to_giveup_loop life tries life ≡ given_up)
      × ((turn_to_running_loop life tries life ≡ (true, running))
          ⊎ (turn_to_running_loop life tries life ≡ (false, given_up)))
loops_settle life tries = (
  signal_settles life life tries (λ e. e),
  giveup_settles life life tries (λ e. e),
  running_settles life life tries (λ e. e),
)
