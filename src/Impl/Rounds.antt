-- ===== src/Impl/Rounds.antt =====
-- The waiting loops of `connect` and `disconnect` and the guards around them, with one rule for each
-- kind of fact about such a loop.
use net_way.Prelude.{
  ℕ, zero, suc, ◌+◌, ◌-◌, ◌*◌, ◌%◌, ◌^◌, ◌≤◌, ◌<◌, ◌≡◌, refl, Bool, true, false, ◌||◌, ltb, leb,
  if◌then◌else◌, arith, Option, none, some,
}
use net_way.RichError.{Result}
use net_way.Sdk.{Sdk}
use net_way.Impl.{Impl, State, idle, connecting, now_ms_impl}
use net_way.Impl.Frame.{Frame, Frame-trans}

abbrev pub Outcome : Type 0 → Type 0
Outcome E = Result (Unit {0}) E

-- One round of a waiting loop: it returns, or goes on.
pub data Round (W E : Type 0) : Type 0 where
  finished : Outcome E → State W → Round W E
  again : State W → Round W E

abbrev pub on_impl : {W : Type 0} → (Impl → Impl) → State W → State W
on_impl f s = record s { impl = f s.impl }

-- `InFlightGuard`
unfoldable pub enter_task : Impl → Impl
enter_task i = record i { m_task_counter = i.m_task_counter + 1 }

unfoldable pub leave_task : Impl → Impl
leave_task i =
    if ltb 0 i.m_task_counter then record i { m_task_counter = i.m_task_counter - 1 } else i

unfoldable pub take_conn : Impl → Impl
take_conn i = record i { m_conn_state = connecting }

-- `CASGuard`
unfoldable pub release_conn : Impl → Impl
release_conn i = record i { m_conn_state = idle }

-- `steady_clock::now() + milliseconds(2 * timeoutMs + 500)`, the sum one of `uint32_t`s.
unfoldable pub wall_budget_ns : ℕ → ℕ
wall_budget_ns timeout = (2 * timeout + 500) % 2 ^ 32 * 1000000

-- Whether the virtual or the wall clock has run out.
unfoldable pub timed_out : {W : Type 0} → Sdk W → (start deadline : ℕ) → State W → Bool × State W
unfolding now_ms_impl
timed_out sdk start deadline s =
    let (now, s1) = now_ms_impl sdk s in
    let (wall, w) = sdk.wall_ns s1.world in
    (ltb (start + s.m_config.timeout_ms) now || leb deadline wall, record s1 { world = w })

module _ {W E : Type 0} where
  -- The destructor of a guard, on the way out.
  abbrev pub leaving : (Impl → Impl) → Option (Outcome E × State W) → Option (Outcome E × State W)
  leaving f none = none
  leaving f (some (r, s)) = some (r, on_impl f s)

  -- `while (true)` on fuel: `none` is a loop that has used it up.
  unfoldable pub rounds : (State W → Round W E) → ℕ → State W → Option (Outcome E × State W)
  rounds body zero s = none
  rounds body (suc fuel) s = elim (body s) [
    | finished r s1 ↦ some (r, s1)
    | again s1 ↦ rounds body fuel s1
  ]

  -- A fact about every result.
  module _ (P : Outcome E → Impl → Type 0) where
    abbrev pub Finally : Option (Outcome E × State W) → Type 0
    Finally none = Unit {0}
    Finally (some (r, s)) = P r s.impl

    abbrev pub RoundEnds : Round W E → Type 0
    RoundEnds (finished r s) = P r s.impl
    RoundEnds (again s) = Unit {0}

    pub leaving-Finally :
        (f : Impl → Impl)
        → ((r : Outcome E) (i : Impl) → P r i → P r (f i))
        → (o : Option (Outcome E × State W)) → Finally o
        → Finally (leaving f o)
    leaving-Finally f keep none h = tt
    leaving-Finally f keep (some (r, s)) h = keep r s.impl h

    pub rounds-Finally :
        (body : State W → Round W E)
        → ((s : State W) → RoundEnds (body s))
        → (fuel : ℕ) (s : State W) → Finally (rounds body fuel s)
    unfolding rounds
    rounds-Finally body h zero s = tt
    rounds-Finally body h (suc fuel) s = go (body s) (h s) (rounds-Finally body h fuel)
      where
        go :
            (r : Round W E)
            → RoundEnds r
            → ((s1 : State W) → Finally (rounds body fuel s1))
            → Finally (elim r [ finished o s1 ↦ some (o, s1) | again s1 ↦ rounds body fuel s1 ])
        go (finished o s1) e ih = e
        go (again s1) e ih = ih s1

  -- A frame of every round is one of the loop.
  abbrev pub Framed : Impl → Option (Outcome E × State W) → Type 0
  Framed i none = Unit {0}
  Framed i (some (r, s)) = Frame i s.impl

  abbrev pub RoundFrame : Impl → Round W E → Type 0
  RoundFrame i (finished r s) = Frame i s.impl
  RoundFrame i (again s) = Frame i s.impl

  pub RoundFrame-after : (i j : Impl) (r : Round W E) → Frame i j → RoundFrame j r → RoundFrame i r
  RoundFrame-after i j (finished o s) f g = Frame-trans f g
  RoundFrame-after i j (again s) f g = Frame-trans f g

  pub Framed-after :
      (i j : Impl) (o : Option (Outcome E × State W)) → Frame i j → Framed j o → Framed i o
  Framed-after i j none f g = tt
  Framed-after i j (some (r, s)) f g = Frame-trans f g

  pub rounds-Framed :
      (body : State W → Round W E)
      → ((s : State W) → RoundFrame s.impl (body s))
      → (fuel : ℕ) (s : State W) → Framed s.impl (rounds body fuel s)
  unfolding rounds
  rounds-Framed body h zero s = tt
  rounds-Framed body h (suc fuel) s = go (body s) (h s) (rounds-Framed body h fuel)
    where
      go :
          (r : Round W E)
          → RoundFrame s.impl r
          → ((s1 : State W) → Framed s1.impl (rounds body fuel s1))
          → Framed s.impl (elim r [ finished o s1 ↦ some (o, s1) | again s1 ↦ rounds body fuel s1 ])
      go (finished o s1) e ih = e
      go (again s1) e ih = Framed-after s.impl s1.impl (rounds body fuel s1) e (ih s1)

  -- The slot taken and released, and the counter raised and lowered, around a framed body.
  pub slot-Framed :
      (i : Impl) (o : Option (Outcome E × State W))
      → i.m_conn_state ≡ idle
      → Framed (take_conn i) o
      → Framed i (leaving release_conn o)
  unfolding take_conn release_conn
  slot-Framed i none e f = tt
  slot-Framed i (some (r, s)) e f = ground arith

  pub task-Framed :
      (i : Impl) (o : Option (Outcome E × State W))
      → Framed (enter_task i) o
      → Framed i (leaving leave_task o)
  unfolding enter_task leave_task
  task-Framed i none f = tt
  task-Framed i (some (r, s)) f = ground arith

  -- The loop returned a result.
  abbrev pub Returns : Option (Outcome E × State W) → Type 0
  Returns o = (r : Outcome E × State W) × (o ≡ some r)

  pub if-Returns :
      (test : Bool) {x y : Option (Outcome E × State W)}
      → Returns x
      → Returns y
      → Returns (if test then x else y)
  if-Returns true h k = h
  if-Returns false h k = k

  pub leaving-Returns :
      (f : Impl → Impl) (o : Option (Outcome E × State W)) → Returns o → Returns (leaving f o)
  leaving-Returns f none h = ground arith
  leaving-Returns f (some (r, s)) h = ((r, on_impl f s), refl)

  -- A round that goes on was before the deadline and has taken time; so fuel for the ticks that are
  -- left before the deadline suffices.
  module _ (time : W → ℕ) (deadline : ℕ) where
    abbrev pub Advances : ℕ → Round W E → Type 0
    Advances t (finished r s) = Unit {0}
    Advances t (again s) = (t < deadline) × (t < time s.world)

    pub Advances-earlier : (t u : ℕ) (r : Round W E) → t ≤ u → Advances u r → Advances t r
    Advances-earlier t u (finished o s) h a = tt
    Advances-earlier t u (again s) h a = omega arith

    pub rounds-Returns :
        (body : State W → Round W E)
        → ((s : State W) → Advances (time s.world) (body s))
        → (fuel : ℕ) (s : State W) → 0 < fuel
        → deadline < fuel + time s.world
        → Returns (rounds body fuel s)
    unfolding rounds
    rounds-Returns body a zero s p h = absurd (omega arith)
    rounds-Returns body a (suc fuel) s p h = go (body s) (a s) (rounds-Returns body a fuel)
      where
        go :
            (r : Round W E)
            → Advances (time s.world) r
            → ((s1 : State W)
                → 0 < fuel
                → deadline < fuel + time s1.world
                → Returns (rounds body fuel s1))
            → Returns (elim r [ finished o s1 ↦ some (o, s1) | again s1 ↦ rounds body fuel s1 ])
        go (finished o s1) h1 ih = ((o, s1), refl)
        go (again s1) h1 ih = ih s1 (omega arith) (omega arith)
