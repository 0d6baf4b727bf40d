-- ===== src/Client/Recreation/Laws.antt =====
-- What `recreateGiveUpClient` leaves behind.
use net_way.Prelude.{ℕ, ◌≡◌, Bool, true, false, Option, none, some, arith}
use net_way.RichError.{ErrorCode, Result, ok, err, already_terminated, recreating, not_given_up}
use net_way.Life.{same_life, given_up}
use net_way.Sdk.{Sdk, Reply}
use net_way.Impl.{Impl, State, UaConfig}
use net_way.Client.{Client, recreate_enter, recreate_leave}
use net_way.ErrorMapping.{Exception}
use net_way.Client.Recreation.{Others, drain, rebuild, recreate_give_up_client}
use net_way.Client.Lifetime.Raised.{IsRaised, Watching}

-- No client, or one that was not given up.
abbrev pub IsIntact : Option Impl → Type 0
IsIntact none = Unit {0}
IsIntact (some i) = same_life i.m_life_state given_up ≡ false

module _ {W : Type 0} (sdk : Sdk W) (join : W → Reply W (Unit {0})) (spawns : W → Bool)
    (others : Others W) (thrown : State W → Option (Exception × State W))
    (early : W → Option (Exception × W)) where
  abbrev IsReady : Impl → Type 0
  IsReady i = IsRaised sdk i × Watching sdk true i

  -- What other threads make of a client in time.
  pub data Evolved (i : Impl) : Impl → Type 0 where
    unchanged : Evolved i i
    changed : {j : Impl} → Evolved i j → (w : W) → Evolved i (others.client w j)

  abbrev pub EvolvedSlot : Option Impl → Option Impl → Type 0
  EvolvedSlot none none = Unit {0}
  EvolvedSlot (some i) (some j) = Evolved i j
  EvolvedSlot _ _ = ⊥

  -- A client that had come to be given up has made room for what became of one that was connected
  -- and watched.
  abbrev pub Replaced : Option Impl → Option Impl → Type 0
  Replaced before after =
      ((old : Impl) × EvolvedSlot before (some old) × (old.m_life_state ≡ given_up))
      × ((new : Impl) × EvolvedSlot (some new) after × IsRaised sdk new × Watching sdk true new)

  abbrev Raises : Option (Result Impl ErrorCode × W) → Type 0
  Raises none = Unit {0}
  Raises (some (err e, w)) = Unit {0}
  Raises (some (ok i, w)) = IsReady i

  abbrev Sets : Option (Result (Unit {0}) ErrorCode × State W) → Type 0
  Sets none = Unit {0}
  Sets (some (err e, s)) = Unit {0}
  Sets (some (ok u, s)) = IsReady s.impl

  -- What a re-creation leaves between its two ends.
  abbrev Rebuilds : Option Impl → Option (Result (Unit {0}) ErrorCode × Client W) → Type 0
  Rebuilds o none = Unit {0}
  Rebuilds o (some (err e, c1)) = EvolvedSlot o c1.p_impl
  Rebuilds o (some (ok u, c1)) = Replaced o c1.p_impl

  abbrev pub Recreates : Client W → Result (Unit {0}) ErrorCode → Client W → Type 0
  Recreates c (ok u) c1 =
      Replaced c.p_impl c1.p_impl
      × (c.sync.m_terminated ≡ false)
      × (c.sync.m_recreating ≡ false)
      × (c1.sync.m_recreating ≡ false)
  Recreates c (err e) c1 =
      EvolvedSlot c.p_impl c1.p_impl × (c1.sync.m_recreating ≡ c.sync.m_recreating)

  abbrev Ends : Client W → Option (Result (Unit {0}) ErrorCode × Client W) → Type 0
  Ends c none = Unit {0}
  Ends c (some (r, c1)) = Recreates c r c1

  -- The refusals of a re-creation: RECREATING during another one, else ALREADY_TERMINATED after the
  -- end, both without a change; otherwise, with no call under way, NOT_GIVEN_UP without a client or
  -- with one that was not given up, and then the flags, the client and the world are as before.
  pub recreate_refused :
      (fuel : ℕ) (u : UaConfig) (c : Client W)
      → (c.sync.m_recreating ≡ true
          → recreate_give_up_client sdk join spawns others thrown early fuel u c
            ≡ some (err recreating, c))
        × (c.sync.m_recreating ≡ false
            → c.sync.m_terminated ≡ true
            → recreate_give_up_client sdk join spawns others thrown early fuel u c
              ≡ some (err already_terminated, c))
        × (c.sync.m_recreating ≡ false
            → c.sync.m_terminated ≡ false
            → c.sync.m_in_flight ≡ 0
            → IsIntact c.p_impl
            → recreate_give_up_client sdk join spawns others thrown early fuel u c
              ≡ some (err not_given_up, c))
  unfolding recreate_give_up_client recreate_enter recreate_leave rebuild drain
  recreate_refused fuel u c = (λ h. ground arith, λ h k. ground arith, λ h k z i. ground arith)
