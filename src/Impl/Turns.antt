-- ===== src/Impl/Turns.antt =====
-- What the three moves of the life state establish.
use net_way.Prelude.{◌≡◌, ◌⊎◌, true, false, arith}
use net_way.Life.{running, given_up}
use net_way.Sdk.{Sdk}
use net_way.Impl.{Impl, turn_to_running, turn_to_recovering, triple_ready, is_healthy_cached}

-- RUNNING with the loss flag and the give-up clock cleared, or GIVEN_UP.
abbrev pub Revived : Impl → Type 0
Revived i =
    ((i.m_life_state ≡ running) × (i.connection_lost ≡ false) × (i.m_last_bad_status_ms ≡ 0))
    ⊎ (i.m_life_state ≡ given_up)

pub turn_to_running-Revived : (i : Impl) → Revived (turn_to_running i)
unfolding turn_to_running
turn_to_running-Revived i = ground arith

module _ {W : Type 0} (sdk : Sdk W) where
  -- The documented contract of RUNNING.
  abbrev pub RunningIsHealthy : Impl → Type 0
  RunningIsHealthy i = i.m_life_state ≡ running → is_healthy_cached sdk i ≡ true

  pub turn_to_recovering-Contract : (i : Impl) → RunningIsHealthy (turn_to_recovering sdk i)
  unfolding turn_to_recovering is_healthy_cached
  turn_to_recovering-Contract i = ground arith

  pub triple_ready-turn_to_running :
      (i : Impl) → triple_ready sdk i ≡ true → triple_ready sdk (turn_to_running i) ≡ true
  unfolding triple_ready turn_to_running
  triple_ready-turn_to_running i h = ground arith

  pub triple_ready_of_healthy :
      (i : Impl) → is_healthy_cached sdk i ≡ true → triple_ready sdk i ≡ true
  unfolding triple_ready is_healthy_cached
  triple_ready_of_healthy i h = ground arith

  pub healthy_of_ready :
      (i : Impl)
      → triple_ready sdk i ≡ true
      → i.connection_lost ≡ false
      → is_healthy_cached sdk i ≡ true
  unfolding triple_ready is_healthy_cached
  healthy_of_ready i h l = ground arith
