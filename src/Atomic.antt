-- ===== src/Atomic.antt =====
-- Loops of `compare_exchange_weak`, as `src/OPCUAPacking/ua.cpp` has them on `m_lifeState` and
-- `state_packed`: when such a loop takes effect at one point among the writes of other threads.
use net_way.Prelude.{◌≡◌, List, [], ◌∷◌, ◌⊎◌, inl, inr, subst, sym}

-- `S` is what the atomic holds and `A` what happens before one exchange. `alone s` is what the
-- operation, as one step, makes of `s`: its answer, and `left` the value that it leaves.
module _ {S A B : Type 0} (disturb : A → S → S) (alone : S → B) (left : B → S) where
  -- A result that is the operation's as one step at one point. Either it is so before the first
  -- interference, and nothing was written; or it is so right after it, and the write went over a value
  -- that the interference had left as it was; or the interference came before that point. What follows
  -- the point is not overwritten, since it comes later.
  abbrev pub TakesEffect : List A → S → B → Type 0
  TakesEffect [] s r = r ≡ alone s
  TakesEffect (a ∷ rest) s r =
      ((r ≡ alone s) × (left (alone s) ≡ s))
      ⊎ (((r ≡ alone s) × (disturb a s ≡ s)) ⊎ TakesEffect rest (disturb a s) r)

  -- `loop expected as s` runs on the loaded value `expected` while the atomic holds `s`. One attempt:
  -- the loop ends without a write, or exchanges an untouched value, or loads what it found.
  abbrev pub Attempted : (S → List A → S → B) → A → List A → S → Type 0
  Attempted loop a rest s =
      ((loop s (a ∷ rest) s ≡ alone s) × (left (alone s) ≡ s))
      ⊎ (((loop s (a ∷ rest) s ≡ alone s) × (disturb a s ≡ s))
          ⊎ (loop s (a ∷ rest) s ≡ loop (disturb a s) rest (disturb a s)))

  pub takes_effect :
      (loop : S → List A → S → B)
      → ((s : S) → loop s [] s ≡ alone s)
      → ((a : A) (rest : List A) (s : S) → Attempted loop a rest s)
      → (xs : List A) (s : S) → TakesEffect xs s (loop s xs s)
  takes_effect loop undisturbed attempt [] s = undisturbed s
  takes_effect loop undisturbed attempt (a ∷ rest) s = elim (attempt a rest s) [
    | inl h ↦ inl h
    | inr (inl h) ↦ inr (inl h)
    | inr (inr e) ↦ inr (
        inr (
          subst (TakesEffect rest (disturb a s)) (sym e)
            (takes_effect loop undisturbed attempt rest (disturb a s))))
  ]
