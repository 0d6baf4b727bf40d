-- ===== src/Client/Protocol/Progress.antt =====
-- The waits of the destructor and of a re-creation can always end.
use net_way.Prelude.{
  ℕ, zero, suc, ◌+◌, ◌-◌, ◌*◌, ◌≤◌, ◌≡◌, ◌⊎◌, inl, inr, refl, arith, zero_or_more,
}
use net_way.Client.{active, lease_leave, recreate_leave, shutdown_leave, destroy_ready}
use net_way.Client.Protocol.{
  Object, fresh, Recreator, nobody, draining, rebuilding, waiting, destroying, Step, Reach, here,
  next, pointer_copied, call_ends, drained, drain_timeout, recreate_ends, shutdown_ends,
  destroy_goes,
}
use net_way.Client.Protocol.Invariant.{IsConsistent, Reach-IsConsistent, Step-IsConsistent}

Recreator-cases : (r : Recreator) → (r ≡ nobody) ⊎ ((r ≡ draining) ⊎ (r ≡ rebuilding))
Recreator-cases nobody = inl refl
Recreator-cases draining = inr (inl refl)
Recreator-cases rebuilding = inr (inr refl)

Reach-then : {p q r : Object} → Reach p q → Reach q r → Reach p r
Reach-then a here = a
Reach-then a (next b st) = next (Reach-then a b) st

-- Without a re-creation and a shutdown, the wait is over.
goes :
    (p : Object)
    → IsConsistent p
    → p.destroyer ≡ waiting
    → p.recreator ≡ nobody
    → p.closers ≡ 0
    → (q : Object) × Reach p q × (q.destroyer ≡ destroying)
unfolding destroy_ready
goes p c w r k =
    (record p { destroyer = destroying }, next here (destroy_goes w (ground arith) refl), refl)

-- A shutdown that runs can end.
closes :
    (p : Object)
    → IsConsistent p
    → p.destroyer ≡ waiting
    → p.recreator ≡ nobody
    → (q : Object) × Reach p q × (q.destroyer ≡ destroying)
closes p c w r = elim c.one_shutdown [
  | inl k ↦ goes p c w r k
  | inr k ↦
      let q = record p { sync = shutdown_leave p.sync; closers = p.closers - 1 } in
      let st : Step p q = shutdown_ends (ground arith) refl in
      let (t, path, done) = goes q (Step-IsConsistent st c) w r (ground arith) in
      (t, Reach-then (next here st) path, done)
]

leaves :
    (p q : Object)
    → IsConsistent p
    → p.destroyer ≡ waiting
    → q ≡ record p { sync = recreate_leave p.sync; recreator = nobody }
    → Step p q
    → (t : Object) × Reach p t × (t.destroyer ≡ destroying)
leaves p q c w e st =
    let (t, path, done) = closes q (Step-IsConsistent st c) (ground arith) (ground arith) in
    (t, Reach-then (next here st) path, done)

-- No deadlock: from every state that the interleavings reach with the destructor in its wait, some
-- steps of the threads take it past its wait.
pub destructor_can_go :
    (p : Object)
    → Reach fresh p
    → p.destroyer ≡ waiting
    → (q : Object) × Reach p q × (q.destroyer ≡ destroying)
destructor_can_go p reached w =
    let c = Reach-IsConsistent reached in
    elim (Recreator-cases p.recreator) [
      | inl r ↦ closes p c w r
      | inr (inl r) ↦ leaves p _ c w refl (drain_timeout r refl)
      | inr (inr r) ↦ leaves p _ c w refl (recreate_ends r refl)
    ]

-- The steps that the calls inside have before them.
abbrev steps_left : Object → ℕ
steps_left p = 2 * p.leased + p.holding

abbrev Drains : Object → Type 0
Drains p = (q : Object) × Reach p q × (q.recreator ≡ rebuilding)

first : {p q : Object} → Step p q → Drains q → Drains p
first st (r, path, done) = (r, Reach-then (next here st) path, done)

-- Nobody is inside any more.
drained_at :
    (p : Object) → IsConsistent p → p.recreator ≡ draining → p.leased + p.holding ≡ 0 → Drains p
drained_at p c r z = (
  record p { recreator = rebuilding },
  next here (drained r (omega (arith, c.leases)) refl),
  refl,
)

drains :
    (n : ℕ) (p : Object) → IsConsistent p → p.recreator ≡ draining → steps_left p ≤ n → Drains p
drains zero p c r h = drained_at p c r (omega arith)
drains (suc n) p c r h = elim (zero_or_more p.holding) [
  | inr k ↦
      let q = record p { sync = lease_leave active p.sync; holding = p.holding - 1 } in
      let st : Step p q = call_ends k refl in
      first st (drains n q (Step-IsConsistent st c) r (omega arith))
  | inl none_holds ↦ elim (zero_or_more p.leased) [
    | inr k ↦
        let q = record p { leased = p.leased - 1; holding = p.holding + 1 } in
        let st : Step p q = pointer_copied k refl in
        first st (drains n q (Step-IsConsistent st c) r (omega arith))
    | inl none_leased ↦ drained_at p c r (omega arith)
  ]
]

-- No call can hold up a re-creation for good: from every state that the interleavings reach with a
-- re-creation in its wait, some steps of the threads take it past its wait.
pub recreation_can_go :
    (p : Object)
    → Reach fresh p
    → p.recreator ≡ draining
    → (q : Object) × Reach p q × (q.recreator ≡ rebuilding)
recreation_can_go p reached r = drains (steps_left p) p (Reach-IsConsistent reached) r (omega arith)
