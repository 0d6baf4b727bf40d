-- ===== src/Batch/Calls.antt =====
-- When `batchWrite` calls the write service, and what it reports of the answer.
use net_way.Prelude.{
  ℕ, zero, suc, ◌≡◌, ◌<◌, ◌⊎◌, inl, inr, refl, ap, true, false, ◌&&◌, List, [], ◌∷◌, ltb, ◌==◌,
  length, none, some, arith, Bool-cases, Option-cases, ◌∙◌, if-keeps, match-keeps, All, map,
}
use net_way.RichError.{ErrorCode, Result, ok, err, is_fail, no_error, sdk_error, service_failed}
use net_way.Values.{UaVariant}
use net_way.Sdk.{Sdk, WriteResponse}
use net_way.Impl.{State, get_effective_stop_signal, call}
use net_way.Impl.Rounds.{on_impl, enter_task, leave_task}
use net_way.Batch.{
  NodeName, WriteResult, good, bad, WriteValue, Services, refusal, write_request, write_item,
  write_items, write_answer,
}
use net_way.Batch.Run.{prepared, batch_write}

module _ {W : Type 0} (lib : Services W) (sdk : Sdk W) where
  -- Before the attempts nothing but the array has been asked of the library.
  prepared_world :
      {V R : Type 0} (request : W → List V → Result R ErrorCode) (vs : List V) (s : State W)
      → let p = prepared lib sdk request vs s in
        let w1 = (lib.array_new (length vs) s.world).world in
        ((is_fail p.0 ≡ true) × ((p.1.world ≡ s.world) ⊎ (p.1.world ≡ w1)))
        ⊎ ((r : R) × (p.0 ≡ ok r) × (request w1 vs ≡ ok r) × (p.1.world ≡ w1))
  unfolding prepared call is_fail
  prepared_world request vs s = ground arith

  -- The service is asked once, with the whole request, and its answer is the result.
  abbrev pub IsAsked :
      List WriteValue → State W → Result (List WriteResult) ErrorCode × State W → Type 0
  IsAsked vs s o =
      let w1 = (lib.array_new (length vs) s.world).world in
      (request : List ((ℕ × NodeName) × UaVariant)) × (write_request lib w1 0 vs ≡ ok request)
      × (o.1.world ≡ (lib.service_write request w1).world)
      × (o.0 ≡ write_answer sdk (length vs) (lib.service_write request w1).value)

  -- A `batchWrite` asks the write service at most once, whatever happens: either it fails, and of
  -- the library at most the request's array was taken, or every value of the batch was converted
  -- and the service was called exactly once, with the whole batch, and its answer is the result.
  pub batch_write_once :
      (vs : List WriteValue) (s : State W)
      → ((is_fail (batch_write lib sdk vs s).0 ≡ true)
          × (((batch_write lib sdk vs s).1.world ≡ s.world)
              ⊎ ((batch_write lib sdk vs s).1.world ≡ (lib.array_new (length vs) s.world).world)))
        ⊎ IsAsked vs s (batch_write lib sdk vs s)
  unfolding batch_write is_fail call
  batch_write_once vs s =
      let p = prepared lib sdk (λ w. write_request lib w 0) vs (on_impl enter_task s) in
      let known = prepared_world (λ w. write_request lib w 0) vs (on_impl enter_task s) in
      if-keeps Once (get_effective_stop_signal s.impl) (inl (refl, inl refl)) (rest p.0 p.1 known)
    where
      w1 : W
      w1 = (lib.array_new (length vs) s.world).world

      Once : Result (List WriteResult) ErrorCode × State W → Type 0
      Once o = ((is_fail o.0 ≡ true) × ((o.1.world ≡ s.world) ⊎ (o.1.world ≡ w1))) ⊎ IsAsked vs s o

      rest :
          (r : Result (List ((ℕ × NodeName) × UaVariant)) ErrorCode) (s1 : State W)
          → ((is_fail r ≡ true) × ((s1.world ≡ s.world) ⊎ (s1.world ≡ w1)))
            ⊎ ((q : List ((ℕ × NodeName) × UaVariant)) × (r ≡ ok q)
                × (write_request lib w1 0 vs ≡ ok q)
                × (s1.world ≡ w1))
          → Once (elim r [
            | err e ↦ (err e, on_impl leave_task s1)
            | ok request ↦ elim (refusal s1.impl) [
              | some e ↦ (err e, on_impl leave_task s1)
              | none ↦
                  let (response, s2) = call sdk (lib.service_write request) s1 in
                  (write_answer sdk (length vs) response, on_impl leave_task s2)
            ]
          ])
      rest (err e) s1 (inl (f, w)) = inl (refl, w)
      rest (err e) s1 (inr (q, h, k, w)) = absurd (ground arith)
      rest (ok q) s1 (inl (f, w)) = absurd (ground arith)
      rest (ok q) s1 (inr (q1, h, k, w)) =
          match-keeps Once (refusal s1.impl)
            (inr (
              q,
              ground arith,
              ap (λ x. (lib.service_write q x).world) w,
              ap (λ x. write_answer sdk (length vs) (lib.service_write q x).value) w,
            ))
            (λ e. inl (refl, inr w))

module _ {W : Type 0} (sdk : Sdk W) where
  -- GOOD and OK for a good status, and BAD and SDK_ERROR for any other.
  abbrev pub IsReported : WriteResult → Type 0
  IsReported r =
      (sdk.is_good r.raw_status ≡ true → (r.status ≡ good) × (r.error_code ≡ no_error))
      × (sdk.is_good r.raw_status ≡ false → (r.status ≡ bad) × (r.error_code ≡ sdk_error))

  write_items-IsReported :
      (n : ℕ) (is : List ℕ)
      → length is ≡ n
      → (length (write_items sdk n is) ≡ n)
        × (map (λ r. r.raw_status) (write_items sdk n is) ≡ is)
        × All IsReported (write_items sdk n is)
  unfolding write_items write_item
  write_items-IsReported zero [] h = (refl, refl, tt)
  write_items-IsReported zero (i ∷ is) h = absurd (omega arith)
  write_items-IsReported (suc n) [] h = absurd (omega arith)
  write_items-IsReported (suc n) (i ∷ is) h =
      let (l, m, a) = write_items-IsReported n is (omega arith) in
      (ap suc l, raw_item i (write_items sdk n is) m, (reported i, a))
    where
      reported : (i : ℕ) → IsReported (write_item sdk i)
      reported i = (λ g. ground arith, λ g. ground arith)

      raw_item :
          (i : ℕ) (rs : List WriteResult)
          → map (λ r. r.raw_status) rs ≡ is
          → map (λ r. r.raw_status) (write_item sdk i ∷ rs) ≡ i ∷ is
      raw_item i rs m = ground arith

  -- The write service's answer is a success exactly when the service did well and gave one status
  -- for each value of a batch that is not empty; then there is one result for each value, in order,
  -- with its raw status, reported as GOOD and OK, or as BAD and SDK_ERROR. This is for responses
  -- that carry as many results as they say.
  pub write_answer-IsReported :
      (count : ℕ) (r : WriteResponse)
      → ((is : List ℕ) → r.results ≡ some is → length is ≡ r.results_size)
      → ((sdk.is_good r.service_result ≡ true)
          × (0 < count)
          × ((is : List ℕ) × (r.results ≡ some is)
              × (length is ≡ count)
              × ((rs : List WriteResult) × (write_answer sdk count r ≡ ok rs)
                  × (length rs ≡ count)
                  × (map (λ r. r.raw_status) rs ≡ is)
                  × All IsReported rs)))
        ⊎ (write_answer sdk count r ≡ err service_failed)
  unfolding write_answer
  write_answer-IsReported count r full =
      elim (Bool-cases
        (sdk.is_good r.service_result && ltb 0 r.results_size && (r.results_size == count))) [
          | inr fails ↦ inr (rw fails refl)
          | inl works ↦ elim (Option-cases r.results) [
            | inl absent ↦ inr (rw (works, absent) refl)
            | inr (is, e) ↦
                let size : r.results_size ≡ count = ground arith in
                let (l, m, a) = write_items-IsReported r.results_size is (full is e) in
                inl (
                  ground arith,
                  ground arith,
                  (
                    is,
                    e,
                    full is e ∙ size,
                    (write_items sdk r.results_size is, rw (works, e) refl, l ∙ size, m, a),
                  ),
                )
          ]
        ]
