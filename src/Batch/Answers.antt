-- ===== src/Batch/Answers.antt =====
-- What a batch of reads or writes answers, item by item.
use net_way.Prelude.{
  ℕ, zero, suc, ◌+◌, ◌%◌, ◌^◌, ◌≡◌, ◌≢◌, ◌⊎◌, inl, inr, refl, ap, Bool, true, false, List, [], ◌∷◌,
  ltb, ◌==◌, length, not, ◌||◌, if◌then◌else◌, Option, none, some, arith, Bool-cases, Option-cases,
  ◌∙◌, sym, ==_iff, if-keeps, match-keeps, subst,
}
use net_way.RichError.Laws.{result_keeps}
use net_way.RichError.{
  ErrorCode, Result, ok, err, no_error, sdk_error, type_mismatch, type_notsupport,
}
use net_way.Values.{
  S7DataType, ValueType, UaVariant, empty, foreign, null_string, array, scalar, Alternative, traits,
  alternative_of, same_alternative, read_dispatch, set_normal_scalar, read_convert,
}
use net_way.Values.RoundTrip.{same_eq, same_refl}
use net_way.Sdk.{Sdk, ReadResponse}
use net_way.Impl.{State, get_effective_stop_signal, is_healthy_cached, call, now_ms_impl}
use net_way.Impl.Rounds.{on_impl, enter_task, leave_task}
use net_way.Impl.Watchdog.{delay_function}
use net_way.Batch.{
  NodeName, NodeId, ReadResult, Services, refusal, read_request, connection_lost_status, read_item,
  read_items, read_answer,
}
use net_way.Batch.Run.{prepared, read_attempts, batch_read}

-- A variant that does not hold a scalar of the data type.
abbrev pub Unfit : S7DataType → UaVariant → Type 0
Unfit t v = (x : ValueType) → v ≡ scalar x → traits t ≢ some (alternative_of x)

some_inj : {a b : Alternative} → some a ≡ some b → a ≡ b
some_inj e = ground arith

true_is_false : true ≡ false → ⊥
true_is_false e = ground arith

scalar_inj : {x y : ValueType} → scalar x ≡ scalar y → x ≡ y
scalar_inj e = ground arith

convert-cases :
    (t : S7DataType) (a : Alternative) (v : UaVariant)
    → traits t ≡ some a
    → ((x : ValueType) × (v ≡ scalar x)
        × (set_normal_scalar a v ≡ (ok tt, some x))
        × (traits t ≡ some (alternative_of x)))
      ⊎ ((set_normal_scalar a v ≡ (err type_mismatch, none)) × Unfit t v)
unfolding set_normal_scalar read_convert
convert-cases t a empty h = inr (refl, λ x e. absurd (ground arith))
convert-cases t a foreign h = inr (refl, λ x e. absurd (ground arith))
convert-cases t a null_string h = inr (refl, λ x e. absurd (ground arith))
convert-cases t a (array b) h = inr (refl, λ x e. absurd (ground arith))
convert-cases t a (scalar x) h = elim (Bool-cases (same_alternative a (alternative_of x))) [
  | inl same ↦
      inl (
        x,
        refl,
        rw (set_normal_scalar, same) refl,
        h ∙ ap some (same_eq a (alternative_of x) same),
      )
  | inr other ↦ inr (rw (set_normal_scalar, other) refl, λ y e k. unlike y e k other)
]
  where
    unlike :
        (y : ValueType)
        → scalar x ≡ scalar y
        → traits t ≡ some (alternative_of y)
        → same_alternative a (alternative_of x) ≡ false
        → ⊥
    unlike y e k other =
        let alike : a ≡ alternative_of x =
          some_inj (sym h ∙ k) ∙ ap alternative_of (sym (scalar_inj e)) in
        true_is_false (
          sym (same_refl (alternative_of x))
          ∙ ap (λ b. same_alternative b (alternative_of x)) (sym alike)
          ∙ other)

dispatch-cases :
    (t : S7DataType) (v : UaVariant)
    → ((x : ValueType) × (v ≡ scalar x)
        × (read_dispatch t v none ≡ (ok tt, some x))
        × (traits t ≡ some (alternative_of x)))
      ⊎ ((e : ErrorCode) × (read_dispatch t v none ≡ (err e, none)) × (e ≢ no_error) × Unfit t v)
unfolding read_dispatch
dispatch-cases t v = elim (Option-cases (traits t)) [
  | inl absent ↦ inr (
    type_notsupport,
    rw (read_dispatch, absent) refl,
    λ e. ground arith,
    λ x s k. none_is_some (sym absent ∙ k),
  )
  | inr (a, h) ↦ elim (convert-cases t a v h) [
    | inl (x, s, e, k) ↦ inl (x, s, rw (read_dispatch, h) e, k)
    | inr (e, u) ↦ inr (type_mismatch, rw (read_dispatch, h) e, λ e. ground arith, u)
  ]
]
  where
    none_is_some : {a : Alternative} → none ≡ some a → ⊥
    none_is_some e = ground arith

module _ {W : Type 0} (sdk : Sdk W) where
  -- The answer to a node for an item of the response: its status; and OK with the item's value, if
  -- the status is good and the value of the node's data type; or no value and an error, otherwise.
  abbrev pub IsAnswer : NodeId → ℕ × UaVariant → ReadResult → Type 0
  IsAnswer n (status, v) r =
      (r.raw_status ≡ status)
      × (((r.error_code ≡ no_error)
            × (sdk.is_good status ≡ true)
            × ((x : ValueType) × (v ≡ scalar x)
                × (r.value ≡ some x)
                × (traits n.data_type ≡ some (alternative_of x))))
          ⊎ ((r.error_code ≢ no_error)
              × (r.value ≡ none)
              × ((sdk.is_good status ≡ false) ⊎ Unfit n.data_type v)))

  -- One answer for each node and item, in their order.
  abbrev pub Answered : List NodeId → List (ℕ × UaVariant) → List ReadResult → Type 0
  Answered [] [] [] = Unit {0}
  Answered (n ∷ ns) (i ∷ is) (r ∷ rs) = IsAnswer n i r × Answered ns is rs
  Answered _ _ _ = ⊥

  read_item-IsAnswer : (n : NodeId) (i : ℕ × UaVariant) → IsAnswer n i (read_item sdk n i)
  unfolding read_item
  read_item-IsAnswer n (status, v) = elim (dispatch-cases n.data_type v) [
    | inl (x, s, e, t) ↦ rw e (valued (sdk.is_good status) refl x s t)
    | inr (c, e, ne, u) ↦ rw e (failed (sdk.is_good status) refl c ne u)
  ]
    where
      valued :
          (g : Bool)
          → g ≡ sdk.is_good status
          → (x : ValueType) → v ≡ scalar x
          → traits n.data_type ≡ some (alternative_of x)
          → IsAnswer n
              (status, v)
              (if g
                then record { raw_status = status; error_code = no_error; value = some x }
                else record { raw_status = status; error_code = sdk_error; value = none })
      valued true g x s t = (refl, inl (refl, sym g, (x, s, refl, t)))
      valued false g x s t = (refl, inr (λ e. ground arith, refl, inl (sym g)))

      failed :
          (g : Bool)
          → g ≡ sdk.is_good status
          → (c : ErrorCode) → c ≢ no_error
          → Unfit n.data_type v
          → IsAnswer n
              (status, v)
              (if g
                then record { raw_status = status; error_code = c; value = none }
                else record { raw_status = status; error_code = sdk_error; value = none })
      failed true g c ne u = (refl, inr (ne, refl, inr u))
      failed false g c ne u = (refl, inr (λ e. ground arith, refl, inl (sym g)))

  pub read_items-Answered :
      (ns : List NodeId) (is : List (ℕ × UaVariant))
      → length is ≡ length ns
      → Answered ns is (read_items sdk ns is)
  unfolding read_items
  read_items-Answered [] [] h = tt
  read_items-Answered [] (i ∷ is) h = absurd (omega arith)
  read_items-Answered (n ∷ ns) [] h = absurd (omega arith)
  read_items-Answered (n ∷ ns) (i ∷ is) h =
      (read_item-IsAnswer n i, read_items-Answered ns is (omega arith))

  -- `results` has as many items as `resultsSize` says.
  abbrev pub IsFull : ReadResponse UaVariant → Type 0
  IsFull r = (items : List (ℕ × UaVariant)) → r.results ≡ some items → length items ≡ r.results_size

  -- The results answer the items of a response.
  abbrev pub Answers : List NodeId → ReadResponse UaVariant → List ReadResult → Type 0
  Answers ns r rs = (items : List (ℕ × UaVariant)) × (r.results ≡ some items) × Answered ns items rs

  abbrev Holds : (List ReadResult → Type 0) → Result (List ReadResult) ErrorCode → Type 0
  Holds P (ok rs) = P rs
  Holds P (err e) = Unit {0}

  read_answer-Holds :
      (ns : List NodeId) (r : ReadResponse UaVariant)
      → IsFull r
      → Holds (Answers ns r) (read_answer sdk ns r)
  unfolding read_answer
  read_answer-Holds ns r full = elim (Bool-cases (sdk.is_good r.service_result)) [
    | inr fails ↦ rw (read_answer, fails) tt
    | inl works ↦ elim (Bool-cases (r.results_size == length ns)) [
      | inr other ↦ rw (read_answer, works, other) tt
      | inl size ↦ elim (Option-cases r.results) [
        | inl absent ↦ rw (read_answer, works, size, absent) tt
        | inr (items, e) ↦
            let right =
              read_items-Answered ns items
                (full items e ∙ (==_iff r.results_size (length ns)).0 size) in
            let given : read_answer sdk ns r ≡ ok (read_items sdk ns items) =
              rw (read_answer, works, size, e) refl in
            subst (Holds (Answers ns r)) (sym given) (items, e, right)
      ]
    ]
  ]

  abbrev Outcomes :
      (List ReadResult → Type 0) → Option (Result (List ReadResult) ErrorCode × State W) → Type 0
  Outcomes P none = Unit {0}
  Outcomes P (some (r, s)) = Holds P r

  module _ (lib : Services W)
      (full : (request : List (ℕ × NodeName)) (w : W)
        → IsFull (lib.service_read request w).value) where
    -- The results answer what the service says, in some state of the world, to the request that the
    -- nodes make.
    abbrev pub IsServed : List NodeId → List (ℕ × NodeName) → List ReadResult → Type 0
    IsServed ns request rs = (w : W) × Answers ns (lib.service_read request w).value rs

    abbrev pub IsRequest : List NodeId → List (ℕ × NodeName) → Type 0
    IsRequest ns request = (w : W) × (read_request lib w 0 ns ≡ ok request)

    abbrev pub FromService : List NodeId → List ReadResult → Type 0
    FromService ns rs =
        (request : List (ℕ × NodeName)) × IsRequest ns request × IsServed ns request rs

    IsServed-Holds :
        (ns : List NodeId) (request : List (ℕ × NodeName)) (w : W)
        (r : Result (List ReadResult) ErrorCode)
        → Holds (Answers ns (lib.service_read request w).value) r
        → Holds (IsServed ns request) r
    IsServed-Holds ns request w (ok rs) h = (w, h)
    IsServed-Holds ns request w (err e) h = tt

    read_attempts-Outcomes :
        (fuel : ℕ) (ns : List NodeId) (request : List (ℕ × NodeName)) (start left retry : ℕ)
        (s : State W)
        → Outcomes (IsServed ns request) (read_attempts lib sdk fuel ns request start left retry s)
    unfolding read_attempts call
    read_attempts-Outcomes fuel ns request start zero retry s = tt
    read_attempts-Outcomes fuel ns request start (suc left) retry s =
        let (now, s1) = now_ms_impl sdk s in
        let (response, s2) = call sdk (lib.service_read request) s1 in
        let again = read_attempts-Outcomes fuel ns request start left (retry + 1) in
        let answer =
          IsServed-Holds ns request s1.world (read_answer sdk ns response)
            (read_answer-Holds ns response (full request s1.world)) in
        let P = Outcomes (IsServed ns request) in
        if-keeps P (get_effective_stop_signal s.impl) tt (
          if-keeps P (ltb (start + s.m_config.max_total_wait_ms) now) tt (
            match-keeps P (refusal s1.impl)
              (if-keeps P (connection_lost_status lib response.service_result)
                (if-keeps P (retry == s2.m_config.max_retries) tt
                  (match-keeps P (delay_function sdk fuel retry s2) tt again))
                answer)
              (λ e. tt)))

    abbrev Requests : List NodeId → Result (List (ℕ × NodeName)) ErrorCode × State W → Type 0
    Requests ns (ok request, s) = IsRequest ns request
    Requests ns (err e, s) = Unit {0}

    prepared-Requests :
        (ns : List NodeId) (s : State W)
        → Requests ns (prepared lib sdk (λ w. read_request lib w 0) ns s)
    unfolding prepared
    prepared-Requests ns s =
        let P = Requests ns in
        let (made, s1) = call sdk (lib.array_new (length ns)) s in
        match-keeps P (refusal s.impl)
          (if-keeps P (length ns == 0) tt (
            if-keeps P (not (is_healthy_cached sdk s.impl)) tt (
              if-keeps P (not made) tt (
                result_keeps P (read_request lib s1.world 0 ns) (λ e h. tt)
                  (λ request h.
                    if-keeps P (not s1.m_impl || get_effective_stop_signal s1.impl) tt
                      (s1.world, h))))))
          (λ e. tt)

    -- If every response of the service that carries results carries as many as it says, then a
    -- `batchRead` that succeeds gives the service's answer to the request that its nodes make: result
    -- k answers item k of the response for node k, with the item's status; either OK with the item's
    -- value, where the status is good and the value is of the alternative that belongs to the node's
    -- data type, or an error and no value, where it is not.
    pub batch_read-Answered :
        (fuel : ℕ) (ns : List NodeId) (s s1 : State W) {rs : List ReadResult}
        → batch_read lib sdk fuel ns s ≡ some (ok rs, s1)
        → FromService ns rs
    unfolding batch_read
    batch_read-Answered fuel ns s s1 h = subst (Outcomes (FromService ns)) h outcomes
      where
        leaving :
            (request : List (ℕ × NodeName))
            → IsRequest ns request
            → (o : Option (Result (List ReadResult) ErrorCode × State W))
            → Outcomes (IsServed ns request) o
            → Outcomes
                (FromService ns)
                (elim o [ none ↦ none | some (r, s3) ↦ some (r, on_impl leave_task s3) ])
        leaving request q none k = tt
        leaving request q (some (ok rs, s3)) k = (request, q, k)
        leaving request q (some (err e, s3)) k = tt

        rest :
            (r : Result (List (ℕ × NodeName)) ErrorCode) (s1 : State W)
            → Requests ns (r, s1)
            → Outcomes (FromService ns) (elim r [
              | err e ↦ some (err e, on_impl leave_task s1)
              | ok request ↦
                  elim (read_attempts lib sdk fuel ns request
                    (now_ms_impl sdk s1).0
                    ((s1.m_config.max_retries + 1) % 2 ^ 32)
                    0
                    (now_ms_impl sdk s1).1) [
                      | none ↦ none
                      | some (r, s3) ↦ some (r, on_impl leave_task s3)
                    ]
            ])
        rest (err e) s1 q = tt
        rest (ok request) s1 q =
            leaving request q
              (read_attempts lib sdk fuel ns request (now_ms_impl sdk s1).0
                ((s1.m_config.max_retries + 1) % 2 ^ 32) 0 (now_ms_impl sdk s1).1)
              (read_attempts-Outcomes fuel ns request (now_ms_impl sdk s1).0
                ((s1.m_config.max_retries + 1) % 2 ^ 32) 0 (now_ms_impl sdk s1).1)

        outcomes : Outcomes (FromService ns) (batch_read lib sdk fuel ns s)
        outcomes =
            let p = prepared lib sdk (λ w. read_request lib w 0) ns (on_impl enter_task s) in
            if-keeps (Outcomes (FromService ns)) (get_effective_stop_signal s.impl) tt
              (rest p.0 p.1 (prepared-Requests ns (on_impl enter_task s)))
