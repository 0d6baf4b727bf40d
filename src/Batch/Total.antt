-- ===== src/Batch/Total.antt =====
-- `batchRead` ends: its attempts are counted, and the fuel is for one backoff delay.
use net_way.Prelude.{
  ℕ, zero, suc, ◌+◌, ◌%◌, ◌^◌, ◌<◌, ◌≡◌, refl, ◌∙◌, sym, subst, List, length, ltb, ◌==◌, Option,
  none, some, arith, if-keeps, match-keeps,
}
use net_way.RichError.{
  ErrorCode, Result, ok, err, internal_error, already_terminated, budget_exceeded,
  service_retry_exhausted,
}
use net_way.Sdk.{Sdk}
use net_way.Impl.{Impl, State, get_effective_stop_signal, call, now_ms_impl}
use net_way.Impl.Frame.{Frame, Frame-refl, Frame-trans, call-Frame}
use net_way.Impl.Rounds.{on_impl, enter_task, leave_task}
use net_way.Impl.Watchdog.Backoff.{delay_function-Returns}
use net_way.Batch.{
  NodeName, NodeId, ReadResult, Services, refusal, read_request, connection_lost_status,
  read_answer,
}
use net_way.Batch.Run.{prepared, read_attempts, batch_read}

module _ {W : Type 0} (sdk : Sdk W) where
  module _ (lib : Services W) where
    -- The run gave a result, and left the members of the frame as they were.
    abbrev pub ReturnsFrom : Impl → Option (Result (List ReadResult) ErrorCode × State W) → Type 0
    ReturnsFrom i o =
        (r : Result (List ReadResult) ErrorCode) × (s1 : State W) × (o ≡ some (r, s1))
        × Frame i s1.impl

    returned :
        {i : Impl} (r : Result (List ReadResult) ErrorCode) (s1 : State W)
        → Frame i s1.impl
        → ReturnsFrom i (some (r, s1))
    returned r s1 f = (r, s1, refl, f)

    read_attempts-Returns :
        (fuel : ℕ) (ns : List NodeId) (request : List (ℕ × NodeName)) (start left retry : ℕ)
        (s : State W)
        → s.m_config.retry_max_backoff_ms < fuel
        → ReturnsFrom s.impl (read_attempts lib sdk fuel ns request start left retry s)
    unfolding read_attempts now_ms_impl
    read_attempts-Returns fuel ns request start zero retry s h =
        returned (err internal_error) s (Frame-refl s.impl)
    read_attempts-Returns fuel ns request start (suc left) retry s h =
        let (now, s1) = now_ms_impl sdk s in
        let asked = call-Frame sdk (lib.service_read request) s1 in
        let (response, s2) = call sdk (lib.service_read request) s1 in
        let (s3, e, f) =
          delay_function-Returns sdk fuel retry s2
            (subst (λ c. c.retry_max_backoff_ms < fuel) (sym asked.same_config) h) in
        let (r, s4, e4, f4) = read_attempts-Returns fuel ns request start left (retry + 1) s3 (
          subst (λ c. c.retry_max_backoff_ms < fuel) (sym (f.same_config ∙ asked.same_config)) h) in
        let P = ReturnsFrom s.impl in
        let still = Frame-refl s.impl in
        if-keeps P (get_effective_stop_signal s.impl) (returned (err already_terminated) s still) (
          if-keeps P (ltb (start + s.m_config.max_total_wait_ms) now)
            (returned (err budget_exceeded) s1 still)
            (match-keeps P (refusal s1.impl)
              (if-keeps P (connection_lost_status lib response.service_result)
                (if-keeps P (retry == s2.m_config.max_retries)
                  (returned (err service_retry_exhausted) s2 asked)
                  (rw e (r, s4, e4, Frame-trans asked (Frame-trans f f4))))
                (returned (read_answer sdk ns response) s2 asked))
              (λ c. returned (err c) s1 still)))

    prepared-Frame :
        {V R : Type 0} (request : W → List V → Result R ErrorCode) (vs : List V) (s : State W)
        → Frame s.impl (prepared lib sdk request vs s).1.impl
    unfolding prepared
    prepared-Frame request vs s =
        ground (arith, Frame-refl s.impl, call-Frame sdk (lib.array_new (length vs)) s)

    task-Frame : (i j : Impl) → Frame (enter_task i) j → Frame i (leave_task j)
    unfolding leave_task enter_task
    task-Frame i j f = ground arith

    -- With more fuel than `retryMaxBackoffMs`, `batchRead` returns for every batch, configuration
    -- and behaviour of the library; it leaves the client's pointer, configuration, connection slot
    -- and task counter as they were, and a client that has given up stays so.
    pub batch_read-Returns :
        (fuel : ℕ) (ns : List NodeId) (s : State W)
        → s.m_config.retry_max_backoff_ms < fuel
        → ReturnsFrom s.impl (batch_read lib sdk fuel ns s)
    unfolding batch_read now_ms_impl enter_task
    batch_read-Returns fuel ns s h =
        let p = prepared lib sdk (λ w. read_request lib w 0) ns (on_impl enter_task s) in
        let f = prepared-Frame (λ w. read_request lib w 0) ns (on_impl enter_task s) in
        if-keeps (ReturnsFrom s.impl) (get_effective_stop_signal s.impl)
          (returned (err already_terminated) s (Frame-refl s.impl)) (rest p.0 p.1 f)
      where
        rest :
            (r : Result (List (ℕ × NodeName)) ErrorCode) (s1 : State W)
            → Frame (enter_task s.impl) s1.impl
            → ReturnsFrom s.impl (elim r [
              | err e ↦ some (err e, on_impl leave_task s1)
              | ok request ↦
                  elim (read_attempts lib sdk fuel ns request
                    (now_ms_impl sdk s1).0
                    ((s1.m_config.max_retries + 1) % 2 ^ 32)
                    0
                    (now_ms_impl sdk s1).1) [
                      | none ↦ none
                      | some (r, s3) ↦ some (r, on_impl leave_task s3)
                    ]
            ])
        rest (err e) s1 f = returned (err e) (on_impl leave_task s1) (task-Frame s.impl s1.impl f)
        rest (ok request) s1 f =
            let (r, s2, e, g) =
              read_attempts-Returns fuel ns request (now_ms_impl sdk s1).0
                ((s1.m_config.max_retries + 1) % 2 ^ 32) 0 (now_ms_impl sdk s1).1
                (subst (λ c. c.retry_max_backoff_ms < fuel) (sym f.same_config) h) in
            rw e (returned r (on_impl leave_task s2) (task-Frame s.impl s2.impl (Frame-trans f g)))
