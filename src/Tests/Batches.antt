-- ===== src/Tests/Batches.antt =====
-- Conversions and batches on a service that answers every request.
use net_way.Prelude.{ℕ, ◌+◌, ◌≡◌, ◌⊎◌, refl, Bool, true, List, [], ◌∷◌, none, some, arith}
use net_way.Prelude.Int.{pos}
use net_way.RichError.{ErrorCode, Result, ok, is_fail, no_error, sdk_error}
use net_way.Life.{running}
use net_way.Values.{
  ValueType, int16_value, UaVariant, scalar, empty, int_type, bool_type, read_dispatch, traits,
  contains_embedded_nul, set_normal_scalar, read_convert,
}
use net_way.Sdk.{WriteResponse}
use net_way.Impl.{State, get_effective_stop_signal, is_healthy_cached, call, deliver, now_ms_impl}
use net_way.Impl.Frame.{Frame}
use net_way.Impl.Rounds.{enter_task, leave_task}
use net_way.Packed.{unpack_state}
use net_way.Batch.{
  NodeName, numeric_id, string_id, NodeId, WriteValue, ReadResult, Services, refusal, read_request,
  ua_node_id_alloc, read_answer, read_items, read_item, connection_lost_status,
}
use net_way.Batch.Run.{batch_read, batch_write, prepared, read_attempts}
use net_way.Batch.Answers.{batch_read-Answered, FromService, IsFull}
use net_way.Batch.Calls.{batch_write_once, IsAsked}
use net_way.Batch.Total.{batch_read-Returns}
use net_way.Tests.{up, client, running_client}

-- The copy always succeeds.
abbrev pub copying : ValueType → Bool × UaVariant
copying v = (true, scalar v)

-- A service that answers 7 for the first node and a bad status for the second, and accepts writes.
abbrev pub services : Services ℕ
services = record {
  bad_connection_closed = 2158886912;
  bad_communication_error = 2147811328;
  bad_session_id_invalid = 2149908480;
  bad_secure_channel_id_invalid = 2149711872;
  bad_not_connected = 2156527616;
  bad_secure_channel_closed = 2156265472;
  bad_server_not_connected = 2148335616;
  bad_timeout = 2148139008;
  bad_session_closed = 2149974016;
  array_new = λ n w. record { value = true; events = []; world = w + 1 };
  string_alloc = λ w index ns bytes. some bytes;
  scalar_copy = λ w index v. (true, scalar v);
  service_read = λ request w. record {
    value = record {
      service_result = 0;
      results_size = 2;
      results = some ((0, scalar (int16_value (pos 7))) ∷ (2150891520, empty) ∷ []);
    };
    events = [];
    world = w + 10;
  };
  service_write = λ request w. record {
    value = record { service_result = 0; results_size = 1; results = some (0 ∷ []) };
    events = [];
    world = w + 10;
  };
}

abbrev pub nodes : List NodeId
nodes =
    (record { ns = 2; id = numeric_id 5; data_type = int_type })
    ∷ (record { ns = 2; id = string_id (65 ∷ 66 ∷ []); data_type = bool_type })
    ∷ []

abbrev pub values : List WriteValue
values =
    (record {
      node = record { ns = 2; id = numeric_id 5; data_type = int_type };
      value = int16_value (pos 7);
    })
    ∷ []

abbrev results : List ReadResult
results =
    (record { raw_status = 0; error_code = no_error; value = some (int16_value (pos 7)) })
    ∷ (record { raw_status = 2150891520; error_code = sdk_error; value = none })
    ∷ []

abbrev after_read : State ℕ
after_read = record { impl = client running 772 0; world = 5000011 }

read_run : batch_read services up 5 nodes running_client ≡ some (ok results, after_read)
unfolding batch_read prepared refusal read_request ua_node_id_alloc contains_embedded_nul
    read_attempts read_answer read_items read_item read_dispatch traits set_normal_scalar
    read_convert connection_lost_status is_healthy_cached get_effective_stop_signal call deliver
    enter_task leave_task now_ms_impl unpack_state
read_run = refl

services-IsFull :
    (request : List (ℕ × NodeName)) (w : ℕ) → IsFull up (services.service_read request w).value
services-IsFull request w items h = ground arith

batch_read-Answered_example : FromService up services services-IsFull nodes results
batch_read-Answered_example =
    batch_read-Answered up services services-IsFull 5 nodes running_client after_read read_run

batch_read-Returns_example :
    (r : Result (List ReadResult) ErrorCode) × (s1 : State ℕ) × (batch_read services up 4001 nodes
        running_client
      ≡ some (r, s1))
    × Frame running_client.impl s1.impl
batch_read-Returns_example = batch_read-Returns up services 4001 nodes running_client (omega arith)

batch_write_once_example :
    ((is_fail (batch_write services up values running_client).0 ≡ true)
      × (((batch_write services up values running_client).1.world ≡ 5000000)
          ⊎ ((batch_write services up values running_client).1.world ≡ 5000001)))
    ⊎ IsAsked services up values running_client (batch_write services up values running_client)
batch_write_once_example = batch_write_once services up values running_client

abbrev answer : WriteResponse
answer = record { service_result = 0; results_size = 2; results = some (0 ∷ 2150891520 ∷ []) }
