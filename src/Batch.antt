-- ===== src/Batch.antt =====
-- The node and result types of `ua.h`, and of `src/OPCUAPacking/ua.cpp` `uaNodeIDAlloc`, the requests
-- that `batchRead` and `batchWrite` build and what they make of the answers. The library's
-- allocations and its two services are a parameter.
pub mod Responses
pub mod Answers
pub mod Calls
pub mod Guards
pub mod Total
pub mod Run
use net_way.Prelude.{
  ℕ, zero, suc, ◌+◌, ◌%◌, ◌^◌, Bool, true, false, not, ◌&&◌, ◌||◌, List, [], ◌∷◌, ltb, ◌==◌, length,
  if◌then◌else◌, Option, none, some,
}
use net_way.RichError.{
  ErrorCode, Result, ok, err, no_error, sdk_error, invalid_argument, internal_error, not_connected,
  thread_busy, already_terminated, budget_exceeded, service_retry_exhausted, service_failed,
}
use net_way.Life.{LifeState, running, recovering, given_up, same_life}
use net_way.Values.{
  S7DataType, ValueType, UaVariant, read_dispatch, write_dispatch, contains_embedded_nul,
}
use net_way.Sdk.{Sdk, Reply, ReadResponse, WriteResponse}
use net_way.Impl.{
  Impl, State, ConnState, idle, connecting, get_effective_stop_signal, is_healthy_cached, call,
  now_ms_impl,
}
use net_way.Impl.Rounds.{on_impl, enter_task, leave_task}
use net_way.Impl.Watchdog.{delay_function}

-- The `std::variant<std::string, uint32_t>` of a `NodeId`.
pub data NodeName : Type 0 where
  string_id : List ℕ → NodeName
  numeric_id : ℕ → NodeName

pub record NodeId : Type 0 where
  pub ns : ℕ
  pub id : NodeName
  pub data_type : S7DataType

pub record WriteValue : Type 0 where
  pub node : NodeId
  pub value : ValueType

pub record ReadResult : Type 0 where
  pub raw_status : ℕ
  pub error_code : ErrorCode
  pub value : Option ValueType

pub data WriteStatus : Type 0 where
  good bad : WriteStatus

pub record WriteResult : Type 0 where
  pub status : WriteStatus
  pub error_code : ErrorCode
  pub raw_status : ℕ

-- What the two operations take from the library. Whether an allocation succeeds is read off the
-- world and the item's place; `array_new` stands for the time that the preparation takes, so it
-- carries what the other threads do meanwhile.
pub record Services (W : Type 0) : Type 0 where
  pub bad_connection_closed : ℕ
  pub bad_communication_error : ℕ
  pub bad_session_id_invalid : ℕ
  pub bad_secure_channel_id_invalid : ℕ
  pub bad_not_connected : ℕ
  pub bad_secure_channel_closed : ℕ
  pub bad_server_not_connected : ℕ
  pub bad_timeout : ℕ
  pub bad_session_closed : ℕ
  pub array_new : ℕ → W → Reply W Bool
  -- the bytes of the STRING node id, or `none` when the allocation failed
  pub string_alloc : W → (index ns : ℕ) → List ℕ → Option (List ℕ)
  pub scalar_copy : W → (index : ℕ) → ValueType → Bool × UaVariant
  pub service_read : List (ℕ × NodeName) → W → Reply W (ReadResponse UaVariant)
  pub service_write : List ((ℕ × NodeName) × UaVariant) → W → Reply W WriteResponse

-- The tests of the life state and the connection slot, which both operations make twice or more.
unfoldable pub refusal : Impl → Option ErrorCode
refusal i =
    if same_life i.m_life_state given_up
    then some not_connected
    else if same_life i.m_life_state recovering
    then some not_connected
    else elim i.m_conn_state [ idle ↦ none | connecting ↦ some thread_busy ]

module _ {W : Type 0} (sdk : Sdk W) where
  unfoldable pub read_item : NodeId → ℕ × UaVariant → ReadResult
  read_item n (status, variant) =
      let (r, v) = read_dispatch n.data_type variant none in
      if sdk.is_good status
      then record {
        raw_status = status;
        error_code = elim r [ ok _ ↦ no_error | err e ↦ e ];
        value = v;
      }
      else record { raw_status = status; error_code = sdk_error; value = none }

  -- The loop over the results. Past the end of a short array, which the code would read out of
  -- bounds, it stops.
  unfoldable pub read_items : List NodeId → List (ℕ × UaVariant) → List ReadResult
  read_items [] items = []
  read_items (n ∷ ns) [] = []
  read_items (n ∷ ns) (i ∷ is) = read_item n i ∷ read_items ns is

  unfoldable pub read_answer :
      List NodeId → ReadResponse UaVariant → Result (List ReadResult) ErrorCode
  read_answer nodes response =
      if not (sdk.is_good response.service_result) || not (response.results_size == length nodes)
      then err service_failed
      else elim response.results [
        | none ↦ err service_failed
        | some items ↦ ok (read_items nodes items)
      ]

  unfoldable pub write_item : ℕ → WriteResult
  write_item status =
      if sdk.is_good status
      then record { status = good; error_code = no_error; raw_status = status }
      else record { status = bad; error_code = sdk_error; raw_status = status }

  -- The first `resultsSize` results, stopping at the end of a short array.
  unfoldable pub write_items : ℕ → List ℕ → List WriteResult
  write_items zero items = []
  write_items (suc n) [] = []
  write_items (suc n) (i ∷ is) = write_item i ∷ write_items n is

  unfoldable pub write_answer : ℕ → WriteResponse → Result (List WriteResult) ErrorCode
  write_answer count response =
      if sdk.is_good response.service_result
        && ltb 0 response.results_size
        && (response.results_size == count)
      then elim response.results [
        | none ↦ err service_failed
        | some items ↦ ok (write_items response.results_size items)
      ]
      else err service_failed

module _ {W : Type 0} (lib : Services W) where
  -- `uaNodeIDAlloc`
  unfoldable pub ua_node_id_alloc : W → (index : ℕ) → NodeId → Result (ℕ × NodeName) ErrorCode
  ua_node_id_alloc w index n = elim n.id [
    | numeric_id numeric ↦ ok (n.ns, numeric_id numeric)
    | string_id [] ↦ err invalid_argument
    | string_id (b ∷ bs) ↦
        if contains_embedded_nul (b ∷ bs)
        then err invalid_argument
        else elim (lib.string_alloc w index n.ns (b ∷ bs)) [
          | none ↦ err internal_error
          | some [] ↦ err invalid_argument
          | some (c ∷ cs) ↦ ok (n.ns, string_id (c ∷ cs))
        ]
  ]

  -- The loop that fills `nodesToRead`.
  unfoldable pub read_request : W → ℕ → List NodeId → Result (List (ℕ × NodeName)) ErrorCode
  read_request w index [] = ok []
  read_request w index (n ∷ ns) = elim (ua_node_id_alloc w index n) [
    | err e ↦ err e
    | ok node ↦ elim (read_request w (index + 1) ns) [ err e ↦ err e | ok rest ↦ ok (node ∷ rest) ]
  ]

  -- The loop that fills `nodesToWrite`.
  unfoldable pub write_request :
      W → ℕ → List WriteValue → Result (List ((ℕ × NodeName) × UaVariant)) ErrorCode
  write_request w index [] = ok []
  write_request w index (v ∷ vs) = elim (ua_node_id_alloc w index v.node) [
    | err e ↦ err e
    | ok node ↦ elim (write_dispatch (lib.scalar_copy w index) v.node.data_type v.value) [
      | err e ↦ err e
      | ok dest ↦ elim (write_request w (index + 1) vs) [
        | err e ↦ err e
        | ok rest ↦ ok ((node, dest) ∷ rest)
      ]
    ]
  ]

  -- The statuses after which a read is tried again.
  unfoldable pub connection_lost_status : ℕ → Bool
  connection_lost_status sr =
      (sr == lib.bad_connection_closed)
      || (sr == lib.bad_communication_error)
      || (sr == lib.bad_session_id_invalid)
      || (sr == lib.bad_secure_channel_id_invalid)
      || (sr == lib.bad_not_connected)
      || (sr == lib.bad_secure_channel_closed)
      || (sr == lib.bad_server_not_connected)
      || (sr == lib.bad_timeout)
      || (sr == lib.bad_session_closed)
