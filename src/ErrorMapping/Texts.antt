-- ===== src/ErrorMapping/Texts.antt =====
-- `connectErrorStateToString` and `disconnectErrorStateToString` of `src/OPCUAPacking/ua.cpp`, and
-- the threshold of `customLog`. What is printed is left out.
use Prim.Native.String.{String}
use net_way.Prelude.{
  find, ℕ, ◌≡◌, refl, sym, ap, ◌∙◌, Bool, false, ltb, List, [], ◌∷◌, if◌then◌else◌, Option, none,
  some, some_injective,
}
use net_way.Impl.{ConnectErrorState, DisconnectErrorState}

unfoldable pub connect_error_state_to_string : ConnectErrorState → String
connect_error_state_to_string ConnectErrorState.shutdown = "client is shut down"
connect_error_state_to_string ConnectErrorState.nullptr = "client implementation is null"
connect_error_state_to_string ConnectErrorState.threadbusy =
    "another thread is connecting/disconnecting"
connect_error_state_to_string ConnectErrorState.unknown = "unknown connection state"
connect_error_state_to_string ConnectErrorState.connect_failed = "connect failed"
connect_error_state_to_string ConnectErrorState.timeout_notconnect =
    "connect timeout and connection not established"

unfoldable pub disconnect_error_state_to_string : DisconnectErrorState → String
disconnect_error_state_to_string DisconnectErrorState.shutdown = "client is shut down"
disconnect_error_state_to_string DisconnectErrorState.nullptr = "client implementation is null"
disconnect_error_state_to_string DisconnectErrorState.threadbusy =
    "another thread is connecting/disconnecting"
disconnect_error_state_to_string DisconnectErrorState.timeout_notdisconnect =
    "disconnect timeout and connection not disconnected"
disconnect_error_state_to_string DisconnectErrorState.disconnect_fail = "async disconnect failed"
disconnect_error_state_to_string DisconnectErrorState.unknown = "unknown disconnect state"

-- Whether `customLog` prints: the level reaches the threshold, if there is one, and there is a text.
unfoldable pub custom_log : (threshold : Option ℕ) → (level : ℕ) → (text : Bool) → Bool
custom_log none level text = text
custom_log (some least) level text = if ltb level least then false else text

-- The tables read backwards.
abbrev connect_texts : List (String × ConnectErrorState)
connect_texts =
    ("client is shut down", ConnectErrorState.shutdown)
    ∷ ("client implementation is null", ConnectErrorState.nullptr)
    ∷ ("another thread is connecting/disconnecting", ConnectErrorState.threadbusy)
    ∷ ("unknown connection state", ConnectErrorState.unknown)
    ∷ ("connect failed", ConnectErrorState.connect_failed)
    ∷ ("connect timeout and connection not established", ConnectErrorState.timeout_notconnect)
    ∷ []

abbrev disconnect_texts : List (String × DisconnectErrorState)
disconnect_texts =
    ("client is shut down", DisconnectErrorState.shutdown)
    ∷ ("client implementation is null", DisconnectErrorState.nullptr)
    ∷ ("another thread is connecting/disconnecting", DisconnectErrorState.threadbusy)
    ∷ (
      "disconnect timeout and connection not disconnected",
      DisconnectErrorState.timeout_notdisconnect,
    )
    ∷ ("async disconnect failed", DisconnectErrorState.disconnect_fail)
    ∷ ("unknown disconnect state", DisconnectErrorState.unknown)
    ∷ []

connect_text_found :
    (a : ConnectErrorState) → find (connect_error_state_to_string a) connect_texts ≡ some a
unfolding connect_error_state_to_string
connect_text_found ConnectErrorState.shutdown = refl
connect_text_found ConnectErrorState.nullptr = refl
connect_text_found ConnectErrorState.threadbusy = refl
connect_text_found ConnectErrorState.unknown = refl
connect_text_found ConnectErrorState.connect_failed = refl
connect_text_found ConnectErrorState.timeout_notconnect = refl

disconnect_text_found :
    (a : DisconnectErrorState) → find (disconnect_error_state_to_string a) disconnect_texts ≡ some a
unfolding disconnect_error_state_to_string
disconnect_text_found DisconnectErrorState.shutdown = refl
disconnect_text_found DisconnectErrorState.nullptr = refl
disconnect_text_found DisconnectErrorState.threadbusy = refl
disconnect_text_found DisconnectErrorState.timeout_notdisconnect = refl
disconnect_text_found DisconnectErrorState.disconnect_fail = refl
disconnect_text_found DisconnectErrorState.unknown = refl

-- Different inner errors of one operation are told apart by their texts.
connect_texts_differ :
    (a b : ConnectErrorState)
    → connect_error_state_to_string a ≡ connect_error_state_to_string b
    → a ≡ b
connect_texts_differ a b h =
    some_injective
      (sym (connect_text_found a) ∙ ap (λ t. find t connect_texts) h ∙ connect_text_found b)

disconnect_texts_differ :
    (a b : DisconnectErrorState)
    → disconnect_error_state_to_string a ≡ disconnect_error_state_to_string b
    → a ≡ b
disconnect_texts_differ a b h =
    some_injective (
      sym (disconnect_text_found a) ∙ ap (λ t. find t disconnect_texts) h ∙ disconnect_text_found b)
