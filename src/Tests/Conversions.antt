-- ===== src/Tests/Conversions.antt =====
-- Names and default values of the PLC data types.
use net_way.Prelude.{◌≡◌, ◌⊎◌, none, some}
use net_way.RichError.{err, type_notsupport}
use net_way.Values.{ValueType, int_type, traits, default_value_for, write_dispatch}
use net_way.Values.Defaults.{IsDefault, default_value_typed}
use net_way.Tests.Batches.{copying}

default_value_typed_example :
    ((v : ValueType) × (default_value_for int_type ≡ some v) × IsDefault copying int_type v)
    ⊎ ((default_value_for int_type ≡ none)
        × (traits int_type ≡ none)
        × ((v : ValueType) → write_dispatch copying int_type v ≡ err type_notsupport))
default_value_typed_example = default_value_typed copying int_type
