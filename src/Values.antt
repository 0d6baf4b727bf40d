-- ===== src/Values.antt =====
-- `S7TypeStruct.h`, `ValueTypes.h`, `TypeTraits.h` and `ConversionDispatcher.h`: the PLC data types,
-- the values, and the conversions to and from the library's variants. Integers are mathematical,
-- floats are their bit patterns and texts their bytes; nothing here computes with any of them.
pub mod RoundTrip
pub mod Names
pub mod Defaults
use net_way.Prelude.{
  ℕ, zero, suc, ◌≡◌, refl, Bool, true, false, not, ◌&&◌, ◌||◌, List, [], ◌∷◌, ◌==◌, if◌then◌else◌,
  Option, none, some,
}
use net_way.Prelude.Int.{ℤ, pos, negsuc}
use net_way.RichError.{
  ErrorCode, Result, ok, err, type_mismatch, type_notsupport, invalid_argument, unknown,
}

pub data S7DataType : Type 0 where
  bool_type sint_type byte_type int_type word_type dint_type udint_type dword_type : S7DataType
  lint_type ulint_type real_type lreal_type string_type : S7DataType
  array_type struct_type unknown_type : S7DataType

-- The alternatives of the `std::variant`.
pub data Alternative : Type 0 where
  is_bool is_int8 is_uint8 is_int16 is_uint16 is_int32 is_uint32 : Alternative
  is_int64 is_uint64 is_float is_double is_string : Alternative

pub data ValueType : Type 0 where
  bool_value : Bool → ValueType
  int8_value int16_value int32_value int64_value : ℤ → ValueType
  uint8_value uint16_value uint32_value uint64_value : ℕ → ValueType
  float_value double_value : ℕ → ValueType
  string_value : List ℕ → ValueType

unfoldable pub alternative_of : ValueType → Alternative
alternative_of (bool_value b) = is_bool
alternative_of (int8_value z) = is_int8
alternative_of (int16_value z) = is_int16
alternative_of (int32_value z) = is_int32
alternative_of (int64_value z) = is_int64
alternative_of (uint8_value n) = is_uint8
alternative_of (uint16_value n) = is_uint16
alternative_of (uint32_value n) = is_uint32
alternative_of (uint64_value n) = is_uint64
alternative_of (float_value n) = is_float
alternative_of (double_value n) = is_double
alternative_of (string_value s) = is_string

-- The index of an alternative among the library's scalar types.
abbrev pub type_index : Alternative → ℕ
type_index is_bool = 0
type_index is_int8 = 1
type_index is_uint8 = 2
type_index is_int16 = 3
type_index is_uint16 = 4
type_index is_int32 = 5
type_index is_uint32 = 6
type_index is_int64 = 7
type_index is_uint64 = 8
type_index is_float = 9
type_index is_double = 10
type_index is_string = 11

abbrev pub same_alternative : Alternative → Alternative → Bool
same_alternative a b = type_index a == type_index b

-- `readTraits::S7TypeToUATraits`, with the types that `converters` has no entry for.
unfoldable pub traits : S7DataType → Option Alternative
traits bool_type = some is_bool
traits sint_type = some is_int8
traits byte_type = some is_uint8
traits int_type = some is_int16
traits word_type = some is_uint16
traits dint_type = some is_int32
traits udint_type = some is_uint32
traits dword_type = some is_uint32
traits lint_type = some is_int64
traits ulint_type = some is_uint64
traits real_type = some is_float
traits lreal_type = some is_double
traits string_type = some is_string
traits array_type = none
traits struct_type = none
traits unknown_type = none

-- `writeTraits::S7TypeToUATraits`, a table of its own, likewise.
unfoldable pub write_traits : S7DataType → Option Alternative
write_traits bool_type = some is_bool
write_traits sint_type = some is_int8
write_traits byte_type = some is_uint8
write_traits int_type = some is_int16
write_traits word_type = some is_uint16
write_traits dint_type = some is_int32
write_traits udint_type = some is_uint32
write_traits lint_type = some is_int64
write_traits ulint_type = some is_uint64
write_traits dword_type = some is_uint32
write_traits real_type = some is_float
write_traits lreal_type = some is_double
write_traits string_type = some is_string
write_traits array_type = none
write_traits struct_type = none
write_traits unknown_type = none

-- A variant of the library, as far as the conversions tell one from another: nothing set, an array
-- (also the empty one), a scalar of a type that the wrapper does not read, a STRING without data, or
-- a scalar of one of the twelve types.
pub data UaVariant : Type 0 where
  empty foreign null_string : UaVariant
  array : Alternative → UaVariant
  scalar : ValueType → UaVariant

-- `readTraits::UATypeTraitsBase::convert` at an alternative.
unfoldable pub read_convert : Alternative → UaVariant → Result ValueType ErrorCode
unfolding alternative_of
read_convert a empty = err type_mismatch
read_convert a foreign = err type_mismatch
read_convert a null_string = err type_mismatch
read_convert a (array b) = err type_mismatch
read_convert a (scalar v) =
    if same_alternative a (alternative_of v) then ok v else err type_mismatch

-- `setNormalScalar`: the result and the new content of the optional.
unfoldable pub set_normal_scalar :
    Alternative → UaVariant → Result (Unit {0}) ErrorCode × Option ValueType
unfolding read_convert
set_normal_scalar a v = elim (read_convert a v) [ ok x ↦ (ok tt, some x) | err e ↦ (err e, none) ]

-- `readConversion::dispatch` leaves the optional alone where there is no converter.
unfoldable pub read_dispatch :
    S7DataType → UaVariant → Option ValueType → Result (Unit {0}) ErrorCode × Option ValueType
unfolding traits set_normal_scalar
read_dispatch t v old = elim (traits t) [
  | none ↦ (err type_notsupport, old)
  | some a ↦ set_normal_scalar a v
]

-- `containsEmbeddedNul`
unfoldable pub contains_embedded_nul : List ℕ → Bool
contains_embedded_nul [] = false
contains_embedded_nul (b ∷ bs) = b == 0 || contains_embedded_nul bs

unfoldable pub has_nul : ValueType → Bool
unfolding contains_embedded_nul
has_nul (string_value s) = contains_embedded_nul s
has_nul v = false

-- A variant that `!destValue.value.value.type` or `.data` would object to.
abbrev pub is_unset : UaVariant → Bool
is_unset empty = true
is_unset v = false

-- `copy` is `UA_Variant_setScalarCopy`: whether it reports GOOD, and the destination.
module _ (copy : ValueType → Bool × UaVariant) where
  unfoldable pub copied : Bool × UaVariant → Result UaVariant ErrorCode
  copied (good, dest) = if good then if is_unset dest then err unknown else ok dest else err unknown

  -- `writeTraits::UATypeTraitsBase::convert` at an alternative, the STRING case included.
  unfoldable pub write_convert : Alternative → ValueType → Result UaVariant ErrorCode
  unfolding alternative_of has_nul copied
  write_convert a v =
      if same_alternative a (alternative_of v)
      then if has_nul v then err invalid_argument else copied (copy v)
      else err type_mismatch

  -- `writeConversion::dispatch`
  unfoldable pub write_dispatch : S7DataType → ValueType → Result UaVariant ErrorCode
  unfolding write_traits write_convert
  write_dispatch t v = elim (write_traits t) [
    | none ↦ err type_notsupport
    | some a ↦ write_convert a v
  ]

-- `default_value_for`; `none` is the exception.
unfoldable pub default_value_for : S7DataType → Option ValueType
default_value_for bool_type = some (bool_value false)
default_value_for sint_type = some (int8_value (pos 0))
default_value_for byte_type = some (uint8_value 0)
default_value_for int_type = some (int16_value (pos 0))
default_value_for word_type = some (uint16_value 0)
default_value_for dint_type = some (int32_value (pos 0))
default_value_for udint_type = some (uint32_value 0)
default_value_for dword_type = some (uint32_value 0)
default_value_for lint_type = some (int64_value (pos 0))
default_value_for ulint_type = some (uint64_value 0)
default_value_for real_type = some (float_value 0)
default_value_for lreal_type = some (double_value 0)
default_value_for string_type = some (string_value [])
default_value_for array_type = none
default_value_for struct_type = none
default_value_for unknown_type = none
