-- ===== src/Values/Defaults.antt =====
-- The default values of `S7TypeStruct.h` against the converters of `TypeTraits.h`.
use net_way.Prelude.{◌≡◌, ◌⊎◌, inl, inr, refl, arith, [], Bool, false, none, some}
use net_way.RichError.{ok, err, type_notsupport}
use net_way.Values.{
  S7DataType, bool_type, sint_type, byte_type, int_type, word_type, dint_type, udint_type,
  dword_type, lint_type, ulint_type, real_type, lreal_type, string_type, array_type, struct_type,
  unknown_type, ValueType, UaVariant, scalar, alternative_of, traits, write_traits, copied,
  default_value_for, write_dispatch, read_dispatch, has_nul, bool_value, int8_value, uint8_value,
  int16_value, uint16_value, int32_value, uint32_value, int64_value, uint64_value, float_value,
  double_value, string_value,
}
use net_way.Values.RoundTrip.{same_refl}
use net_way.Prelude.Int.{pos}

-- A default value has the type of both converters: reading its variant gives it back, and a write
-- comes to what the library's copy of it comes to.
abbrev pub IsDefault : (ValueType → Bool × UaVariant) → S7DataType → ValueType → Type 0
IsDefault copy t v =
    (traits t ≡ some (alternative_of v))
    × (write_traits t ≡ some (alternative_of v))
    × (write_dispatch copy t v ≡ copied copy (copy v))
    × (read_dispatch t (scalar v) none ≡ (ok tt, some v))

module _ (copy : ValueType → Bool × UaVariant) where
  typed :
      (t : S7DataType) (v : ValueType)
      → traits t ≡ some (alternative_of v)
      → write_traits t ≡ some (alternative_of v)
      → has_nul v ≡ false
      → IsDefault copy t v
  unfolding write_dispatch read_dispatch
  typed t v h w n = (
    h,
    w,
    ground (arith, same_refl (alternative_of v)),
    ground (arith, same_refl (alternative_of v)),
  )

  -- Every data type either has a default value, or it has neither a default value nor a converter
  -- in either table. A default value is of the type of both converters: read from its variant it
  -- comes back, and writing it comes to exactly what the library's copy of it comes to.
  pub default_value_typed :
      (t : S7DataType)
      → ((v : ValueType) × (default_value_for t ≡ some v) × IsDefault copy t v)
        ⊎ ((default_value_for t ≡ none)
            × (traits t ≡ none)
            × ((v : ValueType) → write_dispatch copy t v ≡ err type_notsupport))
  unfolding default_value_for traits write_traits write_dispatch
  default_value_typed bool_type =
      inl (bool_value false, refl, typed bool_type (bool_value false) refl refl refl)
  default_value_typed sint_type =
      inl (int8_value (pos 0), refl, typed sint_type (int8_value (pos 0)) refl refl refl)
  default_value_typed byte_type =
      inl (uint8_value 0, refl, typed byte_type (uint8_value 0) refl refl refl)
  default_value_typed int_type =
      inl (int16_value (pos 0), refl, typed int_type (int16_value (pos 0)) refl refl refl)
  default_value_typed word_type =
      inl (uint16_value 0, refl, typed word_type (uint16_value 0) refl refl refl)
  default_value_typed dint_type =
      inl (int32_value (pos 0), refl, typed dint_type (int32_value (pos 0)) refl refl refl)
  default_value_typed udint_type =
      inl (uint32_value 0, refl, typed udint_type (uint32_value 0) refl refl refl)
  default_value_typed dword_type =
      inl (uint32_value 0, refl, typed dword_type (uint32_value 0) refl refl refl)
  default_value_typed lint_type =
      inl (int64_value (pos 0), refl, typed lint_type (int64_value (pos 0)) refl refl refl)
  default_value_typed ulint_type =
      inl (uint64_value 0, refl, typed ulint_type (uint64_value 0) refl refl refl)
  default_value_typed real_type =
      inl (float_value 0, refl, typed real_type (float_value 0) refl refl refl)
  default_value_typed lreal_type =
      inl (double_value 0, refl, typed lreal_type (double_value 0) refl refl refl)
  default_value_typed string_type =
      inl (string_value [], refl, typed string_type (string_value []) refl refl refl)
  default_value_typed array_type = inr (refl, refl, λ v. refl)
  default_value_typed struct_type = inr (refl, refl, λ v. refl)
  default_value_typed unknown_type = inr (refl, refl, λ v. refl)
