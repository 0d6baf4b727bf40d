-- ===== src/Values/RoundTrip.antt =====
-- What is written is read back, and which writes are accepted.
use net_way.Prelude.{◌≡◌, ◌≢◌, Bool, true, false, none, some, arith}
use net_way.RichError.{ok, err, type_mismatch, type_notsupport, invalid_argument, unknown}
use net_way.Values.{
  S7DataType, Alternative, ValueType, alternative_of, same_alternative, write_traits, UaVariant,
  scalar, empty, has_nul, copied, write_dispatch,
}

pub same_eq : (a b : Alternative) → same_alternative a b ≡ true → a ≡ b
same_eq a b h = ground arith

same_false : (a b : Alternative) → a ≢ b → same_alternative a b ≡ false
same_false a b n = ground arith

pub same_refl : (a : Alternative) → same_alternative a a ≡ true
same_refl a = ground arith

-- A write is accepted exactly when the data type has a converter, the value is of that converter's
-- alternative, no text holds a NUL byte, and the library copies the value; otherwise the error is
-- TYPE_NOTSUPPORT, TYPE_MISMATCH or INVALID_ARGUMENT, tested in this order, or UNKNOWN for the copy.
pub write_accepts :
    (copy : ValueType → Bool × UaVariant)
    → (t : S7DataType) (v : ValueType)
    → (write_traits t ≡ none → write_dispatch copy t v ≡ err type_notsupport)
      × ((a : Alternative)
          → write_traits t ≡ some a
          → (a ≢ alternative_of v → write_dispatch copy t v ≡ err type_mismatch)
            × (a ≡ alternative_of v
                → (has_nul v ≡ true → write_dispatch copy t v ≡ err invalid_argument)
                  × (has_nul v ≡ false
                      → copy v ≡ (false, empty)
                      → write_dispatch copy t v ≡ err unknown)
                  × (has_nul v ≡ false
                      → copy v ≡ (true, scalar v)
                      → write_dispatch copy t v ≡ ok (scalar v))))
unfolding write_dispatch copied
write_accepts copy t v = (
  λ h. ground arith,
  λ a h. (
    λ n. wrong a h n (same_false a (alternative_of v) n),
    λ e. (
      λ k. ground (arith, same_refl a),
      λ k c. ground (arith, same_refl a),
      λ k c. ground (arith, same_refl a),
    ),
  ),
)
  where
    wrong :
        (a : Alternative)
        → write_traits t ≡ some a
        → a ≢ alternative_of v
        → same_alternative a (alternative_of v) ≡ false
        → write_dispatch copy t v ≡ err type_mismatch
    wrong a h n k = ground arith
