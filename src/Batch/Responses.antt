-- ===== src/Batch/Responses.antt =====
-- The destructors of `ReadResponseGuard` and `WriteResponseGuard` in `src/OPCUAPacking/ua.cpp`, up to
-- the library's own clearing of the response: an array is kept as whether its pointer is set, and
-- its size.
use net_way.Prelude.{ℕ, ◌≡◌, ◌⊎◌, Bool, true, not, ◌&&◌, ltb, if◌then◌else◌, arith}

pub record ResponseArray : Type 0 where
  pub is_set : Bool
  pub size : ℕ

-- The two arrays of a response that the library deletes.
pub record Response : Type 0 where
  pub results : ResponseArray
  pub diagnostic_infos : ResponseArray

unfoldable neutralized : ResponseArray → ResponseArray
neutralized a = if not a.is_set && ltb 0 a.size then record a { size = 0 } else a

unfoldable read_response_guard : Response → Response
unfolding neutralized
read_response_guard r = record {
  results = neutralized r.results;
  diagnostic_infos = neutralized r.diagnostic_infos;
}

unfoldable write_response_guard : Response → Response
unfolding neutralized
write_response_guard r = record {
  results = neutralized r.results;
  diagnostic_infos = neutralized r.diagnostic_infos;
}

-- What the library can delete: an array without a pointer has no elements.
abbrev IsDeletable : ResponseArray → Type 0
IsDeletable a = (a.is_set ≡ true) ⊎ (a.size ≡ 0)

neutralized-IsDeletable : (a : ResponseArray) → IsDeletable (neutralized a)
unfolding neutralized
neutralized-IsDeletable a = ground arith

-- Whatever a server sends, the library gets arrays that it can delete.
read_response_guard-IsDeletable :
    (r : Response)
    → IsDeletable (read_response_guard r).results
      × IsDeletable (read_response_guard r).diagnostic_infos
unfolding read_response_guard
read_response_guard-IsDeletable r =
    (neutralized-IsDeletable r.results, neutralized-IsDeletable r.diagnostic_infos)

write_response_guard-IsDeletable :
    (r : Response)
    → IsDeletable (write_response_guard r).results
      × IsDeletable (write_response_guard r).diagnostic_infos
unfolding write_response_guard
write_response_guard-IsDeletable r =
    (neutralized-IsDeletable r.results, neutralized-IsDeletable r.diagnostic_infos)

-- A response that the library can delete is left as it is.
deletable_unchanged : (a : ResponseArray) → IsDeletable a → neutralized a ≡ a
unfolding neutralized
deletable_unchanged a h = ground arith

read_response_guard_unchanged :
    (r : Response)
    → IsDeletable r.results
    → IsDeletable r.diagnostic_infos
    → read_response_guard r ≡ r
unfolding read_response_guard
read_response_guard_unchanged r h k = λ i. record {
  results = deletable_unchanged r.results h i;
  diagnostic_infos = deletable_unchanged r.diagnostic_infos k i;
}
