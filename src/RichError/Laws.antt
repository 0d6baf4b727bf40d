-- ===== src/RichError/Laws.antt =====
-- How the combinators of `Result` fit together.
use net_way.Prelude.{◌≡◌, refl, none, some, arith}
use net_way.RichError.{
  Result, ok, err, get, get_error, value_or, map, map_err, and_then, or_else, map_or, map_or_else,
}

-- `and_then` and `or_else` are the two monads of `Result`, on success and on failure: each is
-- associative, and `map` and `map_err` are the ones that always wrap again. Extracting with
-- `map_or` or `map_or_else` is `map` and then `value_or`. A value that `get` gives is what `map`
-- changes, and never comes with an error.
pub combinators_agree :
    {T E R S : Type 0} (r : Result T E)
    → ((f : T → Result R E) (g : R → Result S E)
        → and_then g (and_then f r) ≡ and_then (λ t. and_then g (f t)) r)
      × ((f : E → Result T R) (g : R → Result T S)
          → or_else g (or_else f r) ≡ or_else (λ e. or_else g (f e)) r)
      × ((f : T → R) → map f r ≡ and_then (λ t. ok (f t)) r)
      × ((f : E → R) → map_err f r ≡ or_else (λ e. err (f e)) r)
      × ((f : T → R) (d : R) → map_or f d r ≡ value_or (map f r) d)
      × ((f : T → R) (d : Unit {0} → R) → map_or_else f d r ≡ value_or (map f r) (d tt))
      × ((t : T) → get r ≡ some t → get_error r ≡ none)
unfolding get get_error value_or map map_err and_then or_else map_or map_or_else
combinators_agree (ok t) =
    (λ f g. refl, λ f g. refl, λ f. refl, λ f. refl, λ f d. refl, λ f d. refl, λ u h. refl)
combinators_agree (err e) =
    (λ f g. refl, λ f g. refl, λ f. refl, λ f. refl, λ f d. refl, λ f d. refl, λ u h. ground arith)

-- A predicate of both cases of a match on a result is one of the match.
pub result_keeps :
    {A E B : Type 0} (P : B → Type 0) (r : Result A E) {f : E → B} {g : A → B}
    → ((e : E) → r ≡ err e → P (f e))
    → ((a : A) → r ≡ ok a → P (g a))
    → P (elim r [ err e ↦ f e | ok a ↦ g a ])
result_keeps P (ok a) h k = k a refl
result_keeps P (err e) h k = h e refl
