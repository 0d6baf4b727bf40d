-- ===== src/ErrorMapping/StatusName.antt =====
-- `safeStatusCodeName` of `src/OPCUAPacking/ua.cpp`: the library's name of a status code, or the code
-- in hexadecimal. Texts are lists of bytes; the library's name is a parameter.
use native.Mathlib.Nat.{pow-suc}
use net_way.Prelude.{
  ℕ, zero, suc, ◌+◌, ◌-◌, ◌*◌, ◌/◌, ◌%◌, ◌^◌, ◌≤◌, ◌<◌, ◌≡◌, ◌⊎◌, inl, inr, refl, ap, ltb, List, [],
  ◌∷◌, ◌++◌, if◌then◌else◌, Option, none, some, length, length-append, arith,
}

unfoldable pub hex_digit : ℕ → ℕ
hex_digit d = if ltb d 10 then b'0' + d else b'A' + (d - 10)

-- The last `k` digits.
unfoldable pub hex_digits : ℕ → ℕ → List ℕ
hex_digits zero n = []
hex_digits (suc k) n = hex_digits k (n / 16) ++ (hex_digit (n % 16) ∷ [])

-- `snprintf` into a buffer of a size keeps one byte less, for the zero at the end.
abbrev pub take : ℕ → List ℕ → List ℕ
take zero xs = []
take (suc n) [] = []
take (suc n) (x ∷ xs) = x ∷ take n xs

-- `snprintf(buffer, sizeof(buffer), "0x%08X", code)`; the code is an `uint32_t`, which has at most
-- eight digits.
unfoldable pub code_text : ℕ → List ℕ
unfolding hex_digits
code_text code = take 15 (b'0' ∷ b'x' ∷ hex_digits 8 code)

unfoldable pub safe_status_code_name : (name : Option (List ℕ)) → (code : ℕ) → List ℕ
unfolding code_text
safe_status_code_name none code = code_text code
safe_status_code_name (some []) code = code_text code
safe_status_code_name (some (c ∷ cs)) code = c ∷ cs

-- Reading the digits back.
abbrev pub hex_value : ℕ → ℕ
hex_value d = if ltb d b'A' then d - b'0' else d - b'A' + 10

abbrev pub read_hex : ℕ → List ℕ → ℕ
read_hex n [] = n
read_hex n (d ∷ ds) = read_hex (n * 16 + hex_value d) ds

hex_value-hex_digit : (d : ℕ) → d < 16 → hex_value (hex_digit d) ≡ d
unfolding hex_digit
hex_value-hex_digit d h = ground arith

read_hex-snoc :
    (n d : ℕ) (xs : List ℕ) → read_hex n (xs ++ (d ∷ [])) ≡ read_hex n xs * 16 + hex_value d
read_hex-snoc n d [] = refl
read_hex-snoc n d (x ∷ xs) = read_hex-snoc (n * 16 + hex_value x) d xs

length-hex_digits : (k n : ℕ) → length (hex_digits k n) ≡ k
unfolding hex_digits
length-hex_digits zero n = refl
length-hex_digits (suc k) n = omega (
  arith,
  length-append (hex_digits k (n / 16)) (hex_digit (n % 16) ∷ []),
  length-hex_digits k (n / 16),
)

read_hex-hex_digits : (k n : ℕ) → n < 16 ^ k → read_hex 0 (hex_digits k n) ≡ n
unfolding hex_digits
read_hex-hex_digits zero n h = omega arith
read_hex-hex_digits (suc k) n h = omega (
  arith,
  read_hex-snoc 0 (hex_digit (n % 16)) (hex_digits k (n / 16)),
  hex_value-hex_digit (n % 16) (omega arith),
  read_hex-hex_digits k (n / 16) (omega (arith, pow-suc 16 k)),
)

take-all : (n : ℕ) (xs : List ℕ) → length xs ≤ n → take n xs ≡ xs
take-all zero [] h = refl
take-all zero (x ∷ xs) h = absurd (omega arith)
take-all (suc n) [] h = refl
take-all (suc n) (x ∷ xs) h = ap (λ ys. x ∷ ys) (take-all n xs (omega arith))

-- The buffer of 16 bytes does not cut the text.
code_text-whole : (code : ℕ) → code_text code ≡ b'0' ∷ b'x' ∷ hex_digits 8 code
unfolding code_text
code_text-whole code = take-all 15 _ (omega (arith, length-hex_digits 8 code))

missing_text :
    (name : Option (List ℕ)) (code : ℕ)
    → (name ≡ none) ⊎ (name ≡ some [])
    → safe_status_code_name name code ≡ b'0' ∷ b'x' ∷ hex_digits 8 code
unfolding safe_status_code_name
missing_text name code (inl e) = rw e (code_text-whole code)
missing_text name code (inr e) = rw e (code_text-whole code)

-- `safeStatusCodeName` always names the code: a name that the library has, or, where it has none or
-- an empty one, ten bytes, 0x and eight digits, which the buffer holds and which read back as the code.
pub status_code_named :
    (name : Option (List ℕ)) (code : ℕ)
    → code < 2 ^ 32
    → ((c : ℕ) (cs : List ℕ) → name ≡ some (c ∷ cs) → safe_status_code_name name code ≡ c ∷ cs)
      × ((name ≡ none) ⊎ (name ≡ some [])
          → (digits : List ℕ) × (safe_status_code_name name code ≡ b'0' ∷ b'x' ∷ digits)
            × (length digits ≡ 8)
            × (read_hex 0 digits ≡ code))
unfolding safe_status_code_name
status_code_named name code h = (
  λ c cs e. rw e refl,
  λ m. (
    hex_digits 8 code,
    missing_text name code m,
    length-hex_digits 8 code,
    read_hex-hex_digits 8 code h,
  ),
)
