-- ===== src/Values/Names.antt =====
-- The names of the PLC data types in `S7TypeStruct.h`: `S7DataTypeToString` and `typeMap`, each from
-- its own table.
use Prim.Native.String.{String}
use text.Mathlib.Text.{◌==◌}
use text.Mathlib.TextEquality.{eq_iff}
use net_way.Prelude.{
  find, ◌≡◌, refl, List, [], ◌∷◌, Option, some, arith, All, if_cases, some_injective, ap, sym, ◌∙◌,
}
use net_way.Values.{
  S7DataType, bool_type, sint_type, byte_type, int_type, word_type, dint_type, udint_type,
  dword_type, lint_type, ulint_type, real_type, lreal_type, string_type, array_type, struct_type,
  unknown_type,
}

abbrev pub s7_data_type_to_string : S7DataType → String
s7_data_type_to_string bool_type = "BOOL"
s7_data_type_to_string sint_type = "SINT"
s7_data_type_to_string byte_type = "BYTE"
s7_data_type_to_string int_type = "INT"
s7_data_type_to_string word_type = "WORD"
s7_data_type_to_string dint_type = "DINT"
s7_data_type_to_string udint_type = "UDINT"
s7_data_type_to_string dword_type = "DWORD"
s7_data_type_to_string lint_type = "LINT"
s7_data_type_to_string ulint_type = "ULINT"
s7_data_type_to_string real_type = "REAL"
s7_data_type_to_string lreal_type = "LREAL"
s7_data_type_to_string string_type = "STRING"
s7_data_type_to_string array_type = "ARRAY"
s7_data_type_to_string struct_type = "STRUCT"
s7_data_type_to_string unknown_type = "UNKNOWN"

abbrev pub type_map : List (String × S7DataType)
type_map =
    ("BOOL", bool_type)
    ∷ ("SINT", sint_type)
    ∷ ("BYTE", byte_type)
    ∷ ("INT", int_type)
    ∷ ("WORD", word_type)
    ∷ ("DINT", dint_type)
    ∷ ("UDINT", udint_type)
    ∷ ("DWORD", dword_type)
    ∷ ("LINT", lint_type)
    ∷ ("ULINT", ulint_type)
    ∷ ("REAL", real_type)
    ∷ ("LREAL", lreal_type)
    ∷ ("STRING", string_type)
    ∷ ("ARRAY", array_type)
    ∷ ("STRUCT", struct_type)
    ∷ ("UNKNOWN", unknown_type)
    ∷ []

name_found : (t : S7DataType) → find (s7_data_type_to_string t) type_map ≡ some t
name_found bool_type = refl
name_found sint_type = refl
name_found byte_type = refl
name_found int_type = refl
name_found word_type = refl
name_found dint_type = refl
name_found udint_type = refl
name_found dword_type = refl
name_found lint_type = refl
name_found ulint_type = refl
name_found real_type = refl
name_found lreal_type = refl
name_found string_type = refl
name_found array_type = refl
name_found struct_type = refl
name_found unknown_type = refl

-- An entry of a table whose name is the name of its type.
abbrev IsNamed : String × S7DataType → Type 0
IsNamed (n, t) = s7_data_type_to_string t ≡ n

found_name :
    (n : String) (t : S7DataType) (m : List (String × S7DataType))
    → All IsNamed m
    → find n m ≡ some t
    → s7_data_type_to_string t ≡ n
found_name n t [] a h = absurd (ground arith)
found_name n t ((j, v) ∷ m) a h =
    let P : Option S7DataType → Type 0 = λ o. o ≡ some t → s7_data_type_to_string t ≡ n in
    if_cases P (j == n)
      (λ e k. ap s7_data_type_to_string (some_injective (sym k)) ∙ a.0 ∙ (eq_iff j n).0 e)
      (λ e k. found_name n t m a.1 k) h

-- Sixteen entries, and the end of the table.
type_map-IsNamed : All IsNamed type_map
type_map-IsNamed = (
  refl,
  (
    refl,
    (
      refl,
      (
        refl,
        (
          refl,
          (
            refl,
            (refl, (refl, (refl, (refl, (refl, (refl, (refl, (refl, (refl, (refl, tt)))))))))),
          ),
        ),
      ),
    ),
  ),
)

-- The two tables are inverse to each other: the name of a data type is found and gives the data type
-- back, and a name that is found is the name of the data type that it gives.
pub names_inverse :
    (t : S7DataType) (n : String)
    → (find (s7_data_type_to_string t) type_map ≡ some t)
      × (find n type_map ≡ some t → s7_data_type_to_string t ≡ n)
names_inverse t n = (name_found t, found_name n t type_map type_map-IsNamed)
