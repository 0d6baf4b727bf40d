-- ===== src/Prelude/Texts.antt =====
-- Tables of texts.
use Prim.Native.String.{String}
use text.Mathlib.Text.{◌==◌}
use mathlib.Core.List.{List, [], ◌∷◌}
use mathlib.Core.Option.{Option, none, some}
use net_way.Prelude.Tests.{if◌then◌else◌}

-- The first entry under a text.
abbrev pub find : {A : Type 0} → String → List (String × A) → Option A
find k [] = none
find k ((j, v) ∷ m) = if j == k then some v else find k m
