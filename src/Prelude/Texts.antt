-- ===== src/Prelude/Texts.antt =====
-- Searching in a text, character by character: `strings.HasPrefix`, `TrimPrefix` and `Contains`.
use Prim.Native.Nat.{compare, Ordering}
use Prim.Native.Char.{Char, code}
use Prim.Native.String.{String}
use mathlib.Core.Bool.{Bool, true, false, ◌||◌}
use mathlib.Core.Option.{Option, none, some}
use contribution_tracker.Prelude.Tests.{if◌then◌else◌}

abbrev pub same_char : Char → Char → Bool
same_char c d = elim (compare (code c) (code d)) [ Ordering.eq ↦ true | _ ↦ false ]

-- What follows the prefix, if the text begins with it.
abbrev pub strip_prefix : String → String → Option String
strip_prefix String.[] s = some s
strip_prefix (String.◌∷◌ c p) String.[] = none
strip_prefix (String.◌∷◌ c p) (String.◌∷◌ d s) =
    let rest = strip_prefix p s in if same_char c d then rest else none

abbrev pub is_prefix : String → String → Bool
is_prefix p s = elim (strip_prefix p s) [ some _ ↦ true | none ↦ false ]

-- `strings.TrimPrefix(s, p)`
abbrev pub trim_prefix : String → String → String
trim_prefix p s = elim (strip_prefix p s) [ some rest ↦ rest | none ↦ s ]

-- `strings.Contains(s, p)`
abbrev pub contains_text : String → String → Bool
contains_text p String.[] = is_prefix p String.[]
contains_text p (String.◌∷◌ c s) = is_prefix p (String.◌∷◌ c s) || contains_text p s
