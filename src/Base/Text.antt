-- ===== src/Base/Text.antt =====
-- What the program uses of the Go packages strings and strconv.
pub mod Decimal
pub mod Slashes
pub mod Json
use Prim.Native.Nat.{ℕ, ◌+◌}
use Prim.Native.Char.{Char, code}
use Prim.Native.String
use Prim.Native.String.{String, len, slice}
use mathlib.Core.Path.{◌≡◌, refl}
use mathlib.Core.Bool.{Bool, true, false, ◌&&◌, ◌||◌}
use mathlib.Core.Option.{Option, none, some}
use mathlib.Core.List.{List, [], ◌∷◌, ◌++◌}
use text.Mathlib.Text.{find?}
use components_contrib.Base.Tests.{nat_eq, ◌==◌, if◌then◌else◌}

infixr 65 ◌+s◌
abbrev pub ◌+s◌ : String → String → String
s +s t = String.◌++◌ s t

abbrev cons_head : Char → List String → List String
cons_head c [] = (String.◌∷◌ c String.[]) ∷ []
cons_head c (p ∷ ps) = (String.◌∷◌ c p) ∷ ps

-- `strings.Split(s, sep)` for a separator of one character, given by its code.
unfoldable pub split : ℕ → String → List String
split sep String.[] = "" ∷ []
split sep (String.◌∷◌ c s) =
    let parts = split sep s in if nat_eq (code c) sep then "" ∷ parts else cons_head c parts

-- `strings.Split(s, "\r\n")`
unfoldable pub split_lines : String → List String
split_lines String.[] = "" ∷ []
split_lines (String.◌∷◌ c String.[]) = (String.◌∷◌ c String.[]) ∷ []
split_lines (String.◌∷◌ c (String.◌∷◌ d s)) = elim (nat_eq (code c) 13 && nat_eq (code d) 10) [
  | true ↦ "" ∷ split_lines s
  | false ↦ cons_head c (split_lines (String.◌∷◌ d s))
]

-- `strings.Contains(s, part)`
unfoldable pub contains : String → String → Bool
contains s part = elim (find? s part) [ none ↦ false | some i ↦ true ]

-- `s[i:]`
unfoldable pub slice_from : String → ℕ → String
slice_from s i = slice s i (len s)

-- `strconv.ParseBool`
unfoldable pub parse_bool : String → Option Bool
parse_bool s =
    if s == "1" || s == "t" || s == "T" || s == "true" || s == "TRUE" || s == "True"
    then some true
    else if s == "0" || s == "f" || s == "F" || s == "false" || s == "FALSE" || s == "False"
    then some false
    else none

split_hosts : split b',' "a:1,b:2,,c" ≡ "a:1" ∷ "b:2" ∷ "" ∷ "c" ∷ []
unfolding split
split_hosts = refl

split_lines_info :
    split_lines "role:master\r\nconnected_slaves:1\r\n"
    ≡ "role:master" ∷ "connected_slaves:1" ∷ "" ∷ []
unfolding split_lines
split_lines_info = refl
