-- ===== src/Base/Text/Json.antt =====
-- What the program uses of the Go package encoding/json on its metadata: a map of strings is marshalled
-- to an object whose keys are sorted, and unmarshalled into a struct of strings. A key fits a field
-- whose name it equals up to case, and of several that fit the last one stays.
use Prim.Native.Nat.{◌+◌}
use Prim.Native.Char.{code}
use Prim.Native.String.{compare}
use Prim.Native.Nat.{Ordering}
use components_contrib.Base.{
  ℕ, ◌+◌, String, ◌≡◌, refl, Bool, true, false, ◌&&◌, ◌||◌, Option, none, some, [], ◌∷◌, leb,
  nat_eq, ◌==◌, if◌then◌else◌, external, Result, ok, err,
}
use components_contrib.State.Requests.{Properties, value_of}

-- `foldRunes` of encoding/json on the letters of a field name: ASCII case, the Kelvin sign and the
-- long s.
abbrev fold_code : ℕ → ℕ
fold_code c =
    if leb b'A' c && leb c b'Z'
    then c + 32
    else if nat_eq c 0x212A
    then b'k'
    else if nat_eq c 0x17F
    then b's'
    else c

unfoldable pub equal_fold : String → String → Bool
equal_fold String.[] String.[] = true
equal_fold String.[] (String.◌∷◌ d t) = false
equal_fold (String.◌∷◌ c s) String.[] = false
equal_fold (String.◌∷◌ c s) (String.◌∷◌ d t) =
    let rest = equal_fold s t in
    if nat_eq (fold_code (code c)) (fold_code (code d)) then rest else false

abbrev later_key : String → Option String → String
later_key k none = k
later_key k (some j) = elim (compare k j) [ Ordering.lt ↦ j | _ ↦ k ]

-- The last of the sorted keys that fit a field.
unfoldable pub last_key : Properties → String → Option String
unfolding equal_fold
last_key [] name = none
last_key ((k, v) ∷ p) name =
    let rest = last_key p name in if equal_fold k name then some (later_key k rest) else rest

-- The value of a field of strings.
unfoldable pub json_field : Properties → String → String
unfolding last_key
json_field p name = elim (last_key p name) [ none ↦ "" | some k ↦ value_of p k ]

-- A field with the option `string`, of a Boolean that starts as false.
unfoldable pub json_bool : Properties → String → Result Bool
unfolding last_key
json_bool p name = elim (last_key p name) [
  | none ↦ ok false
  | some k ↦
      let text = value_of p k in
      if text == "true"
      then ok true
      else if text == "false" || text == "null"
      then ok false
      else err (external "json: invalid use of ,string struct tag")
]

fields_of_two :
    (json_field (("Region", "x") ∷ ("region", "y") ∷ []) "region" ≡ "y")
    × (json_field (("REGION", "x") ∷ []) "region" ≡ "x")
    × (json_field (("regions", "x") ∷ []) "region" ≡ "")
unfolding json_field
fields_of_two = (refl, refl, refl)
