-- ===== src/Base/Text/Slashes.antt =====
-- The Go package path: `path.Join` of two elements, with `path.Clean`.
use components_contrib.Base.{
  String, ◌≡◌, refl, Bool, true, false, ◌&&◌, ◌||◌, List, [], ◌∷◌, ◌==◌, ◌!=◌, if◌then◌else◌,
}
use components_contrib.Base.Text.{◌+s◌, split}

-- The elements that stay, the last one first.
unfoldable kept : Bool → List String → List String → List String
kept rooted done [] = done
kept rooted done (e ∷ es) =
    let last_is_up : Bool = elim done [ [] ↦ true | d ∷ ds ↦ d == ".." ] in
    let up = if last_is_up then (if rooted then done else ".." ∷ done) else without_head done in
    kept rooted (if e == "" || e == "." then done else if e == ".." then up else e ∷ done) es
  where
    without_head : List String → List String
    without_head [] = []
    without_head (x ∷ xs) = xs

unfoldable pub join_slashes : List String → String
join_slashes [] = ""
join_slashes (e ∷ []) = e
join_slashes (e ∷ f ∷ es) = e +s "/" +s join_slashes (f ∷ es)

abbrev reversed : List String → List String → List String
reversed acc [] = acc
reversed acc (e ∷ es) = reversed (e ∷ acc) es

-- `path.Clean(s)`
unfoldable pub clean : String → String
unfolding kept join_slashes
clean s =
    let parts = split b'/' s in
    let rooted : Bool = elim parts [ [] ↦ false | e ∷ es ↦ e == "" && s != "" ] in
    let text = join_slashes (reversed [] (kept rooted [] parts)) in
    if rooted then "/" +s text else if text == "" then "." else text

-- `path.Join(a, b)`
unfoldable pub join : String → String → String
unfolding clean
join a b =
    if a == ""
    then (if b == "" then "" else clean b)
    else clean (if b == "" then a else a +s "/" +s b)

join_keys :
    (join "/dapr/state" "k1" ≡ "/dapr/state/k1")
    × (join "" "k1" ≡ "k1")
    × (join "/a/" "../b//c/." ≡ "/b/c")
    × (join "a" "../../b" ≡ "../b")
unfolding join split
join_keys = (refl, refl, refl, refl)
