-- ===== src/State/Redis/Response.antt =====
-- Get, directGet and getKeyVersion of state/redis/redis.go, and that Get gives back what Set wrote.
-- `strconv.Unquote(fmt.Sprintf("%q", x))` is the text of a bulk reply x.
pub mod Views
pub mod Transactions
use components_contrib.Base.{
  ℕ, ◌+◌, ◌^◌, ◌<◌, String, ◌≡◌, refl, ap, ◌∙◌, ◌≢◌, ◌⊎◌, inl, inr, Bool, true, false, not, ◌||◌,
  Option, none, some, List, [], ◌∷◌, arith, eq_iff, ◌==◌, if◌then◌else◌, created, external,
  index_out_of_range, failed_type_assertion, Result, ok, err, panic, then_result,
}
use components_contrib.State.Requests.{
  Bytes, GetRequest, Value, SetRequest, GetResponse, empty_response, encode,
}
use components_contrib.Base.Text.Decimal.{print_nat}
use components_contrib.Base.Effect.{Eff, pure, crash, lift}
use components_contrib.State.Redis.{
  Reply, nil, bulk, integer, array, failure, is_failure, Server, StateStore, set_value,
}
use components_contrib.State.Redis.Laws.{listed, IsListed, IsPaired, Documented, IsConnected}
use components_contrib.State.Redis.Script.{IsAt}
use mathlib.Core.Path.{subst}
use components_contrib.State.Redis.Asking.{Asks, HasOptions, WaitsNot, Takes}
use components_contrib.State.Redis.Versions.{set_value_current}

pub record Seen : Type 0 where
  pub content : String
  pub version : String
  pub seen_content : Bool
  pub seen_version : Bool

abbrev pub unseen : Seen
unseen = record { content = ""; version = ""; seen_content = false; seen_version = false }

-- One round of the loop; the tests say whether the field is "data" and whether it is "version".
abbrev note_if : Bool → Bool → String → Seen → Seen
note_if is_data is_version v k =
    if is_data
    then record k { content = v; seen_content = true }
    else if is_version
    then record k { version = v; seen_version = true }
    else k

abbrev note : String → String → Seen → Seen
note f v k = note_if (f == "data") (f == "version") v k

-- The loop over `vals`. Behind a last field with no value `vals[i+1]` is out of range.
pub collect : List String → Seen → Result Seen
collect [] k = ok k
collect (f ∷ []) k = if f == "data" || f == "version" then panic index_out_of_range else ok k
collect (f ∷ v ∷ rest) k = collect rest (note f v k)

pub get_key_version : List String → Result (String × String)
get_key_version vals = then_result (collect vals unseen) λ k.
    if not k.seen_content || not k.seen_version
    then err (created "required hash field 'data' or 'version' was not found")
    else ok (k.content, k.version)

abbrev text_of : Reply → String
text_of (bulk v) = v
text_of _ = ""

module _ {W : Type 0} (s : Server W) where
  pub direct_answer : Reply → Result (Option GetResponse)
  direct_answer nil = ok (some empty_response)
  direct_answer (failure m) = err (external m)
  direct_answer r = ok (some (record empty_response { payload = text_of r }))

  pub direct_get : GetRequest → Eff W (Option GetResponse)
  direct_get req w =
      let (res, w') = s.send (λ v. (s.plain_get req.key v, v)) w in (direct_answer res, w')

  abbrev versioned : String × String → Option GetResponse
  versioned (content, version) = some (record { payload = content; etag = version; metadata = [] })

  -- What Get makes of the reply to HGETALL.
  pub hash_answer : GetRequest → Reply → Eff W (Option GetResponse)
  hash_answer req (failure m) = direct_get req
  hash_answer req nil = pure (some empty_response)
  hash_answer req (array []) = pure (some empty_response)
  hash_answer req (array (f ∷ fs)) =
      lift (then_result (get_key_version (f ∷ fs)) λ p. ok (versioned p))
  hash_answer req (bulk v) = crash failed_type_assertion
  hash_answer req (integer n) = crash failed_type_assertion

  pub get_item : GetRequest → Eff W (Option GetResponse)
  get_item req w =
      let (res, w') = s.send (λ v. (s.hgetall req.key v, v)) w in hash_answer req res w'

abbrev choose : Option String → String → String
choose none x = x
choose (some u) x = u

abbrev noted : Option String → Bool → Bool
noted none b = b
noted (some u) b = true

-- What was seen, with the values that a list has for the two fields.
abbrev absorb : Option String → Option String → Seen → Seen
absorb od ov k = record {
  content = choose od k.content;
  version = choose ov k.version;
  seen_content = noted od k.seen_content;
  seen_version = noted ov k.seen_version;
}

abbrev latest : Option String → Bool → String → Option String
latest o b v = elim o [ some u ↦ some u | none ↦ if b then some v else none ]

true_ne_false : true ≢ false
true_ne_false h = cc

absorb-note_if :
    (od ov : Option String) (a b : Bool) (v : String) (k : Seen)
    → (a ≡ true → b ≡ false)
    → absorb od ov (note_if a b v k) ≡ absorb (latest od a v) (latest ov b v) k
absorb-note_if none none true true v k h = absurd (true_ne_false (h refl))
absorb-note_if none (some u) true true v k h = absurd (true_ne_false (h refl))
absorb-note_if (some u) none true true v k h = absurd (true_ne_false (h refl))
absorb-note_if (some u) (some u') true true v k h = absurd (true_ne_false (h refl))
absorb-note_if none none true false v k h = refl
absorb-note_if none (some u) true false v k h = refl
absorb-note_if (some u) none true false v k h = refl
absorb-note_if (some u) (some u') true false v k h = refl
absorb-note_if none none false b v k h = ground arith
absorb-note_if none (some u) false b v k h = ground arith
absorb-note_if (some u) none false b v k h = ground arith
absorb-note_if (some u) (some u') false b v k h = ground arith

not_both : (f : String) → (f == "data") ≡ true → (f == "version") ≡ false
not_both f h = ap (λ g. g == "version") ((eq_iff f "data").0 h)

-- The loop keeps the last value of each of the two fields.
collect-listed :
    (fs : List String) (k : Seen)
    → IsPaired fs
    → collect fs k ≡ ok (absorb (listed "data" fs) (listed "version" fs) k)
unfolding collect listed
collect-listed [] k h = refl
collect-listed (f ∷ []) k h = absurd h
collect-listed (f ∷ v ∷ rest) k h =
    collect-listed rest (note f v k) h
    ∙ ap ok (
        absorb-note_if (listed "data" rest) (listed "version" rest) (f == "data") (f == "version") v
          k (not_both f))

-- From the fields and values of a hash that has both fields, getKeyVersion gives the values of
-- "data" and "version", in whatever order they come and whatever other fields there are.
get_key_version_both :
    (fs : List String) (d v : String)
    → IsPaired fs
    → listed "data" fs ≡ some d
    → listed "version" fs ≡ some v
    → get_key_version fs ≡ ok (d, v)
unfolding get_key_version
get_key_version_both fs d v p hd hv = rw (collect-listed fs unseen p, hd, hv)

-- If one of the two fields is missing, getKeyVersion ends in an error.
get_key_version_missing :
    (fs : List String)
    → IsPaired fs
    → (listed "data" fs ≡ none) ⊎ (listed "version" fs ≡ none)
    → get_key_version fs ≡ err (created "required hash field 'data' or 'version' was not found")
unfolding get_key_version
get_key_version_missing fs p (inl h) = rw (collect-listed fs unseen p, h)
get_key_version_missing fs p (inr h) = rw (collect-listed fs unseen p, h) (ground arith)

module _ {W : Type 0} (s : Server W) (connected : IsConnected s) (laws : Documented s) where
  -- A reply that has fields comes from the array that it lists.
  hash_answer-IsAt :
      (req : GetRequest) (v : ℕ) (d : Bytes) (w : W) (fs : List String)
      → IsPaired fs
      → listed "data" fs ≡ some d
      → listed "version" fs ≡ some (print_nat v)
      → hash_answer s req (array fs) w
        ≡ (ok (some (record { payload = d; etag = print_nat v; metadata = [] })), w)
  unfolding hash_answer listed
  hash_answer-IsAt req v d w [] p hd hv = cc
  hash_answer-IsAt req v d w (f ∷ fs) p hd hv =
      rw (get_key_version_both (f ∷ fs) d (print_nat v) p hd hv)

  listed-bulk :
      (r : Reply) (f v : String) (fs : List String)
      → r ≡ bulk v
      → IsListed r f fs
      → listed f fs ≡ some v
  listed-bulk r f v fs e h = subst (λ x. IsListed x f fs) e h

  pub get_item_of_IsAt :
      (req : GetRequest) (v : ℕ) (d : Bytes) (w : W)
      → IsAt s req.key v d w
      → get_item s req w
        ≡ (ok (some (record { payload = d; etag = print_nat v; metadata = [] })), w)
  unfolding get_item
  get_item_of_IsAt req v d w at =
      let (fs, reply, paired, shown) = laws.hgetall_reply req.key w (ap is_failure at.at_version) in
      ap (λ r. hash_answer s req r.0 r.1) (connected (λ v. (s.hgetall req.key v, v)) w)
      ∙ ap (λ r. hash_answer s req r w) reply
      ∙ hash_answer-IsAt req v d w fs paired
          (listed-bulk (s.hget req.key "data" w) "data" d fs at.at_content (shown "data"))
          (listed-bulk (s.hget req.key "version" w) "version" (print_nat v) fs at.at_version
            (shown "version"))

  module _ {V : Type 0} (store : StateStore) (marshal : Value V → Result Bytes) where
    -- What was set is what is got: after a set that the store takes (see `set_value_current`), Get of
    -- the same key gives the content that was set, with the print of the next version as its ETag, and
    -- changes nothing.
    pub get_item-set_value :
        (req : SetRequest V) (get_req : GetRequest) (u v : ℕ) (d : Bytes) (w : W)
        → HasOptions req
        → WaitsNot store req
        → Asks req u
        → u < 2 ^ 63
        → v + 1 < 2 ^ 63
        → IsAt s req.key v d w
        → Takes req u v
        → get_req.key ≡ req.key
        → let w' = (set_value s store marshal req w).1 in
          get_item s get_req w' ≡ (
            ok (
                some (record {
                  payload = encode marshal req.value;
                  etag = print_nat (v + 1);
                  metadata = [];
                })),
            w',
          )
    get_item-set_value req get_req u v d w h n e b b' at fits k =
        let done =
          set_value_current s store marshal connected laws req u v d w h n e b b' at fits in
        get_item_of_IsAt get_req (v + 1) (encode marshal req.value)
          (set_value s store marshal req w).1 (rw k done.1)
