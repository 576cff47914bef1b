-- ===== src/State/Contents.antt =====
-- What a state store without versions promises: it is a map from keys to bytes (state/store.go). The
-- stores of state/etcd, state/consul, state/memcached and state/firestore fill `Implements`; what
-- follows for their bulk methods is proved here, once.
pub mod Replay
use components_contrib.Base.{
  String, ◌≡◌, refl, ap, ◌∙◌, ◌≢◌, inl, inr, Option, none, some, List, [], ◌∷◌, arith, eq_iff,
  eq_refl, ◌==◌, if◌then◌else◌, Bool-cases, All, Result, ok,
}
use components_contrib.Base.Effect.{Eff, for_each}
use components_contrib.State.Requests.{Bytes, GetRequest, DeleteRequest, SetRequest, GetResponse}

abbrev pub Contents : Type 0
Contents = String → Option Bytes

abbrev pub put : String → Bytes → Contents → Contents
put k b c j = if j == k then some b else c j

abbrev pub remove : String → Contents → Contents
remove k c j = if j == k then none else c j

-- A map that has `b` at `k` and agrees with `c` elsewhere, and one that has nothing there.
pub eq_put :
    (c d : Contents) (k : String) (b : Bytes)
    → d k ≡ some b
    → ((j : String) → j ≢ k → d j ≡ c j)
    → d ≡ put k b c
eq_put c d k b here there = λ i j. at j i
  where
    at : (j : String) → d j ≡ put k b c j
    at j = elim (Bool-cases (j == k)) [
      | inl e ↦ rw e (ap d ((eq_iff j k).0 e) ∙ here)
      | inr e ↦ rw e (there j (ground (arith, eq_iff j k, e)))
    ]

pub eq_remove :
    (c d : Contents) (k : String) → d k ≡ none → ((j : String) → j ≢ k → d j ≡ c j) → d ≡ remove k c
eq_remove c d k here there = λ i j. at j i
  where
    at : (j : String) → d j ≡ remove k c j
    at j = elim (Bool-cases (j == k)) [
      | inl e ↦ rw e (ap d ((eq_iff j k).0 e) ∙ here)
      | inr e ↦ rw e (there j (ground (arith, eq_iff j k, e)))
    ]

-- The data of a response, where there is one.
abbrev pub payload_of : Result (Option GetResponse) → Option Bytes
payload_of (ok (some r)) = some r.payload
payload_of _ = none

-- `contents` is what the store keeps, `written` what it keeps for a request, `Accepts` and
-- `AcceptsRemoval` the requests it takes, `IsKey` the keys that its client takes, `missing` the answer
-- for a key that is not there.
pub record Implements {W V : Type 0} (contents : W → Contents) (written : SetRequest V → Bytes)
    (Accepts : SetRequest V → Type 0) (AcceptsRemoval : DeleteRequest → Type 0)
    (IsKey : String → Type 0) (missing : Result (Option GetResponse))
    (set : SetRequest V → Eff W (Unit {0})) (remove_item : DeleteRequest → Eff W (Unit {0}))
    (get : GetRequest → Eff W (Option GetResponse)) : Type 0 where
  pub set_succeeds : (req : SetRequest V) (w : W) → Accepts req → (set req w).0 ≡ ok tt
  pub set_writes :
      (req : SetRequest V) (w : W)
      → Accepts req
      → contents (set req w).1 ≡ put req.key (written req) (contents w)
  pub remove_writes :
      (req : DeleteRequest) (w : W) (b : Bytes)
      → AcceptsRemoval req
      → contents w req.key ≡ some b
      → ((remove_item req w).0 ≡ ok tt)
        × (contents (remove_item req w).1 ≡ remove req.key (contents w))
  pub get_hit :
      (req : GetRequest) (w : W) (b : Bytes)
      → IsKey req.key
      → contents w req.key ≡ some b
      → payload_of (get req w).0 ≡ some b
  pub get_miss :
      (req : GetRequest) (w : W)
      → IsKey req.key
      → contents w req.key ≡ none
      → (get req w).0 ≡ missing
  pub get_keeps : (req : GetRequest) (w : W) → IsKey req.key → contents (get req w).1 ≡ contents w

abbrev pub put_all :
    {V : Type 0} → (SetRequest V → Bytes) → List (SetRequest V) → Contents → Contents
put_all written [] c = c
put_all written (req ∷ reqs) c = put_all written reqs (put req.key (written req) c)

module _ {W V : Type 0} {contents : W → Contents} {written : SetRequest V → Bytes}
    {Accepts : SetRequest V → Type 0} {AcceptsRemoval : DeleteRequest → Type 0}
    {IsKey : String → Type 0} {missing : Result (Option GetResponse)}
    {set : SetRequest V → Eff W (Unit {0})} {remove_item : DeleteRequest → Eff W (Unit {0})}
    {get : GetRequest → Eff W (Option GetResponse)}
    (store : Implements contents written Accepts AcceptsRemoval IsKey missing set remove_item
      get) where
  -- A bulk set of requests that a store takes succeeds, and leaves what the requests write one after
  -- the other, so that the last one for a key counts.
  pub for_each-put_all :
      (reqs : List (SetRequest V)) (w : W)
      → All Accepts reqs
      → ((for_each set reqs w).0 ≡ ok tt)
        × (contents (for_each set reqs w).1 ≡ put_all written reqs (contents w))
  unfolding for_each
  for_each-put_all [] w h = (refl, refl)
  for_each-put_all (req ∷ reqs) w h =
      let rest = for_each-put_all reqs (set req w).1 h.1 in
      rw (store.set_succeeds req w h.0)
        (rest.0, rest.1 ∙ ap (put_all written reqs) (store.set_writes req w h.0))

  put_self : (k : String) (b : Bytes) (c : Contents) → put k b c k ≡ some b
  put_self k b c = rw (eq_refl k) refl

  -- What a store that takes a request has written, it gives back.
  pub get_set :
      (req : SetRequest V) (got : GetRequest) (w : W)
      → Accepts req
      → IsKey got.key
      → got.key ≡ req.key
      → payload_of (get got (set req w).1).0 ≡ some (written req)
  get_set req got w h is e = store.get_hit got (set req w).1 (written req) is (
      ap (λ c. c got.key) (store.set_writes req w h)
      ∙ ap (put req.key (written req) (contents w)) e
      ∙ put_self req.key (written req) (contents w))
