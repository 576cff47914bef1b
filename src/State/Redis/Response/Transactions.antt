-- ===== src/State/Redis/Response/Transactions.antt =====
-- Multi and Get of state/redis/redis.go: Get gives back what the last operation of a transaction on a key
-- did.
use components_contrib.Base.{
  String, ◌≡◌, refl, sym, ap, ◌∙◌, ◌≢◌, inl, inr, Option, none, some, List, [], ◌∷◌, arith, eq_iff,
  ◌==◌, if◌then◌else◌, Bool-cases, All, Result, ok, err, panic, then_result,
}
use components_contrib.State.Requests.{
  Bytes, GetRequest, DeleteRequest, Value, SetRequest, GetResponse, empty_response,
  TransactionalRequest, upsert, delete, mismatched, unknown, marshalled,
}
use components_contrib.Base.Effect.{continue}
use components_contrib.State.Redis.{Reply, Server, StateStore, queue, multi}
use components_contrib.State.Redis.Laws.{run_all, Transacts, IsConnected}
use mathlib.Core.Path.{subst}
use components_contrib.State.Redis.Response.{get_item}
use components_contrib.State.Redis.Response.Views.{get_item_same, get_item-plain_set, get_item-del}

-- A request of the type that its operation asks for.
abbrev pub IsMatched : {V : Type 0} → TransactionalRequest V → Type 0
IsMatched mismatched = ⊥
IsMatched _ = Unit

-- What an operation leaves for a key: nothing where it is about another key, a text, or no key.
abbrev effect :
    {V : Type 0}
    → (Value V → Result Bytes)
    → String
    → TransactionalRequest V
    → Option (Option Bytes)
effect marshal key (upsert req) =
    if req.key == key then some (some (marshalled marshal req.value)) else none
effect marshal key (delete req) = if req.key == key then some none else none
effect marshal key _ = none

abbrev later : Option (Option Bytes) → Option (Option Bytes) → Option (Option Bytes)
later none o = o
later (some x) o = some x

-- What the last operation about a key leaves for it.
unfoldable pub last_effect :
    {V : Type 0}
    → (Value V → Result Bytes)
    → String
    → List (TransactionalRequest V)
    → Option (Option Bytes)
last_effect marshal key [] = none
last_effect marshal key (o ∷ os) = later (last_effect marshal key os) (effect marshal key o)

-- What Get answers to an effect, where there was one.
abbrev pub answered :
    Option (Option Bytes) → Result (Option GetResponse) → Result (Option GetResponse)
answered none before = before
answered (some none) before = ok (some empty_response)
answered (some (some b)) before = ok (some (record empty_response { payload = b }))

module _ {W V : Type 0} (s : Server W) (store : StateStore) (marshal : Value V → Result Bytes)
    (connected : IsConnected s) (transacts : Transacts s) where
  get_item-upsert :
      (got : GetRequest) (req : SetRequest V) (w : W)
      → (get_item s got (s.plain_set req.key (marshalled marshal req.value) w).1).0
        ≡ answered (effect marshal got.key (upsert req)) (get_item s got w).0
  get_item-upsert got req w = elim (Bool-cases (req.key == got.key)) [
    | inl e ↦ rw e (
        subst
          (λ k.
            (get_item s got (s.plain_set k (marshalled marshal req.value) w).1).0
            ≡ ok (some (record empty_response { payload = marshalled marshal req.value })))
          (sym ((eq_iff req.key got.key).0 e))
          (get_item-plain_set s connected transacts got (marshalled marshal req.value) w))
    | inr e ↦
        let ne : req.key ≢ got.key = ground (arith, eq_iff req.key got.key, e) in
        rw e (
          get_item_same s connected transacts got w _
            (transacts.hgetall-set_ne req.key _ got.key w ne)
            (transacts.get-set_ne req.key _ got.key w ne))
  ]

  abbrev as_delete : DeleteRequest → TransactionalRequest V
  as_delete req = delete req

  get_item-delete :
      (got : GetRequest) (req : DeleteRequest) (w : W)
      → (get_item s got (s.del req.key w).1).0
        ≡ answered (effect marshal got.key (as_delete req)) (get_item s got w).0
  get_item-delete got req w = elim (Bool-cases (req.key == got.key)) [
    | inl e ↦ rw e (
        subst (λ k. (get_item s got (s.del k w).1).0 ≡ ok (some empty_response))
          (sym ((eq_iff req.key got.key).0 e)) (get_item-del s connected transacts got w))
    | inr e ↦
        let ne : req.key ≢ got.key = ground (arith, eq_iff req.key got.key, e) in
        rw e (
          get_item_same s connected transacts got w _
            (transacts.hgetall-del_ne req.key got.key w ne)
            (transacts.get-del_ne req.key got.key w ne))
  ]

  answered-later :
      (last first : Option (Option Bytes)) (before : Result (Option GetResponse))
      → answered last (answered first before) ≡ answered (later last first) before
  answered-later none first before = refl
  answered-later (some none) first before = refl
  answered-later (some (some b)) first before = refl

  -- The commands of a transaction, and what they leave to be got.
  abbrev Effects : List (TransactionalRequest V) → Result (List (W → Reply × W)) → Type 0
  Effects ops (ok commands) =
      (got : GetRequest) (w : W)
      → (get_item s got (run_all commands w)).0
        ≡ answered (last_effect marshal got.key ops) (get_item s got w).0
  Effects ops _ = ⊥

  Effects-then :
      (o : TransactionalRequest V) (os : List (TransactionalRequest V))
      (r : Result (List (W → Reply × W))) (command : W → Reply × W)
      → ((got : GetRequest) (w : W)
          → (get_item s got (command w).1).0
            ≡ answered (effect marshal got.key o) (get_item s got w).0)
      → Effects os r
      → Effects (o ∷ os) (then_result r λ cs. ok (command ∷ cs))
  unfolding run_all last_effect
  Effects-then o os (ok cs) command h k = λ got w.
      k got (command w).1
      ∙ ap (answered (last_effect marshal got.key os)) (h got w)
      ∙ answered-later (last_effect marshal got.key os) (effect marshal got.key o) _
  Effects-then o os (err e) command h k = k
  Effects-then o os (panic e) command h k = k

  queue-Effects :
      (ops : List (TransactionalRequest V))
      → All IsMatched ops
      → Effects ops (queue s store marshal ops)
  unfolding queue run_all last_effect
  queue-Effects [] h = λ got w. refl
  queue-Effects (upsert req ∷ os) (h, hs) =
      Effects-then (upsert req) os _ _ (λ got w. get_item-upsert got req w) (queue-Effects os hs)
  queue-Effects (delete req ∷ os) (h, hs) =
      Effects-then (as_delete req) os _ _ (λ got w. get_item-delete got req w) (queue-Effects os hs)
  queue-Effects (mismatched ∷ os) h = absurd h.0
  queue-Effects (unknown ∷ os) (h, hs) = skip _ (queue-Effects os hs)
    where
      skip : (r : Result (List (W → Reply × W))) → Effects os r → Effects (unknown ∷ os) r
      skip (ok cs) k = λ got w. k got w ∙ ap (λ o. answered o (get_item s got w).0) (same got)
        where
          same :
              (got : GetRequest)
              → last_effect marshal got.key os ≡ later (last_effect marshal got.key os) none
          same got = ground arith
      skip (err e) k = k
      skip (panic e) k = k

  run-Effects :
      (ops : List (TransactionalRequest V)) (r : Result (List (W → Reply × W))) (w : W)
      → Effects ops r
      → ((continue r s.transaction w).0 ≡ ok tt)
        × ((got : GetRequest)
            → (get_item s got (continue r s.transaction w).1).0
              ≡ answered (last_effect marshal got.key ops) (get_item s got w).0)
  run-Effects ops (ok cs) w h = rw (transacts.transaction_runs cs w) (refl, λ got. h got w)
  run-Effects ops (err e) w h = absurd h
  run-Effects ops (panic e) w h = absurd h

  -- A transaction of a connected client whose requests all have the type that their operations ask for
  -- succeeds; afterwards Get answers for every key what the last upsert or deletion of this key in the
  -- transaction left, the JSON of the value, of a byte slice too, without an ETag or an empty response,
  -- and what it answered before for a key that no operation is about.
  pub multi-get_item :
      (ops : List (TransactionalRequest V)) (w : W)
      → All IsMatched ops
      → ((multi s store marshal ops w).0 ≡ ok tt)
        × ((got : GetRequest)
            → (get_item s got (multi s store marshal ops w).1).0
              ≡ answered (last_effect marshal got.key ops) (get_item s got w).0)
  unfolding multi
  multi-get_item ops w h = run-Effects ops (queue s store marshal ops) w (queue-Effects ops h)
