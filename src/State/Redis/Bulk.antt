-- ===== src/State/Redis/Bulk.antt =====
-- BulkSet of state/redis/redis.go on a server that clients have used.
use components_contrib.Base.{
  ℕ, ◌+◌, ◌^◌, ◌≤◌, ◌<◌, String, ◌≡◌, refl, ◌∙◌, inl, inr, Bool, true, false, Option, none, some,
  List, [], ◌∷◌, arith, eq_iff, ◌==◌, if◌then◌else◌, Bool-cases, length, All, Result, ok,
}
use components_contrib.State.Requests.{Bytes, Value, SetRequest, encode}
use components_contrib.Base.Effect.{for_each}
use components_contrib.State.Redis.{Server, StateStore, set_item, bulk_set}
use components_contrib.Base.{
  ℕ, ◌+◌, ◌^◌, ◌≤◌, ◌<◌, String, ◌≡◌, refl, ◌∙◌, inl, inr, Bool, true, false, Option, none, some,
  List, [], ◌∷◌, arith, eq_iff, ◌==◌, if◌then◌else◌, Bool-cases, length, All, Result, ok,
}
use components_contrib.State.Requests.{Bytes, Value, SetRequest, encode}
use components_contrib.Base.Effect.{for_each}
use components_contrib.State.Redis.{Server, StateStore, set_item, bulk_set}
use components_contrib.Base.Signed.{Duration}
use components_contrib.State.Redis.Laws.{Documented, Transacts, IsConnected}
use components_contrib.State.Redis.Script.{IsAt, KeepsOthers}
use components_contrib.State.Redis.Steps.{Keeps, Reach}
use components_contrib.State.Redis.Reachable.{
  IsWellFormed, KeepsKey, KeepsKey-IsAt, KeepsKey-IsWellFormed,
}
use components_contrib.State.Redis.Invariant.{Reach-IsWellFormed}
use components_contrib.State.Redis.Calls.{IsPlainSet}
use components_contrib.State.Redis.RoundTrip.{IsUnconditional, set_item-IsWellFormed}
use mathlib.Core.Path.{subst}

-- What the last of some requests writes to a key.
unfoldable pub last_content :
    {V : Type 0} → (Value V → Result Bytes) → String → List (SetRequest V) → Option Bytes
last_content marshal key [] = none
last_content marshal key (req ∷ reqs) = elim (last_content marshal key reqs) [
  | some c ↦ some c
  | none ↦ if req.key == key then some (encode marshal req.value) else none
]

module _ {W V : Type 0} (s : Server W) (store : StateStore) (marshal : Value V → Result Bytes) where
  -- The key holds the content, if there is one, and what it held otherwise.
  abbrev pub Leaves : Option Bytes → String → W → W → Type 0
  Leaves none key w w' = KeepsKey s key w w'
  Leaves (some c) key w w' = (v : ℕ) × IsAt s key v c w'

  -- A set that asks for no version, which the checks let through and which does not wait.
  abbrev pub IsUnconditionalSet : SetRequest V → Type 0
  IsUnconditionalSet req = IsPlainSet store req × IsUnconditional req

  Leaves-next :
      (last : Option Bytes) (here : Bool) (c : Bytes) (key : String) (w w1 w2 : W)
      → (if here then ((v : ℕ) × IsAt s key v c w1) else KeepsKey s key w w1)
      → Leaves last key w1 w2
      → Leaves (elim last [ some d ↦ some d | none ↦ if here then some c else none ]) key w w2
  Leaves-next (some d) here c key w w1 w2 h k = k
  Leaves-next none true c key w w1 w2 (v, at) k = (v, KeepsKey-IsAt s key v c w1 w2 k at)
  Leaves-next none false c key w w1 w2 h k = λ f. k f ∙ h f

  -- What one set leaves, whatever key one looks at.
  first-Leaves :
      (req : SetRequest V) (w w1 : W) (v : ℕ)
      → IsAt s req.key v (encode marshal req.value) w1
      → KeepsOthers s req.key w w1
      → (key : String)
      → if req.key == key
        then ((u : ℕ) × IsAt s key u (encode marshal req.value) w1)
        else KeepsKey s key w w1
  first-Leaves req w w1 v at others key = elim (Bool-cases (req.key == key)) [
    | inl e ↦
        rw e
          (v, subst (λ k. IsAt s k v (encode marshal req.value) w1) ((eq_iff req.key key).0 e) at)
    | inr e ↦ rw e (λ f. others key f (ground (arith, eq_iff req.key key, e)))
  ]

  first-IsWellFormed :
      (n : ℕ) (req : SetRequest V) (w w1 : W) (v : ℕ)
      → 1 ≤ v
      → v ≤ n + 1
      → IsAt s req.key v (encode marshal req.value) w1
      → KeepsOthers s req.key w w1
      → ((k : String) → IsWellFormed s n k w)
      → (k : String) → IsWellFormed s (n + 1) k w1
  first-IsWellFormed n req w w1 v one le at others clean k = elim (Bool-cases (req.key == k)) [
    | inl e ↦
        subst (λ j. IsWellFormed s (n + 1) j w1) ((eq_iff req.key k).0 e)
          (inr (inr (v, encode marshal req.value, one, le, at)))
    | inr e ↦
        KeepsKey-IsWellFormed s n (n + 1) k w w1 (omega arith)
          (λ f. others k f (ground (arith, eq_iff req.key k, e))) (clean k)
  ]

  module _ (connected : IsConnected s) (laws : Documented s)
      (sleep_keeps : (d : Duration) (w : W) → Keeps s w (s.sleep d w)) where
    bulk_set-Leaves :
        (n : ℕ) (reqs : List (SetRequest V)) (w : W)
        → n + length reqs < 2 ^ 63
        → ((k : String) → IsWellFormed s n k w)
        → All IsUnconditionalSet reqs
        → ((bulk_set s store marshal reqs w).0 ≡ ok tt)
          × ((key : String)
              → Leaves (last_content marshal key reqs) key w (bulk_set s store marshal reqs w).1)
    unfolding bulk_set for_each last_content
    bulk_set-Leaves n [] w b clean h = (refl, λ key f. refl)
    bulk_set-Leaves n (req ∷ reqs) w b clean ((plain, free), h) =
        let (done, (v, one, le, at), others) =
          set_item-IsWellFormed s store marshal connected laws sleep_keeps n req w plain free
            (omega arith) (clean req.key) in
        let w1 = (set_item s store marshal req w).1 in
        let rest =
          bulk_set-Leaves (n + 1) reqs w1 (omega arith)
            (first-IsWellFormed n req w w1 v one le at others clean) h in
        rw done (
          rest.0,
          λ key.
              Leaves-next (last_content marshal key reqs) (req.key == key)
                (encode marshal req.value) key w w1 _ (first-Leaves req w w1 v at others key)
                (rest.1 key),
        )

    -- A bulk set on a server that started without keys, whose WAIT and whose pauses change none, and
    -- after any sets, deletions, transactions and reads: if its sets ask for no version, have known
    -- options and patterns of retries and do not wait for replicas, and there were fewer than 2^63
    -- calls with them, it succeeds; every key that some of the sets name then holds what the last of
    -- them writes, and every other key what it held.
    pub bulk_set_last_counts :
        (transacts : Transacts s)
        (wait_keeps : (n milliseconds : ℕ) (w : W) → Keeps s w (s.wait n milliseconds w).1) (n : ℕ)
        (reqs : List (SetRequest V)) (w : W)
        → n + length reqs < 2 ^ 63
        → Reach s store marshal n w
        → All IsUnconditionalSet reqs
        → ((bulk_set s store marshal reqs w).0 ≡ ok tt)
          × ((key : String)
              → Leaves (last_content marshal key reqs) key w (bulk_set s store marshal reqs w).1)
    bulk_set_last_counts transacts wait_keeps n reqs w b reach h =
        bulk_set-Leaves n reqs w b
          (Reach-IsWellFormed s store marshal connected laws transacts wait_keeps n w (omega arith)
            reach)
          h
