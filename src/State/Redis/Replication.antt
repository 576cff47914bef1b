-- ===== src/State/Redis/Replication.antt =====
-- Strong sets of state/redis/redis.go, which wait for the replicas.
use components_contrib.Base.{
  ℕ, ◌+◌, ◌^◌, ◌<◌, ◌≡◌, refl, ap, ◌∙◌, ◌⊎◌, inl, inr, true, false, ◌&&◌, none, some, [], ◌∷◌,
  arith, eq_iff, ltb, ◌==◌, Error, formatted, Result, ok, err,
}
use components_contrib.State.Requests.{Bytes, Value, SetRequest, strong, encode}
use components_contrib.Base.Effect.{continue}
use components_contrib.State.Redis.{
  Reply, nil, bulk, integer, array, failure, is_failure, as_error, Server, StateStore, set_answer,
  set_query, await_replicas, set_value,
}
use components_contrib.State.Redis.Laws.{Documented, IsConnected}
use components_contrib.State.Redis.Script.{
  IsAt, KeepsOthers, written, written-IsAt, written-KeepsOthers, set_query-Fits,
}
use components_contrib.State.Redis.Asking.{
  Asks, HasOptions, Takes, asked, asked-Fits, set_value-steps,
}
use components_contrib.State.Redis.Steps.{Keeps}
use components_contrib.State.Redis.Reachable.{KeepsKey-IsAt}
use components_contrib.Base.Text.Decimal.{print_nat}

-- A set that waits for replicas.
abbrev pub WaitsFor : {V : Type 0} → StateStore → SetRequest V → Type 0
WaitsFor store req = (req.options.consistency ≡ strong) × (0 < store.replicas)

module _ {W V : Type 0} (s : Server W) (store : StateStore) (marshal : Value V → Result Bytes)
    (connected : IsConnected s) (laws : Documented s)
    (wait_keeps : (n milliseconds : ℕ) (w : W) → Keeps s w (s.wait n milliseconds w).1) where
  -- What becomes of a strong set behind its script, by the reply to WAIT.
  abbrev after_wait : Reply → Result (Unit {0})
  after_wait res = elim (as_error res) [
    | some e ↦ err (
        formatted "timed out while waiting for %v replicas to acknowledge write"
          (print_nat store.replicas ∷ []))
    | none ↦ ok tt
  ]

  await_replicas-waits :
      (req : SetRequest V) (w : W)
      → WaitsFor store req
      → await_replicas s store marshal req w
        ≡ (after_wait (s.wait store.replicas 1000 w).0, (s.wait store.replicas 1000 w).1)
  unfolding await_replicas
  await_replicas-waits req w (e, many) = rw (waits, connected (s.wait store.replicas 1000) w) refl
    where
      waits : (req.options.consistency == strong && ltb 0 store.replicas) ≡ true
      waits = ground (arith, eq_iff req.options.consistency strong, e, many)

  after_wait-cases :
      (res : Reply)
      → ((is_failure res ≡ true) × ((e : Error) × (after_wait res ≡ err e)))
        ⊎ ((is_failure res ≡ false) × (after_wait res ≡ ok tt))
  after_wait-cases (failure m) = inl (refl, (_, refl))
  after_wait-cases nil = inr (refl, refl)
  after_wait-cases (bulk v) = inr (refl, refl)
  after_wait-cases (integer n) = inr (refl, refl)
  after_wait-cases (array vs) = inr (refl, refl)

  -- One attempt of a strong set (see `set_value`) on a store with replicas, by a connected client,
  -- with known options, of a key at version v whose version it asks for, or 0, or which is last-write,
  -- with a WAIT that changes no key: the new content is written at version v + 1 and no other key
  -- changes, whatever WAIT replies; the attempt ends in an error exactly if the reply is an error, and
  -- succeeds for every number of replicas that have acknowledged the write.
  pub set_value_replicated :
      (req : SetRequest V) (u v : ℕ) (d : Bytes) (w : W)
      → HasOptions req
      → WaitsFor store req
      → Asks req u
      → u < 2 ^ 63
      → v + 1 < 2 ^ 63
      → IsAt s req.key v d w
      → Takes req u v
      → let r = set_value s store marshal req w in
        let w1 = (set_query s req.key (asked req u) (encode marshal req.value) w).1 in
        let reply = (s.wait store.replicas 1000 w1).0 in
        IsAt s req.key (v + 1) (encode marshal req.value) r.1
        × KeepsOthers s req.key w r.1
        × (((is_failure reply ≡ true) × ((e : Error) × (r.0 ≡ err e)))
            ⊎ ((is_failure reply ≡ false) × (r.0 ≡ ok tt)))
  unfolding set_answer
  set_value_replicated req u v d w h waits e b b' at fits =
      let content = encode marshal req.value in
      let done =
        set_query-Fits s laws req.key (asked req u) content v d w b' at (asked-Fits req u v fits) in
      let w1 = written s laws req.key content w in
      let run =
        set_value-steps s store marshal connected req u w h e b
        ∙ ap (λ r. continue (set_answer req.key r.0) (λ _. await_replicas s store marshal req) r.1)
            done
        ∙ await_replicas-waits req w1 waits in
      rw (run, done)
        (
          KeepsKey-IsAt s req.key (v + 1) content w1 _ (wait_keeps store.replicas 1000 w1 req.key)
              (written-IsAt s laws req.key content v d w b' at),
          λ j f ne.
              wait_keeps store.replicas 1000 w1 j f
              ∙ written-KeepsOthers s laws req.key content w j f ne,
          after_wait-cases (s.wait store.replicas 1000 w1).0,
        )
