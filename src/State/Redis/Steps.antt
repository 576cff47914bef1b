-- ===== src/State/Redis/Steps.antt =====
-- Several clients of state/redis/redis.go on one server: each attempt of a set or of a deletion runs
-- its script in one step of the server, and the steps of the clients interleave in any order.
use components_contrib.State.Requests.{
  Bytes, DeleteRequest, Value, SetRequest, TransactionalRequest, strong, encode,
}
use mathlib.Core.Path.{subst}
use components_contrib.Base.{
  ℕ, ◌+◌, String, ◌≡◌, sym, ◌≢◌, inl, inr, ◌&&◌, ltb, ◌==◌, if◌then◌else◌, Bool-cases, Result, ok,
  err, panic, List, All,
}
use components_contrib.Base.Effect.{Eff, continue, ◌>>=◌, ◌>>◌, lift}
use components_contrib.Base.Signed.{ℤ}
use components_contrib.State.Redis.{
  Server, StateStore, may_write, set_query, del_query, delete_value, parse_etag, await_replicas,
  write_version, set_value, multi,
}
use components_contrib.State.Options.{check_set_request_options}
use components_contrib.State.Redis.Laws.{IsConnected}
use components_contrib.State.Redis.Script.{IsAbsent}
use components_contrib.State.Redis.Transactions.{Names}

-- Nothing that HGET shows differs.
abbrev pub Keeps : {W : Type 0} → Server W → W → W → Type 0
Keeps s w w' = (k f : String) → s.hget k f w' ≡ s.hget k f w

module _ {W V : Type 0} (s : Server W) (store : StateStore) (marshal : Value V → Result Bytes) where
  -- An attempt of a set, whatever it answers, an attempt of a deletion, a transaction, and anything that
  -- only reads, such as Get, or waits, such as the pause before another attempt.
  pub data Step (w : W) : W → Type 0 where
    set_attempt : (req : SetRequest V) → Step w (set_value s store marshal req w).1
    delete_attempt : (req : DeleteRequest) → Step w (delete_value s req w).1
    transact : (ops : List (TransactionalRequest V)) → Step w (multi s store marshal ops w).1
    idle : (w' : W) → Keeps s w w' → Step w w'

  -- The worlds after `n` steps from a server without keys.
  pub data Reach : ℕ → W → Type 0 where
    start : (w : W) → ((k : String) → IsAbsent s k w) → Reach 0 w
    next : {n : ℕ} {w : W} (w' : W) → Reach n w → Step w w' → Reach (n + 1) w'

  -- A run of `n` steps in which no attempt deletes `key`, and no transaction is about it.
  pub data Runs (key : String) (w : W) : ℕ → W → Type 0 where
    stay : Runs key w 0 w
    set_next :
        {n : ℕ} {v : W} (req : SetRequest V)
        → Runs key w n v
        → Runs key w (n + 1) (set_value s store marshal req v).1
    delete_other :
        {n : ℕ} {v : W} (req : DeleteRequest)
        → req.key ≢ key
        → Runs key w n v
        → Runs key w (n + 1) (delete_value s req v).1
    transact_other :
        {n : ℕ} {v : W} (ops : List (TransactionalRequest V))
        → All (Names (λ k. k ≢ key)) ops
        → Runs key w n v
        → Runs key w (n + 1) (multi s store marshal ops v).1
    idle_next : {n : ℕ} {v : W} (v' : W) → Keeps s v v' → Runs key w n v → Runs key w (n + 1) v'

  continue-After :
      {A B : Type 0} (P : W → Type 0) (r : Result A) (f : A → Eff W B) (w : W)
      → P w
      → ((a : A) → P (f a w).1)
      → P (continue r f w).1
  continue-After P (ok a) f w p h = h a
  continue-After P (err e) f w p h = p
  continue-After P (panic e) f w p h = p

  module _ (connected : IsConnected s) where
    -- A set that waits, or not.
    await_replicas-After :
        (P : W → Type 0) (req : SetRequest V) (w : W)
        → P w
        → P (s.wait store.replicas 1000 w).1
        → P (await_replicas s store marshal req w).1
    unfolding await_replicas
    await_replicas-After P req w p h =
        elim (Bool-cases (req.options.consistency == strong && ltb 0 store.replicas)) [
          | inl e ↦ rw (e, connected (s.wait store.replicas 1000) w) h
          | inr e ↦ rw e p
        ]

    -- What holds of a world and after each script that a set may run, also when it then waits, holds
    -- after the set.
    pub set_value-After :
        (P : W → Type 0) (req : SetRequest V) (w : W)
        → P w
        → ((argument : String) → P (set_query s req.key argument (encode marshal req.value) w).1)
        → ((v : W) → P v → P (s.wait store.replicas 1000 v).1)
        → P (set_value s store marshal req w).1
    unfolding set_value write_version
    set_value-After P req w p h k =
        continue-After P (check_set_request_options req) (λ _. lift (parse_etag req.etag) >>= run) w
          p
          λ _. continue-After P (parse_etag req.etag) run w p λ version.
            continue-After P (write_version s store marshal req version w).0
              (λ _. await_replicas s store marshal req)
              (write_version s store marshal req version w).1 (after version)
              λ _. await_replicas-After P req _ (after version) (k _ (after version))
      where
        run : ℤ → Eff W (Unit {0})
        run version =
            write_version s store marshal req version >> await_replicas s store marshal req

        after : (version : ℤ) → P (write_version s store marshal req version w).1
        after version = subst (λ r. P r.1) (sym (connected _ w)) (h _)

    pub delete_value-After :
        (P : W → Type 0) (req : DeleteRequest) (w : W)
        → P w
        → P (s.del req.key w).1
        → P (delete_value s req w).1
    unfolding delete_value del_query
    delete_value-After P req w p h =
        let etag = if req.etag == "" then "0" else req.etag in
        elim (Bool-cases (may_write (s.hget req.key "version" w) etag)) [
          | inl e ↦ rw (connected (del_query s req.key etag) w, e) h
          | inr e ↦ rw (connected (del_query s req.key etag) w, e) p
        ]
