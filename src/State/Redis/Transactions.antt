-- ===== src/State/Redis/Transactions.antt =====
-- Multi of state/redis/redis.go: what holds of the server before a transaction and after each of its
-- commands holds after it.
use components_contrib.Base.{String, sym, List, [], ◌∷◌, All, Result, ok, err, panic, then_result}
use components_contrib.State.Requests.{
  Bytes, Value, TransactionalRequest, upsert, delete, mismatched, unknown, marshalled,
}
use components_contrib.Base.Effect.{continue, Holds}
use components_contrib.State.Redis.{Reply, Server, StateStore, queue, multi}
use components_contrib.State.Redis.Laws.{run_all, Transacts}
use mathlib.Core.Path.{subst}

-- The key of an operation, where it has one, has a property.
abbrev pub Names : {V : Type 0} → (String → Type 0) → TransactionalRequest V → Type 0
Names P (upsert req) = P req.key
Names P (delete req) = P req.key
Names P mismatched = Unit
Names P unknown = Unit

pub All-Names_any : {V : Type 0} (ops : List (TransactionalRequest V)) → All (Names λ k. Unit) ops
All-Names_any [] = tt
All-Names_any (upsert req ∷ os) = (tt, All-Names_any os)
All-Names_any (delete req ∷ os) = (tt, All-Names_any os)
All-Names_any (mismatched ∷ os) = (tt, All-Names_any os)
All-Names_any (unknown ∷ os) = (tt, All-Names_any os)

module _ {W V : Type 0} (s : Server W) (store : StateStore) (marshal : Value V → Result Bytes) where
  -- What holds whatever operations of the keys that `K` allows are done.
  module _ (P : W → Type 0) (K : String → Type 0)
      (set_keeps : (k t : String) (w : W) → K k → P w → P (s.plain_set k t w).1)
      (del_keeps : (k : String) (w : W) → K k → P w → P (s.del k w).1) where
    abbrev Preserves : List (W → Reply × W) → Type 0
    Preserves commands = (w : W) → P w → P (run_all commands w)

    Preserves-then :
        (r : Result (List (W → Reply × W))) (command : W → Reply × W)
        → ((w : W) → P w → P (command w).1)
        → Holds Preserves r
        → Holds Preserves (then_result r λ cs. ok (command ∷ cs))
    unfolding run_all
    Preserves-then (ok cs) command h k = λ w p. k _ (h w p)
    Preserves-then (err e) command h k = tt
    Preserves-then (panic e) command h k = tt

    queue-Preserves :
        (ops : List (TransactionalRequest V))
        → All (Names K) ops
        → Holds Preserves (queue s store marshal ops)
    unfolding queue run_all
    queue-Preserves [] h = λ w p. p
    queue-Preserves (upsert req ∷ os) (h, hs) =
        Preserves-then (queue s store marshal os) _
          (λ w. set_keeps req.key (marshalled marshal req.value) w h) (queue-Preserves os hs)
    queue-Preserves (delete req ∷ os) (h, hs) =
        Preserves-then (queue s store marshal os) _ (λ w. del_keeps req.key w h)
          (queue-Preserves os hs)
    queue-Preserves (mismatched ∷ os) h = tt
    queue-Preserves (unknown ∷ os) (h, hs) = queue-Preserves os hs

    run-Preserves :
        (transacts : Transacts s) (r : Result (List (W → Reply × W))) (w : W)
        → Holds Preserves r
        → P w
        → P (continue r s.transaction w).1
    run-Preserves transacts (ok cs) w h p =
        subst (λ x. P x.1) (sym (transacts.transaction_runs cs w)) (h w p)
    run-Preserves transacts (err e) w h p = p
    run-Preserves transacts (panic e) w h p = p

    pub multi-After :
        (transacts : Transacts s) (ops : List (TransactionalRequest V)) (w : W)
        → All (Names K) ops
        → P w
        → P (multi s store marshal ops w).1
    unfolding multi
    multi-After transacts ops w h p =
        run-Preserves transacts (queue s store marshal ops) w (queue-Preserves ops h) p
