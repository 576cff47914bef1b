-- ===== src/State/Mongodb/Transactions.antt =====
-- Multi of state/mongodb/mongodb.go: a transaction is done as a whole or not at all.
mod Tests
use components_contrib.Base.{
  String, ◌≡◌, refl, ap, ◌∙◌, ◌⊎◌, inl, inr, Option, none, some, List, [], ◌∷◌, Error, Panic,
  Result, ok, err, panic,
}
use components_contrib.State.Requests.{
  Bytes, Value, TransactionalRequest, upsert, delete, mismatched, unknown, encode,
}
use components_contrib.Base.Effect.{Eff, for_each}
use mathlib.Core.Path.{subst}
use components_contrib.State.Contents.{Contents, put, remove}
use components_contrib.State.Mongodb.{
  in_session, MongoDb, delete_internal, set_internal, run_operation, do_transaction,
  transaction_body, multi,
}

-- What the operations of a transaction do to a map.
abbrev pub applied_one :
    {V : Type 0} → (Value V → Result Bytes) → TransactionalRequest V → Contents → Contents
applied_one marshal (upsert req) c = put req.key (encode marshal req.value) c
applied_one marshal (delete req) c = remove req.key c
applied_one marshal _ c = c

unfoldable pub applied :
    {V : Type 0} → (Value V → Result Bytes) → List (TransactionalRequest V) → Contents → Contents
applied marshal [] c = c
applied marshal (o ∷ os) c = applied marshal os (applied_one marshal o c)

-- What the driver documents of sessions: `stored` is what is committed, `pending` what the open session
-- sees. The function of a transaction runs on what is committed; its writes are kept with the session
-- until a commit, behind a success, and are dropped behind an error.
pub record Transacts {W : Type 0} (m : MongoDb W) : Type 0 where
  pub stored : W → Contents
  pub pending : W → Contents
  pub start_reply : (w : W) → (m.client.start_session w).0 ≡ ok tt
  pub start_keeps : (w : W) → stored (m.client.start_session w).1 ≡ stored w
  pub end_keeps : (w : W) → stored (m.client.end_session w) ≡ stored w
  pub abort_keeps : (w : W) → stored (m.client.abort_transaction w) ≡ stored w
  pub begin : W → W
  pub stored-begin : (w : W) → stored (begin w) ≡ stored w
  pub pending-begin : (w : W) → pending (begin w) ≡ stored w
  pub commit : W → W
  pub stored-commit : (w : W) → stored (commit w) ≡ pending w
  pub runs_to_commit :
      (body : Eff (Option Error × W) (Unit {0})) (e : Option Error) (w : W)
      → (body (e, begin w)).0 ≡ ok tt
      → m.client.with_transaction body (e, w)
        ≡ (ok tt, ((body (e, begin w)).1.0, commit (body (e, begin w)).1.1))
  pub runs_to_error :
      (body : Eff (Option Error × W) (Unit {0})) (e : Option Error) (w : W) (x : Error)
      → (body (e, begin w)).0 ≡ err x
      → m.client.with_transaction body (e, w) ≡ (err x, (body (e, begin w)).1)
  pub runs_to_panic :
      (body : Eff (Option Error × W) (Unit {0})) (e : Option Error) (w : W) (p : Panic)
      → (body (e, begin w)).0 ≡ panic p
      → m.client.with_transaction body (e, w) ≡ (panic p, (body (e, begin w)).1)
  -- A call of the session succeeds or fails.
  pub update_keeps :
      (k b : String) (w : W) → stored (m.collection.update_one in_session k b w).1 ≡ stored w
  pub update_cases :
      (k b : String) (w : W)
      → let r = m.collection.update_one in_session k b w in
        ((r.0 ≡ ok tt) × (pending r.1 ≡ put k b (pending w))) ⊎ ((e : Error) × (r.0 ≡ err e))
  pub delete_keeps :
      (k : String) (w : W) → stored (m.collection.delete_one in_session k w).1 ≡ stored w
  pub delete_cases :
      (k : String) (w : W)
      → let r = m.collection.delete_one in_session k w in
        ((r.0 ≡ ok tt) × (pending r.1 ≡ remove k (pending w))) ⊎ ((e : Error) × (r.0 ≡ err e))

module _ {W V : Type 0} (m : MongoDb W) (marshal : Value V → Result Bytes)
    (laws : Transacts m) where
  -- How a part of a transaction can end; none commits anything.
  abbrev Ends : Contents → Contents → Result (Unit {0}) × W → Type 0
  Ends before after r =
      (((r.0 ≡ ok tt) × (laws.pending r.1 ≡ after))
        ⊎ ((e : Error) × (r.0 ≡ err e))
        ⊎ ((p : Panic) × (r.0 ≡ panic p)))
      × (laws.stored r.1 ≡ before)

  run_operation-Ends :
      (o : TransactionalRequest V) (w : W)
      → Ends (laws.stored w) (applied_one marshal o (laws.pending w)) (run_operation m marshal o w)
  unfolding run_operation set_internal delete_internal
  run_operation-Ends (upsert req) w = (
    elim (laws.update_cases req.key (encode marshal req.value) w) [
      | inl h ↦ inl h
      | inr h ↦ inr (inl h)
    ],
    laws.update_keeps req.key (encode marshal req.value) w,
  )
  run_operation-Ends (delete req) w = (
    elim (laws.delete_cases req.key w) [ inl h ↦ inl h | inr h ↦ inr (inl h) ],
    laws.delete_keeps req.key w,
  )
  run_operation-Ends mismatched w = (inr (inr (_, refl)), refl)
  run_operation-Ends unknown w = (inl (refl, refl), refl)

  do_transaction-Ends :
      (ops : List (TransactionalRequest V)) (w : W)
      → Ends (laws.stored w) (applied marshal ops (laws.pending w)) (do_transaction m marshal ops w)
  unfolding do_transaction for_each applied
  do_transaction-Ends [] w = (inl (refl, refl), refl)
  do_transaction-Ends (o ∷ os) w =
      let (ends, keeps) = run_operation-Ends o w in
      let rest = do_transaction-Ends os (run_operation m marshal o w).1 in
      elim ends [
        | inl (done, seen) ↦ rw done (
            subst
              (λ c.
                Ends (laws.stored w) (applied marshal os c)
                  (do_transaction m marshal os (run_operation m marshal o w).1))
              seen (rest.0, rest.1 ∙ keeps))
        | inr (inl (e, failed)) ↦ rw failed (inr (inl (_, refl)), laws.abort_keeps _ ∙ keeps)
        | inr (inr (p, crashed)) ↦ rw crashed (inr (inr (p, refl)), keeps)
      ]

  abbrev assigned : Result (Unit {0}) → Option Error
  assigned (ok u) = none
  assigned (err e) = some e
  assigned (panic p) = none

  body-assigns :
      (ops : List (TransactionalRequest V)) (w : W) (r : Result (Unit {0}))
      → (do_transaction m marshal ops w).0 ≡ r
      → transaction_body m marshal ops (none, w)
        ≡ (r, (assigned r, (do_transaction m marshal ops w).1))
  unfolding transaction_body
  body-assigns ops w (ok u) h = rw (transaction_body, h) refl
  body-assigns ops w (err e) h = rw (transaction_body, h) refl
  body-assigns ops w (panic p) h = rw (transaction_body, h) refl

  -- What Multi makes of the result of `WithTransaction` and of the variable `err`.
  abbrev concluded : Result (Unit {0}) → Option Error → W → Result (Unit {0}) × W
  concluded res e w = (
    elim res [ panic p ↦ panic p | _ ↦ elim e [ none ↦ ok tt | some e' ↦ err e' ] ],
    m.client.end_session w,
  )

  -- Multi answers what the transaction answers.
  multi-answers :
      (ops : List (TransactionalRequest V)) (w x : W) (r : Result (Unit {0}))
      → m.client.with_transaction
          (transaction_body m marshal ops)
          (none, (m.client.start_session w).1)
        ≡ (r, (assigned r, x))
      → multi m marshal ops w ≡ (r, m.client.end_session x)
  unfolding multi
  multi-answers ops w x r h = started ∙ ap (λ y. concluded y.0 y.1.0 y.1.1) h ∙ settled r
    where
      run : Result (Unit {0}) × (Option Error × W)
      run =
          m.client.with_transaction (transaction_body m marshal ops)
            (none, (m.client.start_session w).1)

      started : multi m marshal ops w ≡ concluded run.0 run.1.0 run.1.1
      started = rw (multi, laws.start_reply w) refl

      settled :
          (r' : Result (Unit {0})) → concluded r' (assigned r') x ≡ (r', m.client.end_session x)
      settled (ok u) = refl
      settled (err e) = refl
      settled (panic p) = refl

  -- A transaction is done as a whole or not at all. With a driver that reaches the server and whose
  -- commits succeed, either Multi succeeds and the store is left as the operations, one after the other,
  -- leave it; or Multi ends in an error, because one of them failed, or in a panic, because of a request
  -- of the wrong type, and the store is left as it was.
  pub multi_all_or_nothing :
      (ops : List (TransactionalRequest V)) (w : W)
      → let r = multi m marshal ops w in
        ((r.0 ≡ ok tt) × (laws.stored r.1 ≡ applied marshal ops (laws.stored w)))
        ⊎ ((((e : Error) × (r.0 ≡ err e)) ⊎ ((p : Panic) × (r.0 ≡ panic p)))
            × (laws.stored r.1 ≡ laws.stored w))
  multi_all_or_nothing ops w = elim ends [
    | inl (done, seen) ↦
        let run = body-assigns ops (laws.begin w1) (ok tt) done in
        let r = multi-answers ops w _ (ok tt) (
          laws.runs_to_commit (transaction_body m marshal ops) none w1 (ap (λ x. x.0) run)
          ∙ ap (λ x. (ok tt, (x.1.0, laws.commit x.1.1))) run) in
        rw r (
          inl (
            refl,
            laws.end_keeps _
                ∙ laws.stored-commit _
                ∙ seen
                ∙ ap (applied marshal ops) (laws.pending-begin w1 ∙ laws.start_keeps w),
          ))
    | inr (inl (e, failed)) ↦
        let run = body-assigns ops (laws.begin w1) (err e) failed in
        let r = multi-answers ops w _ (err e) (
          laws.runs_to_error (transaction_body m marshal ops) none w1 e (ap (λ x. x.0) run)
          ∙ ap (λ x. (err e, x.1)) run) in
        rw r (inr (inl (e, refl), laws.end_keeps _ ∙ unchanged))
    | inr (inr (p, crashed)) ↦
        let run = body-assigns ops (laws.begin w1) (panic p) crashed in
        let r = multi-answers ops w _ (panic p) (
          laws.runs_to_panic (transaction_body m marshal ops) none w1 p (ap (λ x. x.0) run)
          ∙ ap (λ x. (panic p, x.1)) run) in
        rw r (inr (inr (p, refl), laws.end_keeps _ ∙ unchanged))
  ]
    where
      w1 : W
      w1 = (m.client.start_session w).1

      ends :
          let r = do_transaction m marshal ops (laws.begin w1) in
          ((r.0 ≡ ok tt) × (laws.pending r.1 ≡ applied marshal ops (laws.pending (laws.begin w1))))
          ⊎ ((e : Error) × (r.0 ≡ err e))
          ⊎ ((p : Panic) × (r.0 ≡ panic p))
      ends = (do_transaction-Ends ops (laws.begin w1)).0

      unchanged : laws.stored (do_transaction m marshal ops (laws.begin w1)).1 ≡ laws.stored w
      unchanged =
          (do_transaction-Ends ops (laws.begin w1)).1 ∙ laws.stored-begin w1 ∙ laws.start_keeps w
