-- ===== src/State/Zookeeper/Rounds.antt =====
-- The loop of BulkSet of state/zookeeper/zk.go ends: a request to create a node is never tried again.
use components_contrib.Base.{
  ℕ, suc, ◌≡◌, refl, ◌≢◌, inl, inr, Option, none, some, List, [], ◌∷◌, All, Error, Result, ok, err,
  panic, then_result, Result-cases,
}
use components_contrib.Base.Signed.{Duration}
use components_contrib.State.Requests.{Bytes, Value, SetRequest}
use components_contrib.State.Zookeeper.{
  CreateRequest, Op, set_data_op, create_op, removal_op, Failure, no_node, failure, Conn, Config,
  multi_answers, append_error, settle, sort_answers, error_of, collect_ops, new_set_data_request,
  set_rounds, bulk_set,
}

abbrev IsCreation : Op → Type 0
IsCreation (create_op req) = Unit
IsCreation _ = ⊥

-- What a step of the loop would try again is made of creations only.
abbrev OnlyCreations : Result (Option Error × List Op) → Type 0
OnlyCreations (ok (e, retry)) = All IsCreation retry
OnlyCreations _ = Unit

abbrev NothingLeft : Result (Option Error × List Op) → Type 0
NothingLeft (ok (e, [])) = Unit
NothingLeft (ok (e, o ∷ retry)) = ⊥
NothingLeft _ = Unit

one_more :
    (r : Result (Option Error × List Op)) (req : CreateRequest)
    → OnlyCreations r
    → OnlyCreations (then_result r λ (e, retry). ok (e, create_op req ∷ retry))
one_more (ok (e, retry)) req h = (tt, h)
one_more (err e) req h = tt
one_more (panic p) req h = tt

sort_answers-OnlyCreations :
    (e : Option Error) (ops : List Op) (answers : List (Option Failure))
    → OnlyCreations (sort_answers e ops answers)
unfolding sort_answers
sort_answers-OnlyCreations e ops [] = tt
sort_answers-OnlyCreations e [] (none ∷ rs) = sort_answers-OnlyCreations e [] rs
sort_answers-OnlyCreations e [] (some no_node ∷ rs) = tt
sort_answers-OnlyCreations e [] (some (failure f) ∷ rs) =
    sort_answers-OnlyCreations (some (append_error e f)) [] rs
sort_answers-OnlyCreations e (o ∷ ops) (none ∷ rs) = sort_answers-OnlyCreations e ops rs
sort_answers-OnlyCreations e (set_data_op req ∷ ops) (some no_node ∷ rs) =
    one_more (sort_answers e ops rs) _ (sort_answers-OnlyCreations e ops rs)
sort_answers-OnlyCreations e (create_op req ∷ ops) (some no_node ∷ rs) =
    sort_answers-OnlyCreations (some (append_error e (error_of no_node))) ops rs
sort_answers-OnlyCreations e (removal_op req ∷ ops) (some no_node ∷ rs) =
    sort_answers-OnlyCreations (some (append_error e (error_of no_node))) ops rs
sort_answers-OnlyCreations e (o ∷ ops) (some (failure f) ∷ rs) =
    sort_answers-OnlyCreations (some (append_error e f)) ops rs

sort_answers-NothingLeft :
    (e : Option Error) (ops : List Op) (answers : List (Option Failure))
    → All IsCreation ops
    → NothingLeft (sort_answers e ops answers)
unfolding sort_answers
sort_answers-NothingLeft e ops [] h = tt
sort_answers-NothingLeft e [] (none ∷ rs) h = sort_answers-NothingLeft e [] rs h
sort_answers-NothingLeft e [] (some no_node ∷ rs) h = tt
sort_answers-NothingLeft e [] (some (failure f) ∷ rs) h =
    sort_answers-NothingLeft (some (append_error e f)) [] rs h
sort_answers-NothingLeft e (o ∷ ops) (none ∷ rs) h = sort_answers-NothingLeft e ops rs h.1
sort_answers-NothingLeft e (set_data_op req ∷ ops) (some no_node ∷ rs) h = absurd h.0
sort_answers-NothingLeft e (create_op req ∷ ops) (some no_node ∷ rs) h =
    sort_answers-NothingLeft (some (append_error e (error_of no_node))) ops rs h.1
sort_answers-NothingLeft e (removal_op req ∷ ops) (some no_node ∷ rs) h = absurd h.0
sort_answers-NothingLeft e (o ∷ ops) (some (failure f) ∷ rs) h =
    sort_answers-NothingLeft (some (append_error e f)) ops rs h.1

-- Two runs that give the same answer, and do give one.
abbrev Agree : {A : Type 0} → Option A → Option A → Type 0
Agree x y = (x ≡ y) × (y ≢ none)

same : {A : Type 0} (a : A) → Agree (some a) (some a)
same a = (refl, λ p. cc)

-- A step that leaves nothing to try again ends, whatever another round would do.
settle-NothingLeft :
    {W : Type 0} (r : Result (Option Error × List Op))
    (again again' : List Op → W → Option (Result (Unit {0}) × W)) (w : W)
    → NothingLeft r
    → Agree (settle r again w) (settle r again' w)
settle-NothingLeft (ok (some e, retry)) f g w h = same _
settle-NothingLeft (ok (none, [])) f g w h = same _
settle-NothingLeft (ok (none, o ∷ retry)) f g w h = absurd h
settle-NothingLeft (err e) f g w h = same _
settle-NothingLeft (panic p) f g w h = same _

settle-OnlyCreations :
    {W : Type 0} (r : Result (Option Error × List Op))
    (again again' : List Op → W → Option (Result (Unit {0}) × W)) (w : W)
    → OnlyCreations r
    → ((ops : List Op) → All IsCreation ops → Agree (again ops w) (again' ops w))
    → Agree (settle r again w) (settle r again' w)
settle-OnlyCreations (ok (some e, retry)) f g w h k = same _
settle-OnlyCreations (ok (none, [])) f g w h k = same _
settle-OnlyCreations (ok (none, o ∷ retry)) f g w h k = k (o ∷ retry) h
settle-OnlyCreations (err e) f g w h k = same _
settle-OnlyCreations (panic p) f g w h k = same _

module _ {W : Type 0} (conn : Conn W) (config : Option Config) (sleep : Duration → W → W) where
  last_round :
      (n : ℕ) (ops : List Op) (w : W)
      → All IsCreation ops
      → Agree (set_rounds conn config sleep (suc n) ops w) (set_rounds conn config sleep 1 ops w)
  unfolding set_rounds
  last_round n ops w h = elim (Result-cases (multi_answers conn ops w).0) [
    | inl (answers, p) ↦
        rw (set_rounds, p)
          (settle-NothingLeft (sort_answers none ops answers) _ _ _
            (sort_answers-NothingLeft none ops answers h))
    | inr (inl (e, p)) ↦ rw (set_rounds, p) (same _)
    | inr (inr (q, p)) ↦ rw (set_rounds, p) (same _)
  ]

  two_rounds :
      (n : ℕ) (ops : List Op) (w : W)
      → Agree
          (set_rounds conn config sleep (suc (suc n)) ops w)
          (set_rounds conn config sleep 2 ops w)
  unfolding set_rounds
  two_rounds n ops w = elim (Result-cases (multi_answers conn ops w).0) [
    | inl (answers, p) ↦
        rw (set_rounds, p)
          (settle-OnlyCreations (sort_answers none ops answers) _ _ _
            (sort_answers-OnlyCreations none ops answers) (λ os h. last_round n os _ h))
    | inr (inl (e, p)) ↦ rw (set_rounds, p) (same _)
    | inr (inr (q, p)) ↦ rw (set_rounds, p) (same _)
  ]

  -- Whatever the connection answers, the loop of a bulk set ends after at most two calls of Multi:
  -- with two or more rounds of fuel it gives a result, and always the same.
  pub bulk_set_ends :
      {V : Type 0} (marshal : Value V → Result Bytes) (n : ℕ) (reqs : List (SetRequest V)) (w : W)
      → (bulk_set conn config sleep marshal (suc (suc n)) reqs w
          ≡ bulk_set conn config sleep marshal 2 reqs w)
        × (bulk_set conn config sleep marshal 2 reqs w ≢ none)
  unfolding bulk_set
  bulk_set_ends marshal n reqs w =
      elim (Result-cases (collect_ops (new_set_data_request marshal config) set_data_op reqs)) [
        | inl (ops, p) ↦ rw (bulk_set, p) (two_rounds n ops w)
        | inr (inl (e, p)) ↦ rw (bulk_set, p) (same _)
        | inr (inr (q, p)) ↦ rw (bulk_set, p) (same _)
      ]
