-- ===== src/State/Zookeeper/Answers.antt =====
-- What BulkDelete and BulkSet of state/zookeeper/zk.go make of the answers of one Multi.
use components_contrib.Base.Signed.{Duration}
use components_contrib.Base.{
  ℕ, suc, ◌≡◌, refl, ◌≢◌, ◌↔◌, inl, inr, Option, none, some, List, [], ◌∷◌, Option-cases, All,
  Error, joined, appended, Result, ok, err,
}
use components_contrib.State.Requests.{Bytes, DeleteRequest, Value, SetRequest}
use components_contrib.State.Zookeeper.{
  Op, set_data_op, removal_op, Failure, no_node, failure, Conn, Config, multi_answers, answer_of,
  sort_answers, deletion_errors, collect_ops, new_set_data_request, new_delete_request, set_rounds,
  bulk_set, bulk_delete,
}

-- An answer that is no error, or says that the node is not there.
abbrev pub IsHarmless : Option Failure → Type 0
IsHarmless (some (failure e)) = ⊥
IsHarmless _ = Unit

some-ne-none : {A : Type 0} (a : A) → some a ≢ none
some-ne-none a p = cc

deletion_errors-keeps :
    (e : Error) (rs : List (Option Failure)) → deletion_errors (some e) rs ≢ none
unfolding deletion_errors
deletion_errors-keeps e [] p = cc
deletion_errors-keeps e (none ∷ rs) p = deletion_errors-keeps e rs p
deletion_errors-keeps e (some no_node ∷ rs) p = deletion_errors-keeps e rs p
deletion_errors-keeps e (some (failure f) ∷ rs) p = deletion_errors-keeps (appended e f) rs p

-- The errors of a bulk deletion, started without one, are none exactly if every answer is no error
-- or says that the node is not there.
pub deletion_errors-none :
    (answers : List (Option Failure))
    → (deletion_errors none answers ≡ none) ↔ All IsHarmless answers
unfolding deletion_errors
deletion_errors-none [] = (λ _. tt, λ _. refl)
deletion_errors-none (none ∷ rs) =
    (λ p. (tt, (deletion_errors-none rs).0 p), λ h. (deletion_errors-none rs).1 h.1)
deletion_errors-none (some no_node ∷ rs) =
    (λ p. (tt, (deletion_errors-none rs).0 p), λ h. (deletion_errors-none rs).1 h.1)
deletion_errors-none (some (failure e) ∷ rs) =
    (λ p. absurd (deletion_errors-keeps (joined e) rs p), λ h. absurd h.0)

sort_answers_no_errors :
    (ops : List Op) (rs : List (Option Failure))
    → All (λ r. r ≡ none) rs
    → sort_answers none ops rs ≡ ok (none, [])
unfolding sort_answers
sort_answers_no_errors ops [] k = refl
sort_answers_no_errors [] (r ∷ rs) k = rw k.0 (sort_answers_no_errors [] rs k.1)
sort_answers_no_errors (o ∷ ops) (r ∷ rs) k = rw k.0 (sort_answers_no_errors ops rs k.1)

module _ {W : Type 0} (conn : Conn W) (config : Option Config) (sleep : Duration → W → W) where
  -- A bulk deletion whose requests can be made, and whose Multi gives its answers, succeeds exactly
  -- if every answer is no error or says that the node is not there.
  pub bulk_delete_answers :
      (reqs : List DeleteRequest) (ops : List Op) (answers : List (Option Failure)) (w : W)
      → collect_ops (new_delete_request config) removal_op reqs ≡ ok ops
      → (multi_answers conn ops w).0 ≡ ok answers
      → ((bulk_delete conn config sleep reqs w).0 ≡ ok tt) ↔ All IsHarmless answers
  unfolding bulk_delete
  bulk_delete_answers reqs ops answers w made answered =
      rw (made, answered) (by_errors (deletion_errors none answers) (deletion_errors-none answers))
    where
      by_errors :
          (e : Option Error)
          → ((e ≡ none) ↔ All IsHarmless answers)
          → (answer_of e ≡ ok tt) ↔ All IsHarmless answers
      by_errors none h = (λ _. h.0 refl, λ _. refl)
      by_errors (some e) h = (λ p. cc, λ k. absurd (some-ne-none e (h.1 k)))

  -- The client gives the first error among the answers of Multi for the error of the call.
  abbrev pub ReportsErrors : Type 0
  ReportsErrors =
      (ops : List Op) (w : W)
      → (conn.multi ops w).0.1 ≡ none
      → All (λ r. r ≡ none) (conn.multi ops w).0.0

  module _ {V : Type 0} (marshal : Value V → Result Bytes) where
    -- If the client gives an error for every Multi that has an answer with an error, a bulk set whose
    -- requests can be made calls Multi once, whatever rounds it may make, and ends with the error of this
    -- call, or well if there is none: it never tries the creation of a missing node.
    pub bulk_set_single_round :
        (reqs : List (SetRequest V)) (ops : List Op) (n : ℕ) (w : W)
        → ReportsErrors
        → collect_ops (new_set_data_request marshal config) set_data_op reqs ≡ ok ops
        → bulk_set conn config sleep marshal (suc n) reqs w
          ≡ some
              (elim (conn.multi ops w).0.1 [ none ↦ ok tt | some e ↦ err e ], (conn.multi ops w).1)
    unfolding bulk_set set_rounds multi_answers
    bulk_set_single_round reqs ops n w reports made = elim (Option-cases (conn.multi ops w).0.1) [
      | inl e ↦
          rw
            (
              bulk_set,
              made,
              set_rounds,
              e,
              sort_answers_no_errors ops (conn.multi ops w).0.0 (reports ops w e),
            )
            refl
      | inr (x, e) ↦ rw (bulk_set, made, set_rounds, e) refl
    ]
