-- ===== src/State/Options.antt =====
-- CheckSetRequestOptions and CheckDeleteRequestOptions of state/retry.go.
use components_contrib.Base.{
  String, ◌≡◌, ◌↔◌, ◌⊎◌, ◌&&◌, [], ◌∷◌, arith, eq_iff, ◌!=◌, if◌then◌else◌, formatted, Result, ok,
  err, panic, refl, Succeeds,
}
use components_contrib.State.Requests.{
  DeleteRequest, SetRequest, first_write, last_write, strong, eventual,
}

unfoldable pub check_set_request_options : {V : Type 0} → SetRequest V → Result (Unit {0})
check_set_request_options req =
    if concurrency != "" && concurrency != first_write && concurrency != last_write
    then err (formatted "unrecognized concurrency model '%s'" (concurrency ∷ []))
    else if consistency != "" && consistency != strong && consistency != eventual
    then err (formatted "unrecognized consistency model '%s'" (consistency ∷ []))
    else ok tt
  where
    open req.options use {concurrency, consistency}

unfoldable pub check_delete_request_options : DeleteRequest → Result (Unit {0})
check_delete_request_options req =
    if concurrency != "" && concurrency != first_write && concurrency != last_write
    then err (formatted "unrecognized concurrency model '%s'" (concurrency ∷ []))
    else if consistency != "" && consistency != strong && consistency != eventual
    then err (formatted "unrecognized consistency model '%s'" (consistency ∷ []))
    else ok tt
  where
    open req.options use {concurrency, consistency}

abbrev pub IsConcurrency : String → Type 0
IsConcurrency s = (s ≡ "") ⊎ (s ≡ first_write) ⊎ (s ≡ last_write)

abbrev pub IsConsistency : String → Type 0
IsConsistency s = (s ≡ "") ⊎ (s ≡ strong) ⊎ (s ≡ eventual)

-- The check of a set request passes exactly when its concurrency is "", "first-write" or
-- "last-write" and its consistency is "", "strong" or "eventual".
check_set_request_options-Succeeds :
    {V : Type 0} (req : SetRequest V)
    → Succeeds (check_set_request_options req)
      ↔ (IsConcurrency req.options.concurrency × IsConsistency req.options.consistency)
unfolding check_set_request_options
check_set_request_options-Succeeds req = ground (
  arith,
  eq_iff req.options.concurrency "",
  eq_iff req.options.concurrency first_write,
  eq_iff req.options.concurrency last_write,
  eq_iff req.options.consistency "",
  eq_iff req.options.consistency strong,
  eq_iff req.options.consistency eventual,
)

-- The check of a delete request passes exactly when its concurrency is "", "first-write" or
-- "last-write" and its consistency is "", "strong" or "eventual".
check_delete_request_options-Succeeds :
    (req : DeleteRequest)
    → Succeeds (check_delete_request_options req)
      ↔ (IsConcurrency req.options.concurrency × IsConsistency req.options.consistency)
unfolding check_delete_request_options
check_delete_request_options-Succeeds req = ground (
  arith,
  eq_iff req.options.concurrency "",
  eq_iff req.options.concurrency first_write,
  eq_iff req.options.concurrency last_write,
  eq_iff req.options.consistency "",
  eq_iff req.options.consistency strong,
  eq_iff req.options.consistency eventual,
)

Succeeds-ok : (r : Result (Unit {0})) → Succeeds r → r ≡ ok tt
Succeeds-ok (ok u) k = refl
Succeeds-ok (err e) k = absurd k
Succeeds-ok (panic p) k = absurd k

pub check_set_request_options_passes :
    {V : Type 0} (req : SetRequest V)
    → IsConcurrency req.options.concurrency
    → IsConsistency req.options.consistency
    → check_set_request_options req ≡ ok tt
check_set_request_options_passes req h k =
    Succeeds-ok (check_set_request_options req) ((check_set_request_options-Succeeds req).1 (h, k))

pub check_delete_request_options_passes :
    (req : DeleteRequest)
    → IsConcurrency req.options.concurrency
    → IsConsistency req.options.consistency
    → check_delete_request_options req ≡ ok tt
check_delete_request_options_passes req h k =
    Succeeds-ok (check_delete_request_options req)
      ((check_delete_request_options-Succeeds req).1 (h, k))
