-- ===== src/State/Redis/Deletion.antt =====
-- Delete and the bulk operations of state/redis/redis.go.
use components_contrib.Base.{
  ℕ, String, ◌≡◌, refl, sym, ◌∙◌, ◌≢◌, ◌⊎◌, inl, inr, false, List, [], ◌∷◌, ◌++◌, arith, eq_iff,
  ◌==◌, if◌then◌else◌, Error, formatted, Result, ok, err,
}
use components_contrib.Base.Text.Decimal.{
  print_nat, print_nat-injective, print_nat-ne-nil, print_nat-zero,
}
use components_contrib.State.Requests.{Bytes, DeleteRequest, Value, SetRequest}
use components_contrib.State.Redis.{
  Reply, nil, bulk, integer, array, failure, is_failure, Server, StateStore, delete_answer,
  del_query, delete_value, set_item, bulk_set,
}
use components_contrib.State.Bulk.{RunsTo, for_each_stops}
use components_contrib.State.Redis.Laws.{Documented, IsConnected}
use components_contrib.State.Redis.Script.{
  IsAt, IsAbsent, KeepsOthers, may_write-Fits, may_write-refused,
}

-- The ETag of the request stands for version `u`; none stands for 0.
abbrev pub DeleteAsks : DeleteRequest → ℕ → Type 0
DeleteAsks req u = (req.etag ≡ print_nat u) ⊎ ((req.etag ≡ "") × (u ≡ 0))

module _ {W : Type 0} (s : Server W) (connected : IsConnected s) where
  delete_value-script :
      (req : DeleteRequest) (u : ℕ) (w : W)
      → DeleteAsks req u
      → delete_value s req w
        ≡ (let (res, w') = del_query s req.key (print_nat u) w in (delete_answer req.key res, w'))
  unfolding delete_value
  delete_value-script req u w asks = rw (kept asks, connected)
    where
      kept : DeleteAsks req u → (if req.etag == "" then "0" else req.etag) ≡ print_nat u
      kept (inl e) = ground (arith, eq_iff req.etag "", print_nat-ne-nil u, e)
      kept (inr (e, z)) = rw (e, z) (sym print_nat-zero)

  module _ (laws : Documented s) where
    delete_answer-done :
        (key : String) (r : Reply) → is_failure r ≡ false → delete_answer key r ≡ ok tt
    unfolding delete_answer
    delete_answer-done key nil h = refl
    delete_answer-done key (bulk v) h = refl
    delete_answer-done key (integer n) h = refl
    delete_answer-done key (array vs) h = refl
    delete_answer-done key (failure m) h = cc

    -- A deletion by a connected client, of a key at version v, whose ETag prints v or 0 or is empty,
    -- succeeds; the key is then gone, and no other key changes.
    pub delete_value_current :
        (req : DeleteRequest) (u v : ℕ) (d : Bytes) (w : W)
        → DeleteAsks req u
        → (u ≡ v) ⊎ (u ≡ 0)
        → IsAt s req.key v d w
        → ((delete_value s req w).0 ≡ ok tt)
          × IsAbsent s req.key (delete_value s req w).1
          × KeepsOthers s req.key w (delete_value s req w).1
    unfolding del_query
    delete_value_current req u v d w e fits at =
        let fits' : (print_nat u ≡ print_nat v) ⊎ (print_nat u ≡ "0") =
          ground (arith, print_nat-zero, fits) in
        rw
          (
            delete_value-script req u w e,
            at.at_version,
            may_write-Fits s laws v (print_nat u) fits',
          )
          (
            delete_answer-done req.key (s.del req.key w).0 (laws.del_reply req.key w),
            record {
              no_version = laws.hget-del_self req.key "version" w;
              no_content = laws.hget-del_self req.key "data" w;
            },
            λ j f ne. laws.hget-del_ne req.key j f w ne,
          )

    -- A deletion by a connected client, of a key at version v, whose ETag is the print of a version u
    -- that is neither v nor 0, ends in an error and changes nothing, whatever the request's
    -- concurrency says: unlike a set, a deletion does not look at "last-write".
    pub delete_value_stale :
        (req : DeleteRequest) (u v : ℕ) (d : Bytes) (w : W)
        → DeleteAsks req u
        → u ≢ v
        → u ≢ 0
        → IsAt s req.key v d w
        → delete_value s req w
          ≡ (err (formatted "failed to delete key '%s' due to ETag mismatch" (req.key ∷ [])), w)
    unfolding del_query delete_answer
    delete_value_stale req u v d w e ne nz at = rw (
      delete_value-script req u w e,
      at.at_version,
      may_write-refused s laws v (print_nat u) (λ p. ne (print_nat-injective u v p))
          (λ p. nz (print_nat-injective u 0 (p ∙ sym print_nat-zero))),
    )

module _ {W V : Type 0} (s : Server W) (store : StateStore) (marshal : Value V → Result Bytes) where
  -- BulkSet is not atomic: if the sets before one request succeed and that one ends in an error, the
  -- call ends in this error, what was set before stays, and no request behind it is tried.
  bulk_set_stops :
      (before behind : List (SetRequest V)) (req : SetRequest V) (w w' : W) (e : Error)
      → RunsTo (set_item s store marshal) before w w'
      → (set_item s store marshal req w').0 ≡ err e
      → bulk_set s store marshal (before ++ req ∷ behind) w
        ≡ (err e, (set_item s store marshal req w').1)
  unfolding bulk_set
  bulk_set_stops before behind req w w' e =
      for_each_stops (set_item s store marshal) before behind req w w' e
