-- ===== src/State/Zookeeper/Writes.antt =====
-- Set and Delete of state/zookeeper/zk.go on nodes with versions: which are done and which are refused,
-- with the retries of state/retry.go around the calls of the connection.
mod Tests
use components_contrib.Base.{
  ℕ, zero, suc, ◌+◌, ◌-◌, ◌*◌, ◌/◌, ◌%◌, ◌^◌, ◌≤◌, ◌<◌, String, ◌≡◌, refl, sym, ap, ◌∙◌, ◌≢◌, ◌↔◌,
  ◌⊎◌, inl, inr, Bool, true, false, not, ◌&&◌, ◌||◌, Option, none, some, List, [], ◌∷◌, ◌++◌, map,
  arith, eq_iff, eq_refl, ltb, leb, nat_eq, ◌==◌, ◌!=◌, if◌then◌else◌, Bool-cases, Option-cases,
  length, All, Error, created, formatted, wrapped, external, joined, appended, Panic,
  nil_dereference, index_out_of_range, failed_type_assertion, Result, ok, err, panic, then_result,
  map_error, Succeeds, Panics, Result-cases,
}
use components_contrib.State.Requests.{Bytes, Value, SetRequest}
use components_contrib.Base.Signed.{pos, Duration}
use components_contrib.State.Options.{check_set_request_options_passes}
use components_contrib.State.Retry.{set_failed, set_with_retries}
use components_contrib.State.Retry.Constant.{Fails, with_retries-done, with_retries-Fails}
use components_contrib.State.Zookeeper.{
  SetDataRequest, Failure, no_node, failure, refused, error_of, Conn, Config, prefixed_key,
  marshal_data, new_set_data_request, write_once, set_item,
}
use components_contrib.State.Zookeeper.Laws.{
  Matches, Differs, Matches-or-Differs, Documented, IsChecked, KeepsNodes, KeepsOtherNodes,
  asked_version,
}
use mathlib.Core.Path.{subst}

module _ {W V : Type 0} (conn : Conn W) (laws : Documented conn) (config : Option Config)
    (sleep : Duration → W → W) (marshal : Value V → Result Bytes)
    (sleep_keeps : (t : Duration) (w : W) (q : String)
      → laws.stored (sleep t w) q ≡ laws.stored w q) where
  -- A set runs its method, with its retries, for one request.
  set_item-request :
      (req : SetRequest V) (b : Bytes) (w : W)
      → IsChecked req.options.concurrency req.options.consistency
          req.options.retry_policy.pattern_name
      → marshal_data marshal req.value ≡ ok b
      → set_item conn config sleep marshal req w
        ≡ set_with_retries sleep
            (λ _. write_once conn config sleep (record {
              path = prefixed_key config req.key;
              content = b;
              version = asked_version req.options.concurrency req.etag;
            }))
            req
            w
  unfolding set_item new_set_data_request
  set_item-request req b w h m =
      rw (check_set_request_options_passes req h.known_concurrency h.known_consistency, m) refl

  write_once-Matches :
      (r : SetDataRequest) (d : Bytes) (v : ℕ) (w : W)
      → laws.stored w r.path ≡ some (d, v)
      → v + 1 < 2 ^ 31
      → laws.may_set w r.path r.content ≡ true
      → Matches r.version v
      → ((write_once conn config sleep r w).0 ≡ ok tt)
        × (laws.stored (write_once conn config sleep r w).1 r.path ≡ some (r.content, v + 1))
        × KeepsOtherNodes laws r.path w (write_once conn config sleep r w).1
  unfolding write_once
  write_once-Matches r d v w at b may fits =
      rw (write_once, laws.set_reply r.path r.content d r.version v w at b may fits)
        (
          refl,
          laws.stored-set_self r.path r.content d r.version v w at b may fits,
          λ q ne. laws.stored-set_ne r.path q r.content r.version w ne,
        )

  write_once-Differs :
      (r : SetDataRequest) (d : Bytes) (v : ℕ) (w x : W)
      → laws.stored w r.path ≡ some (d, v)
      → Differs r.version v
      → KeepsNodes laws w x
      → Fails (KeepsNodes laws w) (write_once conn config sleep r x)
  unfolding write_once
  write_once-Differs r d v w x at no_match k =
      let (e, q) = laws.set_conflict r.path r.content d r.version v x (k r.path ∙ at) no_match in
      rw (write_once, q) ((e, refl), λ i. ap (λ o. laws.stored o.1 i) q ∙ k i)

  -- A set that the server refuses, whatever the failure: a creation without an ACL is refused, too.
  write_once-refused :
      (r : SetDataRequest) (f : Failure) (w x : W)
      → conn.set r.path r.content r.version x ≡ (refused f, x)
      → KeepsNodes laws w x
      → Fails (KeepsNodes laws w) (write_once conn config sleep r x)
  unfolding write_once
  write_once-refused r (failure e) w x q k =
      rw (write_once, ap (λ o. o.0) q) ((e, refl), λ i. ap (λ o. laws.stored o.1 i) q ∙ k i)
  write_once-refused r no_node w x q k =
      let (f, c) = laws.create_without_acl r.path r.content (pos 0) x in
      rw (write_once, ap (λ o. o.0) q, ap (λ o. o.1) q, ap (λ o. o.0) c)
        ((error_of f, refl), λ i. ap (λ o. laws.stored o.1 i) c ∙ k i)

  write_once-missing :
      (r : SetDataRequest) (w x : W)
      → laws.stored w r.path ≡ none
      → KeepsNodes laws w x
      → Fails (KeepsNodes laws w) (write_once conn config sleep r x)
  write_once-missing r w x at k =
      let (f, q) = laws.set_missing r.path r.content r.version x (k r.path ∙ at) in
      write_once-refused r f w x q k

  -- A set whose attempts all fail, on nodes like those of `w`, ends in an error.
  set_item-Fails :
      (req : SetRequest V) (b : Bytes) (w : W)
      → IsChecked req.options.concurrency req.options.consistency
          req.options.retry_policy.pattern_name
      → marshal_data marshal req.value ≡ ok b
      → let r : SetDataRequest = record {
        path = prefixed_key config req.key;
        content = b;
        version = asked_version req.options.concurrency req.etag;
      } in
        ((y : W)
          → KeepsNodes laws w y
          → Fails (KeepsNodes laws w) (write_once conn config sleep r y))
        → Fails (KeepsNodes laws w) (set_item conn config sleep marshal req w)
  unfolding set_with_retries
  set_item-Fails req b w h m each =
      subst (Fails (KeepsNodes laws w)) (sym (set_item-request req b w h m)) (
        with_retries-Fails sleep
          (write_once conn config sleep (record {
            path = prefixed_key config req.key;
            content = b;
            version = asked_version req.options.concurrency req.etag;
          }))
          (KeepsNodes laws w) each (λ t y k q. sleep_keeps t y q ∙ k q) set_failed
          req.options.retry_policy w h.known_pattern (λ q. refl))

  -- A set of a node at another version than the one that it asks for.
  pub set_item-Differs :
      (req : SetRequest V) (b d : Bytes) (v : ℕ) (w : W)
      → IsChecked req.options.concurrency req.options.consistency
          req.options.retry_policy.pattern_name
      → marshal_data marshal req.value ≡ ok b
      → laws.stored w (prefixed_key config req.key) ≡ some (d, v)
      → Differs (asked_version req.options.concurrency req.etag) v
      → Fails (KeepsNodes laws w) (set_item conn config sleep marshal req w)
  set_item-Differs req b d v w h m at differs =
      set_item-Fails req b w h m (λ y k. write_once-Differs _ d v w y at differs k)

  -- Set by version. A set with options and a pattern of retries that the code knows, and with a value
  -- that can be marshalled, which the session may set, of a node at version v: if it is last-write or
  -- its ETag stands for v or for any version, it succeeds, the node has the new content at version v +
  -- 1, and no other node differs. Otherwise it ends in an error after all its attempts, and no node
  -- differs, if a pause changes none.
  pub set_item_by_node_version :
      (req : SetRequest V) (b d : Bytes) (v : ℕ) (w : W)
      → IsChecked req.options.concurrency req.options.consistency
          req.options.retry_policy.pattern_name
      → marshal_data marshal req.value ≡ ok b
      → laws.stored w (prefixed_key config req.key) ≡ some (d, v)
      → v + 1 < 2 ^ 31
      → laws.may_set w (prefixed_key config req.key) b ≡ true
      → let x = asked_version req.options.concurrency req.etag in
        let p = prefixed_key config req.key in
        let r = set_item conn config sleep marshal req w in
        (Matches x v
          × ((r.0 ≡ ok tt) × (laws.stored r.1 p ≡ some (b, v + 1)) × KeepsOtherNodes laws p w r.1))
        ⊎ (Differs x v × Fails (KeepsNodes laws w) r)
  unfolding set_with_retries
  set_item_by_node_version req b d v w h m at bound may =
      let x = asked_version req.options.concurrency req.etag in
      let p = prefixed_key config req.key in
      let r : SetDataRequest = record { path = p; content = b; version = x } in
      elim (Matches-or-Differs x v) [
        | inl fits ↦
            let done' = write_once-Matches r d v w at bound may fits in
            inl (
              fits,
              rw
                  (set_item-request req b w h m
                    ∙ with_retries-done sleep (write_once conn config sleep r) set_failed
                        req.options.retry_policy w h.known_pattern done'.0)
                  done',
            )
        | inr differs ↦ inr (differs, set_item-Differs req b d v w h m at differs)
      ]

  -- A set with options and a pattern of retries that the code knows, and with a value that can be
  -- marshalled, of a node that is not there, ends in an error after all its attempts, and no node
  -- differs, if a pause changes none: the creation that it tries has no ACL.
  pub set_item_never_creates :
      (req : SetRequest V) (b : Bytes) (w : W)
      → IsChecked req.options.concurrency req.options.consistency
          req.options.retry_policy.pattern_name
      → marshal_data marshal req.value ≡ ok b
      → laws.stored w (prefixed_key config req.key) ≡ none
      → Fails (KeepsNodes laws w) (set_item conn config sleep marshal req w)
  set_item_never_creates req b w h m at =
      set_item-Fails req b w h m (λ y k. write_once-missing _ w y at k)
