-- ===== src/State/Zookeeper/Removals.antt =====
-- Delete of state/zookeeper/zk.go on nodes with versions.
use components_contrib.Base.{
  ℕ, String, ◌≡◌, refl, sym, ap, ◌∙◌, ◌⊎◌, inl, inr, true, Option, none, some, Option-cases, ok,
}
use components_contrib.State.Requests.{Bytes, DeleteRequest}
use components_contrib.Base.Signed.{Duration}
use components_contrib.State.Options.{check_delete_request_options_passes}
use components_contrib.State.Retry.{set_failed, delete_with_retries}
use components_contrib.State.Retry.Constant.{Fails, with_retries-done, with_retries-Fails}
use components_contrib.State.Zookeeper.{
  RemovalRequest, Conn, Config, prefixed_key, new_delete_request, remove_once, delete_item,
}
use components_contrib.State.Zookeeper.Laws.{
  Matches, Differs, Matches-or-Differs, Documented, IsChecked, KeepsNodes, KeepsOtherNodes,
  asked_version,
}
use mathlib.Core.Path.{subst}

module _ {W : Type 0} (conn : Conn W) (laws : Documented conn) (config : Option Config)
    (sleep : Duration → W → W)
    (sleep_keeps : (t : Duration) (w : W) (q : String)
      → laws.stored (sleep t w) q ≡ laws.stored w q) where
  delete_item-request :
      (req : DeleteRequest) (w : W)
      → IsChecked req.options.concurrency req.options.consistency
          req.options.retry_policy.pattern_name
      → delete_item conn config sleep req w
        ≡ delete_with_retries sleep
            (λ _. remove_once conn config sleep (record {
              path = prefixed_key config req.key;
              version = asked_version req.options.concurrency req.etag;
            }))
            req
            w
  unfolding delete_item new_delete_request
  delete_item-request req w h =
      rw (check_delete_request_options_passes req h.known_concurrency h.known_consistency) refl

  remove_once-missing :
      (r : RemovalRequest) (w : W)
      → laws.is_path r.path ≡ true
      → laws.stored w r.path ≡ none
      → remove_once conn config sleep r w ≡ (ok tt, w)
  unfolding remove_once
  remove_once-missing r w is at =
      let missing = laws.remove_missing r.path r.version w is at in
      rw (remove_once, ap (λ o. o.0) missing, ap (λ o. o.1) missing) refl

  remove_once-Matches :
      (r : RemovalRequest) (d : Bytes) (v : ℕ) (w : W)
      → laws.stored w r.path ≡ some (d, v)
      → laws.may_remove w r.path ≡ true
      → Matches r.version v
      → ((remove_once conn config sleep r w).0 ≡ ok tt)
        × (laws.stored (remove_once conn config sleep r w).1 r.path ≡ none)
        × KeepsOtherNodes laws r.path w (remove_once conn config sleep r w).1
  unfolding remove_once
  remove_once-Matches r d v w at may fits =
      rw (remove_once, laws.remove_reply r.path d r.version v w at may fits)
        (
          refl,
          laws.stored-remove_self r.path d r.version v w at may fits,
          λ q ne. laws.stored-remove_ne r.path q r.version w ne,
        )

  remove_once-Differs :
      (r : RemovalRequest) (d : Bytes) (v : ℕ) (w x : W)
      → laws.stored w r.path ≡ some (d, v)
      → Differs r.version v
      → KeepsNodes laws w x
      → Fails (KeepsNodes laws w) (remove_once conn config sleep r x)
  unfolding remove_once
  remove_once-Differs r d v w x at differs k =
      let (e, q) = laws.remove_conflict r.path d r.version v x (k r.path ∙ at) differs in
      rw (remove_once, q) ((e, refl), λ i. ap (λ o. laws.stored o.1 i) q ∙ k i)

  -- Delete by version. A deletion with options and a pattern of retries that the code knows, at a path
  -- that the client takes and at which the session may remove a node without children: of a node that is
  -- not there it succeeds and changes nothing; of one whose version its ETag stands for, or if it
  -- is last-write or stands for any version, it succeeds, the node is gone and no other one differs; and
  -- otherwise it ends in an error after all its attempts and no node differs, if a pause changes none.
  pub delete_item_by_node_version :
      (req : DeleteRequest) (w : W)
      → IsChecked req.options.concurrency req.options.consistency
          req.options.retry_policy.pattern_name
      → laws.is_path (prefixed_key config req.key) ≡ true
      → laws.may_remove w (prefixed_key config req.key) ≡ true
      → let x = asked_version req.options.concurrency req.etag in
        let p = prefixed_key config req.key in
        let r = delete_item conn config sleep req w in
        ((laws.stored w p ≡ none) × (r ≡ (ok tt, w)))
        ⊎ ((d : Bytes) × (v : ℕ) × (laws.stored w p ≡ some (d, v))
            × ((Matches x v
                  × ((r.0 ≡ ok tt) × (laws.stored r.1 p ≡ none) × KeepsOtherNodes laws p w r.1))
                ⊎ (Differs x v × Fails (KeepsNodes laws w) r)))
  unfolding delete_with_retries
  delete_item_by_node_version req w h is may =
      elim (Option-cases (laws.stored w (prefixed_key config req.key))) [
        | inl missing ↦
            let gone = remove_once-missing r w is missing in
            inl (missing, once (ap (λ o. o.0) gone) ∙ gone)
        | inr ((d, v), at) ↦ inr (
          d,
          v,
          at,
          elim (Matches-or-Differs r.version v) [
            | inl fits ↦
                let removed = remove_once-Matches r d v w at may fits in
                inl (fits, rw (once removed.0) removed)
            | inr differs ↦ inr (
              differs,
              subst (Fails (KeepsNodes laws w)) (sym (delete_item-request req w h)) (
                  with_retries-Fails sleep (remove_once conn config sleep r) (KeepsNodes laws w)
                    (λ y k. remove_once-Differs r d v w y at differs k)
                    (λ t y k q. sleep_keeps t y q ∙ k q) set_failed req.options.retry_policy w
                    h.known_pattern (λ q. refl)),
            )
          ],
        )
      ]
    where
      r : RemovalRequest
      r = record {
        path = prefixed_key config req.key;
        version = asked_version req.options.concurrency req.etag;
      }

      once :
          (remove_once conn config sleep r w).0 ≡ ok tt
          → delete_item conn config sleep req w ≡ remove_once conn config sleep r w
      once done' =
          delete_item-request req w h
          ∙ with_retries-done sleep (remove_once conn config sleep r) set_failed
              req.options.retry_policy w h.known_pattern done'
