-- ===== src/State/Cosmosdb/Conflicts.antt =====
-- What the store of state/cosmosdb/cosmosdb.go relies on of the service, and what becomes of two
-- clients that write what both have read.
use components_contrib.Base.{
  String, ◌≡◌, refl, sym, ap, ◌∙◌, ◌≢◌, ◌⊎◌, inr, Option, none, some, List, [], ◌∷◌, arith, eq_iff,
  Error, Result, ok, err, panic, then_result,
}
use components_contrib.State.Requests.{Bytes, GetRequest, Value, SetRequest, GetResponse, strong}
use components_contrib.State.Options.{IsConcurrency, IsConsistency}
use components_contrib.State.Options.{check_set_request_options_passes}
use components_contrib.State.Cosmosdb.{
  CallOptions, CosmosItem, StateStore, call_options, get_item, set_item, answer_of,
}

abbrev pub items_of : {J : Type 0} → Option (CosmosItem J) → List (CosmosItem J)
items_of none = []
items_of (some item) = item ∷ []

-- A service that is reached, of an account whose default consistency is strong, so that a query that
-- asks for strong consistency sees the last write; on which each document stands under its own key as
-- partition key. A write without a condition, or whose condition is the document's ETag, is done, and
-- gives the document another ETag; one with another condition is refused.
pub record Documented {W V J : Type 0} (c : StateStore W V J) : Type 0 where
  pub stored : W → String → Option (CosmosItem J)
  pub json_of : Value V → J
  pub query_reply :
      (k : String) (o : CallOptions) (w : W)
      → o.partition_key ≡ k
      → o.consistency_level ≡ some strong
      → c.client.query_documents c.collection.self_link k o w ≡ (ok (items_of (stored w k)), w)
  pub upsert_done :
      (k : String) (v : Value V) (o : CallOptions) (w : W) (item : CosmosItem J)
      → o.partition_key ≡ k
      → stored w k ≡ some item
      → (o.if_match ≡ none) ⊎ (o.if_match ≡ some item.etag)
      → ((c.client.upsert_document c.collection.self_link k v o w).0 ≡ ok tt)
        × ((written : CosmosItem J) × (stored
                (c.client.upsert_document c.collection.self_link k v o w).1
                k
              ≡ some written)
            × (written.value ≡ json_of v)
            × (written.etag ≢ item.etag))
  pub upsert_refused :
      (k : String) (v : Value V) (o : CallOptions) (w : W) (item : CosmosItem J) (etag : String)
      → o.partition_key ≡ k
      → stored w k ≡ some item
      → o.if_match ≡ some etag
      → etag ≢ item.etag
      → (e : Error) × (c.client.upsert_document c.collection.self_link k v o w ≡ (err e, w))

-- The options are known ones.
pub record HasOptions {V : Type 0} (req : SetRequest V) : Type 0 where
  pub known_concurrency : IsConcurrency req.options.concurrency
  pub known_consistency : IsConsistency req.options.consistency

module _ {W V J : Type 0} (c : StateStore W V J) (marshal : J → Result Bytes)
    (laws : Documented c) where
  set_item-upsert :
      (req : SetRequest V) (w : W)
      → HasOptions req
      → set_item c req w
        ≡ c.client.upsert_document c.collection.self_link req.key req.value
            (call_options req.key req.etag req.options.consistency)
            w
  unfolding set_item
  set_item-upsert req w h =
      rw (check_set_request_options_passes req h.known_concurrency h.known_consistency) refl

  abbrev with_etag : J → String → CosmosItem J
  with_etag v etag = record { value = v; etag = etag }

  if_match-some :
      (key etag consistency : String)
      → etag ≢ ""
      → (call_options key etag consistency).if_match ≡ some etag
  unfolding call_options
  if_match-some key etag consistency ne = ground (arith, eq_iff etag "", ne)

  answer_etag :
      (o : Option (CosmosItem J)) (r : GetResponse)
      → answer_of marshal (items_of o) ≡ ok (some r)
      → (item : CosmosItem J) × (o ≡ some item) × (r.etag ≡ item.etag)
  unfolding answer_of
  answer_etag none r e = cc
  answer_etag (some item) r e = (item, refl, of_marshal (marshal item.value) e)
    where
      of_marshal :
          (m : Result Bytes)
          → then_result m (λ b. ok (some (record { payload = b; etag = item.etag; metadata = [] })))
            ≡ ok (some r)
          → r.etag ≡ item.etag
      of_marshal (ok b) k = sym (ap etag_of k)
        where
          etag_of : Result (Option GetResponse) → String
          etag_of (ok (some s)) = s.etag
          etag_of _ = ""
      of_marshal (err x) k = cc
      of_marshal (panic p) k = cc

  get_item-answer :
      (req : GetRequest) (w : W)
      → req.options.consistency ≡ strong
      → get_item c marshal req w ≡ (answer_of marshal (items_of (laws.stored w req.key)), w)
  unfolding get_item call_options
  get_item-answer req w h =
      rw
        (laws.query_reply req.key (call_options req.key "" req.options.consistency) w refl
          (asks_strong req.options.consistency h))
        refl
    where
      asks_strong :
          (consistency : String)
          → consistency ≡ strong
          → (call_options req.key "" consistency).consistency_level ≡ some strong
      asks_strong consistency e = rw (call_options, e) refl

  -- Of two clients that both have read a document, the first write wins. If a Get that asks for strong
  -- consistency gives a response with an ETag, and two sets of its key, with known options, both have
  -- this ETag, the first set succeeds and the second one, whatever concurrency it asks for,
  -- "last-write" included, fails and changes nothing: what the first one wrote is what the Get then
  -- answers with.
  pub set_item_first_write_wins :
      (got : GetRequest) (r : GetResponse) (first second : SetRequest V) (w : W)
      → got.options.consistency ≡ strong
      → (get_item c marshal got w).0 ≡ ok (some r)
      → r.etag ≢ ""
      → HasOptions first
      → HasOptions second
      → first.key ≡ got.key
      → second.key ≡ got.key
      → first.etag ≡ r.etag
      → second.etag ≡ r.etag
      → let w' = (set_item c first w).1 in
        ((set_item c first w).0 ≡ ok tt)
        × ((e : Error) × (set_item c second w' ≡ (err e, w')))
        × ((etag : String) × ((get_item c marshal got w').0
              ≡ answer_of marshal (record { value = laws.json_of first.value; etag = etag } ∷ [])))
  unfolding call_options
  set_item_first_write_wins got r first second w seen read ne h h' k k' e e' =
      let (item, there, same) =
        answer_etag (laws.stored w got.key) r
          (sym (ap (λ p. p.0) (get_item-answer got w seen)) ∙ read) in
      let options = call_options first.key first.etag first.options.consistency in
      let options' = call_options second.key second.etag second.options.consistency in
      let (finished, (written, stored, json, fresh)) =
        laws.upsert_done first.key first.value options w item refl (ap (laws.stored w) k ∙ there) (
          inr (
            if_match-some first.key first.etag first.options.consistency (λ p. ne (sym e ∙ p))
            ∙ ap some (e ∙ same))) in
      let w' = (set_item c first w).1 in
      let after : laws.stored w' got.key ≡ some written =
        ap (laws.stored w') (sym k)
        ∙ ap (λ p. laws.stored p.1 first.key) (set_item-upsert first w h)
        ∙ stored in
      let refused =
        laws.upsert_refused second.key second.value options' w' written second.etag refl
          (ap (laws.stored w') k' ∙ after)
          (if_match-some second.key second.etag second.options.consistency (λ p. ne (sym e' ∙ p)))
          (λ p. fresh (sym p ∙ e' ∙ same)) in
      (
        ap (λ p. p.0) (set_item-upsert first w h) ∙ finished,
        (refused.0, set_item-upsert second w' h' ∙ refused.1),
        (
          written.etag,
          ap (λ p. p.0) (get_item-answer got w' seen)
              ∙ ap (λ o. answer_of marshal (items_of o)) after
              ∙ ap (λ v. answer_of marshal (with_etag v written.etag ∷ [])) json,
        ),
      )
