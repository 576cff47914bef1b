-- ===== src/State/Firestore.antt =====
-- state/firestore/firestore.go: the Firestore state store. The client and the JSON codec are parameters.
pub mod Required
pub mod Laws
mod Tests
use components_contrib.Base.{
  ◌%◌, String, Option, none, some, List, [], ◌∷◌, Error, formatted, Result, ok, err,
}
use components_contrib.Base.Effect.{Eff, ◌>>=◌, ◌>>◌, pure, lift, for_each}
use components_contrib.Base.Signed.{Duration}
use components_contrib.State.Requests.{
  Bytes, Properties, value_of, present, Metadata, GetRequest, DeleteRequest, Value, SetRequest,
  GetResponse, empty_response, encode,
}
use components_contrib.State.Options.{check_set_request_options}
use components_contrib.State.Retry.{set_with_retries, delete_with_retries}

pub record FirestoreMetadata : Type 0 where
  pub account_type : String
  pub project_id : String
  pub private_key_id : String
  pub private_key : String
  pub client_email : String
  pub client_id : String
  pub auth_uri : String
  pub token_uri : String
  pub auth_provider_cert_url : String
  pub client_cert_url : String
  pub entity_kind : String

-- What the client gives for a key: an entity, `datastore.ErrNoSuchEntity`, or another error.
pub data Lookup : Type 0 where
  state_entity : String → Lookup
  no_such_entity : Lookup
  failed : Error → Lookup

-- The calls take the kind and the name of a key.
pub record Client (W : Type 0) : Type 0 where
  pub get : String → String → W → Lookup × W
  pub put : String → String → String → Eff W (Unit {0})
  pub remove : String → String → Eff W (Unit {0})

-- The struct Firestore, initialised.
pub record Firestore (W : Type 0) : Type 0 where
  pub client : Client W
  pub entity_kind : String

abbrev pub required : List String
required =
    "type" ∷ "project_id" ∷ "private_key_id" ∷ "private_key" ∷ "client_email" ∷ "client_id"
    ∷ "auth_uri" ∷ "token_uri" ∷ "auth_provider_x509_cert_url" ∷ "client_x509_cert_url" ∷ []

-- The first required property that is missing or empty.
pub missing_field : Properties → List String → Option String
missing_field p [] = none
missing_field p (k ∷ ks) = elim (present p k) [ none ↦ some k | some val ↦ missing_field p ks ]

pub get_firestore_metadata : Metadata → Result FirestoreMetadata
unfolding missing_field
get_firestore_metadata metadata =
    let p = metadata.properties in
    elim (missing_field p required) [
      | some k ↦ err (formatted "error parsing required field: %s" (k ∷ []))
      | none ↦ ok (record {
        account_type = value_of p "type";
        project_id = value_of p "project_id";
        private_key_id = value_of p "private_key_id";
        private_key = value_of p "private_key";
        client_email = value_of p "client_email";
        client_id = value_of p "client_id";
        auth_uri = value_of p "auth_uri";
        token_uri = value_of p "token_uri";
        auth_provider_cert_url = value_of p "auth_provider_x509_cert_url";
        client_cert_url = value_of p "client_x509_cert_url";
        entity_kind = elim (present p "entity_kind") [ none ↦ "DaprState" | some val ↦ val ];
      })
    ]

-- `encode` is the Marshal of the metadata; the client is made of the project and these bytes.
module _ {W : Type 0} (new_client : String → Bytes → Eff W (Client W))
    (encode_metadata : FirestoreMetadata → Result Bytes) where
  pub init : Metadata → Eff W (Firestore W)
  unfolding get_firestore_metadata
  init metadata = do
    meta ← lift (get_firestore_metadata metadata)
    b ← lift (encode_metadata meta)
    client ← new_client meta.project_id b
    pure (record { client = client; entity_kind = meta.entity_kind })

pub get_answer : Lookup → Result (Option GetResponse)
get_answer (failed e) = err e
get_answer no_such_entity = ok (some empty_response)
get_answer (state_entity value) = ok (some (record { payload = value; etag = ""; metadata = [] }))

module _ {W : Type 0} (f : Firestore W) (sleep : Duration → W → W) where
  pub get_item : GetRequest → Eff W (Option GetResponse)
  unfolding get_answer
  get_item req w = let (res, w') = f.client.get f.entity_kind req.key w in (get_answer res, w')

  pub delete_value : DeleteRequest → Eff W (Unit {0})
  delete_value req = f.client.remove f.entity_kind req.key

  pub delete_item : DeleteRequest → Eff W (Unit {0})
  unfolding delete_value
  delete_item = delete_with_retries sleep delete_value

  pub bulk_delete : List DeleteRequest → Eff W (Unit {0})
  bulk_delete = for_each delete_item

  module _ {V : Type 0} (marshal : Value V → Result Bytes) where
    pub set_value : SetRequest V → Eff W (Unit {0})
    set_value req = do
      lift (check_set_request_options req)
      f.client.put f.entity_kind req.key (encode marshal req.value)

    pub set_item : SetRequest V → Eff W (Unit {0})
    unfolding set_value
    set_item = set_with_retries sleep set_value

    pub bulk_set : List (SetRequest V) → Eff W (Unit {0})
    bulk_set = for_each set_item
