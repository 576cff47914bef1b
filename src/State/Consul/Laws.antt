-- ===== src/State/Consul/Laws.antt =====
-- What the Consul client documents, and that the store of state/consul/consul.go is a map.
use components_contrib.Base.{
  String, ◌≡◌, refl, ◌≢◌, Bool, true, Option, none, some, [], ◌∷◌, arith, eq_iff, ◌==◌,
  if◌then◌else◌, Error, wrapped, Result, ok, err,
}
use components_contrib.Base.Effect.{Eff}
use components_contrib.Base.Text.{◌+s◌}
use components_contrib.Base.Text.Json.{json_field}
use components_contrib.State.Requests.{Bytes, Metadata, Value, SetRequest, encode}
use text.Mathlib.TextLemmas.{nil-append}
use components_contrib.State.Contents.{Contents}
use components_contrib.State.Consul.{
  Client, Consul, ClientConfig, key_with_path, client_config, config_of, set_item, init,
}

-- A client that reaches the server. `may_name` are the paths that it takes, and `may_put` says which
-- of them with which contents the server stores: it limits the size of a content. The client refuses
-- to put a path that begins with a slash. The answers do not depend on the consistency that is asked
-- for.
pub record Documented {W : Type 0} (c : Client W) : Type 0 where
  pub stored : W → String → Option Bytes
  pub hash : W → String → String
  pub may_name : String → Bool
  pub may_put : String → Bytes → Bool
  pub put_slash :
      (k : String) (b : Bytes) (w : W) → (e : Error) × (c.put ("/" +s k) b w ≡ (err e, w))
  pub get_reply :
      (k : String) (strongly : Bool) (w : W)
      → may_name k ≡ true
      → c.get k strongly w ≡ (ok (record { pair = stored w k; last_content_hash = hash w k }), w)
  pub put_reply :
      (k : String) (b : Bytes) (w : W)
      → may_name k ≡ true
      → may_put k b ≡ true
      → (c.put k b w).0 ≡ ok tt
  pub put_self :
      (k : String) (b : Bytes) (w : W)
      → may_name k ≡ true
      → may_put k b ≡ true
      → stored (c.put k b w).1 k ≡ some b
  pub put_ne : (k j : String) (b : Bytes) (w : W) → j ≢ k → stored (c.put k b w).1 j ≡ stored w j
  pub remove_reply : (k : String) (w : W) → may_name k ≡ true → (c.remove k w).0 ≡ ok tt
  pub remove_self : (k : String) (w : W) → may_name k ≡ true → stored (c.remove k w).1 k ≡ none
  pub remove_ne : (k j : String) (w : W) → j ≢ k → stored (c.remove k w).1 j ≡ stored w j

-- A set that the server takes.
abbrev pub IsTaken :
    {W V : Type 0} (c : Consul W)
    → Documented c.client
    → (Value V → Result Bytes)
    → SetRequest V
    → Type 0
IsTaken c laws marshal req =
    (laws.may_name (key_with_path c req.key) ≡ true)
    × (laws.may_put (key_with_path c req.key) (encode marshal req.value) ≡ true)

-- The keys of the store, which stand under its prefix.
abbrev pub kept : {W : Type 0} (c : Consul W) → Documented c.client → W → Contents
kept c laws w k = laws.stored w (key_with_path c k)

module _ {W V : Type 0} (c : Consul W) (marshal : Value V → Result Bytes)
    (laws : Documented c.client) where
  abbrev Names : String → Type 0
  Names k = laws.may_name (key_with_path c k) ≡ true

-- If the metadata name a prefix and the client can be made, Init leaves the prefix empty, and no Set of
-- the store succeeds: every path begins with a slash, which the client refuses, and nothing changes.
pub init_named_prefix_refuses :
    {W V : Type 0} (new_client : ClientConfig → Eff W (Client W)) (marshal : Value V → Result Bytes)
    (metadata : Metadata) (client : Client W) (laws : Documented client) (w : W)
    → (new_client (client_config (config_of metadata.properties)) w).0 ≡ ok client
    → json_field metadata.properties "keyPrefixPath" ≢ ""
    → (c : Consul W) × ((init new_client metadata w).0 ≡ ok c)
      × ((req : SetRequest V) (x : W) → (e : Error) × (set_item c marshal req x ≡ (err e, x)))
unfolding init set_item key_with_path
init_named_prefix_refuses new_client marshal metadata client laws w made named =
    let prefix = json_field metadata.properties "keyPrefixPath" in
    let default : String = "dapr" in
    let unused : (if prefix == "" then default else "") ≡ "" =
      ground (arith, eq_iff prefix "", named) in
    (
      record { client = client; key_prefix_path = "" },
      rw (made, unused) refl,
      λ req x.
          let (e, refused) = laws.put_slash req.key (encode marshal req.value) x in
          (
            wrapped "couldn't set key %s: %s" (("/" +s req.key) ∷ []) e,
            rw (nil-append ("/" +s req.key), refused) refl,
          ),
    )
