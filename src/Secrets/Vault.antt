-- ===== src/Secrets/Vault.antt =====
-- secretstores/vault/vault.go: Init and GetSecret of the store for HashiCorp Vault. The file system,
-- the packages net/http and http2 and the decoder of the answer are parameters.
pub mod Certificates
pub mod Token
use components_contrib.Base.{
  ℕ, ◌+◌, ◌-◌, ◌/◌, ◌%◌, String, Bool, true, not, ◌&&◌, ◌||◌, Option, [], ◌∷◌, leb, nat_eq, ◌==◌,
  if◌then◌else◌, Error, created, formatted, wrapped, nil_dereference, Result, ok, err, panic,
  map_error,
}
use components_contrib.Base.Effect.{Eff, ◌>>=◌, ◌>>◌, pure, fail, lift, on_error}
use components_contrib.Base.Text.{◌+s◌}
use components_contrib.State.Requests.{Bytes, Properties, value_of}
use components_contrib.Secrets.{Metadata, GetSecretRequest, GetSecretResponse}
use Prim.Native.Char.{code}
use components_contrib.Secrets.Vault.Certificates.{Files, Pools, get_root_cas_pools}

-- The struct tlsConfig.
pub record TlsConfig : Type 0 where
  pub ca_pem : String
  pub ca_cert : String
  pub ca_path : String
  pub skip_verify : Bool
  pub server_name : String

pub metadata_to_tls_config : Properties → TlsConfig
metadata_to_tls_config props = record {
  ca_pem = value_of props "caPem";
  ca_cert = value_of props "caCert";
  ca_path = value_of props "caPath";
  skip_verify = value_of props "skipVerify" == "true";
  server_name = value_of props "tlsServerName";
}

-- The struct tls.Config, as far as it is set.
pub record ClientTls (P : Type 0) : Type 0 where
  pub root_cas : P
  pub insecure_skip_verify : Bool
  pub server_name : String

-- A request with its headers; `status` and `body` of an answer, which `close` closes. `shown` is what
-- `%#v` prints of it. Reading a body gives what was read also with an error.
pub record HttpRequest : Type 0 where
  pub url : String
  pub headers : Properties

pub record HttpResponse (W : Type 0) : Type 0 where
  pub status : ℕ
  pub body : W → (Bytes × Option Error) × W
  pub close : W → W
  pub shown : String

abbrev pub HttpClient : Type 0 → Type 0
HttpClient W = HttpRequest → Eff W (HttpResponse W)

-- The struct vaultSecretStore, initialised.
pub record VaultSecretStore (W : Type 0) : Type 0 where
  pub client : HttpClient W
  pub vault_address : String
  pub vault_token_mount_path : String
  pub vault_kv_prefix : String

module _ {W P : Type 0} (files : Files W) (pools : Pools W P)
    (configure_transport : ClientTls P → Result (HttpClient W)) where
  pub create_http_client : TlsConfig → Eff W (HttpClient W)
  create_http_client config = do
    root_ca_pools ← get_root_cas_pools files pools config.ca_pem config.ca_path config.ca_cert
    lift (
        map_error (λ e. created "failed to configure http2")
          (configure_transport (record {
            root_cas = root_ca_pools;
            insecure_skip_verify = config.skip_verify;
            server_name = config.server_name;
          })))

  -- The default address is overwritten by the address of the metadata, also by an empty one.
  pub init : Metadata → Eff W (VaultSecretStore W)
  unfolding metadata_to_tls_config create_http_client
  init metadata =
      let props = metadata.properties in
      on_error (create_http_client (metadata_to_tls_config props))
        (λ e. fail (wrapped "couldn't create client using config: %s" [] e))
      >>= λ client.
          let token_mount_path = value_of props "vaultTokenMountPath" in
          let prefix = value_of props "vaultKVPrefix" in
          if token_mount_path == ""
          then fail (formatted "token mount path not set" [])
          else pure (record {
            client = client;
            vault_address = value_of props "vaultAddr";
            vault_token_mount_path = token_mount_path;
            vault_kv_prefix = if prefix == "" then "dapr" else prefix;
          })

-- `unicode.IsSpace`
abbrev pub is_space : ℕ → Bool
is_space c =
    (leb 9 c && leb c 13)
    || nat_eq c 32
    || nat_eq c 0x85
    || nat_eq c 0xA0
    || nat_eq c 0x1680
    || (leb 0x2000 c && leb c 0x200A)
    || nat_eq c 0x2028
    || nat_eq c 0x2029
    || nat_eq c 0x202F
    || nat_eq c 0x205F
    || nat_eq c 0x3000

unfoldable pub trim_left : String → String
trim_left String.[] = ""
trim_left (String.◌∷◌ c s) =
    let rest = trim_left s in if is_space (code c) then rest else String.◌∷◌ c s

unfoldable pub trim_right : String → String
trim_right String.[] = ""
trim_right (String.◌∷◌ c s) =
    let rest = trim_right s in if is_space (code c) && rest == "" then "" else String.◌∷◌ c rest

-- `bytes.TrimSpace`
unfoldable pub trim_space : Bytes → Bytes
unfolding trim_left trim_right
trim_space s = trim_right (trim_left s)

module _ {W : Type 0} (files : Files W) (v : VaultSecretStore W) where
  pub read_vault_token : Eff W String
  unfolding trim_space
  read_vault_token = do
    contents ←
        on_error (files.read_file v.vault_token_mount_path)
          (λ e. fail (wrapped "couldn't read vault token: %s" [] e))
    pure (trim_space contents)

module _ {W : Type 0} (files : Files W) (new_request : String → Result HttpRequest)
    (decode : Bytes × Option Error → Result Properties) (v : VaultSecretStore W) where
  abbrev pub secret_url : GetSecretRequest → String
  secret_url req =
      v.vault_address +s "/v1/secret/data/" +s v.vault_kv_prefix +s "/" +s req.name +s "?version=0"

  -- The headers are set before the error of NewRequest is looked at, whose request is then nil.
  abbrev request_of : String → String → Result HttpRequest
  request_of addr token = elim (new_request addr) [
    | ok r ↦ ok (record {
      url = r.url;
      headers = ("X-Vault-Request", "true") ∷ ("X-Vault-Token", token) ∷ r.headers;
    })
    | err e ↦ panic nil_dereference
    | panic p ↦ panic p
  ]

  -- The body of an answer, which is closed afterwards.
  pub read_answer : HttpResponse W → Eff W GetSecretResponse
  read_answer resp w =
      let (contents, w') = resp.body w in
      if nat_eq resp.status 200
      then elim (decode contents) [
        | ok d ↦ (ok (record { entries = d }), resp.close w')
        | err e ↦ (err (wrapped "couldn't decode response body: %s" [] e), resp.close w')
        | panic p ↦ (panic p, resp.close w')
      ]
      else (
        err (
            formatted "couldn't to get successful response: %#v, %s"
              (resp.shown ∷ contents.0 ∷ [])),
        resp.close w',
      )

  pub get_secret : GetSecretRequest → Eff W GetSecretResponse
  unfolding read_vault_token read_answer
  get_secret req = do
    token ← read_vault_token files v
    http_req ← lift (request_of (secret_url req) token)
    resp ← on_error (v.client http_req) (λ e. fail (wrapped "couldn't get secret: %s" [] e))
    read_answer resp
