-- ===== src/Secrets/Keyvault.antt =====
-- secretstores/keyvault/: the store for Azure Key Vault. The client library and its authorizers are
-- parameters.
use components_contrib.Base.{
  String, Option, none, some, [], ◌∷◌, ◌!=◌, if◌then◌else◌, formatted, wrapped, Result, ok, err,
  then_result, map_error,
}
use components_contrib.Base.Effect.{Eff, ◌>>=◌, pure, fail, lift}
use components_contrib.Base.Text.{◌+s◌}
use components_contrib.State.Requests.{Bytes, value_of}
use components_contrib.Secrets.{
  Metadata, GetSecretRequest, GetSecretResponse, default_secret_ref_key_name,
}

-- The struct ClientAuthorizer; the resource and the endpoint are those of the public cloud.
pub record ClientAuthorizer : Type 0 where
  pub certificate_path : String
  pub certificate_bytes : Bytes
  pub certificate_password : String
  pub client_id : String
  pub tenant_id : String
  pub resource : String
  pub aad_endpoint : String

-- A private key, which pkcs12.Decode gives with a certificate.
pub data PrivateKey (R : Type 0) : Type 0 where
  rsa : R → PrivateKey R
  other : PrivateKey R

-- `O` is a configuration of OAuth, `C` a certificate, `R` a private key of RSA, `T` a token and `A` an
-- authorizer.
pub record Library (W O C R T A : Type 0) : Type 0 where
  pub key_vault_resource : String
  pub active_directory_endpoint : String
  pub file_authorizer : ClientAuthorizer → Eff W A
  pub new_oauth_config : String → String → Result O
  pub decode_pkcs12 : Bytes → String → Result (PrivateKey R × C)
  pub new_token : O → String → C → R → String → Result T
  pub bearer : T → A

module _ {W O C R T A : Type 0} (lib : Library W O C R T A) where
  pub new_client_authorizer : String → Bytes → String → String → String → ClientAuthorizer
  new_client_authorizer certificate_path certificate_bytes certificate_password client_id
        tenant_id =
      record {
        certificate_path = certificate_path;
        certificate_bytes = certificate_bytes;
        certificate_password = certificate_password;
        client_id = client_id;
        tenant_id = tenant_id;
        resource = lib.key_vault_resource;
        aad_endpoint = lib.active_directory_endpoint;
      }

  pub decode_certificate : Bytes → String → Result (C × R)
  decode_certificate pkcs password =
      then_result (lib.decode_pkcs12 pkcs password) λ (private_key, certificate). elim private_key [
        | rsa key ↦ ok (certificate, key)
        | other ↦ err (formatted "PKCS#12 certificate must contain an RSA private key" [])
      ]

  pub service_principal_token_by_cert_bytes : ClientAuthorizer → Result T
  unfolding decode_certificate
  service_principal_token_by_cert_bytes c =
      then_result (lib.new_oauth_config c.aad_endpoint c.tenant_id) λ oauth_config.
        then_result
          (map_error (wrapped "failed to decode pkcs12 certificate while creating spt: %v" [])
            (decode_certificate c.certificate_bytes c.certificate_password))
          λ (certificate, key). lib.new_token oauth_config c.client_id certificate key c.resource

  -- A path before bytes; neither is an error.
  pub authorizer : ClientAuthorizer → Eff W A
  unfolding service_principal_token_by_cert_bytes
  authorizer c =
      if c.certificate_path != ""
      then lib.file_authorizer c
      else if c.certificate_bytes != ""
      then lift (
          map_error (wrapped "failed to get oauth token from certificate auth: %v" [])
            (then_result (service_principal_token_by_cert_bytes c) λ token. ok (lib.bearer token)))
      else fail (formatted "certificate is not given" [])

  -- The struct keyvaultSecretStore, initialised.
  pub record KeyvaultSecretStore : Type 0 where
    pub vault_name : String
    pub vault_authorizer : A

  pub init : Metadata → Eff W KeyvaultSecretStore
  unfolding new_client_authorizer authorizer
  init metadata = do
    let props = metadata.properties
    vault_authorizer ← authorizer (
        new_client_authorizer (value_of props "spnCertificateFile")
          (value_of props "spnCertificate") (value_of props "spnCertificatePassword")
          (value_of props "spnClientId") (value_of props "spnTenantId"))
    pure (record { vault_name = value_of props "vaultName"; vault_authorizer = vault_authorizer })

  pub get_vault_uri : KeyvaultSecretStore → String
  get_vault_uri k = "https://" +s k.vault_name +s ".vault.azure.net"

  -- `client` is the method GetSecret of the client, for an authorizer, a URI and a name; the value of
  -- a secret may be nil.
  pub get_secret :
      (A → String → String → Eff W (Option String))
      → KeyvaultSecretStore
      → GetSecretRequest
      → Eff W GetSecretResponse
  unfolding get_vault_uri
  get_secret client k req = do
    secret_resp ← client k.vault_authorizer (get_vault_uri k) req.name
    let secret_value : String = elim secret_resp [ none ↦ "" | some value ↦ value ]
    pure (record { entries = (default_secret_ref_key_name, secret_value) ∷ [] })
