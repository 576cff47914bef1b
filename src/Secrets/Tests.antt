-- ===== src/Secrets/Tests.antt =====
-- The theorem about the token of the Vault store at a concrete input.
use components_contrib.Base.{◌≡◌, refl, [], created, ok}
use components_contrib.Base.Effect.{fail}
use components_contrib.State.Requests.{Bytes}
use components_contrib.Secrets.Vault.Certificates.{Files}
use components_contrib.Secrets.Vault.{VaultSecretStore, read_vault_token}
use components_contrib.Secrets.Vault.Token.{read_vault_token_trims}

-- The world is the text of the one file.
abbrev files : Files Bytes
files = record { read_file = λ path w. (ok w, w); walk = λ path w. ([], w) }

abbrev store : VaultSecretStore Bytes
store = record {
  client = λ req. fail (created "refused");
  vault_address = "http://127.0.0.1:8200";
  vault_token_mount_path = "/run/token";
  vault_kv_prefix = "dapr";
}

read_vault_token_trims_example :
    read_vault_token files store " \ts.abc def\n" ≡ (ok "s.abc def", " \ts.abc def\n")
read_vault_token_trims_example =
    read_vault_token_trims files store " \t" "s.abc def" "\n" " \ts.abc def\n" " \ts.abc def\n" refl
      (refl, (refl, tt)) refl refl (refl, tt)
