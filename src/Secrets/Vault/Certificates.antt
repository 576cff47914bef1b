-- ===== src/Secrets/Vault/Certificates.antt =====
-- secretstores/vault/vault.go: the root certificates. The file system and the package crypto/x509 are
-- parameters.
use components_contrib.Base.{
  String, Bool, true, false, Option, none, some, List, [], ◌∷◌, ◌!=◌, if◌then◌else◌, formatted,
  wrapped, nil_dereference, Result, ok, err,
}
use components_contrib.Base.Effect.{Eff, ◌>>=◌, pure, fail, crash, lift, on_error}
use components_contrib.State.Requests.{Bytes}

-- An entry that filepath.Walk visits; the information on it is nil when it cannot be read.
pub record Entry : Type 0 where
  pub path : String
  pub is_dir : Option Bool

pub record Files (W : Type 0) : Type 0 where
  pub read_file : String → Eff W Bytes
  pub walk : String → W → List Entry × W

-- `append_certs` gives `none` for a text without a certificate; `system` is SystemCertPool.
pub record Pools (W P : Type 0) : Type 0 where
  pub empty : P
  pub append_certs : P → Bytes → Option P
  pub system : Eff W P

module _ {W P : Type 0} (files : Files W) (pools : Pools W P) where
  abbrev append_pem : P → Bytes → Result P
  append_pem pool pem = elim (pools.append_certs pool pem) [
    | none ↦ err (formatted "couldn't read PEM" [])
    | some p ↦ ok p
  ]

  pub read_certificate_file : P → String → Eff W P
  read_certificate_file pool path = do
    pem_file ←
        on_error (files.read_file path)
          (λ e. fail (wrapped "couldn't read CA file from disk: %s" [] e))
    lift (append_pem pool pem_file)

  -- The entries in the order of the walk, which ends at the first error.
  pub visit_entries : P → List Entry → Eff W P
  unfolding read_certificate_file
  visit_entries pool [] = pure pool
  visit_entries pool (e ∷ es) = elim e.is_dir [
    | none ↦ crash nil_dereference
    | some true ↦ visit_entries pool es
    | some false ↦ read_certificate_file pool e.path >>= λ p. visit_entries p es
  ]

  pub read_certificate_folder : P → String → Eff W P
  unfolding visit_entries
  read_certificate_folder pool path w =
      let (entries, w') = files.walk path w in
      on_error (visit_entries pool entries)
        (λ e. fail (wrapped "couldn't read certificates at %s: %s" (path ∷ []) e)) w'

  -- A text of certificates before a folder, a folder before a file, a file before the system's.
  pub get_root_cas_pools : String → String → String → Eff W P
  unfolding read_certificate_file read_certificate_folder
  get_root_cas_pools ca_pem ca_path ca_cert =
      if ca_pem != ""
      then lift (append_pem pools.empty ca_pem)
      else if ca_path != ""
      then read_certificate_folder pools.empty ca_path
      else if ca_cert != ""
      then read_certificate_file pools.empty ca_cert
      else on_error pools.system (λ e. fail (wrapped "couldn't read system certs: %s" [] e))
