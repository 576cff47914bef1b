-- ===== src/Secrets/Vault/Token.antt =====
-- The token that secretstores/vault/vault.go reads from a file.
use components_contrib.Base.{
  String, ◌≡◌, refl, ap, ◌∙◌, ◌≢◌, Bool, true, false, ◌&&◌, arith, eq_iff, ◌==◌, if◌then◌else◌, ok,
}
use components_contrib.Base.Text.{◌+s◌}
use Prim.Native.Char.{Char, code}
use mathlib.Core.Path.{subst}
use text.Mathlib.TextLemmas.{nil-append, cons-append}
use components_contrib.Secrets.Vault.Certificates.{Files}
use components_contrib.Secrets.Vault.{
  VaultSecretStore, is_space, trim_left, trim_right, trim_space, read_vault_token,
}

-- White space only.
abbrev pub IsBlank : String → Type 0
IsBlank String.[] = Unit
IsBlank (String.◌∷◌ c s) = (is_space (code c) ≡ true) × IsBlank s

-- The first, or the last, character is not white space.
abbrev pub StartsSolid : String → Type 0
StartsSolid String.[] = ⊥
StartsSolid (String.◌∷◌ c s) = is_space (code c) ≡ false

abbrev pub EndsSolid : String → Type 0
EndsSolid String.[] = ⊥
EndsSolid (String.◌∷◌ c String.[]) = is_space (code c) ≡ false
EndsSolid (String.◌∷◌ c (String.◌∷◌ d s)) = EndsSolid (String.◌∷◌ d s)

trim_left-blank : (blank s : String) → IsBlank blank → trim_left (blank +s s) ≡ trim_left s
unfolding trim_left
trim_left-blank String.[] s h = ap trim_left (nil-append s)
trim_left-blank (String.◌∷◌ c blank) s h =
    rw (cons-append c blank s, h.0) (trim_left-blank blank s h.1)

trim_left-solid : (t s : String) → StartsSolid t → trim_left (t +s s) ≡ t +s s
unfolding trim_left
trim_left-solid String.[] s h = absurd h
trim_left-solid (String.◌∷◌ c t) s h = rw (cons-append c t s, h) refl

trim_right_of_blank : (blank : String) → IsBlank blank → trim_right blank ≡ ""
unfolding trim_right
trim_right_of_blank String.[] h = refl
trim_right_of_blank (String.◌∷◌ c blank) h = rw (h.0, trim_right_of_blank blank h.1) refl

abbrev IsNonempty : String → Type 0
IsNonempty String.[] = ⊥
IsNonempty (String.◌∷◌ c s) = Unit

cons_is_nonempty : (c : Char) (s : String) → (String.◌∷◌ c s == "") ≡ false
cons_is_nonempty c s = ground (arith, eq_iff (String.◌∷◌ c s) "", differs)
  where
    differs : String.◌∷◌ c s ≢ ""
    differs e = subst IsNonempty e tt

trim_right-solid : (t blank : String) → EndsSolid t → IsBlank blank → trim_right (t +s blank) ≡ t
unfolding trim_right
trim_right-solid String.[] blank h k = absurd h
trim_right-solid (String.◌∷◌ c String.[]) blank h k =
    rw (cons-append c "" blank, nil-append blank, trim_right_of_blank blank k, h) refl
trim_right-solid (String.◌∷◌ c (String.◌∷◌ d t)) blank h k =
    let rest = trim_right-solid (String.◌∷◌ d t) blank h k in
    rw (cons-append c (String.◌∷◌ d t) blank, rest) (kept (is_space (code c)))
  where
    kept :
        (b : Bool)
        → (if b && (String.◌∷◌ d t == "") then "" else String.◌∷◌ c (String.◌∷◌ d t))
          ≡ String.◌∷◌ c (String.◌∷◌ d t)
    kept true = rw (cons_is_nonempty d t) refl
    kept false = refl

module _ {W : Type 0} (files : Files W) (v : VaultSecretStore W) where
  -- White space around the token in its file is no part of it: of a file that holds `token` between two
  -- texts of white space, where `token` neither starts nor ends with white space, `token` is read.
  pub read_vault_token_trims :
      (before token behind : String) (w w' : W)
      → files.read_file v.vault_token_mount_path w ≡ (ok (before +s (token +s behind)), w')
      → IsBlank before
      → StartsSolid token
      → EndsSolid token
      → IsBlank behind
      → read_vault_token files v w ≡ (ok token, w')
  unfolding read_vault_token trim_space
  read_vault_token_trims before token behind w w' there b s e k =
      let trimmed : trim_right (trim_left (before +s (token +s behind))) ≡ token =
        ap trim_right (trim_left-blank before (token +s behind) b ∙ trim_left-solid token behind s)
        ∙ trim_right-solid token behind e k in
      rw (there, trimmed) refl
