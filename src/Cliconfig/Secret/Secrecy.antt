-- ===== src/Cliconfig/Secret/Secrecy.antt =====
-- What the configuration file is told of a secret.
use hush_hush_cli.Prelude.{String, ◌≡◌, sym, ap, ◌∙◌, Result, ok, err}
use hush_hush_cli.Client.Errors.{Err}
use hush_hush_cli.Cliconfig.{Io}
use hush_hush_cli.Cliconfig.Prompt.{
  PersistChoice, persist_skip, persist_keyring, persist_command, persist_literal, CredentialAnswer,
}
use hush_hush_cli.Cliconfig.Secret.{
  RenderedSecret, nothing_kept, keyring_service, keyring_command, persist, persist_credential,
}
use hush_hush_cli.Cliconfig.Secret.Kept.{kept_reply}
use hush_hush_cli.Client.Op.{reply-injective}

abbrev shown : PersistChoice → String → String
shown persist_literal value = value
shown persist_keyring value = ""
shown persist_command value = ""
shown persist_skip value = ""

-- An answer with its value blanked, unless the value is to stand in the file.
unfoldable pub concealed : CredentialAnswer → CredentialAnswer
concealed answer = record answer { value = shown answer.choice answer.value }

-- What the file has of a concealed answer.
abbrev rendered : String → PersistChoice → String → String → RenderedSecret
rendered field persist_keyring value extra = record {
  literal = "";
  command = keyring_command field;
}
rendered field persist_command value extra = record { literal = ""; command = extra }
rendered field persist_literal value extra = record { literal = value; command = "" }
rendered field persist_skip value extra = nothing_kept

module _ {ℓ} {W : Type ℓ} (io : Io W) where
  kept_reply-rendered :
      (field : String) (reply : Result Err (Unit {0}) × W) (r : RenderedSecret) (w' : W)
      → kept_reply field reply ≡ (ok r, w')
      → record { literal = ""; command = keyring_command field } ≡ r
  kept_reply-rendered field (err e, w) r w' went = cc
  kept_reply-rendered field (ok done, w) r w' went = (reply-injective went).0

  persist-rendered :
      (choice : PersistChoice) (value extra field : String) (w w' : W) (r : RenderedSecret)
      → persist io choice value extra field w ≡ (ok r, w')
      → rendered field choice (shown choice value) extra ≡ r
  unfolding persist
  persist-rendered persist_keyring value extra field w w' r went =
      kept_reply-rendered field (io.keyring_set keyring_service field value w) r w' went
  persist-rendered persist_command value extra field w w' r went = (reply-injective went).0
  persist-rendered persist_literal value extra field w w' r went = (reply-injective went).0
  persist-rendered persist_skip value extra field w w' r went = (reply-injective went).0

  -- Two answers that were kept, each in its own world, and that differ only in a value which is not to stand in
  -- the file, are told to the file alike: it has nothing of the value.
  pub persist_credential_secrecy :
      (a b : CredentialAnswer) (field : String) (w w' v v' : W) (r s : RenderedSecret)
      → concealed a ≡ concealed b
      → persist_credential io a field w ≡ (ok r, w')
      → persist_credential io b field v ≡ (ok s, v')
      → r ≡ s
  unfolding persist_credential concealed
  persist_credential_secrecy a b field w w' v v' r s alike went gone =
      sym (persist-rendered a.choice a.value a.extra field w w' r went)
      ∙ ap (λ c. rendered field c.choice c.value c.extra) alike
      ∙ persist-rendered b.choice b.value b.extra field v v' s gone
