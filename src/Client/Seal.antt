-- ===== src/Client/Seal.antt =====
-- internal/seal: seal.go and unseal.go. The age library is a parameter: how it parses a recipient and an
-- identity, how it encrypts to recipients (Encrypt, Write and Close), how it decrypts (Decrypt) and how what it
-- decrypts is read to the end (ReadAll). Each may fail.
pub mod Opened
use hush_hush_cli.Prelude.{ℕ, String, List, [], ◌∷◌, Result, ok, ◌>>=◌, map_err}
use hush_hush_cli.Client.Errors.{Err, wrap}

module _ {ℓ} {R : Type ℓ} (parse_recipient : String → Result Err R)
    (encrypt : List R → List ℕ → Result Err (List ℕ)) where
  -- The loop over the keys. The key's index in the error's text is not kept.
  unfoldable pub parse_recipients : List String → Result Err (List R)
  parse_recipients [] = ok []
  parse_recipients (key ∷ keys) = do
    r ← map_err (wrap "parse recipient") (parse_recipient key)
    rs ← parse_recipients keys
    ok (r ∷ rs)

  -- `Seal`
  unfoldable pub seal : List ℕ → List String → Result Err (List ℕ)
  unfolding parse_recipients
  seal value keys = do recipients ← parse_recipients keys; encrypt recipients value

module _ {ℓ κ} {I : Type ℓ} {Stream : Type κ} (parse_identity : String → Result Err I)
    (decrypt : List I → List ℕ → Result Err Stream) (read_all : Stream → Result Err (List ℕ)) where
  -- The loop over the identities' keys. The key's index in the error's text is not kept.
  unfoldable pub parse_identities : List String → Result Err (List I)
  parse_identities [] = ok []
  parse_identities (key ∷ keys) = do
    i ← map_err (wrap "parse identity") (parse_identity key)
    is ← parse_identities keys
    ok (i ∷ is)

  -- `Unseal`
  unfoldable pub unseal : List ℕ → List String → Result Err (List ℕ)
  unfolding parse_identities
  unseal sealed keys = do
    identities ← parse_identities keys
    stream ← map_err (wrap "decrypt value") (decrypt identities sealed)
    map_err (wrap "read decrypted value") (read_all stream)
