-- ===== src/Cli/Read.antt =====
-- `Get` of internal/cli/get.go.
pub mod RoundTrip
pub mod Fetched
use hush_hush_cli.Prelude.{ℕ, String, List, Result, map_err}
use hush_hush_cli.Client.Errors.{Err, wrap}
use hush_hush_cli.Client.Op.{Op, ◌>>=◌, from_result, wrapping}
use hush_hush_cli.Client.Calls
use hush_hush_cli.Client.Seal
use hush_hush_cli.Client.Remote.{Builder}
use hush_hush_cli.Cli.Config.{Config, read_error, read_credential}
use hush_hush_cli.Cli.Client.{client_for}

module _ {ℓ κ μ} {W : Type ℓ} {I : Type κ} {Stream : Type μ} (build : Builder W)
    (parse_identity : String → Result Err I) (decrypt : List I → List ℕ → Result Err Stream)
    (read_all : Stream → Result Err (List ℕ)) where
  -- `Get`
  unfoldable pub get : Config → String → List String → String → String → Op W (List ℕ)
  unfolding client_for read_credential read_error Calls.get Seal.unseal
  get cfg id identities variant_id consumer =
      from_result (client_for build cfg (read_credential cfg)) >>= λ remote.
      wrapping (λ e. wrap "fetch object" (read_error e cfg))
        (Calls.get remote.objects id variant_id consumer)
      >>= λ sealed. from_result (
          map_err (wrap "decrypt object")
            (Seal.unseal parse_identity decrypt read_all sealed identities))
