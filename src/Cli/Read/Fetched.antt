-- ===== src/Cli/Read/Fetched.antt =====
-- `Get` of internal/cli/get.go by what the server gave: the value opened, or the error named.
use hush_hush_cli.Prelude.{ℕ, String, ◌≡◌, refl, ap, List, [], Result, ok, err}
use hush_hush_cli.Client.Errors.{Err, SdkError, wrap, map_error}
use hush_hush_cli.Client.Calls
use hush_hush_cli.Client.Seal
use hush_hush_cli.Client.Remote.{Remote, Builder, new_client}
use hush_hush_cli.Cli.Config.{Config, read_credential, read_error}
use hush_hush_cli.Cli.Client.{client_for}
use hush_hush_cli.Cli.Read.{get}

module _ {ℓ κ μ} {W : Type ℓ} {I : Type κ} {Stream : Type μ} (build : Builder W)
    (parse_identity : String → Result Err I) (decrypt : List I → List ℕ → Result Err Stream)
    (read_all : Stream → Result Err (List ℕ)) (cfg : Config) (make : String → Remote W)
    (builds : build cfg.server (read_credential cfg) ≡ ok make) (id : String)
    (identities : List String) (w : W) where
  pub get-opened :
      (value bytes : List ℕ)
      → ((make cfg.caller).objects.get_object id [] w).0 ≡ ok bytes
      → Seal.unseal parse_identity decrypt read_all bytes identities ≡ ok value
      → (get build parse_identity decrypt read_all cfg id identities "" "" w).0 ≡ ok value
  unfolding get client_for new_client Calls.get Calls.object_options
  get-opened value bytes given opened =
      let reply =
        ap {B = Result SdkError (List ℕ) × W}
          (λ r. (r, ((make cfg.caller).objects.get_object id [] w).1)) given in
      rw (builds, reply, opened) refl

  -- An error that the server gives is named, whatever the options that pick a variant.
  pub get-refused_with :
      (variant_id consumer : String) (e : SdkError)
      → ((make cfg.caller).objects.get_object id (Calls.object_options variant_id consumer) w).0
        ≡ err e
      → (get build parse_identity decrypt read_all cfg id identities variant_id consumer w).0
        ≡ err (wrap "fetch object" (read_error (map_error e) cfg))
  unfolding get client_for new_client Calls.get
  get-refused_with variant_id consumer e refused =
      let call =
        (make cfg.caller).objects.get_object id (Calls.object_options variant_id consumer) w in
      let reply = ap {B = Result SdkError (List ℕ) × W} (λ r. (r, call.1)) refused in
      rw (builds, reply) refl

  pub get-refused :
      (e : SdkError)
      → ((make cfg.caller).objects.get_object id [] w).0 ≡ err e
      → (get build parse_identity decrypt read_all cfg id identities "" "" w).0
        ≡ err (wrap "fetch object" (read_error (map_error e) cfg))
  unfolding Calls.object_options
  get-refused = get-refused_with "" ""
