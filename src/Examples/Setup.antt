-- ===== src/Examples/Setup.antt =====
-- internal/cliconfig over a concrete keyring and shell.
use Prim.Native.String.{[], ◌∷◌, ◌++◌}
use Prim.Native.String.append
use mathlib.Core.List
use hush_hush_cli.Prelude.{
  String, ◌≡◌, refl, sym, ap, ◌∙◌, true, false, Option, none, some, ok, err, found_or, arith, ◌==◌,
  eq_refl, if◌then◌else◌,
}
use hush_hush_cli.Prelude.Map.{Map, lookup, put, lookup-put}
use hush_hush_cli.Prelude.Text.{cut_prefix, member}
use hush_hush_cli.Client.Errors.{wrap, external}
use hush_hush_cli.Client.Op.{Op, ◌>>=◌, done, failed, wrapping, reply-injective}
use hush_hush_cli.Cliconfig.{Io}
use hush_hush_cli.Cliconfig.Prompt.{CredentialAnswer, Values, persist_keyring}
use hush_hush_cli.Cliconfig.Secret.{
  keyring_command, keyring_line, resolve_secret, RenderedSecret, persist_credential, persist,
}
use hush_hush_cli.Cliconfig.Secret.Kept.{worth, resolve_secret-persist_credential}
use hush_hush_cli.Cliconfig.Secret.Secrecy.{concealed, persist_credential_secrecy}
use hush_hush_cli.Cliconfig.Setup.{env_vars, any_env_var_set, any_set}
use hush_hush_cli.Cmd.{App, Settings}
use hush_hush_cli.Cmd.Init.{persistent_pre_run}
use hush_hush_cli.Cmd.Guards.Refused.{persistent_pre_run_exists}

-- The world is the keyring.
abbrev Ring : Type 0
Ring = Map String

abbrev ring_get : String → Op Ring String
unfolding lookup
ring_get field w = (found_or (external "not found") (lookup field w), w)

-- The shell knows one command.
abbrev shell_reply : Option String → Op Ring String
shell_reply none = failed (external "command not found")
shell_reply (some field) =
    wrapping (wrap ("keyring get " ++ field)) (ring_get field) >>= λ value. done (value ++ "\n")

abbrev io : Io Ring
io = record {
  print = λ text w. (ok tt, w);
  print_err = λ text w. (ok tt, w);
  scan = λ w. (some "y", w);
  read_password = λ w. (ok "secret", w);
  keyring_set = λ service field value w. (ok tt, put field value w);
  keyring_get = λ service field w. ring_get field w;
  run_shell = λ command w. shell_reply (cut_prefix command "hush-hush-cli config keyring-get ") w;
  write_file = λ path text w. (ok tt, w);
  file_exists = λ path w. path == "/there";
  env_set = λ name w. false;
}

cut_prefix-append : (p s : String) → cut_prefix (p ++ s) p ≡ some s
unfolding cut_prefix
cut_prefix-append [] s = ap some (append.nil s)
cut_prefix-append (c ∷ p) s =
    ap (λ t. cut_prefix t (c ∷ p)) (append.cons c p s) ∙ ground (arith, cut_prefix-append p s)

prints :
    (field : String) (w : Ring) → io.run_shell (keyring_command field) w ≡ keyring_line io field w
unfolding keyring_line
prints field w =
    ap (λ o. shell_reply o w) (cut_prefix-append "hush-hush-cli config keyring-get " field)

lookup-put_same : (field value : String) (w : Ring) → lookup field (put field value w) ≡ some value
lookup-put_same field value w =
    lookup-put field field value w
    ∙ ap (λ b. if b then some value else lookup field w) (eq_refl field)

stored :
    (service field value : String) (w w' : Ring)
    → io.keyring_set service field value w ≡ (ok tt, w')
    → io.keyring_get service field w' ≡ (ok value, w')
unfolding ring_get
stored service field value w w' went =
    ap (λ o. (found_or (external "not found") o, w'))
      (ap (lookup field) (sym (reply-injective went).1) ∙ lookup-put_same field value w)

abbrev token_answer : CredentialAnswer
token_answer = record { value = "tok"; choice = persist_keyring; extra = "" }

abbrev other_answer : CredentialAnswer
other_answer = record { value = "other"; choice = persist_keyring; extra = "" }

abbrev token_kept : RenderedSecret
token_kept = record { literal = ""; command = "hush-hush-cli config keyring-get token" }

abbrev with_other : Ring
unfolding put
with_other = put "token" "other" List.[]

abbrev with_token : Ring
unfolding put
with_token = put "token" "tok" List.[]

resolve_secret-persist_credential_example :
    resolve_secret io "" "hush-hush-cli config keyring-get token" with_token
    ≡ (ok "tok", with_token)
unfolding persist_credential persist worth put
resolve_secret-persist_credential_example =
    resolve_secret-persist_credential io prints stored token_answer "token" List.[] with_token
      token_kept refl

persist_credential_secrecy_example : token_kept ≡ token_kept
unfolding persist_credential persist concealed put
persist_credential_secrecy_example =
    persist_credential_secrecy io token_answer other_answer "token" List.[] with_token List.[]
      with_other token_kept token_kept refl refl refl

abbrev quote : String → String
quote text = text

abbrev settings : Settings
settings = record {
  server = "http://localhost:8080";
  token = "";
  token_command = "";
  consumer_token = "";
  consumer_token_command = "";
  caller = "";
  recipients = "";
  identity = "";
  identity_command = "";
}

abbrev app : App Ring
app = record {
  io = io;
  read_stdin = λ w. (ok List.[], w);
  write_stdout = λ bytes w. (ok tt, w);
  parse_url = λ url. ok ("http", url);
  build = λ server key. err (external "offline");
}

abbrev values : Values
values = record { server = ""; caller = ""; recipients = "" }

abbrev new_path : Op Ring String
new_path w = (ok "/new", w)

-- The keyring, which is all the state there is.
abbrev unchanged : Ring → Ring
unchanged w = w

abbrev old_path : Op Ring String
old_path w = (ok "/there", w)

persistent_pre_run_exists_example :
    persistent_pre_run quote app old_path true (done tt) settings false "get" List.[]
    ≡ (ok tt, List.[])
unfolding member any_env_var_set any_set
persistent_pre_run_exists_example =
    persistent_pre_run_exists quote app old_path true (done tt) settings false "get" "/there"
      List.[] List.[] refl refl refl refl

-- The variable that `get` reads for the identity's command is not among those that count.
identity_command_uncounted : member "HUSH_HUSH_IDENTITY_COMMAND" env_vars ≡ false
unfolding member
identity_command_uncounted = refl
