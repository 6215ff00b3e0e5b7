-- ===== src/Cli/Config.antt =====
-- internal/cli/cli.go and the errors of internal/cli/get.go. `parse_url` is `url.Parse`, of which the scheme
-- and the host are read.
use hush_hush_cli.Prelude.{
  String, ◌≡◌, ◌↔◌, refl, Bool, false, not, ◌&&◌, ◌||◌, if◌then◌else◌, Result, ok, err, arith,
  Bool-cases, inl, inr,
}
use hush_hush_cli.Prelude.Text.{is_empty}
use hush_hush_cli.Client.Errors.{
  Err, wrap, sentinel, is, unauthorized, server_required, server_not_absolute, token_required,
}

pub record Config : Type 0 where
  pub server : String
  pub token : String
  pub consumer_token : String
  pub caller : String
  pub require_token : Bool

-- `Validate` once the URL is parsed. The server's name in the error's text is not kept.
unfoldable pub validate_parsed : Config → Result Err (String × String) → Result Err (Unit {0})
validate_parsed cfg (err e) = err (wrap "server" e)
validate_parsed cfg (ok (scheme, host)) =
    if is_empty scheme || is_empty host
    then err (wrap "server" (sentinel server_not_absolute))
    else if cfg.require_token && is_empty cfg.token
    then err (sentinel token_required)
    else ok tt

-- `Validate`
unfoldable pub validate : (String → Result Err (String × String)) → Config → Result Err (Unit {0})
unfolding validate_parsed
validate parse_url cfg =
    if is_empty cfg.server
    then err (sentinel server_required)
    else validate_parsed cfg (parse_url cfg.server)

-- `readError`
unfoldable pub read_error : Err → Config → Err
unfolding is
read_error e cfg =
    if not (is unauthorized e)
    then e
    else if is_empty cfg.token && is_empty cfg.consumer_token
    then wrap
        "no token configured (--token/--consumer-token, HUSH_HUSH_TOKEN/HUSH_HUSH_CONSUMER_TOKEN, or run `hush-hush-cli init` for a write token)"
        (sentinel unauthorized)
    else if not (is_empty cfg.token)
    then wrap "write token rejected" (sentinel unauthorized)
    else wrap "consumer token rejected" (sentinel unauthorized)

-- The credential of `Get`: the write token where there is one.
unfoldable pub read_credential : Config → String
read_credential cfg = if is_empty cfg.token then cfg.consumer_token else cfg.token

-- A URL that parses, with a scheme and a host.
abbrev pub IsAbsolute : Result Err (String × String) → Type 0
IsAbsolute r =
    (scheme : String) × (host : String) × (r ≡ ok (scheme, host))
    × (is_empty scheme ≡ false)
    × (is_empty host ≡ false)

validate_parsed_sound :
    (cfg : Config) (r : Result Err (String × String))
    → validate_parsed cfg r ≡ ok tt
    → IsAbsolute r × ((cfg.require_token && is_empty cfg.token) ≡ false)
unfolding validate_parsed
validate_parsed_sound cfg (err e) h = cc
validate_parsed_sound cfg (ok (scheme, host)) h =
    ((scheme, host, refl, ground arith, ground arith), ground arith)

validate_parsed_complete :
    (cfg : Config) (scheme host : String)
    → is_empty scheme ≡ false
    → is_empty host ≡ false
    → (cfg.require_token && is_empty cfg.token) ≡ false
    → validate_parsed cfg (ok (scheme, host)) ≡ ok tt
unfolding validate_parsed
validate_parsed_complete cfg scheme host p q t = rw (p, q, t) refl

-- A configuration passes exactly when a server is given, its URL parses with a scheme and a host, and a
-- token is there if one is required.
pub validate_iff :
    (parse_url : String → Result Err (String × String)) (cfg : Config)
    → (validate parse_url cfg ≡ ok tt) ↔ (
        (is_empty cfg.server ≡ false)
        × IsAbsolute (parse_url cfg.server)
        × ((cfg.require_token && is_empty cfg.token) ≡ false))
unfolding validate
validate_iff parse_url cfg = elim (Bool-cases (is_empty cfg.server)) [
  | inl missing ↦ rw missing (λ h. cc, λ (p, q, t). cc)
  | inr there ↦ rw there (
    λ h.
        let (absolute, t) = validate_parsed_sound cfg (parse_url cfg.server) h in
        (refl, absolute, t),
    λ (p, (scheme, host, e, q, r), t). rw e (validate_parsed_complete cfg scheme host q r t),
  )
]

-- Naming the credential that was rejected keeps an error an authorization error, and makes no other
-- error one.
pub read_error-is :
    (e : Err) (cfg : Config) → is unauthorized (read_error e cfg) ≡ is unauthorized e
unfolding read_error is
read_error-is e cfg = ground arith
