-- ===== src/Client/Errors.antt =====
-- Errors as internal/client, internal/cli and internal/cmd build them: sentinels, and `fmt.Errorf` around
-- them. An error of a package outside the repository is `external`.
pub mod Nouns
use hush_hush_cli.Prelude.{ℕ, String, Bool, false, eqb, if◌then◌else◌}
use hush_hush_cli.Prelude.Text.{contains, equal_fold, is_empty}

pub data Sentinel : Type 0 where
  unauthorized not_found already_exists several_variants unexpected_status : Sentinel
  no_owner_key consumer_no_public_key : Sentinel
  consumer_not_found consumer_already_exists : Sentinel
  consumer_token_not_found consumer_token_active : Sentinel
  server_required server_not_absolute token_required : Sentinel
  nothing_to_edit ttl_required : Sentinel
  no_recipients no_recipients_or_used_by tag_and_clear_tags used_by_and_clear_used_by : Sentinel
  id_and_consumer no_identity config_already_exists canceled : Sentinel
  nothing_given_to_edit consumer_update_nothing unknown_audit_log_format : Sentinel

-- A sentinel's place in the list above: two sentinels are one if these agree.
abbrev pub rank : Sentinel → ℕ
rank unauthorized = 0
rank not_found = 1
rank already_exists = 2
rank several_variants = 3
rank unexpected_status = 4
rank no_owner_key = 5
rank consumer_no_public_key = 6
rank consumer_not_found = 7
rank consumer_already_exists = 8
rank consumer_token_not_found = 9
rank consumer_token_active = 10
rank server_required = 11
rank server_not_absolute = 12
rank token_required = 13
rank nothing_to_edit = 14
rank ttl_required = 15
rank no_recipients = 16
rank no_recipients_or_used_by = 17
rank tag_and_clear_tags = 18
rank used_by_and_clear_used_by = 19
rank id_and_consumer = 20
rank no_identity = 21
rank config_already_exists = 22
rank canceled = 23
rank nothing_given_to_edit = 24
rank consumer_update_nothing = 25
rank unknown_audit_log_format = 26

-- `wrap` is "prefix: %w", `explained` is "%w: reason" and `coded` is "%w status: reason".
pub data Err : Type 0 where
  sentinel : Sentinel → Err
  external : String → Err
  wrap : String → Err → Err
  explained : Err → String → Err
  coded : Err → ℕ → String → Err

-- `errors.Is` against a sentinel.
unfoldable pub is : Sentinel → Err → Bool
is s (sentinel t) = eqb (rank s) (rank t)
is s (external e) = false
is s (wrap prefix e) = is s e
is s (explained e reason) = is s e
is s (coded e status reason) = is s e

-- What an SDK call fails with: an `*hushhush.APIError` with a status and the server's message, or
-- anything else.
pub data SdkError : Type 0 where
  api : ℕ → String → SdkError
  transport : Err → SdkError

-- The case of a 409 in `mapError`, with the server's message.
abbrev conflict_error : String → Err
unfolding contains equal_fold
conflict_error message =
    if contains message "several variants"
    then sentinel several_variants
    else if is_empty message
    then sentinel already_exists
    else if equal_fold message "object already exists"
    then sentinel already_exists
    else explained (sentinel already_exists) message

-- `mapError`
unfoldable pub map_error : SdkError → Err
unfolding contains equal_fold
map_error (transport e) = wrap "call hush-hush server" e
map_error (api status message) =
    if eqb status 401
    then sentinel unauthorized
    else if eqb status 404
    then sentinel not_found
    else if eqb status 409
    then conflict_error message
    else coded (sentinel unexpected_status) status message

-- `mapConsumerError`
unfoldable pub map_consumer_error : SdkError → Err
unfolding map_error is
map_consumer_error e =
    let mapped = map_error e in
    if is not_found mapped
    then sentinel consumer_not_found
    else if is already_exists mapped
    then sentinel consumer_already_exists
    else mapped

-- `mapConsumerTokenIDError`
unfoldable pub map_token_id_error : SdkError → Err
unfolding map_error is
map_token_id_error e =
    let mapped = map_error e in
    if is not_found mapped
    then sentinel consumer_token_not_found
    else if is already_exists mapped
    then sentinel consumer_token_active
    else mapped
