-- ===== src/Client/Errors/Nouns.antt =====
-- The nouns of the errors of internal/client: an error about a consumer or a token does not speak of objects.
use hush_hush_cli.Prelude.{ℕ, String, ◌≡◌, false, arith}
use hush_hush_cli.Client.Errors.{
  api, is, not_found, already_exists, map_error, map_consumer_error, map_token_id_error,
  consumer_not_found, consumer_already_exists, consumer_token_not_found, consumer_token_active,
}

-- What a consumer call makes of the server's answer never matches one of the two sentinels of objects.
-- It matches the consumer's sentinel for an unknown name, or for one that is taken, exactly where the
-- answer as such is an object's.
pub map_consumer_error-is :
    (status : ℕ) (message : String)
    → (is not_found (map_consumer_error (api status message)) ≡ false)
      × (is already_exists (map_consumer_error (api status message)) ≡ false)
      × (is consumer_not_found (map_consumer_error (api status message))
          ≡ is not_found (map_error (api status message)))
      × (is consumer_already_exists (map_consumer_error (api status message))
          ≡ is already_exists (map_error (api status message)))
unfolding map_consumer_error map_error is
map_consumer_error-is status message = (ground arith, ground arith, ground arith, ground arith)

-- What a rotation or a purge makes of the server's answer never matches one of the two sentinels of objects.
-- It matches the token's sentinel for an unknown token, or for one still active, exactly where the answer
-- as such is an object's.
pub map_token_id_error-is :
    (status : ℕ) (message : String)
    → (is not_found (map_token_id_error (api status message)) ≡ false)
      × (is already_exists (map_token_id_error (api status message)) ≡ false)
      × (is consumer_token_not_found (map_token_id_error (api status message))
          ≡ is not_found (map_error (api status message)))
      × (is consumer_token_active (map_token_id_error (api status message))
          ≡ is already_exists (map_error (api status message)))
unfolding map_token_id_error map_error is
map_token_id_error-is status message = (ground arith, ground arith, ground arith, ground arith)
