-- ===== src/Client/Tokens.antt =====
-- Consumer tokens as internal/client/consumer_tokens.go shows them.
use hush_hush_cli.Prelude.{
  String, ◌≡◌, refl, Bool, not, Option, none, some, List, [], ◌∷◌, ltb, if◌then◌else◌, ◌==◌,
  Bool-cases, inl, inr,
}
use hush_hush_cli.Prelude.Text.{is_empty}
use hush_hush_cli.Server.Types.{Time, TokenRecord}
use hush_hush_cli.Server.Tokens.{ConsumerToken, token_metadata, token_state}

-- `hushhush.ConsumerTokenMetadata`: a server of an older version sends no status and no actions. A pointer
-- to a nil slice is not told from one to an empty slice.
pub record SdkToken : Type 0 where
  pub id : String
  pub consumer : String
  pub description : String
  pub created_at : Time
  pub expires_at : Time
  pub last_used_at : Option Time
  pub revoked : Bool
  pub status : Option String
  pub allowed_actions : Option (List String)

abbrev pub status_or_empty : Option String → String
status_or_empty none = ""
status_or_empty (some status) = status

-- The status that `withDerivedState` fills in, at the time `now`.
unfoldable pub derived_status : Time → String → Bool → Time → String
derived_status now status revoked expires_at =
    if is_empty status
    then if revoked then "revoked" else if not (ltb now expires_at) then "expired" else "active"
    else status

-- The actions that `withDerivedState` fills in for a status.
unfoldable pub derived_actions : String → Option (List String) → List String
derived_actions status none = if status == "active" then "rotate" ∷ "revoke" ∷ [] else "purge" ∷ []
derived_actions status (some actions) = actions

-- `toConsumerToken`
unfoldable pub to_consumer_token : Time → SdkToken → ConsumerToken
unfolding derived_status derived_actions
to_consumer_token now t =
    let status = derived_status now (status_or_empty t.status) t.revoked t.expires_at in
    record {
      id = t.id;
      consumer = t.consumer;
      description = t.description;
      created_at = t.created_at;
      expires_at = t.expires_at;
      last_used_at = t.last_used_at;
      revoked = t.revoked;
      status = status;
      allowed_actions = derived_actions status t.allowed_actions;
    }

-- What the wire has of a record, with the given state.
abbrev pub on_wire : TokenRecord → Option String → Option (List String) → SdkToken
on_wire t status actions = record {
  id = t.id;
  consumer = t.consumer;
  description = t.description;
  created_at = t.created_at;
  expires_at = t.expires_at;
  last_used_at = t.last_used_at;
  revoked = t.revoked;
  status = status;
  allowed_actions = actions;
}

-- What the client derives for a token sent with no status and no actions is what the server shows of that
-- token at the same time.
pub to_consumer_token-token_metadata :
    (now : Time) (t : TokenRecord)
    → to_consumer_token now (on_wire t none none) ≡ token_metadata now t
unfolding to_consumer_token derived_status derived_actions token_metadata token_state
to_consumer_token-token_metadata now t = elim (Bool-cases t.revoked) [
  | inl dead ↦ rw dead refl
  | inr live ↦ elim (Bool-cases (ltb now t.expires_at)) [
    | inl before ↦ rw (live, before) refl
    | inr late ↦ rw (live, late) refl
  ]
]
