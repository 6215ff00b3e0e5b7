-- ===== src/Server/Tokens/Lifetime.antt =====
-- What the methods on consumer tokens in internal/testserver/testserver.go do to the values that a
-- reader may present, and what the server shows of a token.
use mathlib.Core.Option
use hush_hush_cli.Prelude.{
  String, ◌≡◌, ◌≢◌, refl, true, false, not, ◌&&◌, ◌||◌, none, some, List, [], ◌∷◌, eqb, ok, arith,
  eq_iff, eq_refl, ◌==◌, if◌then◌else◌, Bool-cases, Option-cases, inl, inr, ◌≤◌, is_ok,
}
use hush_hush_cli.Prelude.Int.{ℤ}
use hush_hush_cli.Prelude.Text.{member}
use hush_hush_cli.Prelude.Map.{lookup, put, remove, lookup-put, lookup-remove}
use hush_hush_cli.Server.Types.{Time, TokenRecord, Store}
use hush_hush_cli.Server.Tokens.{
  issue_consumer_token, rotate_consumer_token, revoke_consumer_token, revoked_at,
  purge_consumer_token, rotated, token_value, is_dead, consumer_for_token, rejected, bound,
  bearer_of, token_with_value, token_metadata, token_state, add_time,
}
use hush_hush_cli.Server.Tokens.Indexed.{IsIndexed}

-- A value that is issued is accepted for its consumer until its expiry, that instant included.
pub issue_consumer_token-accepted :
    (new_id suffix : String) (now later : Time) (consumer description : String) (ttl : ℤ)
    (s : Store)
    → later ≤ add_time now ttl
    → (let (issued, t) = issue_consumer_token new_id suffix now consumer description ttl s in
        consumer_for_token later issued.value t ≡ bound consumer)
unfolding issue_consumer_token consumer_for_token token_with_value bearer_of
issue_consumer_token-accepted new_id suffix now later consumer description ttl s h =
    let value = token_value consumer suffix in
    rw
      (
        lookup-put value value new_id s.consumer_token_values,
        eq_refl value,
        lookup-put new_id new_id _ s.consumer_tokens,
        eq_refl new_id,
      )
      (ground arith)

-- The store that a rotation leaves behind.
unfoldable pub rotated_store : String → Time → String → ℤ → TokenRecord → Store → Store
unfolding put remove rotated
rotated_store suffix now id ttl t s =
    let t' = rotated suffix now ttl t in
    record s {
      consumer_tokens = put id t' s.consumer_tokens;
      consumer_token_values = put t'.value id (remove t.value s.consumer_token_values);
    }

-- A value that was replaced is rejected at every later time.
pub replaced-rejected :
    (suffix : String) (now later : Time) (id : String) (ttl : ℤ) (s : Store) (t : TokenRecord)
    → t.value ≢ token_value t.consumer suffix
    → consumer_for_token later t.value (rotated_store suffix now id ttl t s) ≡ rejected
unfolding consumer_for_token rotated rotated_store
replaced-rejected suffix now later id ttl s t fresh =
    let value = token_value t.consumer suffix in
    let index = remove t.value s.consumer_token_values in
    let gone : lookup t.value (put value id index) ≡ none = ground (
      arith,
      lookup-put value t.value id index,
      lookup-remove t.value t.value s.consumer_token_values,
      eq_iff value t.value,
      eq_refl t.value,
    ) in
    rw gone refl

-- The value that is drawn is accepted until the new expiry.
pub drawn-accepted :
    (suffix : String) (now later : Time) (id : String) (ttl : ℤ) (s : Store) (t : TokenRecord)
    → is_dead now t ≡ false
    → later ≤ add_time now ttl
    → consumer_for_token later (token_value t.consumer suffix) (rotated_store suffix now id ttl t s)
      ≡ bound t.consumer
unfolding consumer_for_token rotated bearer_of rotated_store
drawn-accepted suffix now later id ttl s t live h =
    let value = token_value t.consumer suffix in
    rw
      (
        lookup-put value value id (remove t.value s.consumer_token_values),
        eq_refl value,
        lookup-put id id (rotated suffix now ttl t) s.consumer_tokens,
        eq_refl id,
      )
      (ground arith)

-- A token that is neither revoked nor past its expiry can be rotated. Until the new expiry the new value is
-- accepted for the same consumer, and the old value, unless it is drawn again, is rejected.
pub rotate_consumer_token-accepted :
    (suffix : String) (now later : Time) (id : String) (ttl : ℤ) (s : Store) (t : TokenRecord)
    → lookup id s.consumer_tokens ≡ some t
    → is_dead now t ≡ false
    → later ≤ add_time now ttl
    → t.value ≢ token_value t.consumer suffix
    → (s' : Store) × (rotate_consumer_token suffix now id ttl s
        ≡ ok (token_with_value now (rotated suffix now ttl t), s'))
      × (consumer_for_token later (token_value t.consumer suffix) s' ≡ bound t.consumer)
      × (consumer_for_token later t.value s' ≡ rejected)
unfolding rotate_consumer_token consumer_for_token rotated bearer_of rotated_store
rotate_consumer_token-accepted suffix now later id ttl s t found live h fresh = (
  rotated_store suffix now id ttl t s,
  rw (found, live),
  drawn-accepted suffix now later id ttl s t live h,
  replaced-rejected suffix now later id ttl s t fresh,
)

-- In a store whose token values and records match, revoking a known token makes its value rejected
-- at every later time, and leaves every other value taken as before.
pub revoke_consumer_token-rejected :
    (id : String) (s : Store) (t : TokenRecord) (value : String) (later : Time)
    → IsIndexed s
    → lookup id s.consumer_tokens ≡ some t
    → consumer_for_token later value (revoke_consumer_token id s)
      ≡ (if value == t.value then rejected else consumer_for_token later value s)
unfolding revoke_consumer_token revoked_at consumer_for_token bearer_of
revoke_consumer_token-rejected id s t value later h found =
    elim (Option-cases (lookup value s.consumer_token_values)) [
      | inl unknown ↦ let kept = h.complete id t found in rw (found, unknown) (ground arith)
      | inr (j, known) ↦
          let (u, held, own) = h.sound value j known in
          let mine = h.complete id t found in
          elim (Bool-cases (id == j)) [
            | inl same ↦
                let is_t : (value == t.value) ≡ true =
                  ground (arith, eq_iff id j, eq_iff value t.value) in
                rw
                  (
                    found,
                    known,
                    lookup-put id j (record t { revoked = true }) s.consumer_tokens,
                    same,
                    is_t,
                  )
                  (ground arith)
            | inr other ↦
                let not_t : (value == t.value) ≡ false =
                  ground (arith, eq_iff id j, eq_iff value t.value) in
                rw
                  (
                    found,
                    known,
                    lookup-put id j (record t { revoked = true }) s.consumer_tokens,
                    other,
                    not_t,
                  )
                  (ground arith)
          ]
    ]

-- The status and the actions that the server shows of a token.
abbrev pub shown_state : Time → TokenRecord → String × List String
shown_state now t = ((token_metadata now t).status, (token_metadata now t).allowed_actions)

-- The actions that the server lists for a known token, against those it carries out. A purge succeeds exactly
-- when it is listed. A rotation succeeds exactly when it is listed or, for a token that is not revoked, at the very
-- instant of its expiry. A revocation is listed exactly when a rotation is; listed or not, it leaves the token
-- shown as revoked, with a purge as its only action, at every later time.
pub token_metadata-actions :
    (suffix : String) (now later : Time) (id : String) (ttl : ℤ) (s : Store) (t : TokenRecord)
    → lookup id s.consumer_tokens ≡ some t
    → (let actions = (token_metadata now t).allowed_actions in
        (is_ok (purge_consumer_token now id s) ≡ member "purge" actions)
        × (is_ok (rotate_consumer_token suffix now id ttl s)
            ≡ (member "rotate" actions || (not t.revoked && eqb now t.expires_at)))
        × (member "revoke" actions ≡ member "rotate" actions)
        × (Option.map (shown_state later) (lookup id (revoke_consumer_token id s).consumer_tokens)
            ≡ some ("revoked", "purge" ∷ [])))
unfolding token_metadata token_state purge_consumer_token rotate_consumer_token member
    revoke_consumer_token revoked_at
token_metadata-actions suffix now later id ttl s t found =
    let changed = lookup-put id id (record t { revoked = true }) s.consumer_tokens in
    (
      rw found (ground arith),
      rw found (ground arith),
      ground arith,
      rw (found, changed, eq_refl id) refl,
    )

-- In a store whose token values and records match, at the instant of its expiry a token that is not
-- revoked is shown as expired, and can be purged, while its value is still accepted and it can
-- still be rotated.
pub token_state-at_expiry :
    (suffix : String) (id : String) (ttl : ℤ) (s : Store) (t : TokenRecord)
    → IsIndexed s
    → lookup id s.consumer_tokens ≡ some t
    → t.revoked ≡ false
    → ((token_metadata t.expires_at t).status ≡ "expired")
      × (is_ok (purge_consumer_token t.expires_at id s) ≡ true)
      × (consumer_for_token t.expires_at t.value s ≡ bound t.consumer)
      × (is_ok (rotate_consumer_token suffix t.expires_at id ttl s) ≡ true)
unfolding token_metadata token_state purge_consumer_token rotate_consumer_token consumer_for_token
    bearer_of
token_state-at_expiry suffix id ttl s t h found live = (
  ground arith,
  rw found (ground arith),
  rw (h.complete id t found, found) (ground arith),
  rw found (ground arith),
)
