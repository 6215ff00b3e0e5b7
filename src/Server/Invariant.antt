-- ===== src/Server/Invariant.antt =====
-- The invariant of the store of internal/testserver/testserver.go, through each of its methods.
pub mod Objects
use hush_hush_cli.Prelude.{
  ℕ, String, ◌≡◌, refl, not, ◌&&◌, Option, none, some, List, [], ◌∷◌, OnOk, OnOk-bind, OnOk-with,
  ltb, Bool-cases, inl, inr, found_or,
}
use hush_hush_cli.Prelude.Int.{ℤ}
use hush_hush_cli.Prelude.Map.{lookup, has}
use hush_hush_cli.Server.Types.{
  Time, Object, Store, Selector, TokenRecord, consumer_token_not_found, new_store,
}
use hush_hush_cli.Server.Objects.{
  create_object, add_variant, update_variant, patch_variant, delete_variant, store_variants,
  move_variants, is_taken, renames, find, register_given,
}
use hush_hush_cli.Server.Objects.Owned.{
  IsOwned, store_variants-IsOwned, put-Owned, put_extra-Owned, map_values-Owned,
}
use hush_hush_cli.Server.Consumers.{
  add_consumer, update_consumer, update_entry, delete_consumer, rename_consumer,
}
use hush_hush_cli.Server.Tokens.{
  issue_consumer_token, rotate_consumer_token, revoke_consumer_token, revoked_at,
  purge_consumer_token, token_value, is_dead,
}
use hush_hush_cli.Server.Tokens.Indexed.{
  IsIndexed, issue_consumer_token-IsIndexed, rotate_consumer_token-IsIndexed,
  revoke_consumer_token-IsIndexed, purge_consumer_token-IsIndexed,
}
use hush_hush_cli.Server.Audit.Pages.{IsNumbered}

-- Further variants stand under names that have an object, token values and records match, and the
-- audit log's ids grow.
abbrev pub IsValid : Store → Type 0
IsValid s = IsOwned s × IsIndexed s × IsNumbered s

pub add_consumer-IsValid :
    (name : String) (s : Store) → IsValid s → OnOk IsValid (add_consumer name s)
unfolding add_consumer
add_consumer-IsValid name s h = elim (Bool-cases (has name s.consumers)) [
  | inl taken ↦ rw taken tt
  | inr free ↦ rw free h
]

pub delete_consumer-IsValid :
    (name : String) (s : Store) → IsValid s → OnOk IsValid (delete_consumer name s)
unfolding delete_consumer
delete_consumer-IsValid name s (o, i, n) = elim (Bool-cases (has name s.consumers)) [
  | inl known ↦ rw known (map_values-Owned _ s.objects s.extra o, i, n)
  | inr unknown ↦ rw unknown tt
]

update_entry-IsValid :
    (name : String) (new_name public_key : Option String) (s : Store)
    (entry : Option (Option String))
    → IsValid s
    → OnOk (λ r. IsValid r.1) (update_entry name new_name public_key s entry)
unfolding update_entry rename_consumer
update_entry-IsValid name none public_key s none h = h
update_entry-IsValid name (some n) public_key s none h = tt
update_entry-IsValid name none none s (some key) h = h
update_entry-IsValid name none (some k) s (some key) h = h
update_entry-IsValid name (some target) none s (some key) (o, i, n) =
    (map_values-Owned _ s.objects s.extra o, i, n)
update_entry-IsValid name (some target) (some k) s (some key) (o, i, n) =
    (map_values-Owned _ s.objects s.extra o, i, n)

pub update_consumer-IsValid :
    (name : String) (new_name public_key : Option String) (s : Store)
    → IsValid s
    → OnOk (λ r. IsValid r.1) (update_consumer name new_name public_key s)
unfolding update_consumer
update_consumer-IsValid name new_name public_key s h =
    update_entry-IsValid name new_name public_key s (lookup name s.consumers) h

pub issue_consumer_token-IsValid :
    (new_id suffix : String) (now : Time) (consumer description : String) (ttl : ℤ) (s : Store)
    → IsValid s
    → lookup new_id s.consumer_tokens ≡ none
    → lookup (token_value consumer suffix) s.consumer_token_values ≡ none
    → IsValid (issue_consumer_token new_id suffix now consumer description ttl s).1
unfolding issue_consumer_token
issue_consumer_token-IsValid new_id suffix now consumer description ttl s (o, i, n) fresh unused = (
  o,
  issue_consumer_token-IsIndexed new_id suffix now consumer description ttl s i fresh unused,
  n,
)

-- A method on tokens leaves the objects and the log alone.
pub rotate_consumer_token-IsValid :
    (suffix : String) (now : Time) (id : String) (ttl : ℤ) (s : Store)
    → IsValid s
    → ((consumer : String) → lookup (token_value consumer suffix) s.consumer_token_values ≡ none)
    → OnOk (λ r. IsValid r.1) (rotate_consumer_token suffix now id ttl s)
unfolding rotate_consumer_token
rotate_consumer_token-IsValid suffix now id ttl s (o, i, n) unused =
    OnOk-with (λ r. IsIndexed r.1) _ (rotate_consumer_token suffix now id ttl s)
      (rotate_consumer_token-IsIndexed suffix now id ttl s i unused)
      (OnOk-bind _ (found_or consumer_token_not_found (lookup id s.consumer_tokens)) _ λ t _.
        elim (Bool-cases (is_dead now t)) [
          | inl dead ↦ rw dead tt
          | inr live ↦ rw live (λ k. (o, k, n))
        ])

pub purge_consumer_token-IsValid :
    (now : Time) (id : String) (s : Store)
    → IsValid s
    → OnOk IsValid (purge_consumer_token now id s)
unfolding purge_consumer_token
purge_consumer_token-IsValid now id s (o, i, n) =
    OnOk-with IsIndexed IsValid (purge_consumer_token now id s)
      (purge_consumer_token-IsIndexed now id s i)
      (OnOk-bind _ (found_or consumer_token_not_found (lookup id s.consumer_tokens)) _ λ t _.
        elim (Bool-cases (not t.revoked && ltb now t.expires_at)) [
          | inl active ↦ rw active tt
          | inr done ↦ rw done (λ k. (o, k, n))
        ])

revoked_at-IsValid :
    (id : String) (entry : Option TokenRecord) (s : Store)
    → IsValid s
    → IsIndexed (revoked_at id entry s)
    → IsValid (revoked_at id entry s)
unfolding revoked_at
revoked_at-IsValid id none s (o, i, n) k = (o, i, n)
revoked_at-IsValid id (some t) s (o, i, n) k = (o, k, n)

pub revoke_consumer_token-IsValid :
    (id : String) (s : Store) → IsValid s → IsValid (revoke_consumer_token id s)
unfolding revoke_consumer_token
revoke_consumer_token-IsValid id s (o, i, n) =
    revoked_at-IsValid id (lookup id s.consumer_tokens) s (o, i, n)
      (revoke_consumer_token-IsIndexed id s i)

-- The store that a server starts with is valid: its maps and its log are empty.
pub new_store-IsValid : IsValid new_store
unfolding new_store lookup
new_store-IsValid = (
  record { owner = λ k e. refl; nonempty = λ k e. cc },
  record { sound = λ value id e. cc; complete = λ id t e. cc },
  record { growing = tt; bounded = tt; positive = tt },
)
