-- ===== src/Server/Steps/Reached.antt =====
-- What holds of every store that the server reaches.
use hush_hush_cli.Prelude.{ℕ, String, List, [], Option, none, OnOk, OnOk-map_ok, OnOk-apply}
use hush_hush_cli.Prelude.Int.{ℤ}
use hush_hush_cli.Server.Types.{Time, AuditLogEntry, Store}
use hush_hush_cli.Server.Objects.{update_variant}
use hush_hush_cli.Server.Shortcuts.{by_id, create_untagged, update_only, delete_only}
use hush_hush_cli.Server.Tokens.{create_write_token}
use hush_hush_cli.Server.Audit.{record_audit_entry}
use hush_hush_cli.Server.Audit.Pages.{record_audit_entry-IsNumbered}
use hush_hush_cli.Server.Invariant.{
  IsValid, new_store-IsValid, add_consumer-IsValid, update_consumer-IsValid,
  delete_consumer-IsValid, issue_consumer_token-IsValid, rotate_consumer_token-IsValid,
  revoke_consumer_token-IsValid, purge_consumer_token-IsValid,
}
use hush_hush_cli.Server.Invariant.Objects.{
  add_variant-IsValid, create_object-IsValid, update_variant-IsValid, delete_variant-IsValid,
  set_object_tags-IsValid,
}
use hush_hush_cli.Server.Http.Preserves.{serve-IsValid}
use hush_hush_cli.Server.Steps.{
  Step, request_served, entry_recorded, write_token_created, variant_added, tags_set,
  environment_set, bootstrapped_set, owner_key_set, object_created, object_updated, object_deleted,
  consumer_added, consumer_updated, consumer_deleted, token_issued, token_rotated, token_revoked,
  token_purged, set_environment, set_bootstrapped, set_owner_public_key, Reach, started, stepped,
}

record_audit_entry-IsValid :
    (now : Time) (entry : AuditLogEntry) (s : Store)
    → IsValid s
    → IsValid (record_audit_entry now entry s).1
unfolding record_audit_entry
record_audit_entry-IsValid now entry s (o, i, n) =
    (o, i, record_audit_entry-IsNumbered now entry s n)

create_write_token-IsValid :
    (suffix : String) (now : Time) (name : String) (ttl : ℤ) (s : Store)
    → IsValid s
    → IsValid (create_write_token suffix now name ttl s).1
unfolding create_write_token
create_write_token-IsValid suffix now name ttl s h = h

update_only-IsValid :
    (now : Time) (id : String) (value : List ℕ) (s : Store)
    → IsValid s
    → OnOk IsValid (update_only now id value s)
unfolding update_only
update_only-IsValid now id value s h =
    OnOk-map_ok IsValid _ (update_variant now id (by_id "") value none none s)
      (update_variant-IsValid now id (by_id "") value none none s h)

module _ (object_id : String → String) (parse_time : String → Option Time) where
  Step-IsValid : (s t : Store) → Step object_id parse_time s t → IsValid s → IsValid t
  unfolding set_environment set_bootstrapped set_owner_public_key create_untagged delete_only
  Step-IsValid s t (request_served env req _ fresh) h =
      serve-IsValid object_id parse_time env req s fresh h
  Step-IsValid s t (entry_recorded now entry _) h = record_audit_entry-IsValid now entry s h
  Step-IsValid s t (write_token_created suffix now name ttl _) h =
      create_write_token-IsValid suffix now name ttl s h
  Step-IsValid s t (variant_added uuid now id value used_by _ added went) h =
      OnOk-apply (λ r. IsValid r.1) _ added (add_variant-IsValid uuid now id value used_by s h) went
  Step-IsValid s t (tags_set id tags _ _ went) h =
      OnOk-apply IsValid _ t (set_object_tags-IsValid id tags s h) went
  Step-IsValid s t (environment_set label _) h = h
  Step-IsValid s t (bootstrapped_set b _) h = h
  Step-IsValid s t (owner_key_set key _) h = h
  Step-IsValid s t (object_created now id value used_by description _ _ went) h =
      OnOk-apply IsValid _ t
        (create_object-IsValid object_id now id value used_by description [] s h) went
  Step-IsValid s t (object_updated now id value _ _ went) h =
      OnOk-apply IsValid _ t (update_only-IsValid now id value s h) went
  Step-IsValid s t (object_deleted id _ _ went) h =
      OnOk-apply IsValid _ t (delete_variant-IsValid id (by_id "") s h) went
  Step-IsValid s t (consumer_added name _ _ went) h =
      OnOk-apply IsValid _ t (add_consumer-IsValid name s h) went
  Step-IsValid s t (consumer_updated name new_name public_key _ updated went) h =
      OnOk-apply (λ r. IsValid r.1) _ updated (update_consumer-IsValid name new_name public_key s h)
        went
  Step-IsValid s t (consumer_deleted name _ _ went) h =
      OnOk-apply IsValid _ t (delete_consumer-IsValid name s h) went
  Step-IsValid s t (token_issued new_id suffix now consumer description ttl _ fresh unused) h =
      issue_consumer_token-IsValid new_id suffix now consumer description ttl s h fresh unused
  Step-IsValid s t (token_rotated suffix now id ttl _ rotated unused went) h =
      OnOk-apply (λ r. IsValid r.1) _ rotated
        (rotate_consumer_token-IsValid suffix now id ttl s h unused) went
  Step-IsValid s t (token_revoked id _) h = revoke_consumer_token-IsValid id s h
  Step-IsValid s t (token_purged now id _ _ went) h =
      OnOk-apply IsValid _ t (purge_consumer_token-IsValid now id s h) went

  -- Every store that the server reaches, by requests and by the calls that a test makes on the store, each
  -- drawing only ids and suffixes that are not in use, is valid: further variants stand under names that have an object, token
  -- values and records match, and the audit log's ids grow.
  pub Reach-IsValid : (s : Store) → Reach object_id parse_time s → IsValid s
  Reach-IsValid s started = new_store-IsValid
  Reach-IsValid s (stepped r _ reached step) = Step-IsValid r s step (Reach-IsValid r reached)
