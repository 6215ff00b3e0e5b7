-- ===== src/Examples/Hosting.antt =====
-- An SDK that asks the server of internal/testserver, with what it answers an operator and a reader.
use hush_hush_cli.Prelude.{
  ℕ, String, ◌≡◌, refl, ap, ◌∙◌, true, Option, none, some, List, [], Result, ok, err, if◌then◌else◌,
  eqb, eqb_iff, ok-injective, sym, Bool-cases, inl, inr,
}
use hush_hush_cli.Prelude.Map.{lookup}
use hush_hush_cli.Server.Types.{Store}
use hush_hush_cli.Server.Requests.{Message, text}
use hush_hush_cli.Server.Http.Defs.{
  Body, reply, aborted, error, bytes, empty, post_object, patch_object, put_object, get_object,
  delete_object, get_auth_identity, revoke_token, rotate_token, token,
}
use hush_hush_cli.Server.Http.Flow.{Answer}
use hush_hush_cli.Client.Errors.{SdkError, api, transport, external}
use hush_hush_cli.Client.Calls.{SdkMetadata}
use hush_hush_cli.Client.TokenCalls.{SdkTokenWithValue}
use hush_hush_cli.Server.Tokens.{TokenWithValue}
use hush_hush_cli.Client.Remote.{Remote}
use hush_hush_cli.Session.{Hosting, Forwards, asked, body_of, patch_of, update_of, query_of}
use hush_hush_cli.Examples.Commands.{shown}

abbrev pub texts : Message → String
texts (text s) = s
texts m = ""

abbrev pub host : Hosting Store
host = record {
  store_of = λ s. s;
  env_of = λ s. record { now = 100; new_id = "t2"; suffix = "y" };
  object_id = λ slug. slug;
  parse_time = λ s. none;
  text_of = texts;
}

-- The key that the directory has for a name.
abbrev pub registered : Option (Option String) → Option String
registered none = none
registered (some key) = key

abbrev pub odd : SdkError
odd = transport (external "unexpected answer")

abbrev pub created_reply : String → Answer → Result SdkError SdkMetadata × Store
created_reply slug (reply status body total, s) =
    ((if eqb status 201 then ok (shown slug) else err odd), s)
created_reply slug (aborted, s) = (err odd, s)

abbrev pub patched_reply : Answer → Result SdkError SdkMetadata × Store
patched_reply (reply status body total, s) =
    ((if eqb status 200 then ok (shown "") else err odd), s)
patched_reply (aborted, s) = (err odd, s)

abbrev pub value_reply : Answer → Result SdkError (List ℕ) × Store
value_reply (reply status (bytes value) total, s) = (ok value, s)
value_reply (reply status (error m) total, s) = (err (api status (texts m)), s)
value_reply (a, s) = (err odd, s)

abbrev pub emptied_reply : Answer → Result SdkError (Unit {0}) × Store
emptied_reply (reply status empty none, s) = ((if eqb status 204 then ok tt else err odd), s)
emptied_reply (a, s) = (err odd, s)

-- What is sent of a token, with no status and no actions.
abbrev pub on_wire : TokenWithValue → SdkTokenWithValue
on_wire shown = record {
  token = record {
    id = shown.id;
    consumer = shown.consumer;
    description = shown.description;
    created_at = shown.created_at;
    expires_at = shown.expires_at;
    last_used_at = shown.last_used_at;
    revoked = shown.revoked;
    status = none;
    allowed_actions = none;
  };
  value = shown.value;
}

abbrev pub rotated_reply : Answer → Result SdkError SdkTokenWithValue × Store
rotated_reply (reply status (token shown) none, s) =
    ((if eqb status 200 then ok (on_wire shown) else err odd), s)
rotated_reply (a, s) = (err odd, s)

-- A client with a credential that asks the server.
abbrev pub asking : String → Remote Store
asking credential = record {
  objects = record {
    create_object = λ req s.
        created_reply req.slug (asked host credential (post_object (some (body_of req))) [] s);
    update_object = λ id req opts s.
        patched_reply
          (asked host credential (put_object id (some (update_of req))) (query_of opts) s);
    patch_object = λ id req opts s.
        patched_reply
          (asked host credential (patch_object id (some (patch_of req))) (query_of opts) s);
    get_object = λ id opts s. value_reply (asked host credential (get_object id) (query_of opts) s);
    get_owner_identity = λ s. (ok none, (asked host credential get_auth_identity [] s).1);
    get_consumer_public_key = λ name s. (ok (registered (lookup name s.consumers)), s);
    delete_object =
        λ id opts s. emptied_reply (asked host credential (delete_object id) (query_of opts) s);
    list_objects_filtered = λ used_by tags s. (ok [], s);
    get_object_used_by = λ id opts s. (err odd, s);
    auth_status = λ s. (ok true, s);
    health = λ s. (err odd, s);
  };
  directory = record {
    list_consumers = λ f s. (err odd, s);
    add_consumer = λ name s. (err odd, s);
    update_consumer = λ name new_name key s. (err odd, s);
    delete_consumer = λ name s. (err odd, s);
  };
  tokens = record {
    create_consumer_token = λ consumer description ttl s. (err odd, s);
    list_consumer_tokens = λ s. (ok [], s);
    rotate_consumer_token =
        λ id ttl s. rotated_reply (asked host credential (rotate_token id (some ttl)) [] s);
    revoke_consumer_token = λ id s. emptied_reply (asked host credential (revoke_token id) [] s);
    purge_consumer_token = λ id s. (err odd, s);
  };
  query_audit_log = λ f s. (ok [], s);
}

unless_odd {ℓ} :
    {A : Type ℓ} (n k : ℕ) (a b : A) (s t : Store)
    → ◌≡◌ {A = Result SdkError A × Store} ((if eqb n k then ok a else err odd), s) (ok b, t)
    → (n ≡ k) × (a ≡ b) × (s ≡ t)
unless_odd n k a b s t went = elim (Bool-cases (eqb n k)) [
  | inl same ↦
      let fine = rw same at went in
      ((eqb_iff n k).0 same, ok-injective (ap (λ p. p.0) fine), ap (λ p. p.1) fine)
  | inr other ↦ let bad = rw other at went in cc
]

created_answered :
    (slug : String) (a : Answer) (m : SdkMetadata) (t : Store)
    → created_reply slug a ≡ (ok m, t)
    → (body : Body) × (total : Option ℕ) × (a ≡ (reply 201 body total, t))
created_answered slug (reply status body total, s) m t went =
    let (same, _, still) = unless_odd status 201 (shown slug) m s t went in
    (
      body,
      total,
      ap (λ n. (reply n body total, s)) same ∙ ap (λ u. (reply 201 body total, u)) still,
    )
created_answered slug (aborted, s) m t went = cc

patch_answered :
    (a : Answer) (m : SdkMetadata) (t : Store)
    → patched_reply a ≡ (ok m, t)
    → (body : Body) × (total : Option ℕ) × (a ≡ (reply 200 body total, t))
patch_answered (reply status body total, s) m t went =
    let (same, _, still) = unless_odd status 200 (shown "") m s t went in
    (
      body,
      total,
      ap (λ n. (reply n body total, s)) same ∙ ap (λ u. (reply 200 body total, u)) still,
    )
patch_answered (aborted, s) m t went = cc

empty_answered :
    (a : Answer) (t : Store) → emptied_reply a ≡ (ok tt, t) → a ≡ (reply 204 empty none, t)
empty_answered (reply status empty none, s) t went =
    let (same, _, still) = unless_odd {A = Unit {0}} status 204 tt tt s t went in
    ap (λ n. (reply n empty none, s)) same ∙ ap (λ u. (reply 204 empty none, u)) still
empty_answered (reply status empty (some n), s) t went = cc
empty_answered (_, s) t went = cc

rotate_answered :
    (a : Answer) (m : SdkTokenWithValue) (t : Store)
    → rotated_reply a ≡ (ok m, t)
    → (shown : TokenWithValue) × (a ≡ (reply 200 (token shown) none, t)) × (m.value ≡ shown.value)
rotate_answered (reply status (token shown) none, s) m t went =
    let (same, sent, still) = unless_odd status 200 (on_wire shown) m s t went in
    (
      shown,
      ap (λ n. (reply n (token shown) none, s)) same
          ∙ ap (λ u. (reply 200 (token shown) none, u)) still,
      ap (λ v. v.value) (sym sent),
    )
rotate_answered (reply status (token shown) (some n), s) m t went = cc
rotate_answered (_, s) m t went = cc

pub asking-Forwards : (credential : String) → Forwards host credential (asking credential)
asking-Forwards credential = record {
  create_answered = λ req m w w' went. created_answered req.slug _ m w' went;
  patch_answered = λ id req opts m w w' went. patch_answered _ m w' went;
  update_answered = λ id req opts m w w' went. patch_answered _ m w' went;
  delete_answered = λ id opts w w' went. empty_answered _ w' went;
  value_returned = λ id opts value s w answered. ap (λ a. (value_reply a).0) answered;
  error_returned = λ id opts status msg s w high answered. ap (λ a. (value_reply a).0) answered;
  identity_asked = λ w. refl;
  revoke_answered = λ id w w' went. empty_answered _ w' went;
  rotate_answered = λ id seconds t w w' went. rotate_answered _ t w' went;
}
