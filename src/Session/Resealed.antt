-- ===== src/Session/Resealed.antt =====
-- A value that an operator sealed anew through internal/cli, read by the holder of a consumer token.
use hush_hush_cli.Prelude.{
  map, ℕ, String, ◌≡◌, refl, sym, ap, ◌∙◌, subst, true, List, [], Result, ok,
}
use hush_hush_cli.Prelude.Text.{member}
use hush_hush_cli.Server.Types.{Object}
use hush_hush_cli.Server.Objects.{get_variant, replaced}
use hush_hush_cli.Server.Http.Defs.{reply}
use hush_hush_cli.Server.Http.Created.{only}
use hush_hush_cli.Server.Http.Mux.{serve, route}
use hush_hush_cli.Server.Http.Reading.{IsScoped}
use hush_hush_cli.Client.Errors.{Err, wrap, map_error}
use hush_hush_cli.Client.Op.{
  Op, ◌>>=◌, calling, wrapping, done, >>=-ok, wrapped_reply-ok, mapped-ok, reply-injective,
}
use hush_hush_cli.Client.Calls.{
  Sdk, UpdateRequest, SdkMetadata, update, object_options, to_object_metadata, if_set,
}
use hush_hush_cli.Client.Seal
use hush_hush_cli.Client.Seal.Opened.{Among, unseal-seal}
use hush_hush_cli.Client.Remote.{Remote, Builder}
use hush_hush_cli.Cli.Config.{Config, read_credential}
use hush_hush_cli.Cli.Options.{WriteOption, WriteOptions, new_write_options, given_or_nil}
use hush_hush_cli.Cli.Write.{sealed_value, update_value}
use hush_hush_cli.Cli.Write.Calm.{sealed_value-keeps}
use hush_hush_cli.Cli.Read.{get}
use hush_hush_cli.Cli.Read.Fetched.{get-opened}
use hush_hush_cli.Cli.Read.RoundTrip.{sealed_mine}
use hush_hush_cli.Session.{told, Hosting, Forwards, asked, bearer, update_of}
use hush_hush_cli.Session.Success.{guarded-passed}
use hush_hush_cli.Session.Calm.{calm}
use hush_hush_cli.Session.Edited.{no_query}
use hush_hush_cli.Session.Updated.{read_updated}

-- The request of an update with a sealed value.
abbrev request_of : WriteOptions → List ℕ → UpdateRequest
request_of o sealed = record {
  value = sealed;
  tags = o.tags;
  used_by = o.used_by;
  keep_readable_copy = if_set o.keep_readable_copy;
}

module _ {ℓ κ} {W : Type ℓ} {R : Type κ} (sdk : Sdk W) (parse_recipient : String → Result Err R)
    (encrypt : List R → List ℕ → Result Err (List ℕ)) (id : String) (opts : List WriteOption) where
  abbrev sending : List ℕ → Op W (Unit {0})
  sending sealed =
      let o = new_write_options opts in
      wrapping (wrap "update object")
        (update sdk id sealed o.tags o.used_by o.keep_readable_copy o.variant_id o.consumer)
      >>= λ meta. done tt

  update_called :
      (sealed : List ℕ) (w w' : W)
      → sending sealed w ≡ (ok tt, w')
      → (m : SdkMetadata) × (sdk.update_object id
            (request_of (new_write_options opts) sealed)
            (object_options (new_write_options opts).variant_id (new_write_options opts).consumer)
            w
          ≡ (ok m, w'))
  unfolding update
  update_called sealed w w' went =
      let o = new_write_options opts in
      let op = update sdk id sealed o.tags o.used_by o.keep_readable_copy o.variant_id o.consumer in
      let call =
        sdk.update_object id (request_of o sealed) (object_options o.variant_id o.consumer) in
      let (shown, w1, updated, ended) =
        >>=-ok (wrapping (wrap "update object") op) (λ meta. done tt) w went in
      let (m, w2, called, showing) =
        >>=-ok (calling map_error call) (λ m. done (to_object_metadata m)) w
          (wrapped_reply-ok (wrap "update object") (op w) updated) in
      (
        m,
        mapped-ok map_error (call w) called
            ∙ ap (λ v. (ok m, v)) ((reply-injective showing).1 ∙ (reply-injective ended).1),
      )

  -- An update that goes well, for recipients with the key `mine`, has sealed the value to that key among others
  -- and sent what came out.
  resealed :
      (mine : String) (value : List ℕ) (recipients : List String) (w w' : W)
      → member mine recipients ≡ true
      → update_value sdk parse_recipient encrypt id value recipients opts w ≡ (ok tt, w')
      → (keys : List String) × (bytes : List ℕ) × (w1 : W) × (m : SdkMetadata) × (member mine keys
          ≡ true)
        × (Seal.seal parse_recipient encrypt value keys ≡ ok bytes)
        × (sealed_value sdk parse_recipient encrypt value recipients
              (given_or_nil (new_write_options opts).used_by)
              (new_write_options opts).keep_readable_copy
              w
            ≡ (ok bytes, w1))
        × (sdk.update_object id
              (request_of (new_write_options opts) bytes)
              (object_options (new_write_options opts).variant_id (new_write_options opts).consumer)
              w1
            ≡ (ok m, w'))
  unfolding update_value
  resealed mine value recipients w w' there went =
      let o = new_write_options opts in
      let used_by = given_or_nil o.used_by in
      let (bytes, w1, sealed, rest) =
        >>=-ok
          (sealed_value sdk parse_recipient encrypt value recipients used_by o.keep_readable_copy)
          sending w went in
      let (keys, member_of, seals) =
        sealed_mine sdk mine parse_recipient encrypt value recipients used_by o.keep_readable_copy
          bytes w w1 there sealed in
      let (m, called) = update_called bytes w1 w' rest in
      (keys, bytes, w1, m, member_of, seals, sealed, called)

module _ {ℓ κ μ ν} {W : Type ℓ} {R : Type κ} {I : Type μ} {Stream : Type ν} (h : Hosting W)
    (operator_credential : String) (operator : Remote W)
    (operates : Forwards h operator_credential operator) (build : Builder W) (cfg : Config)
    (make : String → Remote W) (builds : build cfg.server (read_credential cfg) ≡ ok make)
    (reads : Forwards h (read_credential cfg) (make cfg.caller))
    (parse_recipient : String → Result Err R) (encrypt : List R → List ℕ → Result Err (List ℕ))
    (parse_identity : String → Result Err I) (decrypt : List I → List ℕ → Result Err Stream)
    (read_all : Stream → Result Err (List ℕ)) (mine : String) (me : R)
    (parses : parse_recipient mine ≡ ok me) (identities : List String) (is : List I)
    (parses_all : map parse_identity identities ≡ map ok is)
    (opens : (rs : List R) (value bytes : List ℕ)
      → Among me rs
      → encrypt rs value ≡ ok bytes
      → (stream : Stream) × (decrypt is bytes ≡ ok stream) × (read_all stream ≡ ok value))
    (id : String) (value : List ℕ) (recipients : List String) (opts : List WriteOption)
    (any_variant : (new_write_options opts).variant_id ≡ "")
    (any_consumer : (new_write_options opts).consumer ≡ "") where
  -- Over an SDK that forwards the calls of an operator and of a reader to the server, an update by the operator that
  -- goes well, selects no variant and has recipients with the key `mine` among them is followed by a get of
  -- the name that gives the new value to a reader with a consumer token and no write token, where the
  -- consumer is among those given or, where none are given, among those of the one variant the name had,
  -- age parses `mine` and the reader's identities, and opens with them whatever it encrypted to
  -- recipients with `mine` among them.
  pub get-update_value :
      (o : Object) (c : String) (w w' : W)
      → member mine recipients ≡ true
      → get_variant id only (h.store_of w) ≡ ok o
      → member c (replaced (new_write_options opts).used_by o.used_by) ≡ true
      → IsScoped (h.env_of w').now (bearer (read_credential cfg)) (h.store_of w) c
      → update_value operator.objects parse_recipient encrypt id value recipients opts w
        ≡ (ok tt, w')
      → (get build parse_identity decrypt read_all cfg id identities "" "" w').0 ≡ ok value
  unfolding asked serve route
  get-update_value o c w w' there found named scoped went =
      let options = new_write_options opts in
      let (keys, bytes, w1, m, member_of, seals, before, called) =
        resealed operator.objects parse_recipient encrypt id opts mine value recipients w w' there
          went in
      let same : h.store_of w1 ≡ h.store_of w =
        sealed_value-keeps operator.objects h.store_of
          (calm h operator_credential operator operates) parse_recipient encrypt value recipients
          (given_or_nil options.used_by) options.keep_readable_copy bytes w w1 before mine there in
      let (body, total, updated) =
        operates.update_answered id (request_of options bytes) [] m w1 w' (
          ap (λ q. operator.objects.update_object id (request_of options bytes) q w1)
            (sym (no_query options.variant_id options.consumer any_variant any_consumer))
          ∙ called) in
      let done =
        guarded-passed (h.env_of w1).now (bearer operator_credential) _ (h.store_of w1)
          (reply 200 body total, h.store_of w') refl updated in
      let told_value =
        read_updated (h.env_of w1) id (update_of (request_of options bytes)) (h.store_of w1) o
          (h.env_of w') (bearer (read_credential cfg)) c (reply 200 body total, h.store_of w')
          (ap (get_variant id only) same ∙ found)
          (subst (λ s. IsScoped (h.env_of w').now (bearer (read_credential cfg)) s c) (sym same)
            scoped)
          refl done in
      get-opened build parse_identity decrypt read_all cfg make builds id identities w' value bytes
        (reads.value_returned id [] bytes (h.store_of w') w'
          (told_value ∙ ap (λ b. (told b bytes, h.store_of w')) named))
        (unseal-seal parse_recipient encrypt parse_identity decrypt read_all mine me parses
          identities is parses_all opens keys value bytes member_of seals)
