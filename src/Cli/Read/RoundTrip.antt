-- ===== src/Cli/Read/RoundTrip.antt =====
-- What is injected, read back: Inject of internal/cli/inject.go and then Get of get.go.
use hush_hush_cli.Prelude.{
  map, ℕ, String, ◌≡◌, refl, sym, ap, ◌∙◌, Bool, true, false, ◌||◌, List, [], ◌∷◌, ◌++◌, Result, ok,
  map_err,
}
use hush_hush_cli.Prelude.Text.{member}
use hush_hush_cli.Prelude.Members.{member-append}
use hush_hush_cli.Client.Errors.{Err, wrap, map_error}
use hush_hush_cli.Client.Op.{
  Op, ◌>>=◌, from_result, calling, wrapping, done, >>=-ok, wrapped_reply-ok, mapped-ok,
  reply-injective,
}
use hush_hush_cli.Client.Calls.{
  Sdk, CreateRequest, SdkMetadata, ObjectMetadata, create, owner_public_key, if_set, unless_nil,
  unless_empty, to_object_metadata,
}
use hush_hush_cli.Client.Seal
use hush_hush_cli.Client.Seal.Opened.{Among, map_err-ok, unseal-seal}
use hush_hush_cli.Client.Remote.{Remote, Builder}
use hush_hush_cli.Cli.Config.{Config, read_credential}
use hush_hush_cli.Cli.Options.{WriteOption, new_write_options, given_or_nil}
use hush_hush_cli.Cli.Write.{resolve_recipients, with_owner_key, sealed_value, inject}
use hush_hush_cli.Cli.Read.{get}
use hush_hush_cli.Cli.Read.Fetched.{get-opened}

module _ {ℓ} {W : Type ℓ} (sdk : Sdk W) (mine : String) where
  given_keys :
      (recipients used_by keys : List String) (w w' : W)
      → member mine recipients ≡ true
      → resolve_recipients sdk recipients used_by w ≡ (ok keys, w')
      → member mine keys ≡ true
  unfolding resolve_recipients member
  given_keys [] used_by keys w w' there h = cc
  given_keys (r ∷ recipients) used_by keys w w' there h =
      ap (member mine) (sym (reply-injective h).0) ∙ there

  owner_keys :
      (keep : Bool) (keys all : List String) (w w' : W)
      → member mine keys ≡ true
      → with_owner_key sdk keep keys w ≡ (ok all, w')
      → member mine all ≡ true
  unfolding with_owner_key
  owner_keys false keys all w w' there h = ap (member mine) (sym (reply-injective h).0) ∙ there
  owner_keys true keys all w w' there h =
      let (key, w1, called, added) =
        >>=-ok (wrapping (wrap "keep readable copy") (owner_public_key sdk))
          (λ key. done (keys ++ key ∷ [])) w h in
      ap (member mine) (sym (reply-injective added).0)
      ∙ member-append mine keys (key ∷ [])
      ∙ ap (λ b. b || member mine (key ∷ [])) there

  module _ {κ} {R : Type κ} (parse_recipient : String → Result Err R)
      (encrypt : List R → List ℕ → Result Err (List ℕ)) where
    abbrev sealing : List ℕ → List String → Op W (List ℕ)
    sealing value all =
        from_result (map_err (wrap "seal value") (Seal.seal parse_recipient encrypt value all))

    pub sealed_mine :
        (value : List ℕ) (recipients used_by : List String) (keep : Bool) (bytes : List ℕ)
        (w w' : W)
        → member mine recipients ≡ true
        → sealed_value sdk parse_recipient encrypt value recipients used_by keep w ≡ (ok bytes, w')
        → (keys : List String) × (member mine keys ≡ true)
          × (Seal.seal parse_recipient encrypt value keys ≡ ok bytes)
    unfolding sealed_value
    sealed_mine value recipients used_by keep bytes w w' there went =
        let (keys, w1, resolved, rest) =
          >>=-ok (resolve_recipients sdk recipients used_by)
            (λ keys. with_owner_key sdk keep keys >>= sealing value) w went in
        let (all, w2, kept, sealed) =
          >>=-ok (with_owner_key sdk keep keys) (sealing value) w1 rest in
        (
          all,
          owner_keys keep keys all w1 w2 (given_keys recipients used_by keys w w1 there resolved)
              kept,
          map_err-ok (wrap "seal value") (Seal.seal parse_recipient encrypt value all)
              (ap (λ p. p.0) sealed),
        )

abbrev request_of : String → List ℕ → List String → String → List String → Bool → CreateRequest
request_of id bytes used_by description tags keep = record {
  slug = id;
  value = bytes;
  keep_readable_copy = if_set keep;
  used_by = unless_nil used_by;
  description = unless_empty description;
  tags = unless_nil tags;
}

module _ {ℓ} {W : Type ℓ} (sdk : Sdk W) where
  create_called :
      (id : String) (bytes : List ℕ) (used_by : List String) (description : String)
      (tags : List String) (keep : Bool) (meta : ObjectMetadata) (w w' : W)
      → create sdk id bytes used_by description tags keep w ≡ (ok meta, w')
      → (m : SdkMetadata) × (sdk.create_object (request_of id bytes used_by description tags keep) w
          ≡ (ok m, w'))
  unfolding create
  create_called id bytes used_by description tags keep meta w w' went =
      let request = request_of id bytes used_by description tags keep in
      let (m, w1, called, shown) =
        >>=-ok (calling map_error (sdk.create_object request)) (λ m. done (to_object_metadata m)) w
          went in
      (
        m,
        mapped-ok map_error (sdk.create_object request w) called
            ∙ ap (λ v. (ok m, v)) (reply-injective shown).1,
      )

  module _ {κ} {R : Type κ} (parse_recipient : String → Result Err R)
      (encrypt : List R → List ℕ → Result Err (List ℕ)) where
    -- What an inject that goes well has done.
    pub inject_sent :
        (id : String) (value : List ℕ) (recipients used_by : List String) (description : String)
        (opts : List WriteOption) (w w' : W)
        → inject sdk parse_recipient encrypt id value recipients used_by description opts w
          ≡ (ok tt, w')
        → (bytes : List ℕ) × (request : CreateRequest) × (m : SdkMetadata) × (w1 : W)
          × (request.slug ≡ id)
          × (request.value ≡ bytes)
          × (sdk.create_object request w1 ≡ (ok m, w'))
          × (request.used_by ≡ unless_nil used_by)
          × (sealed_value sdk parse_recipient encrypt value recipients used_by
                (new_write_options opts).keep_readable_copy
                w
              ≡ (ok bytes, w1))
    unfolding inject
    inject_sent id value recipients used_by description opts w w' went =
        let o = new_write_options opts in
        let sealing =
          sealed_value sdk parse_recipient encrypt value recipients used_by o.keep_readable_copy in
        let creating = λ (bytes : List ℕ).
          wrapping (wrap "create object")
            (create sdk id bytes used_by description (given_or_nil o.tags) o.keep_readable_copy) in
        let (bytes, w1, sealed, rest) =
          >>=-ok sealing (λ bytes. creating bytes >>= λ meta. done tt) w went in
        let (meta, w2, created, ended) = >>=-ok (creating bytes) (λ meta. done tt) w1 rest in
        let (m, called) =
          create_called id bytes used_by description (given_or_nil o.tags) o.keep_readable_copy meta
            w1 w2
            (wrapped_reply-ok (wrap "create object")
              (create sdk id bytes used_by description (given_or_nil o.tags) o.keep_readable_copy
                w1)
              created) in
        (
          bytes,
          request_of id bytes used_by description (given_or_nil o.tags) o.keep_readable_copy,
          m,
          w1,
          refl,
          refl,
          called ∙ ap (λ v. (ok m, v)) (reply-injective ended).1,
          refl,
          sealed,
        )

    -- What it has sealed, for recipients that have the key `mine`.
    pub injected :
        (mine id : String) (value : List ℕ) (recipients used_by : List String)
        (description : String) (opts : List WriteOption) (w w' : W)
        → member mine recipients ≡ true
        → inject sdk parse_recipient encrypt id value recipients used_by description opts w
          ≡ (ok tt, w')
        → (keys : List String) × (bytes : List ℕ) × (request : CreateRequest) × (m : SdkMetadata)
          × (w1 : W) × (member mine keys ≡ true)
          × (Seal.seal parse_recipient encrypt value keys ≡ ok bytes)
          × (request.slug ≡ id)
          × (request.value ≡ bytes)
          × (sdk.create_object request w1 ≡ (ok m, w'))
          × (request.used_by ≡ unless_nil used_by)
          × (sealed_value sdk parse_recipient encrypt value recipients used_by
                (new_write_options opts).keep_readable_copy
                w
              ≡ (ok bytes, w1))
    injected mine id value recipients used_by description opts w w' there went =
        let (bytes, request, m, w1, named, carried, called, names, sealed) =
          inject_sent id value recipients used_by description opts w w' went in
        let (keys, member_of, seals) =
          sealed_mine sdk mine parse_recipient encrypt value recipients used_by
            (new_write_options opts).keep_readable_copy bytes w w1 there sealed in
        (keys, bytes, request, m, w1, member_of, seals, named, carried, called, names, sealed)

module _ {ℓ κ μ ν} {W : Type ℓ} {R : Type κ} {I : Type μ} {Stream : Type ν} (build : Builder W)
    (parse_recipient : String → Result Err R) (encrypt : List R → List ℕ → Result Err (List ℕ))
    (parse_identity : String → Result Err I) (decrypt : List I → List ℕ → Result Err Stream)
    (read_all : Stream → Result Err (List ℕ)) (mine : String) (me : R)
    (parses : parse_recipient mine ≡ ok me) (identities : List String) (is : List I)
    (parses_all : map parse_identity identities ≡ map ok is)
    (opens : (rs : List R) (value bytes : List ℕ)
      → Among me rs
      → encrypt rs value ≡ ok bytes
      → (stream : Stream) × (decrypt is bytes ≡ ok stream) × (read_all stream ≡ ok value))
    (cfg : Config) (make : String → Remote W)
    (builds : build cfg.server (read_credential cfg) ≡ ok make)
    (keeps : (request : CreateRequest) (m : SdkMetadata) (w w' : W)
      → (make cfg.caller).objects.create_object request w ≡ (ok m, w')
      → ((make cfg.caller).objects.get_object request.slug [] w').0 ≡ ok request.value) where
  -- Where age parses the key `mine` and the identities, and opens with them whatever it encrypted to recipients
  -- with that key's among them, where the SDK's client can be built for the configuration, and where the server
  -- gives the value of a name that it has just created, an inject that goes well for recipients with `mine`
  -- among them is followed by a get of the same name that gives the same value.
  pub get-inject :
      (id : String) (value : List ℕ) (recipients used_by : List String) (description : String)
      (opts : List WriteOption) (w w' : W)
      → member mine recipients ≡ true
      → inject
          (make cfg.caller).objects
          parse_recipient
          encrypt
          id
          value
          recipients
          used_by
          description
          opts
          w
        ≡ (ok tt, w')
      → (get build parse_identity decrypt read_all cfg id identities "" "" w').0 ≡ ok value
  get-inject id value recipients used_by description opts w w' there went =
      let sdk = (make cfg.caller).objects in
      let (
        keys, bytes, request, m, w1, member_of, seals, named, carried, called, same_names, sealed,
      ) =
        injected sdk parse_recipient encrypt mine id value recipients used_by description opts w w'
          there went in
      get-opened build parse_identity decrypt read_all cfg make builds id identities w' value bytes
        (ap (λ slug. (sdk.get_object slug [] w').0) (sym named)
          ∙ keeps request m w1 w' called
          ∙ ap ok carried)
        (unseal-seal parse_recipient encrypt parse_identity decrypt read_all mine me parses
          identities is parses_all opens keys value bytes member_of seals)
