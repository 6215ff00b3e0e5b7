-- ===== src/Session/Shared.antt =====
-- What an operator injects through internal/cli, read by the holders of consumer tokens, over one server.
use hush_hush_cli.Prelude.{
  map, ℕ, String, ◌≡◌, refl, sym, ap, ◌∙◌, subst, true, List, [], ◌∷◌, Result, ok,
}
use hush_hush_cli.Prelude.Text.{member}
use hush_hush_cli.Server.Objects.Owned.{IsOwned}
use hush_hush_cli.Server.Http.Defs.{reply, get_object}
use hush_hush_cli.Server.Http.Objects.{handle_get_object}
use hush_hush_cli.Server.Http.Mux.{serve, route}
use hush_hush_cli.Server.Http.Reading.{IsScoped}
use hush_hush_cli.Client.Errors.{Err}
use hush_hush_cli.Client.Calls.{unless_nil, list_or_empty}
use hush_hush_cli.Client.Seal
use hush_hush_cli.Client.Seal.Opened.{Among, unseal-seal}
use hush_hush_cli.Client.Remote.{Remote, Builder}
use hush_hush_cli.Cli.Config.{Config, read_credential}
use hush_hush_cli.Cli.Options.{WriteOption}
use hush_hush_cli.Cli.Write.{inject}
use hush_hush_cli.Cli.Write.Calm.{sealed_value-keeps}
use hush_hush_cli.Cli.Read.{get}
use hush_hush_cli.Cli.Read.Fetched.{get-opened}
use hush_hush_cli.Cli.Read.RoundTrip.{injected}
use hush_hush_cli.Session.{told, Hosting, Forwards, asked, bearer, body_of}
use hush_hush_cli.Session.Calm.{calm}
use hush_hush_cli.Session.Success.{guarded-passed}
use hush_hush_cli.Session.Stored.{read_created}

pub names_sent : (used_by : List String) → list_or_empty (unless_nil used_by) ≡ used_by
names_sent [] = refl
names_sent (name ∷ names) = refl

-- The operator, with a write token, and a reader, with a configuration of its own, over one server.
module _ {ℓ κ μ ν} {W : Type ℓ} {R : Type κ} {I : Type μ} {Stream : Type ν} (h : Hosting W)
    (operator_credential : String) (operator : Remote W)
    (operates : Forwards h operator_credential operator) (build : Builder W) (cfg : Config)
    (make : String → Remote W) (builds : build cfg.server (read_credential cfg) ≡ ok make)
    (reads : Forwards h (read_credential cfg) (make cfg.caller))
    (parse_recipient : String → Result Err R) (encrypt : List R → List ℕ → Result Err (List ℕ))
    (parse_identity : String → Result Err I) (decrypt : List I → List ℕ → Result Err Stream)
    (read_all : Stream → Result Err (List ℕ)) where
  -- What a reader is answered for a name that the operator has just injected.
  module _ (mine id : String) (value : List ℕ) (recipients used_by : List String)
      (description : String) (opts : List WriteOption) (c : String) (w w' : W)
      (owned : IsOwned (h.store_of w)) (there : member mine recipients ≡ true)
      (scoped : IsScoped (h.env_of w').now (bearer (read_credential cfg)) (h.store_of w) c)
      (went : inject operator.objects parse_recipient encrypt id value recipients used_by
          description opts w
        ≡ (ok tt, w')) where
    answered :
        (keys : List String) × (sealed : List ℕ) × (member mine keys ≡ true)
        × (Seal.seal parse_recipient encrypt value keys ≡ ok sealed)
        × (asked h (read_credential cfg) (get_object id) [] w'
            ≡ (told (member c used_by) sealed, h.store_of w'))
    unfolding asked serve route
    answered =
        let (keys, sealed, req, m, w1, member_of, seals, named, carried, called, names, before) =
          injected operator.objects parse_recipient encrypt mine id value recipients used_by
            description opts w w' there went in
        let (body, total, created) = operates.create_answered req m w1 w' called in
        let same : h.store_of w1 ≡ h.store_of w =
          sealed_value-keeps operator.objects h.store_of
            (calm h operator_credential operator operates) parse_recipient encrypt value recipients
            used_by _ sealed w w1 before mine there in
        let made =
          guarded-passed (h.env_of w1).now (bearer operator_credential) _ (h.store_of w1)
            (reply 201 body total, h.store_of w') refl created in
        let read =
          read_created h.object_id (h.env_of w1) (body_of req) (h.store_of w1) (h.env_of w')
            (bearer (read_credential cfg)) c (reply 201 body total, h.store_of w')
            (subst IsOwned (sym same) owned)
            (subst (λ s. IsScoped (h.env_of w').now (bearer (read_credential cfg)) s c) (sym same)
              scoped)
            refl made in
        (
          keys,
          sealed,
          member_of,
          seals,
          ap
                (λ slug.
                  handle_get_object (h.env_of w') (bearer (read_credential cfg)) slug []
                    (h.store_of w'))
                (sym named)
              ∙ read
              ∙ ap (λ v. (told (member c (list_or_empty req.used_by)) v, h.store_of w')) carried
              ∙ ap (λ names. (told (member c names) sealed, h.store_of w'))
                  (ap list_or_empty names ∙ names_sent used_by),
        )

    module _ (me : R) (parses : parse_recipient mine ≡ ok me) (identities : List String)
        (is : List I) (parses_all : map parse_identity identities ≡ map ok is)
        (opens : (rs : List R) (value bytes : List ℕ)
          → Among me rs
          → encrypt rs value ≡ ok bytes
          → (stream : Stream) × (decrypt is bytes ≡ ok stream) × (read_all stream ≡ ok value)) where
      -- Over a server whose further variants stand under names that have an object, and an SDK that forwards the calls
      -- of an operator and of a reader to it, an inject by the operator that goes well, for recipients with the key
      -- `mine` among them, is followed by a get of the name that gives the same value to a reader with a consumer
      -- token and no write token, where the consumer is among those injected for, age parses `mine` and the reader's
      -- identities, and opens with them whatever it encrypted to recipients with `mine` among them.
      pub get-inject_shared :
          member c used_by ≡ true
          → (get build parse_identity decrypt read_all cfg id identities "" "" w').0 ≡ ok value
      get-inject_shared named =
          let (keys, sealed, member_of, seals, asks) = answered in
          get-opened build parse_identity decrypt read_all cfg make builds id identities w' value
            sealed
            (reads.value_returned id [] sealed (h.store_of w') w'
              (asks ∙ ap (λ b. (told b sealed, h.store_of w')) named))
            (unseal-seal parse_recipient encrypt parse_identity decrypt read_all mine me parses
              identities is parses_all opens keys value sealed member_of seals)
