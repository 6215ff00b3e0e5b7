-- ===== src/Session/Deleted.antt =====
-- An object that an operator deleted through internal/client, and the holder of a consumer token.
use hush_hush_cli.Prelude.{
  ℕ, String, ◌≡◌, refl, true, false, none, List, [], ◌||◌, ◌==◌, Result, ok, err, arith,
}
use hush_hush_cli.Prelude.Text.{is_empty}
use hush_hush_cli.Server.Requests.{text, Query}
use hush_hush_cli.Server.Http.Defs.{reply, empty, get_object}
use hush_hush_cli.Server.Http.Objects.{handle_delete_object, handle_get_object}
use hush_hush_cli.Server.Http.Mux.{serve, route}
use hush_hush_cli.Server.Http.Reading.{IsScoped}
use hush_hush_cli.Client.Errors.{Err, wrap, map_error, sentinel, is, not_found}
use hush_hush_cli.Client.Op.{mapped-ok}
use hush_hush_cli.Client.Calls.{object_options}
use hush_hush_cli.Client.Reads
use hush_hush_cli.Client.Remote.{Remote, Builder}
use hush_hush_cli.Cli.Config.{Config, read_credential, read_error}
use hush_hush_cli.Cli.Read.{get}
use hush_hush_cli.Cli.Read.Fetched.{get-refused_with}
use hush_hush_cli.Session.{Hosting, Forwards, asked, bearer, query_of}
use hush_hush_cli.Session.Success.{guarded-passed}
use hush_hush_cli.Session.Picked.{one_pick}
use hush_hush_cli.Session.Removed.{read_deleted, read_other}

module _ {ℓ} {W : Type ℓ} (h : Hosting W) (operator_credential : String) (operator : Remote W)
    (operates : Forwards h operator_credential operator) (id : String) (w w' : W)
    (went : Reads.delete operator.objects id "" "" w ≡ (ok tt, w')) where
  handled : handle_delete_object id [] (h.store_of w) ≡ (reply 204 empty none, h.store_of w')
  unfolding Reads.delete object_options asked serve route
  handled =
      guarded-passed (h.env_of w).now (bearer operator_credential) _ (h.store_of w)
        (reply 204 empty none, h.store_of w') refl
        (operates.delete_answered id [] w w'
          (mapped-ok map_error (operator.objects.delete_object id [] w) went))

  -- Over an SDK that forwards an operator's calls to the server, after a deletion of a name by the operator that goes
  -- well and selects no variant, the server answers every read of another name, with any credential and any
  -- query, as it would at that time in the store before.
  pub get_object-deleted_others :
      (credential other : String) (q : Query)
      → (id == other) ≡ false
      → (asked h credential (get_object other) q w').0
        ≡ (handle_get_object (h.env_of w') (bearer credential) other q (h.store_of w)).0
  unfolding asked serve route
  get_object-deleted_others credential other q apart =
      read_other id (h.store_of w) (h.env_of w') (bearer credential) _ refl handled other q apart

  module _ {κ μ} {I : Type κ} {Stream : Type μ} (build : Builder W) (cfg : Config)
      (make : String → Remote W) (builds : build cfg.server (read_credential cfg) ≡ ok make)
      (reads : Forwards h (read_credential cfg) (make cfg.caller))
      (parse_identity : String → Result Err I) (decrypt : List I → List ℕ → Result Err Stream)
      (read_all : Stream → Result Err (List ℕ)) (c : String)
      (scoped : IsScoped (h.env_of w').now (bearer (read_credential cfg)) (h.store_of w) c) where
    -- Over an SDK that forwards the calls of an operator and of a reader to the server, a deletion of a name by the
    -- operator that goes well and selects no variant leaves a reader with a consumer token and no write token
    -- the error of a name that is not there, whatever it asks for of a variant's id and of a variant's consumer,
    -- but both.
    pub get-deleted :
        (variant_id consumer : String) (identities : List String)
        → (is_empty variant_id || is_empty consumer) ≡ true
        → (get build parse_identity decrypt read_all cfg id identities variant_id consumer w').0
          ≡ err (wrap "fetch object" (sentinel not_found))
    unfolding map_error read_error is asked serve route
    get-deleted variant_id consumer identities one =
        let options = object_options variant_id consumer in
        let (sel, picked) = one_pick variant_id consumer one in
        get-refused_with build parse_identity decrypt read_all cfg make builds id identities w'
          variant_id consumer _
          (reads.error_returned id options 404 (text "unknown object") (h.store_of w') w'
            (omega arith)
            (read_deleted id (h.store_of w) (h.env_of w') (bearer (read_credential cfg)) _ refl
              handled c (query_of options) sel scoped picked))
