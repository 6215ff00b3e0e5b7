-- ===== src/Cli/Write.antt =====
-- internal/cli/inject.go, update.go and edit.go. A client is built from the configuration beforehand, and
-- the SDK and the age library are parameters.
pub mod Sealed
pub mod Calm
use hush_hush_cli.Prelude.{
  ℕ, String, Bool, true, false, not, ◌&&◌, Option, none, some, is_some, List, [], ◌∷◌, ◌++◌,
  if◌then◌else◌, Result, ok, err, map_err,
}
use hush_hush_cli.Client.Errors.{Err, wrap, sentinel, nothing_to_edit}
use hush_hush_cli.Client.Op.{Op, ◌>>=◌, done, failed, from_result, wrapping}
use hush_hush_cli.Client.Calls.{Sdk, create, update, patch, owner_public_key, consumer_public_key}
use hush_hush_cli.Client.Seal
use hush_hush_cli.Cli.Options.{WriteOption, WriteOptions, new_write_options, given_or_nil}

-- `w.description == nil && w.slug == nil && w.tags == nil`
abbrev pub changes_nothing : WriteOptions → Bool
changes_nothing w = not (is_some w.description) && not (is_some w.slug) && not (is_some w.tags)

module _ {ℓ} {W : Type ℓ} (sdk : Sdk W) where
  -- The loop of `resolveRecipients`, with the keys found so far.
  unfoldable pub resolve_from : List String → List String → Op W (List String)
  unfolding consumer_public_key
  resolve_from resolved [] = done resolved
  resolve_from resolved (name ∷ names) =
      wrapping (wrap "resolve --used-by recipients") (consumer_public_key sdk name) >>= λ key.
      resolve_from (resolved ++ key ∷ []) names

  -- `resolveRecipients`
  unfoldable pub resolve_recipients : List String → List String → Op W (List String)
  unfolding resolve_from
  resolve_recipients [] used_by = resolve_from [] used_by
  resolve_recipients (key ∷ keys) used_by = done (key ∷ keys)

  -- `withOwnerKey`
  unfoldable pub with_owner_key : Bool → List String → Op W (List String)
  unfolding owner_public_key
  with_owner_key false recipients = done recipients
  with_owner_key true recipients =
      wrapping (wrap "keep readable copy") (owner_public_key sdk) >>= λ key.
      done (recipients ++ key ∷ [])

  module _ {κ} {R : Type κ} (parse_recipient : String → Result Err R)
      (encrypt : List R → List ℕ → Result Err (List ℕ)) where
    -- The steps that `Inject` and `Update` share: the keys, the owner's key, the sealed bytes.
    unfoldable pub sealed_value : List ℕ → List String → List String → Bool → Op W (List ℕ)
    unfolding resolve_recipients with_owner_key Seal.seal
    sealed_value value recipients used_by keep = resolve_recipients recipients used_by >>= λ keys.
        with_owner_key keep keys >>= λ all_keys.
        from_result (map_err (wrap "seal value") (Seal.seal parse_recipient encrypt value all_keys))

    -- `Inject`
    unfoldable pub inject :
        String → List ℕ → List String → List String → String → List WriteOption → Op W (Unit {0})
    unfolding new_write_options sealed_value create
    inject id value recipients used_by description opts =
        let w = new_write_options opts in
        sealed_value value recipients used_by w.keep_readable_copy >>= λ sealed.
        wrapping (wrap "create object")
          (create sdk id sealed used_by description (given_or_nil w.tags) w.keep_readable_copy)
        >>= λ meta. done tt

    -- `Update`
    unfoldable pub update_value : String → List ℕ → List String → List WriteOption → Op W (Unit {0})
    unfolding new_write_options sealed_value update
    update_value id value recipients opts =
        let w = new_write_options opts in
        sealed_value value recipients (given_or_nil w.used_by) w.keep_readable_copy >>= λ sealed.
        wrapping (wrap "update object")
          (update sdk id sealed w.tags w.used_by w.keep_readable_copy w.variant_id w.consumer)
        >>= λ meta. done tt

  -- `Edit`
  unfoldable pub edit : String → List WriteOption → Op W (Unit {0})
  unfolding new_write_options patch
  edit id opts =
      let w = new_write_options opts in
      if changes_nothing w
      then failed (sentinel nothing_to_edit)
      else wrapping (wrap "edit object")
          (patch sdk id w.description w.slug w.tags w.variant_id w.consumer)
        >>= λ meta. done tt
