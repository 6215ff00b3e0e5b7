-- ===== src/Cmd/Objects.antt =====
-- The commands on one object: inject.go, get.go, update.go, edit.go, delete.go and used_by.go of internal/cmd.
-- `used_by` is the command up to the list that it prints.
use hush_hush_cli.Prelude.{ℕ, String, Bool, true, false, ◌&&◌, List, [], ◌∷◌, if◌then◌else◌, Result}
use hush_hush_cli.Prelude.Text.{is_empty, split_comma}
use hush_hush_cli.Client.Errors.{Err, wrap, sentinel, no_identity, no_recipients_or_used_by}
use hush_hush_cli.Client.Op.{Op, ◌>>=◌, failed, from_result, wrapping}
use hush_hush_cli.Cli.Read
use hush_hush_cli.Cli.Commands
use hush_hush_cli.Cliconfig.Secret.{resolve_secret}
use hush_hush_cli.Cmd.{Settings, App}
use hush_hush_cli.Cmd.Config.{config}
use hush_hush_cli.Cmd.Flags.{
  VariantFlags, UpdateFlags, EditFlags, validate, recipient_list, inject_options, update_recipients,
  update_options, edit_given, edit_options,
}

abbrev pub no_names : List String → Bool
no_names [] = true
no_names (x ∷ xs) = false

module _ {ℓ} {W : Type ℓ} (app : App W) (v : Settings) where
  -- The `RunE` of `newDeleteCmd`
  unfoldable pub delete : String → VariantFlags → Op W (Unit {0})
  unfolding validate config Commands.delete
  delete id variant = from_result (validate variant) >>= λ valid. config app v true >>= λ cfg.
      wrapping (wrap "delete") (Commands.delete app.build cfg id variant.id variant.consumer)

  -- The `RunE` of `newUsedByCmd`
  unfoldable pub used_by : String → VariantFlags → Op W (List String)
  unfolding validate config Commands.used_by
  used_by id variant = from_result (validate variant) >>= λ valid. config app v false >>= λ cfg.
      wrapping (wrap "used-by") (Commands.used_by app.build cfg id variant.id variant.consumer)

  -- The `RunE` of `newEditCmd`
  unfoldable pub edit : String → EditFlags → Op W (Unit {0})
  unfolding validate edit_given config Commands.editing edit_options
  edit id f = from_result (validate f.variant) >>= λ valid. from_result (edit_given f) >>= λ given.
      config app v true >>= λ cfg. Commands.editing app.build cfg id (edit_options f)

  module _ {κ} {R : Type κ} (parse_recipient : String → Result Err R)
      (encrypt : List R → List ℕ → Result Err (List ℕ)) where
    -- The `RunE` of `newInjectCmd` once there is somebody to seal to.
    unfoldable pub inject_value :
        String → List String → List String → String → Bool → Op W (Unit {0})
    unfolding config Commands.injecting inject_options split_comma
    inject_value id used_by tags description keep_copy =
        wrapping (wrap "read value from stdin") app.read_stdin >>= λ value.
        config app v true >>= λ cfg.
        Commands.injecting app.build parse_recipient encrypt cfg id value
          (recipient_list v.recipients) used_by description (inject_options tags keep_copy)

    -- The `RunE` of `newInjectCmd`
    unfoldable pub inject : String → List String → List String → String → Bool → Op W (Unit {0})
    unfolding inject_value
    inject id used_by tags description keep_copy =
        if is_empty v.recipients && no_names used_by
        then failed (sentinel no_recipients_or_used_by)
        else inject_value id used_by tags description keep_copy

    -- The `RunE` of `newUpdateCmd`
    unfoldable pub update : String → UpdateFlags → Op W (Unit {0})
    unfolding validate update_recipients config Commands.updating update_options
    update id f = from_result (validate f.variant) >>= λ valid.
        from_result (update_recipients f v.recipients) >>= λ recipients.
        wrapping (wrap "read value from stdin") app.read_stdin >>= λ value.
        config app v true >>= λ cfg.
        Commands.updating app.build parse_recipient encrypt cfg id value recipients
          (update_options f)

  module _ {κ μ} {I : Type κ} {Stream : Type μ} (parse_identity : String → Result Err I)
      (decrypt : List I → List ℕ → Result Err Stream)
      (read_all : Stream → Result Err (List ℕ)) where
    -- The `RunE` of `newGetCmd` with the identities' keys.
    unfoldable pub get_with : String → VariantFlags → String → Op W (Unit {0})
    unfolding config Read.get split_comma
    get_with id variant identities =
        if is_empty identities
        then failed (sentinel no_identity)
        else (config app v false >>= λ cfg.
            wrapping (wrap "get") (
              Read.get app.build parse_identity decrypt read_all cfg id (split_comma identities)
                variant.id variant.consumer)
            >>= λ plaintext. wrapping (wrap "write value to stdout") (app.write_stdout plaintext))

    -- The `RunE` of `newGetCmd`
    unfoldable pub get : String → VariantFlags → Op W (Unit {0})
    unfolding validate resolve_secret get_with
    get id variant = from_result (validate variant) >>= λ valid.
        wrapping (wrap "identity_command") (resolve_secret app.io v.identity v.identity_command)
        >>= get_with id variant
