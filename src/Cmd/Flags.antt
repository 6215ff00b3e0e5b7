-- ===== src/Cmd/Flags.antt =====
-- The flags of internal/cmd: variant.go, inject.go, update.go and edit.go. A flag whose being given matters is
-- an option: `none` where it is not.
use hush_hush_cli.Prelude.{
  String, Bool, true, false, not, ◌&&◌, Option, none, some, is_some, List, [], ◌∷◌, ◌++◌,
  if◌then◌else◌, Result, ok, err,
}
use hush_hush_cli.Prelude.Text.{is_empty, split_comma}
use hush_hush_cli.Client.Errors.{
  Err, sentinel, id_and_consumer, no_recipients, no_recipients_or_used_by, tag_and_clear_tags,
  used_by_and_clear_used_by, nothing_given_to_edit,
}
use hush_hush_cli.Cli.Options.{
  WriteOption, with_tags, with_used_by, with_variant, with_consumer, with_description, with_slug,
  with_keep_readable_copy,
}

-- `variantFlags`
pub record VariantFlags : Type 0 where
  pub id : String
  pub consumer : String

-- `variantFlags.validate`
unfoldable pub validate : VariantFlags → Result Err (Unit {0})
validate f =
    if not (is_empty f.id) && not (is_empty f.consumer)
    then err (sentinel id_and_consumer)
    else ok tt

-- The options that pick a variant.
abbrev pub variant_options : VariantFlags → List WriteOption
variant_options f =
    (if is_empty f.id then [] else with_variant f.id ∷ [])
    ++ (if is_empty f.consumer then [] else with_consumer f.consumer ∷ [])

-- An option from a list that is cleared, replaced or left.
abbrev pub replaced : (List String → WriteOption) → Bool → Option (List String) → List WriteOption
replaced f true given = f [] ∷ []
replaced f false none = []
replaced f false (some xs) = f xs ∷ []

-- `strings.Split(recipients, ",")` of recipients that are given.
abbrev pub recipient_list : String → List String
unfolding split_comma
recipient_list recipients = if is_empty recipients then [] else split_comma recipients

-- `injectOptions`
unfoldable pub inject_options : List String → Bool → List WriteOption
inject_options tags keep_copy =
    with_tags tags ∷ (if keep_copy then with_keep_readable_copy ∷ [] else [])

-- `updateFlags`
pub record UpdateFlags : Type 0 where
  pub tags : Option (List String)
  pub clear_tags : Bool
  pub used_by : Option (List String)
  pub clear_used_by : Bool
  pub keep_copy : Bool
  pub variant : VariantFlags

-- What `updateFlags.recipients` makes of the consumers where no recipients are set.
abbrev pub recipients_of_used_by : Option (List String) → Result Err (List String)
recipients_of_used_by none = err (sentinel no_recipients)
recipients_of_used_by (some []) = err (sentinel no_recipients_or_used_by)
recipients_of_used_by (some (name ∷ names)) = ok []

-- `updateFlags.recipients`, with the recipients that are set.
unfoldable pub update_recipients : UpdateFlags → String → Result Err (List String)
unfolding split_comma
update_recipients f recipients =
    if f.clear_tags && is_some f.tags
    then err (sentinel tag_and_clear_tags)
    else if f.clear_used_by && is_some f.used_by
    then err (sentinel used_by_and_clear_used_by)
    else if is_empty recipients
    then recipients_of_used_by f.used_by
    else ok (split_comma recipients)

-- `updateFlags.options`
unfoldable pub update_options : UpdateFlags → List WriteOption
update_options f =
    replaced with_tags f.clear_tags f.tags
    ++ replaced with_used_by f.clear_used_by f.used_by
    ++ (if f.keep_copy then with_keep_readable_copy ∷ [] else [])
    ++ variant_options f.variant

-- The flags of `edit`.
pub record EditFlags : Type 0 where
  pub variant : VariantFlags
  pub description : Option String
  pub slug : Option String
  pub tags : Option (List String)
  pub clear_tags : Bool

abbrev pub given : (String → WriteOption) → Option String → List WriteOption
given f none = []
given f (some text) = f text ∷ []

-- `editOptions`
unfoldable pub edit_options : EditFlags → List WriteOption
edit_options f =
    given with_description f.description
    ++ given with_slug f.slug
    ++ replaced with_tags f.clear_tags f.tags
    ++ variant_options f.variant

-- The test of the flags in `newEditCmd`.
unfoldable pub edit_given : EditFlags → Result Err (Unit {0})
edit_given f =
    if f.clear_tags && is_some f.tags
    then err (sentinel tag_and_clear_tags)
    else if not (is_some f.description)
        && not (is_some f.slug)
        && not (is_some f.tags)
        && not f.clear_tags
    then err (sentinel nothing_given_to_edit)
    else ok tt
