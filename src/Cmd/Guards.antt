-- ===== src/Cmd/Guards.antt =====
-- What the flags of `update` and `edit` amount to once they are options of internal/cli.
pub mod Accepted
pub mod Refused
use hush_hush_cli.Prelude.{
  String, ◌≡◌, refl, sym, ap, ◌∙◌, Bool, true, false, not, ◌&&◌, Option, none, some, is_some, List,
  [], ◌∷◌, ◌++◌, if◌then◌else◌, Result, ok, err, ok-injective, arith,
}
use hush_hush_cli.Prelude.Text.{is_empty, split_comma}
use Prim.Native.String
use hush_hush_cli.Client.Errors.{Err, sentinel, tag_and_clear_tags, used_by_and_clear_used_by}
use hush_hush_cli.Cli.Options.{
  WriteOption, WriteOptions, with_tags, with_used_by, with_variant, with_consumer, with_description,
  with_slug, with_keep_readable_copy, given_or_nil, new_write_options, apply, apply_all,
}
use hush_hush_cli.Cli.Write.{changes_nothing}
use hush_hush_cli.Cmd.Flags.{
  VariantFlags, UpdateFlags, EditFlags, replaced, given, variant_options, recipients_of_used_by,
  update_recipients, update_options, edit_given, edit_options,
}
use hush_hush_cli.Cmd.Objects.{no_names}

abbrev pub cleared_or : Bool → Option (List String) → Option (List String)
cleared_or clear given = if clear then some [] else given

abbrev options :
    Option (List String)
    → Option (List String)
    → Bool
    → Option String
    → Option String
    → String
    → String
    → WriteOptions
options tags used_by keep description slug id consumer = record {
  tags = tags;
  used_by = used_by;
  keep_readable_copy = keep;
  description = description;
  slug = slug;
  variant_id = id;
  consumer = consumer;
}

-- What the flags of an update say.
abbrev pub update_meaning : UpdateFlags → WriteOptions
update_meaning f =
    options (cleared_or f.clear_tags f.tags) (cleared_or f.clear_used_by f.used_by) f.keep_copy none
      none f.variant.id f.variant.consumer

-- What the flags of an edit say.
abbrev pub edit_meaning : EditFlags → WriteOptions
edit_meaning f =
    options (cleared_or f.clear_tags f.tags) none false f.description f.slug f.variant.id
      f.variant.consumer

apply_all-append :
    (xs ys : List WriteOption) (w : WriteOptions)
    → apply_all (xs ++ ys) w ≡ apply_all ys (apply_all xs w)
unfolding apply_all
apply_all-append [] ys w = refl
apply_all-append (x ∷ xs) ys w = apply_all-append xs ys (apply x w)

-- A part of the options and then the others.
then_part :
    (xs ys : List WriteOption) (w w1 w2 : WriteOptions)
    → apply_all xs w ≡ w1
    → apply_all ys w1 ≡ w2
    → apply_all (xs ++ ys) w ≡ w2
then_part xs ys w w1 w2 h k = apply_all-append xs ys w ∙ ap (apply_all ys) h ∙ k

module _ (t u : Option (List String)) (k : Bool) (d s : Option String) (i c : String) where
  tags_part :
      (clear : Bool) (tags : Option (List String))
      → apply_all (replaced with_tags clear tags) (options none u k d s i c)
        ≡ options (cleared_or clear tags) u k d s i c
  unfolding apply apply_all
  tags_part true tags = refl
  tags_part false none = refl
  tags_part false (some xs) = refl

  used_by_part :
      (clear : Bool) (used_by : Option (List String))
      → apply_all (replaced with_used_by clear used_by) (options t none k d s i c)
        ≡ options t (cleared_or clear used_by) k d s i c
  unfolding apply apply_all
  used_by_part true used_by = refl
  used_by_part false none = refl
  used_by_part false (some xs) = refl

  keep_part :
      (keep : Bool)
      → apply_all (if keep then with_keep_readable_copy ∷ [] else []) (options t u false d s i c)
        ≡ options t u keep d s i c
  unfolding apply apply_all
  keep_part true = refl
  keep_part false = refl

  description_part :
      (description : Option String)
      → apply_all (given with_description description) (options t u k none s i c)
        ≡ options t u k description s i c
  unfolding apply apply_all
  description_part none = refl
  description_part (some text) = refl

  slug_part :
      (slug : Option String)
      → apply_all (given with_slug slug) (options t u k d none i c) ≡ options t u k d slug i c
  unfolding apply apply_all
  slug_part none = refl
  slug_part (some text) = refl

  id_part :
      (id : String)
      → apply_all (if is_empty id then [] else with_variant id ∷ []) (options t u k d s "" c)
        ≡ options t u k d s id c
  unfolding apply apply_all
  id_part String.[] = refl
  id_part (String.◌∷◌ x id) = refl

  consumer_part :
      (consumer : String)
      → apply_all
          (if is_empty consumer then [] else with_consumer consumer ∷ [])
          (options t u k d s i "")
        ≡ options t u k d s i consumer
  unfolding apply apply_all
  consumer_part String.[] = refl
  consumer_part (String.◌∷◌ x consumer) = refl

variant_part :
    (t u : Option (List String)) (k : Bool) (d s : Option String) (f : VariantFlags)
    → apply_all (variant_options f) (options t u k d s "" "") ≡ options t u k d s f.id f.consumer
variant_part t u k d s f =
    then_part (if is_empty f.id then [] else with_variant f.id ∷ [])
      (if is_empty f.consumer then [] else with_consumer f.consumer ∷ []) (options t u k d s "" "")
      (options t u k d s f.id "") (options t u k d s f.id f.consumer) (id_part t u k d s "" "" f.id)
      (consumer_part t u k d s f.id "" f.consumer)

-- The options that `update` builds from its flags amount to what the flags say: a cleared list is an empty one, a
-- list that is not given is left, and a variant is picked by what is given of it.
pub update_options-meaning :
    (f : UpdateFlags) → new_write_options (update_options f) ≡ update_meaning f
unfolding new_write_options update_options
update_options-meaning f =
    let tags = cleared_or f.clear_tags f.tags in
    let used = cleared_or f.clear_used_by f.used_by in
    let keeps = if f.keep_copy then with_keep_readable_copy ∷ [] else [] in
    let start = options none none false none none "" "" in
    let tagged = options tags none false none none "" "" in
    let owned = options tags used false none none "" "" in
    let kept = options tags used f.keep_copy none none "" "" in
    then_part
      (replaced with_tags f.clear_tags f.tags
        ++ replaced with_used_by f.clear_used_by f.used_by
        ++ keeps)
      (variant_options f.variant) start kept (update_meaning f)
      (then_part
        (replaced with_tags f.clear_tags f.tags ++ replaced with_used_by f.clear_used_by f.used_by)
        keeps start owned kept
        (then_part (replaced with_tags f.clear_tags f.tags)
          (replaced with_used_by f.clear_used_by f.used_by) start tagged owned
          (tags_part none none false none none "" "" f.clear_tags f.tags)
          (used_by_part tags none false none none "" "" f.clear_used_by f.used_by))
        (keep_part tags used false none none "" "" f.keep_copy))
      (variant_part tags used f.keep_copy none none f.variant)

-- The options that `edit` builds from its flags amount to what the flags say.
pub edit_options-meaning : (f : EditFlags) → new_write_options (edit_options f) ≡ edit_meaning f
unfolding new_write_options edit_options
edit_options-meaning f =
    let tags = cleared_or f.clear_tags f.tags in
    let start = options none none false none none "" "" in
    let described = options none none false f.description none "" "" in
    let named = options none none false f.description f.slug "" "" in
    let tagged = options tags none false f.description f.slug "" "" in
    then_part
      (given with_description f.description
        ++ given with_slug f.slug
        ++ replaced with_tags f.clear_tags f.tags)
      (variant_options f.variant) start tagged (edit_meaning f)
      (then_part (given with_description f.description ++ given with_slug f.slug)
        (replaced with_tags f.clear_tags f.tags) start named tagged
        (then_part (given with_description f.description) (given with_slug f.slug) start described
          named (description_part none none false none none "" "" f.description)
          (slug_part none none false f.description none "" "" f.slug))
        (tags_part none none false f.description f.slug "" "" f.clear_tags f.tags))
      (variant_part tags none false f.description f.slug f.variant)
