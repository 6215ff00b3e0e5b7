-- ===== src/Cli/Options.antt =====
-- internal/cli/options.go: the options of a write, and what they amount to.
use hush_hush_cli.Prelude.{String, Bool, true, false, Option, none, some, List, [], ◌∷◌}

-- The functions that build a `WriteOption`.
pub data WriteOption : Type 0 where
  with_tags : List String → WriteOption
  with_used_by : List String → WriteOption
  with_variant : String → WriteOption
  with_consumer : String → WriteOption
  with_description : String → WriteOption
  with_slug : String → WriteOption
  with_keep_readable_copy : WriteOption

pub record WriteOptions : Type 0 where
  pub tags : Option (List String)
  pub used_by : Option (List String)
  pub keep_readable_copy : Bool
  pub description : Option String
  pub slug : Option String
  pub variant_id : String
  pub consumer : String

abbrev pub no_options : WriteOptions
no_options = record {
  tags = none;
  used_by = none;
  keep_readable_copy = false;
  description = none;
  slug = none;
  variant_id = "";
  consumer = "";
}

-- What an option does to the options before it.
unfoldable pub apply : WriteOption → WriteOptions → WriteOptions
apply (with_tags tags) w = record w { tags = some tags }
apply (with_used_by used_by) w = record w { used_by = some used_by }
apply (with_variant id) w = record w { variant_id = id }
apply (with_consumer consumer) w = record w { consumer = consumer }
apply (with_description description) w = record w { description = some description }
apply (with_slug slug) w = record w { slug = some slug }
apply with_keep_readable_copy w = record w { keep_readable_copy = true }

unfoldable pub apply_all : List WriteOption → WriteOptions → WriteOptions
unfolding apply
apply_all [] w = w
apply_all (o ∷ opts) w = apply_all opts (apply o w)

-- `newWriteOptions`
unfoldable pub new_write_options : List WriteOption → WriteOptions
unfolding apply_all
new_write_options opts = apply_all opts no_options

-- `tagsOrNil` and, in `Update`, the consumers to resolve: nothing unless some were given.
abbrev pub given_or_nil : Option (List String) → List String
given_or_nil none = []
given_or_nil (some xs) = xs
