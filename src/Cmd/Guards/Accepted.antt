-- ===== src/Cmd/Guards/Accepted.antt =====
-- What holds of the flags that `update` and `edit` accept.
use hush_hush_cli.Prelude.{
  String, ◌≡◌, refl, sym, ap, ◌∙◌, Bool, true, false, ◌&&◌, Option, none, some, is_some, List, [],
  ◌∷◌, if◌then◌else◌, ok, err, ok-injective, arith,
}
use hush_hush_cli.Prelude.Text.{is_empty, split_comma}
use hush_hush_cli.Client.Errors.{sentinel, tag_and_clear_tags, used_by_and_clear_used_by}
use hush_hush_cli.Cli.Options.{given_or_nil, new_write_options}
use hush_hush_cli.Cli.Write.{changes_nothing}
use hush_hush_cli.Cmd.Flags.{
  UpdateFlags, EditFlags, recipients_of_used_by, update_recipients, update_options, edit_given,
  edit_options,
}
use hush_hush_cli.Cmd.Objects.{no_names}
use hush_hush_cli.Cmd.Guards.{cleared_or, update_options-meaning, edit_options-meaning}

-- Flags that `edit` accepts give it something to change: the check of internal/cli never refuses them.
pub edit_given-changes :
    (f : EditFlags)
    → edit_given f ≡ ok tt
    → changes_nothing (new_write_options (edit_options f)) ≡ false
unfolding edit_given
edit_given-changes f accepted = ap changes_nothing (edit_options-meaning f) ∙ ground arith

and_false : (a : Bool) {b : Bool} → b ≡ false → (a && b) ≡ false
and_false a h = ground arith

split_comma-names : (s : String) → no_names (split_comma s) ≡ false
unfolding split_comma
split_comma-names s = refl

consumers_named :
    (clear : Bool) (used_by : Option (List String)) (keys : List String)
    → (clear && is_some used_by) ≡ false
    → recipients_of_used_by used_by ≡ ok keys
    → no_names (given_or_nil (cleared_or clear used_by)) ≡ false
consumers_named clear none keys alone accepted = cc
consumers_named clear (some []) keys alone accepted = cc
consumers_named true (some (name ∷ names)) keys alone accepted = alone
consumers_named false (some (name ∷ names)) keys alone accepted = refl

-- The same, by the flags' tests.
somebody_by :
    (conflict clears unset clear : Bool) (used_by : Option (List String)) (recipients : String)
    (keys : List String)
    → (clear && is_some used_by) ≡ clears
    → (if conflict
        then err (sentinel tag_and_clear_tags)
        else if clears
        then err (sentinel used_by_and_clear_used_by)
        else if unset
        then recipients_of_used_by used_by
        else ok (split_comma recipients))
      ≡ ok keys
    → (no_names keys && no_names (given_or_nil (cleared_or clear used_by))) ≡ false
somebody_by true clears unset clear used_by recipients keys alone accepted = cc
somebody_by false true unset clear used_by recipients keys alone accepted = cc
somebody_by false false true clear used_by recipients keys alone accepted =
    and_false (no_names keys) (consumers_named clear used_by keys alone accepted)
somebody_by false false false clear used_by recipients keys alone accepted =
    ap (λ b. b && no_names (given_or_nil (cleared_or clear used_by)))
      (ap no_names (sym (ok-injective accepted)) ∙ split_comma-names recipients)

recipients_somebody :
    (f : UpdateFlags) (recipients : String) (keys : List String)
    → update_recipients f recipients ≡ ok keys
    → (no_names keys && no_names (given_or_nil (cleared_or f.clear_used_by f.used_by))) ≡ false
unfolding update_recipients
recipients_somebody f recipients keys accepted =
    somebody_by (f.clear_tags && is_some f.tags) (f.clear_used_by && is_some f.used_by)
      (is_empty recipients) f.clear_used_by f.used_by recipients keys refl accepted

-- Recipients that `update` accepts leave somebody to seal to: either keys are set, or the options name
-- consumers whose keys are looked up.
pub update_recipients_somebody :
    (f : UpdateFlags) (recipients : String) (keys : List String)
    → update_recipients f recipients ≡ ok keys
    → (no_names keys && no_names (given_or_nil (new_write_options (update_options f)).used_by))
      ≡ false
update_recipients_somebody f recipients keys accepted =
    ap (λ w. no_names keys && no_names (given_or_nil w.used_by)) (update_options-meaning f)
    ∙ recipients_somebody f recipients keys accepted
