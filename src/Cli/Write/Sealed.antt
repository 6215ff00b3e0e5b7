-- ===== src/Cli/Write/Sealed.antt =====
-- What internal/cli sends when it writes: the keys that it seals to, and when it sends nothing.
use hush_hush_cli.Prelude.{
  ℕ, String, ◌≡◌, refl, sym, ap, ◌∙◌, false, Option, none, some, List, [], ◌∷◌, ◌++◌, map,
  append_assoc, append-nil, Result, ok, err, Result-cases, inl, inr,
}
use hush_hush_cli.Client.Errors.{
  Err, wrap, sentinel, explained, nothing_to_edit, consumer_no_public_key,
}
use hush_hush_cli.Client.Op.{Op, continue, wrapped_reply}
use hush_hush_cli.Client.Calls.{Sdk, consumer_public_key, create}
use hush_hush_cli.Client.Seal
use hush_hush_cli.Cli.Options.{WriteOption, new_write_options, given_or_nil}
use hush_hush_cli.Cli.Write.{
  resolve_from, resolve_recipients, with_owner_key, sealed_value, inject, edit,
}

-- What an inject does with the outcome of the sealing.
unfoldable pub sent {ℓ} :
    {W : Type ℓ} (sdk : Sdk W)
    → String
    → List String
    → String
    → List String
    → Result Err (List ℕ)
    → Op W (Unit {0})
sent sdk id used_by description tags (err e) w = (err (wrap "seal value" e), w)
sent sdk id used_by description tags (ok bytes) w =
    continue (λ meta w'. (ok tt, w'))
      (wrapped_reply (wrap "create object") (create sdk id bytes used_by description tags false w))

module _ {ℓ} {W : Type ℓ} (sdk : Sdk W) (directory : String → Option String)
    (looks_up : (name : String) (w : W)
      → sdk.get_consumer_public_key name w ≡ (ok (directory name), w)) where
  key_found :
      (name key : String) (w : W)
      → directory name ≡ some key
      → consumer_public_key sdk name w ≡ (ok key, w)
  unfolding consumer_public_key
  key_found name key w found = rw (looks_up name w, found) refl

  key_missing :
      (name : String) (w : W)
      → directory name ≡ none
      → consumer_public_key sdk name w ≡ (err (explained (sentinel consumer_no_public_key) name), w)
  unfolding consumer_public_key
  key_missing name w missing = rw (looks_up name w, missing) refl

  resolve_from-keys :
      (resolved names keys : List String) (w : W)
      → map directory names ≡ map some keys
      → resolve_from sdk resolved names w ≡ (ok (resolved ++ keys), w)
  unfolding resolve_from
  resolve_from-keys resolved [] [] w h = ap (λ ks. (ok ks, w)) (sym (append-nil resolved))
  resolve_from-keys resolved [] (key ∷ keys) w h = cc
  resolve_from-keys resolved (name ∷ names) [] w h = cc
  resolve_from-keys resolved (name ∷ names) (key ∷ keys) w h = rw (key_found name key w (cc)) (
      resolve_from-keys (resolved ++ key ∷ []) names keys w (cc)
      ∙ ap (λ ks. (ok ks, w)) (append_assoc resolved (key ∷ []) keys))

  resolve_from_missing :
      (resolved before keys : List String) (name : String) (after : List String) (w : W)
      → map directory before ≡ map some keys
      → directory name ≡ none
      → resolve_from sdk resolved (before ++ name ∷ after) w ≡ (
        err (
            wrap "resolve --used-by recipients" (explained (sentinel consumer_no_public_key) name)),
        w,
      )
  unfolding resolve_from
  resolve_from_missing resolved [] keys name after w h missing =
      rw (key_missing name w missing) refl
  resolve_from_missing resolved (n ∷ before) [] name after w h missing = cc
  resolve_from_missing resolved (n ∷ before) (key ∷ keys) name after w h missing =
      rw (key_found n key w (cc))
        (resolve_from_missing (resolved ++ key ∷ []) before keys name after w (cc) missing)

  module _ {κ} {R : Type κ} (parse_recipient : String → Result Err R)
      (encrypt : List R → List ℕ → Result Err (List ℕ)) where
    -- With no recipients given, and over a directory that answers without changing anything, an inject that
    -- names a consumer with no registered key fails with that consumer, the first one such, and sends
    -- nothing.
    pub inject_missing :
        (id : String) (value : List ℕ) (before keys : List String) (name : String)
        (after : List String) (description : String) (opts : List WriteOption) (w : W)
        → map directory before ≡ map some keys
        → directory name ≡ none
        → inject sdk parse_recipient encrypt id value [] (before ++ name ∷ after) description opts w
          ≡ (
            err (
                wrap "resolve --used-by recipients"
                  (explained (sentinel consumer_no_public_key) name)),
            w,
          )
    unfolding inject sealed_value resolve_recipients
    inject_missing id value before keys name after description opts w h missing =
        rw (resolve_from_missing [] before keys name after w h missing) refl

    -- With no recipients given, over a directory that answers without changing anything and has
    -- every consumer's key, and with no copy for the owner asked for, an inject whose sealing to
    -- exactly those keys fails sends nothing, and one whose sealing succeeds sends one create call
    -- with the sealed bytes in place of the value, and answers as that call does.
    pub inject_sealed :
        (id : String) (value : List ℕ) (used_by keys : List String) (description : String)
        (opts : List WriteOption) (w : W)
        → map directory used_by ≡ map some keys
        → (new_write_options opts).keep_readable_copy ≡ false
        → inject sdk parse_recipient encrypt id value [] used_by description opts w
          ≡ sent sdk id used_by description
              (given_or_nil (new_write_options opts).tags)
              (Seal.seal parse_recipient encrypt value keys)
              w
    unfolding inject sealed_value resolve_recipients with_owner_key sent
    inject_sealed id value used_by keys description opts w h alone =
        elim (Result-cases (Seal.seal parse_recipient encrypt value keys)) [
          | inl (bytes, e) ↦ rw (resolve_from-keys [] used_by keys w h, alone, e) refl
          | inr (failure, e) ↦ rw (resolve_from-keys [] used_by keys w h, alone, e) refl
        ]

module _ {ℓ} {W : Type ℓ} (sdk : Sdk W) where
  -- An edit whose options give no description, no name and no tags makes no call, and says so.
  pub edit_empty :
      (id : String) (opts : List WriteOption) (w : W)
      → (new_write_options opts).description ≡ none
      → (new_write_options opts).slug ≡ none
      → (new_write_options opts).tags ≡ none
      → edit sdk id opts w ≡ (err (sentinel nothing_to_edit), w)
  unfolding edit
  edit_empty id opts w no_description no_slug no_tags = rw (no_description, no_slug, no_tags) refl
