-- ===== src/Cli/Write/Calm.antt =====
-- What sealing in internal/cli leaves alone.
use hush_hush_cli.Prelude.{
  ℕ, String, ◌≡◌, sym, ap, ◌∙◌, Bool, true, false, List, [], ◌∷◌, ◌++◌, Option, Result, ok, map_err,
}
use hush_hush_cli.Prelude.Text.{member}
use hush_hush_cli.Client.Errors.{Err, wrap, map_error}
use hush_hush_cli.Client.Op.{
  Op, ◌>>=◌, from_result, calling, wrapping, done, >>=-ok, wrapped_reply-ok, mapped-ok,
  reply-injective,
}
use hush_hush_cli.Client.Calls.{
  Sdk, owner_public_key, key_or_none, consumer_public_key, key_of_consumer,
}
use hush_hush_cli.Client.Seal
use hush_hush_cli.Cli.Write.{resolve_recipients, resolve_from, with_owner_key, sealed_value}

-- Sealing to given recipients asks the server for the owner's key at most, so what such a call keeps is kept.
module _ {ℓ κ} {W : Type ℓ} {A : Type κ} (sdk : Sdk W) (view : W → A)
    (calm : (w : W) → view (sdk.get_owner_identity w).1 ≡ view w) where
  given-keeps :
      (mine : String) (recipients used_by keys : List String) (w w' : W)
      → member mine recipients ≡ true
      → resolve_recipients sdk recipients used_by w ≡ (ok keys, w')
      → view w' ≡ view w
  unfolding resolve_recipients member
  given-keeps mine [] used_by keys w w' there h = cc
  given-keeps mine (r ∷ recipients) used_by keys w w' there h = ap view (sym (reply-injective h).1)

  resolve_from-keeps :
      ((name : String) (u : W) → view (sdk.get_consumer_public_key name u).1 ≡ view u)
      → (found names keys : List String) (w w' : W) → resolve_from sdk found names w ≡ (ok keys, w')
      → view w' ≡ view w
  unfolding resolve_from consumer_public_key
  resolve_from-keeps looks_up found [] keys w w' h = ap view (sym (reply-injective h).1)
  resolve_from-keeps looks_up found (name ∷ names) keys w w' h =
      let asking = calling map_error (sdk.get_consumer_public_key name) in
      let naming : Option String → Op W String = λ key u. (key_of_consumer name key, u) in
      let (key, w1, looked, rest) =
        >>=-ok (wrapping (wrap "resolve --used-by recipients") (asking >>= naming))
          (λ key. resolve_from sdk (found ++ key ∷ []) names) w h in
      let (k, w2, called, named) =
        >>=-ok asking naming w
          (wrapped_reply-ok (wrap "resolve --used-by recipients") ((asking >>= naming) w) looked) in
      let reply = mapped-ok map_error (sdk.get_consumer_public_key name w) called in
      resolve_from-keeps looks_up (found ++ key ∷ []) names keys w1 w' rest
      ∙ ap view (sym (ap (λ p. p.1) named) ∙ sym (ap (λ p. p.1) reply))
      ∙ looks_up name w

  recipients-keep :
      ((name : String) (u : W) → view (sdk.get_consumer_public_key name u).1 ≡ view u)
      → (recipients used_by keys : List String) (w w' : W)
      → resolve_recipients sdk recipients used_by w ≡ (ok keys, w')
      → view w' ≡ view w
  unfolding resolve_recipients
  recipients-keep looks_up [] used_by keys w w' h =
      resolve_from-keeps looks_up [] used_by keys w w' h
  recipients-keep looks_up (r ∷ recipients) used_by keys w w' h =
      ap view (sym (reply-injective h).1)

  owner_public_key-keeps :
      (key : String) (w w' : W) → owner_public_key sdk w ≡ (ok key, w') → view w' ≡ view w
  unfolding owner_public_key
  owner_public_key-keeps key w w' went =
      let (k, w1, called, found) =
        >>=-ok (calling map_error sdk.get_owner_identity) (λ k u. (key_or_none k, u)) w went in
      let reply = mapped-ok map_error (sdk.get_owner_identity w) called in
      ap view (sym (ap (λ p. p.1) found) ∙ sym (ap (λ p. p.1) reply)) ∙ calm w

  owner-keeps :
      (keep : Bool) (keys all : List String) (w w' : W)
      → with_owner_key sdk keep keys w ≡ (ok all, w')
      → view w' ≡ view w
  unfolding with_owner_key
  owner-keeps false keys all w w' h = ap view (sym (reply-injective h).1)
  owner-keeps true keys all w w' h =
      let (key, w1, called, added) =
        >>=-ok (wrapping (wrap "keep readable copy") (owner_public_key sdk))
          (λ key. done (keys ++ key ∷ [])) w h in
      ap view (sym (reply-injective added).1)
      ∙ owner_public_key-keeps key w w1
          (wrapped_reply-ok (wrap "keep readable copy") (owner_public_key sdk w) called)

  module _ {μ} {R : Type μ} (parse_recipient : String → Result Err R)
      (encrypt : List R → List ℕ → Result Err (List ℕ)) (value : List ℕ)
      (recipients used_by : List String) (keep : Bool) (bytes : List ℕ) (w w' : W)
      (went : sealed_value sdk parse_recipient encrypt value recipients used_by keep w
        ≡ (ok bytes, w')) where
    resolved-keeps :
        ((keys : List String) (w1 : W)
          → resolve_recipients sdk recipients used_by w ≡ (ok keys, w1)
          → view w1 ≡ view w)
        → view w' ≡ view w
    unfolding sealed_value
    resolved-keeps resolving =
        let sealing : List String → Op W (List ℕ) = λ all.
          from_result (map_err (wrap "seal value") (Seal.seal parse_recipient encrypt value all)) in
        let (keys, w1, resolved, rest) =
          >>=-ok (resolve_recipients sdk recipients used_by)
            (λ keys. with_owner_key sdk keep keys >>= sealing) w went in
        let (all, w2, kept, sealed) = >>=-ok (with_owner_key sdk keep keys) sealing w1 rest in
        ap view (sym (ap (λ p. p.1) sealed))
        ∙ owner-keeps keep keys all w1 w2 kept
        ∙ resolving keys w1 resolved

    pub sealed_value-keeps : (mine : String) → member mine recipients ≡ true → view w' ≡ view w
    sealed_value-keeps mine there =
        resolved-keeps (λ keys w1. given-keeps mine recipients used_by keys w w1 there)

    -- The same for any recipients, where looking up a consumer's key changes nothing either.
    pub sealed_value-keeps_all :
        ((name : String) (u : W) → view (sdk.get_consumer_public_key name u).1 ≡ view u)
        → view w' ≡ view w
    sealed_value-keeps_all looks_up =
        resolved-keeps (λ keys w1. recipients-keep looks_up recipients used_by keys w w1)
