-- ===== src/Cliconfig/Secret/Kept.antt =====
-- What a kept secret resolves to, and what the configuration file is told of it.
use Prim.Native.String.{[], ◌∷◌, ◌++◌}
use Prim.Native.Char.{Char}
use Prim.Native.String.append
use hush_hush_cli.Prelude.{String, ◌≡◌, refl, sym, ap, ◌∙◌, false, Result, ok, err}
use hush_hush_cli.Prelude.Text.{is_empty, trim_newline}
use hush_hush_cli.Client.Errors.{Err, wrap}
use hush_hush_cli.Client.Op.{Op, continue, done, wrapped_reply, reply-injective}
use hush_hush_cli.Cliconfig.{Io}
use hush_hush_cli.Cliconfig.Prompt.{
  PersistChoice, persist_skip, persist_keyring, persist_command, persist_literal, CredentialAnswer,
}
use hush_hush_cli.Cliconfig.Secret.{
  RenderedSecret, keyring_service, keyring_command, run_secret_command, resolve_secret, persist,
  persist_credential, keyring_line,
}

pub trim_newline-append : (s : String) → trim_newline (s ++ "\n") ≡ s
unfolding trim_newline
trim_newline-append [] = ap trim_newline (append.nil "\n")
trim_newline-append (c ∷ []) =
    ap trim_newline (append.cons c [] "\n" ∙ ap (λ t. c ∷ t) (append.nil "\n"))
trim_newline-append (c ∷ d ∷ s) =
    ap trim_newline (append.cons c (d ∷ s) "\n" ∙ ap (λ t. c ∷ t) (append.cons d s "\n"))
    ∙ ap (λ t. c ∷ t) (ap trim_newline (sym (append.cons d s "\n")) ∙ trim_newline-append (d ∷ s))

not_empty : (c : Char) (s t : String) → is_empty ((c ∷ s) ++ t) ≡ false
not_empty c s t = ap is_empty (append.cons c s t)

keyring_command-not_empty : (field : String) → is_empty (keyring_command field) ≡ false
keyring_command-not_empty field = not_empty "h" "ush-hush-cli config keyring-get " field

module _ {ℓ} {W : Type ℓ} (io : Io W) where
  -- What an answer is worth later: a value kept in the keyring or in the file is that value, a command is
  -- what it prints, and a value that is not kept is nothing.
  unfoldable pub worth : PersistChoice → String → String → Op W String
  unfolding resolve_secret
  worth persist_keyring value extra = done value
  worth persist_literal value extra = done value
  worth persist_command value extra = resolve_secret io "" extra
  worth persist_skip value extra = done ""

abbrev pub kept_reply {ℓ} :
    {W : Type ℓ} → String → Result Err (Unit {0}) × W → Result Err RenderedSecret × W
kept_reply field reply =
    continue (λ _. done (record { literal = ""; command = keyring_command field }))
      (wrapped_reply (wrap ("store " ++ field ++ " in keyring")) reply)

module _ {ℓ} {W : Type ℓ} (io : Io W)
    (prints : (field : String) (w : W)
      → io.run_shell (keyring_command field) w ≡ keyring_line io field w)
    (stored : (service field value : String) (w w' : W)
      → io.keyring_set service field value w ≡ (ok tt, w')
      → io.keyring_get service field w' ≡ (ok value, w')) where
  ran :
      (literal command out : String) (w w' : W)
      → is_empty command ≡ false
      → io.run_shell command w ≡ (ok out, w')
      → resolve_secret io literal command w ≡ (ok (trim_newline out), w')
  unfolding resolve_secret run_secret_command
  ran literal command out w w' there went = rw (there, went) refl

  line_of :
      (field value : String) (w w' : W)
      → io.keyring_get keyring_service field w ≡ (ok value, w')
      → keyring_line io field w ≡ (ok (value ++ "\n"), w')
  unfolding keyring_line
  line_of field value w w' there = rw there refl

  from_keyring :
      (field value : String) (w w' : W)
      → io.keyring_get keyring_service field w ≡ (ok value, w')
      → resolve_secret io "" (keyring_command field) w ≡ (ok value, w')
  from_keyring field value w w' there =
      ran "" (keyring_command field) (value ++ "\n") w w' (keyring_command-not_empty field)
        (prints field w ∙ line_of field value w w' there)
      ∙ ap (λ v. (ok v, w')) (trim_newline-append value)

  keyring_kept :
      (value field : String) (w w' : W) (r : RenderedSecret) (reply : Result Err (Unit {0}) × W)
      → io.keyring_set keyring_service field value w ≡ reply
      → kept_reply field reply ≡ (ok r, w')
      → resolve_secret io r.literal r.command w' ≡ (ok value, w')
  keyring_kept value field w w' r (err e, w1) called went = cc
  keyring_kept value field w w' r (ok done, w1) called went =
      let (kept, same) = reply-injective went in
      rw (sym kept, sym same)
        (from_keyring field value w1 w1 (stored keyring_service field value w w1 called))

  persist-worth :
      (choice : PersistChoice) (value extra field : String) (w w' : W) (r : RenderedSecret)
      → persist io choice value extra field w ≡ (ok r, w')
      → resolve_secret io r.literal r.command w' ≡ worth io choice value extra w'
  unfolding persist worth resolve_secret
  persist-worth persist_keyring value extra field w w' r went =
      keyring_kept value field w w' r (io.keyring_set keyring_service field value w) refl went
  persist-worth persist_command value extra field w w' r went =
      let (kept, same) = reply-injective went in rw (sym kept) refl
  persist-worth persist_literal value extra field w w' r went =
      let (kept, same) = reply-injective went in rw (sym kept) refl
  persist-worth persist_skip value extra field w w' r went =
      let (kept, same) = reply-injective went in rw (sym kept) refl

  -- Where the keyring gives back what it was last given, and the shell runs the command that prints it, an
  -- answer that was kept resolves afterwards to what it is worth: the value itself from the keyring and from
  -- the file, what the command prints, or nothing.
  pub resolve_secret-persist_credential :
      (answer : CredentialAnswer) (field : String) (w w' : W) (r : RenderedSecret)
      → persist_credential io answer field w ≡ (ok r, w')
      → resolve_secret io r.literal r.command w'
        ≡ worth io answer.choice answer.value answer.extra w'
  unfolding persist_credential
  resolve_secret-persist_credential answer field w w' r went =
      persist-worth answer.choice answer.value answer.extra field w w' r went
