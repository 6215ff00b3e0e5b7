-- ===== src/Cliconfig/Setup/Offered.antt =====
-- When a configuration file is offered and written.
use hush_hush_cli.Prelude.{
  String, ◌≡◌, refl, Bool, true, false, not, ◌&&◌, ◌||◌, if◌then◌else◌, Result, ok, Bool-cases, inl,
  inr,
}
use hush_hush_cli.Client.Errors.{Err, wrap}
use hush_hush_cli.Client.Op.{Op, wrapping}
use hush_hush_cli.Cliconfig.{Io}
use hush_hush_cli.Cliconfig.Prompt.{Values, confirm}
use hush_hush_cli.Cliconfig.Setup.{
  should_write_starter, any_env_var_set, print_unconfigured_nudge, confirmed_by, offer_for,
  offer_at, offer_init, write_starter, write_interactive, nudge,
}

module _ {ℓ} {W : Type ℓ} (quote : String → String) (io : Io W) where
  kept_file :
      (assume_yes interactive : Bool) (current : Values) (path : String) (w : W)
      → io.file_exists path w ≡ true
      → offer_at quote io assume_yes interactive current (ok path, w) ≡ (false, (ok tt, w))
  unfolding offer_at offer_for confirmed_by should_write_starter print_unconfigured_nudge
  kept_file true interactive current path w there = rw there refl
  kept_file false true current path w there = rw there refl
  kept_file false false current path w there = rw there refl

  -- Where the path resolves to a file that is there, nothing is asked, printed or written: no file is set up,
  -- there is no error, and the world is the one the resolution left.
  pub offer_init_exists :
      (assume_yes interactive : Bool) (current : Values) (resolve_path : Op W String) (w w' : W)
      (path : String)
      → any_env_var_set quote io w ≡ false
      → resolve_path w ≡ (ok path, w')
      → io.file_exists path w' ≡ true
      → offer_init quote io assume_yes interactive current resolve_path w ≡ (false, (ok tt, w'))
  unfolding offer_init
  offer_init_exists assume_yes interactive current resolve_path w w' path unset resolved there =
      rw (unset, resolved) (kept_file assume_yes interactive current path w' there)

  -- Who is offered a file that is not there.
  abbrev pub accepts : Bool → Bool → W → Bool
  unfolding confirm
  accepts assume_yes interactive w =
      assume_yes || (interactive && (confirm io "No config file found. Set one up now?" w).0)

  -- The world once whoever is to be asked has answered.
  abbrev pub asked_at : Bool → Bool → W → W
  unfolding confirm
  asked_at assume_yes interactive w =
      if not assume_yes && interactive
      then (confirm io "No config file found. Set one up now?" w).1
      else w

  -- What an offer comes to where the path resolved: the Boolean that is returned, and beside it what is done.
  unfoldable pub outcome :
      Bool
      → Bool
      → Values
      → String
      → (env_set exists : Bool) → (before w : W) → Bool × (Result Err (Unit {0}) × W)
  unfolding confirm write_starter write_interactive
  outcome assume_yes interactive current path true exists before w = (false, (ok tt, before))
  outcome assume_yes interactive current path false true before w = (false, (ok tt, w))
  outcome assume_yes interactive current path false false before w = (
    accepts assume_yes interactive w,
    if accepts assume_yes interactive w
        then if assume_yes
          then write_starter quote io path w
          else write_interactive quote io path current (asked_at assume_yes interactive w)
        else if interactive
        then (ok tt, asked_at assume_yes interactive w)
        else wrapping (wrap "write config nudge") (io.print_err nudge) w,
  )

  offered :
      (assume_yes interactive exists : Bool) (current : Values) (path : String) (before w : W)
      → offer_for quote io assume_yes interactive current path exists
          (confirmed_by quote io assume_yes interactive exists w)
        ≡ outcome assume_yes interactive current path false exists before w
  unfolding offer_for confirmed_by should_write_starter confirm print_unconfigured_nudge
      write_starter write_interactive outcome accepts asked_at
  offered true interactive true current path before w = refl
  offered false true true current path before w = refl
  offered false false true current path before w = refl
  offered true interactive false current path before w = refl
  offered false true false current path before w = elim (Bool-cases (accepts false true w)) [
    | inl agreed ↦ rw agreed refl
    | inr refused ↦ rw refused refl
  ]
  offered false false false current path before w = refl

  -- An offer comes to its outcome.
  pub offer_init-outcome :
      (assume_yes interactive : Bool) (current : Values) (resolve_path : Op W String) (w w' : W)
      (path : String)
      → resolve_path w ≡ (ok path, w')
      → offer_init quote io assume_yes interactive current resolve_path w
        ≡ outcome assume_yes interactive current path
            (any_env_var_set quote io w)
            (io.file_exists path w')
            w
            w'
  unfolding offer_init offer_at outcome
  offer_init-outcome assume_yes interactive current resolve_path w w' path resolved =
      elim (Bool-cases (any_env_var_set quote io w)) [
        | inl set ↦ rw set refl
        | inr unset ↦
            rw (unset, resolved)
              (offered assume_yes interactive (io.file_exists path w') current path w w')
      ]
