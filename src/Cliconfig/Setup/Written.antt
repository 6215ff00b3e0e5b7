-- ===== src/Cliconfig/Setup/Written.antt =====
-- What an offer has done to the configuration file.
use hush_hush_cli.Prelude.{String, ◌≡◌, Bool, true, false, Result, ok, err}
use hush_hush_cli.Client.Errors.{Err}
use hush_hush_cli.Client.Op.{Op}
use hush_hush_cli.Cliconfig.{Io}

module _ {ℓ} {W A : Type ℓ} (quote : String → String) (io : Io W) (view : W → A) where
  -- An answer and what was done agree: `false` leaves what is viewed as it was in the world `w`, and `true` without
  -- an error ends in a write of the file.
  abbrev pub Settled : W → String → Bool × (Result Err (Unit {0}) × W) → Type ℓ
  Settled w path (false, (r, u)) = view u ≡ view w
  Settled w path (true, (ok a, u)) =
      (text : String) × (v : W) × (io.write_file path text v ≡ (ok tt, u))
  Settled w path (true, (err e, u)) = Unit {ℓ}
