-- ===== src/Main.antt =====
-- cmd/hush-hush-cli/main.go: the exit code.
use hush_hush_cli.Prelude.{ℕ, Bool, ◌&&◌, if◌then◌else◌, Result, ok, err}
use hush_hush_cli.Client.Errors.{Err, is, canceled}

-- `exitInterrupted`
abbrev pub exit_interrupted : ℕ
exit_interrupted = 130

-- `run`, by what the root command returned and whether the context is done.
unfoldable pub exit_code : Result Err (Unit {0}) → Bool → ℕ
unfolding is
exit_code (ok done) interrupted = 0
exit_code (err e) interrupted = if is canceled e && interrupted then exit_interrupted else 1
