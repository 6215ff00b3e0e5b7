-- ===== src/Prelude/Text/Prefix.antt =====
-- `strings.CutPrefix` of a text that has the prefix.
use Prim.Native.String.{String, [], ◌∷◌, ◌++◌}
use Prim.Native.String.append
use Prim.Native.Char.{code}
use mathlib.Core.Path.{◌≡◌, refl, ap, ◌∙◌}
use mathlib.Core.Option.{some, none}
use hush_hush_cli.Prelude.Tests.{eqb_iff, if◌then◌else◌}
use hush_hush_cli.Prelude.Text.{cut_prefix}

pub cut_prefix-append : (prefix s : String) → cut_prefix (prefix ++ s) prefix ≡ some s
unfolding cut_prefix
cut_prefix-append [] s = ap (λ t. cut_prefix t []) (append.nil s)
cut_prefix-append (c ∷ prefix) s =
    ap (λ t. cut_prefix t (c ∷ prefix)) (append.cons c prefix s)
    ∙ ap (λ b. if b then cut_prefix (prefix ++ s) prefix else none)
        ((eqb_iff (code c) (code c)).1 refl)
    ∙ cut_prefix-append prefix s
