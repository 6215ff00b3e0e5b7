-- ===== src/Cmd/Tree/Sound.antt =====
-- What holds of every command that internal/cmd declares: it takes as many arguments as its use line names, no
-- flag of it has the name of another, and no command beside it has its name; and which of its flags have
-- the name of a persistent flag of the root, which they then hide.
use Prim.Native.String.{String, [], ◌∷◌}
use mathlib.Core.List.{List}
use hush_hush_cli.Prelude.{
  ℕ, suc, ◌≡◌, refl, Bool, true, not, ◌&&◌, if◌then◌else◌, eqb, code, map, all, select, ◌++◌,
}
use hush_hush_cli.Prelude.Text.{member, split_fields}
use hush_hush_cli.Cmd.Tree.{Args, no_args, exact_args, any_args, Command, Group}
use hush_hush_cli.Cmd.Tree.ServerFlags.{root_flags}
use hush_hush_cli.Cmd.Tree.Commands.{root_tree}

-- How many arguments a use line names: each stands in angle brackets.
arguments : String → ℕ
arguments [] = 0
arguments (c ∷ s) = let rest = arguments s in if eqb (code c) b'<' then suc rest else rest

takes : Args → ℕ → Bool
takes no_args n = eqb n 0
takes (exact_args k) n = eqb n k
takes any_args n = eqb n 0

-- No name stands twice.
apart : List String → Bool
unfolding member
apart List.[] = true
apart (List.◌∷◌ x xs) = not (member x xs) && apart xs

-- The first word of a use line, by which cobra finds a command.
called : Command → String
called c = (split_fields b' ' c.use_line).0

is_sound : Command → Bool
is_sound c = takes c.args (arguments c.use_line) && apart (map (λ f. f.name) c.flags)

is_sound_group : Group → Bool
is_sound_group (c, below) = is_sound c && all is_sound below && apart (map called below)

tree_sound : (all is_sound_group root_tree && apart (map (λ g. called g.0) root_tree)) ≡ true
unfolding is_sound_group is_sound takes arguments apart called split_fields
tree_sound = refl

-- The flags of a command that hide a persistent one, each with the command.
hiding : Command → List (String × String)
hiding c =
    map (λ f. (called c, f.name))
      (select (λ f. member f.name (map (λ p. p.name) root_flags)) c.flags)

hiding_in : List Command → List (String × String)
hiding_in List.[] = List.[]
hiding_in (List.◌∷◌ c cs) = hiding c ++ hiding_in cs

hiding_tree : List Group → List (String × String)
hiding_tree List.[] = List.[]
hiding_tree (List.◌∷◌ (c, below) gs) = hiding_in (List.◌∷◌ c below) ++ hiding_tree gs

-- The one flag that does is `--caller` of audit-log.
tree_hiding : hiding_tree root_tree ≡ List.◌∷◌ ("audit-log", "caller") List.[]
unfolding hiding_tree hiding_in hiding called split_fields member
tree_hiding = refl
