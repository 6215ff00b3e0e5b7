-- ===== src/Prelude/Members.antt =====
-- Membership in a list of strings, and lists with no string twice.
use hush_hush_cli.Prelude.{
  String, ◌≡◌, refl, Bool, false, ◌||◌, ◌&&◌, List, [], ◌∷◌, ◌++◌, arith, eq_iff, select,
}
use hush_hush_cli.Prelude.Text.{member}

abbrev pub Unique : List String → Type 0
unfolding member
Unique [] = Unit
Unique (x ∷ xs) = (member x xs ≡ false) × Unique xs

pub member-append :
    (x : String) (xs ys : List String) → member x (xs ++ ys) ≡ (member x xs || member x ys)
unfolding member
member-append x [] ys = refl
member-append x (y ∷ xs) ys = ground (arith, member-append x xs ys)

pub Unique-snoc :
    (xs : List String) (x : String) → Unique xs → member x xs ≡ false → Unique (xs ++ x ∷ [])
unfolding member
Unique-snoc [] x h new = (refl, tt)
Unique-snoc (y ∷ xs) x (p, h) new = (
  ground (arith, member-append y xs (x ∷ []), eq_iff x y, eq_iff y x),
  Unique-snoc xs x h (ground arith),
)

pub member-select :
    (p : String → Bool) (x : String) (xs : List String)
    → member x (select p xs) ≡ (member x xs && p x)
unfolding member
member-select p x [] = refl
member-select p x (y ∷ xs) = ground (arith, member-select p x xs, eq_iff y x)
