-- ===== src/Prelude/Sort.antt =====
-- `slices.Sort` and `slices.SortFunc` by a string key, as an insertion sort. Go's sort is not
-- stable: the order of items with one key is unspecified there, and the insertion order here.
use Prim.Native.Nat.{suc}
use Prim.Native.String.{String}
use mathlib.Core.Path.{◌≡◌, refl, ap, ◌∙◌}
use mathlib.Core.Bool.{true}
use mathlib.Core.List.{List, [], ◌∷◌}
use mathlib.Core.Logic.{inl, inr}
use native.Mathlib.Omega.{arith}
use hush_hush_cli.Prelude.Tests.{if◌then◌else◌, Bool-cases}
use hush_hush_cli.Prelude.Lists.{length, All, All-weaken}
use hush_hush_cli.Prelude.Text.Order.{str_le, str_le_total, str_le_trans}

module _ {ℓ} {A : Type ℓ} (key : A → String) where
  insert_by : A → List A → List A
  insert_by a [] = a ∷ []
  insert_by a (x ∷ xs) = if str_le (key a) (key x) then a ∷ x ∷ xs else x ∷ insert_by a xs

  unfoldable pub sort_by : List A → List A
  unfolding insert_by
  sort_by [] = []
  sort_by (x ∷ xs) = insert_by x (sort_by xs)

  -- Every item's key is at most the keys that follow.
  abbrev pub IsSorted : List A → Type 0
  IsSorted [] = Unit
  IsSorted (x ∷ xs) = All (λ y. str_le (key x) (key y) ≡ true) xs × IsSorted xs

  module _ {κ} (P : A → Type κ) where
    All-insert_by : (a : A) (xs : List A) → P a → All P xs → All P (insert_by a xs)
    unfolding insert_by
    All-insert_by a [] p h = (p, tt)
    All-insert_by a (x ∷ xs) p (q, h) = ground (arith, All-insert_by a xs p h)

    pub All-sort_by : (xs : List A) → All P xs → All P (sort_by xs)
    unfolding sort_by
    All-sort_by [] h = tt
    All-sort_by (x ∷ xs) (p, h) = All-insert_by x (sort_by xs) p (All-sort_by xs h)

  insert_by-IsSorted : (a : A) (xs : List A) → IsSorted xs → IsSorted (insert_by a xs)
  unfolding insert_by
  insert_by-IsSorted a [] h = (tt, tt)
  insert_by-IsSorted a (x ∷ xs) (least, h) = elim (Bool-cases (str_le (key a) (key x))) [
    | inl before ↦ rw before (
      (before, All-weaken (λ y. str_le_trans (key a) (key x) (key y) before) xs least),
      (least, h),
    )
    | inr after ↦ rw after (
      All-insert_by (λ y. str_le (key x) (key y) ≡ true) a xs (str_le_total (key a) (key x) after)
          least,
      insert_by-IsSorted a xs h,
    )
  ]

  pub sort_by-IsSorted : (xs : List A) → IsSorted (sort_by xs)
  unfolding sort_by
  sort_by-IsSorted [] = tt
  sort_by-IsSorted (x ∷ xs) = insert_by-IsSorted x (sort_by xs) (sort_by-IsSorted xs)

  length-insert_by : (a : A) (xs : List A) → length (insert_by a xs) ≡ suc (length xs)
  unfolding insert_by
  length-insert_by a [] = refl
  length-insert_by a (x ∷ xs) = ground (arith, length-insert_by a xs)

  pub length-sort_by : (xs : List A) → length (sort_by xs) ≡ length xs
  unfolding sort_by
  length-sort_by [] = refl
  length-sort_by (x ∷ xs) = length-insert_by x (sort_by xs) ∙ ap suc (length-sort_by xs)
