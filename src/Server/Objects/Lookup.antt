-- ===== src/Server/Objects/Lookup.antt =====
-- `findLocked` in internal/testserver/testserver.go: which variant a selector means.
use hush_hush_cli.Prelude.{
  subst, ℕ, suc, ◌+◌, ◌≤◌, String, ◌≡◌, refl, ◌≢◌, ◌↔◌, ◌⊎◌, inl, inr, true, false, some, List, [],
  ◌∷◌, length, get_elem?, take, All, ok, err, arith, Bool-cases,
}
use hush_hush_cli.Server.Types.{StoreError, not_found, several_variants, Object, Store, Selector}
use hush_hush_cli.Server.Objects.{variants, is_zero, selects, pick, find_in, find}

-- The first variant from index `i` on that the selector matches.
abbrev IsFirst : Selector → List Object → ℕ → Object → Type 0
IsFirst sel vs k o =
    (get_elem? vs k ≡ some o)
    × (selects sel o ≡ true)
    × All (λ v. selects sel v ≡ false) (take k vs)

pick-IsFirst :
    (sel : Selector) (i : ℕ) (vs : List Object) (j : ℕ) (o : Object)
    → pick sel i vs ≡ ok (j, o)
    → (k : ℕ) × (j ≡ i + k) × IsFirst sel vs k o
unfolding pick
pick-IsFirst sel i [] j o h = cc
pick-IsFirst sel i (v ∷ vs) j o h = elim (Bool-cases (selects sel v)) [
  | inl here ↦ (0, ground arith, (ground arith, ground arith, tt))
  | inr later ↦
      let (k, at, (found, match, before)) = pick-IsFirst sel (suc i) vs j o (ground arith) in
      (suc k, omega arith, (found, match, (later, before)))
]

pick-err :
    (sel : Selector) (i : ℕ) (vs : List Object) (e : StoreError)
    → pick sel i vs ≡ err e
    → (e ≡ not_found) × All (λ v. selects sel v ≡ false) vs
unfolding pick
pick-err sel i [] e h = (cc, tt)
pick-err sel i (v ∷ vs) e h = ground (arith, pick-err sel (suc i) vs e)

pick-ne-several : (sel : Selector) (i : ℕ) (vs : List Object) → pick sel i vs ≢ err several_variants
unfolding pick
pick-ne-several sel i [] h = cc
pick-ne-several sel i (v ∷ vs) h = ground (arith, pick-ne-several sel (suc i) vs)

pick-not_found :
    (sel : Selector) (i : ℕ) (vs : List Object)
    → All (λ v. selects sel v ≡ false) vs
    → pick sel i vs ≡ err not_found
unfolding pick
pick-not_found sel i [] h = refl
pick-not_found sel i (v ∷ vs) (p, h) = ground (arith, pick-not_found sel (suc i) vs h)

-- What a successful lookup returns: for the zero selector the one variant there is, else the first
-- that the selector matches.
abbrev pub IsMeant : Selector → List Object → ℕ → Object → Type 0
IsMeant sel vs i o =
    ((is_zero sel ≡ true) × (i ≡ 0) × (vs ≡ o ∷ [])) ⊎ ((is_zero sel ≡ false) × IsFirst sel vs i o)

pick-IsFirst_zero :
    (sel : Selector) (vs : List Object) (i : ℕ) (o : Object)
    → pick sel 0 vs ≡ ok (i, o)
    → IsFirst sel vs i o
pick-IsFirst_zero sel vs i o h =
    let (k, at, first) = pick-IsFirst sel 0 vs i o h in
    let same : k ≡ i = omega arith in subst (λ n. IsFirst sel vs n o) same first

find_in-IsMeant :
    (sel : Selector) (vs : List Object) (i : ℕ) (o : Object)
    → find_in sel vs ≡ ok (i, o)
    → IsMeant sel vs i o
unfolding find_in
find_in-IsMeant sel [] i o h = cc
find_in-IsMeant sel (v ∷ []) i o h = elim (Bool-cases (is_zero sel)) [
  | inl z ↦ inl (z, ground arith, ground arith)
  | inr nz ↦ inr (nz, pick-IsFirst_zero sel (v ∷ []) i o (ground arith))
]
find_in-IsMeant sel (v ∷ (w ∷ vs)) i o h = elim (Bool-cases (is_zero sel)) [
  | inl z ↦ ground arith
  | inr nz ↦ inr (nz, pick-IsFirst_zero sel (v ∷ (w ∷ vs)) i o (ground arith))
]

-- A lookup that succeeds returns the variant that the selector means, with its index among the
-- variants of the name: with no selector the only one, else the first that it matches.
pub find-IsMeant :
    (id : String) (sel : Selector) (s : Store) (i : ℕ) (o : Object)
    → find id sel s ≡ ok (i, o)
    → IsMeant sel (variants id s) i o
unfolding find
find-IsMeant id sel s i o h = find_in-IsMeant sel (variants id s) i o h

find_in-several_iff :
    (sel : Selector) (vs : List Object)
    → (find_in sel vs ≡ err several_variants) ↔ ((is_zero sel ≡ true) × (2 ≤ length vs))
unfolding find_in
find_in-several_iff sel [] = ground arith
find_in-several_iff sel (v ∷ []) = ground (arith, pick-ne-several sel 0 (v ∷ []))
find_in-several_iff sel (v ∷ (w ∷ vs)) = elim (Bool-cases (is_zero sel)) [
  | inl z ↦ (λ _. (z, omega arith), λ _. rw z)
  | inr nz ↦ ground (arith, pick-ne-several sel 0 (v ∷ (w ∷ vs)))
]

-- A lookup by a name asks for a choice exactly when no selector is given and the name holds two
-- variants or more.
pub find-several_iff :
    (id : String) (sel : Selector) (s : Store)
    → (find id sel s ≡ err several_variants) ↔ ((is_zero sel ≡ true) × (2 ≤ length (variants id s)))
unfolding find
find-several_iff id sel s = find_in-several_iff sel (variants id s)

nonempty-choice {ℓ κ} :
    {A : Type ℓ} {P Q : Type κ} (x : A) (xs : List A) → ((x ∷ xs) ≡ []) ⊎ (P × Q) → Q
nonempty-choice x xs (inl e) = cc
nonempty-choice x xs (inr (p, q)) = q

find_in-not_found_iff :
    (sel : Selector) (vs : List Object)
    → (find_in sel vs ≡ err not_found)
      ↔ ((vs ≡ []) ⊎ ((is_zero sel ≡ false) × All (λ v. selects sel v ≡ false) vs))
unfolding find_in
find_in-not_found_iff sel [] = ground arith
find_in-not_found_iff sel (v ∷ []) = elim (Bool-cases (is_zero sel)) [
  | inl z ↦ ground arith
  | inr nz ↦ (
    λ h. inr (nz, (pick-err sel 0 (v ∷ []) not_found (rw nz at h)).1),
    λ h. rw nz (pick-not_found sel 0 (v ∷ []) (nonempty-choice v [] h)),
  )
]
find_in-not_found_iff sel (v ∷ (w ∷ vs)) = elim (Bool-cases (is_zero sel)) [
  | inl z ↦ ground arith
  | inr nz ↦ (
    λ h. inr (nz, (pick-err sel 0 (v ∷ (w ∷ vs)) not_found (rw nz at h)).1),
    λ h. rw nz (pick-not_found sel 0 (v ∷ (w ∷ vs)) (nonempty-choice v (w ∷ vs) h)),
  )
]

-- A lookup answers "not found" exactly when the name holds no variant, or a selector is given and
-- matches none of them.
pub find-not_found_iff :
    (id : String) (sel : Selector) (s : Store)
    → (find id sel s ≡ err not_found) ↔ (
        (variants id s ≡ [])
        ⊎ ((is_zero sel ≡ false) × All (λ v. selects sel v ≡ false) (variants id s)))
unfolding find
find-not_found_iff id sel s = find_in-not_found_iff sel (variants id s)
