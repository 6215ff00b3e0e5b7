-- ===== src/Prelude/Results.antt =====
-- Go's `(value, error)` pairs, of which the source returns either a value or an error.
use mathlib.Core.Path.{◌≡◌, refl, subst}
use mathlib.Core.Option.{Option, none, some}
use mathlib.Core.Bool.{Bool, true, false}
use mathlib.Core.Logic.{◌⊎◌, inl, inr}

pub data Result {ℓ κ} (E : Type ℓ) (A : Type κ) : Type (ℓ ⊔ κ) where
  ok : A → Result E A
  err : E → Result E A

infixl 5 ◌>>=◌
abbrev pub ◌>>=◌ {ℓ κ μ} :
    {E : Type ℓ} {A : Type κ} {B : Type μ} → Result E A → (A → Result E B) → Result E B
err failure >>= next = err failure
ok value >>= next = next value

-- What a caller makes of an error on its way up: `fmt.Errorf("...: %w", err)`.
abbrev pub map_err {ℓ κ μ} :
    {E : Type ℓ} {F : Type κ} {A : Type μ} → (E → F) → Result E A → Result F A
map_err f (ok a) = ok a
map_err f (err e) = err (f e)

abbrev pub map_ok {ℓ κ μ} :
    {E : Type ℓ} {A : Type κ} {B : Type μ} → (A → B) → Result E A → Result E B
map_ok f (ok a) = ok (f a)
map_ok f (err e) = err e

-- A lookup that a caller cannot do without: `if !ok { return err }`.
abbrev pub found_or {ℓ κ} : {E : Type ℓ} {A : Type κ} → E → Option A → Result E A
found_or e none = err e
found_or e (some a) = ok a

abbrev pub is_ok {ℓ κ} : {E : Type ℓ} {A : Type κ} → Result E A → Bool
is_ok (ok a) = true
is_ok (err e) = false

-- A chain that ends well went well at its first step.
pub >>=-eq-ok {ℓ κ μ} :
    {E : Type ℓ} {A : Type κ} {B : Type μ} (first : Result E A) (next : A → Result E B) {last : B}
    → (first >>= next) ≡ ok last
    → (x : A) × (first ≡ ok x) × (next x ≡ ok last)
>>=-eq-ok (err failure) next went = cc
>>=-eq-ok (ok x) next went = (x, refl, went)

pub ok-injective {ℓ κ} :
    {E : Type ℓ} {A : Type κ} {a b : A} → ◌≡◌ {A = Result E A} (ok a) (ok b) → a ≡ b
ok-injective h = cc

pub Result-cases {ℓ κ} :
    {E : Type ℓ} {A : Type κ} (r : Result E A) → ((a : A) × (r ≡ ok a)) ⊎ ((e : E) × (r ≡ err e))
Result-cases (ok a) = inl (a, refl)
Result-cases (err e) = inr (e, refl)

pub found_or-eq-ok {ℓ κ} :
    {E : Type ℓ} {A : Type κ} (e : E) (o : Option A) (a : A) → found_or e o ≡ ok a → o ≡ some a
found_or-eq-ok e none a h = cc
found_or-eq-ok e (some b) a h = cc

-- What holds of a successful result.
abbrev pub OnOk {ℓ κ μ} : {E : Type ℓ} {A : Type κ} → (A → Type μ) → Result E A → Type μ
OnOk P (ok a) = P a
OnOk P (err e) = Unit

-- A chain's successful results have what every last step gives.
pub OnOk-bind {ℓ κ μ ν} :
    {E : Type ℓ} {A : Type κ} {B : Type μ} (P : B → Type ν) (m : Result E A) (f : A → Result E B)
    → ((a : A) → m ≡ ok a → OnOk P (f a))
    → OnOk P (m >>= f)
OnOk-bind P (ok a) f h = h a refl
OnOk-bind P (err e) f h = tt

pub OnOk-apply {ℓ κ μ} :
    {E : Type ℓ} {A : Type κ} (P : A → Type μ) (r : Result E A) (a : A) → OnOk P r → r ≡ ok a → P a
OnOk-apply P (ok b) a h e = subst P (ok-injective e) h
OnOk-apply P (err x) a h e = cc

-- A step that may fail, with its error turned into the caller's, before a last step.
pub OnOk-step {ℓ κ μ ν ξ ρ} :
    {E : Type ℓ} {F : Type κ} {A : Type μ} {B : Type ν} (P : A → Type ξ) (Q : B → Type ρ)
    (g : E → F) (m : Result E A) (f : A → Result F B)
    → OnOk P m
    → ((a : A) → P a → OnOk Q (f a))
    → OnOk Q (map_err g m >>= f)
OnOk-step P Q g (ok a) f p h = h a p
OnOk-step P Q g (err e) f p h = tt

pub OnOk-with {ℓ κ μ ν} :
    {E : Type ℓ} {A : Type κ} (P : A → Type μ) (Q : A → Type ν) (r : Result E A)
    → OnOk P r
    → OnOk (λ a. P a → Q a) r
    → OnOk Q r
OnOk-with P Q (ok a) p h = h p
OnOk-with P Q (err e) p h = tt

pub OnOk-map_ok {ℓ κ μ ν} :
    {E : Type ℓ} {A : Type κ} {B : Type μ} (P : B → Type ν) (f : A → B) (r : Result E A)
    → OnOk (λ a. P (f a)) r
    → OnOk P (map_ok f r)
OnOk-map_ok P f (ok a) h = h
OnOk-map_ok P f (err e) h = tt

pub OnOk-always {ℓ κ μ} :
    {E : Type ℓ} {A : Type κ} {P : Type μ} → P → (r : Result E A) → OnOk (λ _. P) r
OnOk-always p (ok a) = p
OnOk-always p (err e) = tt
