-- ===== src/Client/Op.antt =====
-- Calls in sequence: a computation of internal/client or internal/cli that may fail, over the world that
-- its calls change. An error ends it with the world as the failed call left it.
use hush_hush_cli.Prelude.{◌≡◌, refl, ap, Result, ok, err, ok-injective}
use hush_hush_cli.Client.Errors.{Err, SdkError}
use hush_hush_cli.Client.Sdk.{Call}

abbrev pub Op {ℓ κ} : Type ℓ → Type κ → Type (ℓ ⊔ κ)
Op W A = W → Result Err A × W

-- What follows a call, by its answer.
abbrev pub continue {ℓ κ μ} :
    {W : Type ℓ} {A : Type κ} {B : Type μ} → (A → Op W B) → Result Err A × W → Result Err B × W
continue next (ok a, w) = next a w
continue next (err e, w) = (err e, w)

infixl 5 ◌>>=◌
abbrev pub ◌>>=◌ {ℓ κ μ} : {W : Type ℓ} {A : Type κ} {B : Type μ} → Op W A → (A → Op W B) → Op W B
(m >>= next) w = continue next (m w)

abbrev pub done {ℓ κ} : {W : Type ℓ} {A : Type κ} → A → Op W A
done a w = (ok a, w)

abbrev pub failed {ℓ κ} : {W : Type ℓ} {A : Type κ} → Err → Op W A
failed e w = (err e, w)

abbrev pub from_result {ℓ κ} : {W : Type ℓ} {A : Type κ} → Result Err A → Op W A
from_result r w = (r, w)

abbrev pub mapped {ℓ κ} :
    {W : Type ℓ} {A : Type κ} → (SdkError → Err) → Result SdkError A × W → Result Err A × W
mapped f (ok a, w) = (ok a, w)
mapped f (err e, w) = (err (f e), w)

-- A call of the SDK whose error is mapped.
abbrev pub calling {ℓ κ} : {W : Type ℓ} {A : Type κ} → (SdkError → Err) → Call W A → Op W A
calling f call w = mapped f (call w)

abbrev pub wrapped_reply {ℓ κ} :
    {W : Type ℓ} {A : Type κ} → (Err → Err) → Result Err A × W → Result Err A × W
wrapped_reply f (ok a, w) = (ok a, w)
wrapped_reply f (err e, w) = (err (f e), w)

-- `if err != nil { return fmt.Errorf("...: %w", err) }`
abbrev pub wrapping {ℓ κ} : {W : Type ℓ} {A : Type κ} → (Err → Err) → Op W A → Op W A
wrapping f op w = wrapped_reply f (op w)

-- A sequence that ends well went well at its first call.
continue-ok {ℓ κ μ} :
    {W : Type ℓ} {A : Type κ} {B : Type μ} (reply : Result Err A × W) (next : A → Op W B) {b : B}
    {w' : W}
    → continue next reply ≡ (ok b, w')
    → (a : A) × (w1 : W) × (reply ≡ (ok a, w1)) × (next a w1 ≡ (ok b, w'))
continue-ok (err e, w) next went = cc
continue-ok (ok a, w) next went = (a, w, refl, went)

pub >>=-ok {ℓ κ μ} :
    {W : Type ℓ} {A : Type κ} {B : Type μ} (m : Op W A) (next : A → Op W B) (w : W) {b : B} {w' : W}
    → (m >>= next) w ≡ (ok b, w')
    → (a : A) × (w1 : W) × (m w ≡ (ok a, w1)) × (next a w1 ≡ (ok b, w'))
>>=-ok m next w went = continue-ok (m w) next went

-- Naming an error, or mapping it, leaves what went well.
pub wrapped_reply-ok {ℓ κ} :
    {W : Type ℓ} {A : Type κ} (f : Err → Err) (reply : Result Err A × W) {a : A} {w' : W}
    → wrapped_reply f reply ≡ (ok a, w')
    → reply ≡ (ok a, w')
wrapped_reply-ok f (err e, w) went = cc
wrapped_reply-ok f (ok a, w) went = went

pub mapped-ok {ℓ κ} :
    {W : Type ℓ} {A : Type κ} (f : SdkError → Err) (reply : Result SdkError A × W) {a : A} {w' : W}
    → mapped f reply ≡ (ok a, w')
    → reply ≡ (ok a, w')
mapped-ok f (err e, w) went = cc
mapped-ok f (ok a, w) went = cc

-- What a reply that is known tells of its value and its world.
pub reply-injective {ℓ κ} :
    {W : Type ℓ} {A : Type κ} {a b : A} {w w' : W}
    → ◌≡◌ {A = Result Err A × W} (ok a, w) (ok b, w')
    → (a ≡ b) × (w ≡ w')
reply-injective h = (ok-injective (ap (λ p. p.0) h), ap (λ p. p.1) h)
