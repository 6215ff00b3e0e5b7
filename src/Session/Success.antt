-- ===== src/Session/Success.antt =====
-- A handler of internal/testserver/testserver.go that answers with success has gone through each of its checks.
use hush_hush_cli.Prelude.{
  String, ◌≡◌, refl, ap, ◌∙◌, Bool, true, false, ltb, Result, ok, err, ◌>>=◌, map_err, Bool-cases,
  inl, inr,
}
use hush_hush_cli.Server.Types.{Time, Store}
use hush_hush_cli.Server.Http.Defs.{Response, reply, aborted}
use hush_hush_cli.Server.Http.Flow.{
  Answer, answer, refuse_if, require_write_token, has_write_token, unauthorized,
}

-- Whether an answer is of success.
abbrev pub is_success : Response → Bool
is_success (reply status body total) = ltb status 300
is_success aborted = false

-- A step whose early return is not of success.
abbrev pub Fails {ℓ} : {A : Type ℓ} → Result Response A → Type 0
Fails (ok a) = Unit
Fails (err r) = is_success r ≡ false

pub refuse_if-Fails : (b : Bool) (r : Response) → is_success r ≡ false → Fails (refuse_if b r)
refuse_if-Fails true r h = h
refuse_if-Fails false r h = tt

pub map_err-Fails {ℓ κ} :
    {E : Type ℓ} {A : Type κ} (f : E → Response) (m : Result E A)
    → ((e : E) → is_success (f e) ≡ false)
    → Fails (map_err f m)
map_err-Fails f (ok a) h = tt
map_err-Fails f (err e) h = h e

-- A chain that answers with success has passed its first step.
pub passed {ℓ} :
    {A : Type ℓ} (s : Store) (a : Answer) (m : Result Response A) (f : A → Result Response Answer)
    → is_success a.0 ≡ true
    → Fails m
    → answer s (m >>= f) ≡ a
    → (x : A) × (m ≡ ok x) × (answer s (f x) ≡ a)
passed s a (ok x) f good fails went = (x, refl, went)
passed s a (err r) f good fails went =
    let bad : is_success r ≡ true = ap (λ (b : Answer). is_success b.0) went ∙ good in cc

pub mapped-passed {ℓ κ} :
    {E : Type ℓ} {A : Type κ} (g : E → Response) (m : Result E A) {x : A}
    → map_err g m ≡ ok x
    → m ≡ ok x
mapped-passed g (ok y) h = cc
mapped-passed g (err e) h = cc

-- A handler behind the check of the write token that answers with success was run.
pub guarded-passed :
    (now : Time) (authorization : String) (next : Store → Answer) (s : Store) (a : Answer)
    → is_success a.0 ≡ true
    → require_write_token now authorization next s ≡ a
    → next s ≡ a
unfolding require_write_token
guarded-passed now authorization next s a good went =
    elim (Bool-cases (has_write_token now authorization s)) [
      | inl held ↦ rw held at went
      | inr refused ↦
          let refusal : (unauthorized, s) ≡ a = rw refused at went in
          let bad : false ≡ true = ap (λ (b : Answer). is_success b.0) refusal ∙ good in cc
    ]
