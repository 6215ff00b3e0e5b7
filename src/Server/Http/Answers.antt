-- ===== src/Server/Http/Answers.antt =====
-- Chains of a handler whose every end is an answer.
pub mod Handlers
pub mod Listed
pub mod Served
use hush_hush_cli.Prelude.{
  String, ◌≡◌, refl, Bool, true, false, not, ◌||◌, ◌&&◌, Option, none, some, Result, ok, err, ◌>>=◌,
  map_err, Bool-cases, inl, inr, arith,
}
use hush_hush_cli.Server.Types.{Time, Store, StoreError, several_variants}
use hush_hush_cli.Server.Requests.{Query, Message}
use hush_hush_cli.Server.Tokens.{Bearer, fault, rejected, bound, consumer_for_token}
use hush_hush_cli.Server.Tokens.Indexed.{IsIndexed, consumer_for_token-no_fault}
use hush_hush_cli.Server.Http.Defs.{Env, Request, Endpoint, Response, reply, aborted}
use hush_hush_cli.Server.Http.Flow.{
  Answer, answer, require_write_token, has_write_token, decoded, refuse_if, ◌>>◌, selected,
  variant_error, bearer_value, unauthorized,
}
use hush_hush_cli.Server.Http.Objects.{read_scope}

-- Whether the client is sent an answer.
abbrev pub is_answer : Response → Bool
is_answer (reply status body total) = true
is_answer aborted = false

-- A chain whose early returns, and whose end, are answers.
abbrev pub Answers : Result Response Answer → Type 0
Answers (ok a) = is_answer a.0 ≡ true
Answers (err r) = is_answer r ≡ true

-- A step whose early returns are answers.
abbrev pub Returns {ℓ} : {A : Type ℓ} → Result Response A → Type 0
Returns (ok a) = Unit
Returns (err r) = is_answer r ≡ true

pub answered :
    (s : Store) (m : Result Response Answer) → Answers m → is_answer (answer s m).0 ≡ true
answered s (ok a) h = h
answered s (err r) h = h

pub then-Answers {ℓ} :
    {A : Type ℓ} (m : Result Response A) (f : A → Result Response Answer)
    → Returns m
    → ((a : A) → Answers (f a))
    → Answers (m >>= f)
then-Answers (ok a) f h k = k a
then-Answers (err r) f h k = h

pub refusing :
    (b : Bool) (r : Response) (m : Result Response Answer)
    → is_answer r ≡ true
    → Answers m
    → Answers (refuse_if b r >> m)
refusing true r m h k = h
refusing false r m h k = k

pub decoding {ℓ} :
    {A : Type ℓ} (r : Response) (body : Option A) → is_answer r ≡ true → Returns (decoded r body)
decoding r none h = h
decoding r (some a) h = tt

pub mapping {ℓ κ} :
    {E : Type ℓ} {A : Type κ} (f : E → Response) (m : Result E A)
    → ((e : E) → is_answer (f e) ≡ true)
    → Returns (map_err f m)
mapping f (ok a) h = tt
mapping f (err e) h = h e

pub selecting : (q : Query) → Returns (selected q)
unfolding selected
selecting q = mapping _ _ (λ e. refl)

pub variant_answer : (e : StoreError) → is_answer (variant_error e) ≡ true
variant_answer several_variants = refl
variant_answer _ = refl

pub guarded :
    (now : Time) (authorization : String) (next : Store → Answer) (s : Store)
    → is_answer (next s).0 ≡ true
    → is_answer (require_write_token now authorization next s).0 ≡ true
unfolding require_write_token
guarded now authorization next s h = elim (Bool-cases (has_write_token now authorization s)) [
  | inl held ↦ rw held h
  | inr refused ↦ rw refused refl
]
