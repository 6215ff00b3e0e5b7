-- ===== src/Session/Calm.antt =====
-- Asking the server of internal/testserver for the owner's key changes nothing.
use hush_hush_cli.Prelude.{String, ◌≡◌, refl, ◌∙◌, Bool-cases, inl, inr}
use hush_hush_cli.Server.Types.{Time, Store}
use hush_hush_cli.Server.Http.Flow.{require_write_token, has_write_token}
use hush_hush_cli.Server.Http.Objects.{handle_auth_identity}
use hush_hush_cli.Server.Http.Mux.{serve, route}
use hush_hush_cli.Client.Remote.{Remote}
use hush_hush_cli.Session.{Hosting, Forwards, asked, bearer}

identity-keeps :
    (now : Time) (authorization : String) (s : Store)
    → (require_write_token now authorization handle_auth_identity s).1 ≡ s
unfolding require_write_token handle_auth_identity
identity-keeps now authorization s = elim (Bool-cases (has_write_token now authorization s)) [
  | inl held ↦ rw held refl
  | inr refused ↦ rw refused refl
]

pub calm {ℓ} :
    {W : Type ℓ} (h : Hosting W) (credential : String) (r : Remote W)
    → Forwards h credential r
    → (w : W) → h.store_of (r.objects.get_owner_identity w).1 ≡ h.store_of w
unfolding asked serve route
calm h credential r forwards w =
    forwards.identity_asked w ∙ identity-keeps (h.env_of w).now (bearer credential) (h.store_of w)
