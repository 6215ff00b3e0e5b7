-- ===== src/Client/Sdk.antt =====
-- The calls of the hush-hush-go SDK that internal/client makes. The SDK is not part of the repository: it is
-- a parameter, with the world `W` behind it as a state that each call may change.
use hush_hush_cli.Prelude.{Result}
use hush_hush_cli.Client.Errors.{SdkError}

abbrev pub Call {ℓ κ} : Type ℓ → Type κ → Type (ℓ ⊔ κ)
Call W A = W → Result SdkError A × W
