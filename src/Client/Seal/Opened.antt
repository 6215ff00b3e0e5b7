-- ===== src/Client/Seal/Opened.antt =====
-- What is sealed to one's key is opened with one's identities: Seal and then Unseal of internal/seal.
use hush_hush_cli.Prelude.{
  ℕ, String, ◌≡◌, refl, sym, ap, ◌∙◌, true, List, [], ◌∷◌, map, Result, ok, err, map_err, ◌>>=◌,
  >>=-eq-ok, ok-injective, eq_iff, ◌==◌, Bool-cases, inl, inr, arith, subst,
}
use hush_hush_cli.Prelude.Text.{member}
use hush_hush_cli.Client.Errors.{Err, wrap}
use hush_hush_cli.Client.Seal.{parse_recipients, seal, parse_identities, unseal}

-- One of the items.
pub data Among {ℓ} {A : Type ℓ} (x : A) : List A → Type ℓ where
  first : (xs : List A) → Among x (x ∷ xs)
  later : (y : A) (xs : List A) → Among x xs → Among x (y ∷ xs)

pub map_err-ok {ℓ κ μ} :
    {E : Type ℓ} {F : Type κ} {A : Type μ} (f : E → F) (r : Result E A) {a : A}
    → map_err f r ≡ ok a
    → r ≡ ok a
map_err-ok f (ok b) h = cc
map_err-ok f (err e) h = cc

module _ {ℓ} {R : Type ℓ} (parse_recipient : String → Result Err R)
    (encrypt : List R → List ℕ → Result Err (List ℕ)) where
  -- A key is parsed before the others.
  parsed_parts :
      (key : String) (keys : List String) (rs : List R)
      → parse_recipients parse_recipient encrypt (key ∷ keys) ≡ ok rs
      → (r : R) × (others : List R) × (parse_recipient key ≡ ok r)
        × (parse_recipients parse_recipient encrypt keys ≡ ok others)
        × (r ∷ others ≡ rs)
  unfolding parse_recipients
  parsed_parts key keys rs parsed =
      let (r, known, rest) =
        >>=-eq-ok (map_err (wrap "parse recipient") (parse_recipient key))
          (λ r. parse_recipients parse_recipient encrypt keys >>= λ others. ok (r ∷ others))
          parsed in
      let (others, parsed_others, last) =
        >>=-eq-ok (parse_recipients parse_recipient encrypt keys) (λ others. ok (r ∷ others))
          rest in
      (
        r,
        others,
        map_err-ok (wrap "parse recipient") (parse_recipient key) known,
        parsed_others,
        ok-injective last,
      )

  module _ (mine : String) (me : R) (parses : parse_recipient mine ≡ ok me) where
    parsed_mine :
        (keys : List String) (rs : List R)
        → member mine keys ≡ true
        → parse_recipients parse_recipient encrypt keys ≡ ok rs
        → Among me rs
    unfolding member
    parsed_mine [] rs there parsed = cc
    parsed_mine (key ∷ keys) rs there parsed =
        let (r, others, known, parsed_others, same) = parsed_parts key keys rs parsed in
        elim (Bool-cases (key == mine)) [
          | inl here ↦
              let found : me ≡ r =
                ok-injective
                  (sym parses ∙ ap parse_recipient (sym ((eq_iff key mine).0 here)) ∙ known) in
              subst (Among me) (ap (λ x. x ∷ others) found ∙ same) (first others)
          | inr other ↦
              subst (Among me) same
                (later r others (parsed_mine keys others (ground arith) parsed_others))
        ]

module _ {ℓ κ μ} {R : Type ℓ} {I : Type κ} {Stream : Type μ}
    (parse_recipient : String → Result Err R) (encrypt : List R → List ℕ → Result Err (List ℕ))
    (parse_identity : String → Result Err I) (decrypt : List I → List ℕ → Result Err Stream)
    (read_all : Stream → Result Err (List ℕ)) (mine : String) (me : R)
    (parses : parse_recipient mine ≡ ok me) (identities : List String) (is : List I)
    (parses_all : map parse_identity identities ≡ map ok is)
    (opens : (rs : List R) (value bytes : List ℕ)
      → Among me rs
      → encrypt rs value ≡ ok bytes
      → (stream : Stream) × (decrypt is bytes ≡ ok stream) × (read_all stream ≡ ok value)) where
  identities_parsed :
      (names : List String) (found : List I)
      → map parse_identity names ≡ map ok found
      → parse_identities parse_identity decrypt read_all names ≡ ok found
  unfolding parse_identities
  identities_parsed [] [] h = refl
  identities_parsed [] (i ∷ found) h = cc
  identities_parsed (name ∷ names) [] h = cc
  identities_parsed (name ∷ names) (i ∷ found) h =
      let known : parse_identity name ≡ ok i = cc in
      rw (known, identities_parsed names found (cc)) refl

  -- What is sealed to keys with `mine` among them is opened with the identities.
  pub unseal-seal :
      (keys : List String) (value bytes : List ℕ)
      → member mine keys ≡ true
      → seal parse_recipient encrypt value keys ≡ ok bytes
      → unseal parse_identity decrypt read_all bytes identities ≡ ok value
  unfolding seal unseal
  unseal-seal keys value bytes there sealed =
      let (rs, parsed, encrypted) =
        >>=-eq-ok (parse_recipients parse_recipient encrypt keys) (λ rs. encrypt rs value) sealed in
      let (stream, decrypted, whole) =
        opens rs value bytes
          (parsed_mine parse_recipient encrypt mine me parses keys rs there parsed) encrypted in
      rw (identities_parsed identities is parses_all, decrypted, whole) refl
