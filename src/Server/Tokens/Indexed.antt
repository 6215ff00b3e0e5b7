-- ===== src/Server/Tokens/Indexed.antt =====
-- The two maps of consumer tokens in internal/testserver/testserver.go: records by id, and ids by the
-- value that a request presents.
use hush_hush_cli.Prelude.{
  String, ◌≡◌, refl, sym, ◌∙◌, ◌≢◌, true, not, ◌&&◌, none, some, arith, eq_iff, eq_refl, ◌==◌, OnOk,
  OnOk-bind, found_or, found_or-eq-ok, Bool-cases, Option-cases, inl, inr, ltb,
}
use hush_hush_cli.Prelude.Int.{ℤ}
use hush_hush_cli.Prelude.Map.{Map, lookup, put, remove, lookup-put, lookup-remove}
use hush_hush_cli.Server.Types.{Time, TokenRecord, Store, consumer_token_not_found}
use hush_hush_cli.Server.Tokens.{
  issue_consumer_token, rotate_consumer_token, revoke_consumer_token, revoked_at,
  purge_consumer_token, rotated, token_value, is_dead, consumer_for_token, fault, bearer_of,
}

-- Every indexed value has its record, and every record is indexed by its value.
pub record Indexed (records : Map TokenRecord) (index : Map String) : Type 0 where
  pub sound :
      (value id : String)
      → lookup value index ≡ some id
      → (t : TokenRecord) × (lookup id records ≡ some t) × (t.value ≡ value)
  pub complete :
      (id : String) (t : TokenRecord) → lookup id records ≡ some t → lookup t.value index ≡ some id

abbrev pub IsIndexed : Store → Type 0
IsIndexed s = Indexed s.consumer_tokens s.consumer_token_values

module _ (records : Map TokenRecord) (index : Map String) (h : Indexed records index) where
  -- A new record under a new id, with a value that is not in use.
  put-Indexed :
      (id : String) (t : TokenRecord)
      → lookup id records ≡ none
      → lookup t.value index ≡ none
      → Indexed (put id t records) (put t.value id index)
  put-Indexed id t fresh unused = record {
    sound = λ value j e. elim (Bool-cases (t.value == value)) [
      | inl same ↦ (
        t,
        ground (arith, lookup-put t.value value id index, lookup-put id j t records, eq_iff id j),
        (eq_iff t.value value).0 same,
      )
      | inr other ↦
          let (u, found, own) =
            h.sound value j (ground (arith, lookup-put t.value value id index)) in
          (u, ground (arith, eq_iff id j, lookup-put id j t records), own)
    ];
    complete = λ j u e. elim (Bool-cases (id == j)) [
      | inl same ↦ ground (
        arith,
        lookup-put id j t records,
        eq_iff id j,
        lookup-put t.value u.value id index,
        eq_iff t.value u.value,
      )
      | inr other ↦
          let known = h.complete j u (ground (arith, lookup-put id j t records)) in
          ground (arith, eq_iff t.value u.value, lookup-put t.value u.value id index)
    ];
  }

  -- A record with its value goes, and the others stay.
  remove-Indexed :
      (id : String) (t : TokenRecord)
      → lookup id records ≡ some t
      → Indexed (remove id records) (remove t.value index)
  remove-Indexed id t found = record {
    sound = λ value j e.
        let (u, known, own) = h.sound value j (ground (arith, lookup-remove t.value value index)) in
        (
          u,
          ground (
            arith,
            eq_iff id j,
            eq_iff t.value value,
            lookup-remove t.value value index,
            lookup-remove id j records,
          ),
          own,
        );
    complete = λ j u e.
        let known = h.complete j u (ground (arith, lookup-remove id j records)) in
        let mine = h.complete id t found in
        ground (
          arith,
          eq_iff t.value u.value,
          eq_iff id j,
          lookup-remove t.value u.value index,
          lookup-remove id j records,
        );
  }

Indexed-ext :
    (records records' : Map TokenRecord) (index index' : Map String)
    → ((k : String) → lookup k records ≡ lookup k records')
    → ((k : String) → lookup k index ≡ lookup k index')
    → Indexed records index
    → Indexed records' index'
Indexed-ext records records' index index' same same' h = record {
  sound = λ value j e.
      let (u, known, own) = h.sound value j (same' value ∙ e) in (u, sym (same j) ∙ known, own);
  complete = λ j u e. sym (same' u.value) ∙ h.complete j u (same j ∙ e);
}

put-remove {ℓ} :
    {V : Type ℓ} (id k : String) (v : V) (m : Map V)
    → lookup k (put id v (remove id m)) ≡ lookup k (put id v m)
put-remove id k v m =
    ground (
      arith,
      eq_iff id k,
      lookup-put id k v m,
      lookup-put id k v (remove id m),
      lookup-remove id k m,
    )

put-remove_same :
    (value k id : String) (m : Map String)
    → lookup value m ≡ some id
    → lookup k (put value id (remove value m)) ≡ lookup k m
put-remove_same value k id m e =
    ground (arith, eq_iff value k, lookup-put value k id (remove value m), lookup-remove value k m)

remove_self {ℓ} : {V : Type ℓ} (id : String) (m : Map V) → lookup id (remove id m) ≡ none
remove_self id m = ground (arith, lookup-remove id id m, eq_refl id)

-- A record is replaced under its id, and its value by one that is not in use.
replace-Indexed :
    (records : Map TokenRecord) (index : Map String) (id : String) (t t' : TokenRecord)
    → Indexed records index
    → lookup id records ≡ some t
    → lookup t'.value (remove t.value index) ≡ none
    → Indexed (put id t' records) (put t'.value id (remove t.value index))
replace-Indexed records index id t t' h found unused =
    Indexed-ext _ _ _ _ (λ k. put-remove id k t' records) (λ k. refl)
      (put-Indexed _ _ (remove-Indexed records index h id t found) id t' (remove_self id records)
        unused)

-- Issuing keeps the maps consistent, for an id and a value that are not in use.
pub issue_consumer_token-IsIndexed :
    (new_id suffix : String) (now : Time) (consumer description : String) (ttl : ℤ) (s : Store)
    → IsIndexed s
    → lookup new_id s.consumer_tokens ≡ none
    → lookup (token_value consumer suffix) s.consumer_token_values ≡ none
    → IsIndexed (issue_consumer_token new_id suffix now consumer description ttl s).1
unfolding issue_consumer_token
issue_consumer_token-IsIndexed new_id suffix now consumer description ttl s h fresh unused =
    put-Indexed s.consumer_tokens s.consumer_token_values h new_id _ fresh unused

-- Rotation keeps the maps consistent, for a value that is not in use.
pub rotate_consumer_token-IsIndexed :
    (suffix : String) (now : Time) (id : String) (ttl : ℤ) (s : Store)
    → IsIndexed s
    → ((consumer : String) → lookup (token_value consumer suffix) s.consumer_token_values ≡ none)
    → OnOk (λ r. IsIndexed r.1) (rotate_consumer_token suffix now id ttl s)
unfolding rotate_consumer_token rotated
rotate_consumer_token-IsIndexed suffix now id ttl s h unused =
    OnOk-bind _ (found_or consumer_token_not_found (lookup id s.consumer_tokens)) _ λ t e.
      elim (Bool-cases (is_dead now t)) [
        | inl dead ↦ rw dead tt
        | inr live ↦ rw live (
            replace-Indexed s.consumer_tokens s.consumer_token_values id t
              (rotated suffix now ttl t) h (found_or-eq-ok _ _ _ e)
              (ground (
                arith,
                unused t.consumer,
                lookup-remove t.value (token_value t.consumer suffix) s.consumer_token_values,
              )))
      ]

pub revoke_consumer_token-IsIndexed :
    (id : String) (s : Store) → IsIndexed s → IsIndexed (revoke_consumer_token id s)
unfolding revoke_consumer_token revoked_at
revoke_consumer_token-IsIndexed id s h = elim (Option-cases (lookup id s.consumer_tokens)) [
  | inl missing ↦ rw missing h
  | inr (t, found) ↦ rw found (
      Indexed-ext _ _ _ _ (λ k. refl)
        (λ k. put-remove_same t.value k id s.consumer_token_values (h.complete id t found))
        (replace-Indexed s.consumer_tokens s.consumer_token_values id t
          (record t { revoked = true }) h found (remove_self t.value s.consumer_token_values)))
]

pub purge_consumer_token-IsIndexed :
    (now : Time) (id : String) (s : Store)
    → IsIndexed s
    → OnOk IsIndexed (purge_consumer_token now id s)
unfolding purge_consumer_token
purge_consumer_token-IsIndexed now id s h =
    OnOk-bind _ (found_or consumer_token_not_found (lookup id s.consumer_tokens)) _ λ t e.
      elim (Bool-cases (not t.revoked && ltb now t.expires_at)) [
        | inl active ↦ rw active tt
        | inr done ↦ rw done (
            remove-Indexed s.consumer_tokens s.consumer_token_values h id t
              (found_or-eq-ok _ _ _ e))
      ]

-- In a store whose token values and records match, no presented value reaches an index entry whose
-- record is gone: the lookup does not fault.
pub consumer_for_token-no_fault :
    (now : Time) (value : String) (s : Store) → IsIndexed s → consumer_for_token now value s ≢ fault
unfolding consumer_for_token bearer_of
consumer_for_token-no_fault now value s h =
    elim (Option-cases (lookup value s.consumer_token_values)) [
      | inl missing ↦ rw missing (λ e. cc)
      | inr (id, known) ↦
          let (t, found, own) = h.sound value id known in rw (known, found) (ground arith)
    ]
