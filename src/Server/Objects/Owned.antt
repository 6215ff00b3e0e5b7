-- ===== src/Server/Objects/Owned.antt =====
-- The invariant of the two maps of internal/testserver/testserver.go that hold objects: only a name
-- that has an object has further variants, and a name with further variants has one at least.
use hush_hush_cli.Prelude.{
  String, ◌≡◌, ◌≢◌, true, Option, none, some, List, [], ◌∷◌, arith, eq_iff, ◌==◌, is_some, sym, ◌∙◌,
  Bool-cases, inl, inr, ◌++◌,
}
use hush_hush_cli.Prelude.Map.{
  Map, lookup, has, put, lookup-put, lookup-remove, has-lookup, map_values, lookup-map_values,
}
use hush_hush_cli.Server.Types.{Object, Store}
use hush_hush_cli.Server.Objects.{store_variants}

pub record Owned (objects : Map Object) (extra : Map (List Object)) : Type 0 where
  pub owner : (k : String) → lookup k objects ≡ none → lookup k extra ≡ none
  pub nonempty : (k : String) → lookup k extra ≢ some []

abbrev pub IsOwned : Store → Type 0
IsOwned s = Owned s.objects s.extra

pub store_variants-IsOwned :
    (id : String) (vs : List Object) (s : Store) → IsOwned s → IsOwned (store_variants id vs s)
unfolding store_variants
store_variants-IsOwned id [] s h = record {
  owner = λ k. ground (arith, lookup-remove id k s.objects, lookup-remove id k s.extra, h.owner k);
  nonempty = λ k. ground (arith, lookup-remove id k s.extra, h.nonempty k);
}
store_variants-IsOwned id (v ∷ []) s h = record {
  owner = λ k. ground (arith, lookup-put id k v s.objects, lookup-remove id k s.extra, h.owner k);
  nonempty = λ k. ground (arith, lookup-remove id k s.extra, h.nonempty k);
}
store_variants-IsOwned id (v ∷ (w ∷ vs)) s h = record {
  owner =
      λ k. ground (arith, lookup-put id k v s.objects, lookup-put id k (w ∷ vs) s.extra, h.owner k);
  nonempty = λ k. ground (arith, lookup-put id k (w ∷ vs) s.extra, h.nonempty k);
}

append-nonempty {ℓ} :
    {A : Type ℓ} (xs : List A) (x : A) → ◌≢◌ {A = Option (List A)} (some (xs ++ x ∷ [])) (some [])
append-nonempty [] x e = cc
append-nonempty (y ∷ xs) x e = cc

-- A name that has no object after a write had none before it.
lookup-put-none {ℓ} :
    {V : Type ℓ} (id k : String) (v : V) (m : Map V)
    → lookup k (put id v m) ≡ none
    → lookup k m ≡ none
lookup-put-none id k v m e = ground (arith, lookup-put id k v m)

pub put-Owned :
    (id : String) (v : Object) (objects : Map Object) (extra : Map (List Object))
    → Owned objects extra
    → Owned (put id v objects) extra
put-Owned id v objects extra h = record {
  owner = λ k e. h.owner k (lookup-put-none id k v objects e);
  nonempty = h.nonempty;
}

-- A write under a name that one map has leaves alone the names that it has not.
lookup-put-other {ℓ κ} :
    {V : Type ℓ} {U : Type κ} (id k : String) (v : U) (m : Map V) (x : Map U)
    → has id m ≡ true
    → lookup k m ≡ none
    → lookup k (put id v x) ≡ lookup k x
lookup-put-other id k v m x known e =
    let known' : is_some (lookup id m) ≡ true = sym (has-lookup id m) ∙ known in
    ground (arith, eq_iff id k, lookup-put id k v x)

pub put_extra-Owned :
    (id : String) (vs : List Object) (v : Object) (objects : Map Object) (extra : Map (List Object))
    → has id objects ≡ true
    → Owned objects extra
    → Owned objects (put id (vs ++ v ∷ []) extra)
put_extra-Owned id vs v objects extra known h = record {
  owner = λ k e. lookup-put-other id k _ objects extra known e ∙ h.owner k e;
  nonempty = λ k. elim (Bool-cases (id == k)) [
    | inl same ↦ rw (lookup-put id k (vs ++ v ∷ []) extra, same) (λ e. append-nonempty _ _ e)
    | inr other ↦ rw (lookup-put id k (vs ++ v ∷ []) extra, other) (h.nonempty k)
  ];
}

-- A change to each object leaves the names alone.
pub map_values-Owned :
    (f : Object → Object) (objects : Map Object) (extra : Map (List Object))
    → Owned objects extra
    → Owned (map_values f objects) extra
map_values-Owned f objects extra h = record {
  owner = λ k e. h.owner k (ground (arith, lookup-map_values f k objects));
  nonempty = h.nonempty;
}
