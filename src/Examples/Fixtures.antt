-- ===== src/Examples/Fixtures.antt =====
-- A store with one name of two variants and one of a single object, a live consumer token and a short log.
use hush_hush_cli.Prelude.{
  ℕ, String, ◌≡◌, true, false, none, some, [], ◌∷◌, arith, eq_iff, ◌==◌, ap, subst, ◌≢◌, Bool-cases,
  inl, inr,
}
use hush_hush_cli.Prelude.Map.{lookup}
use hush_hush_cli.Server.Types.{Object, TokenRecord, AuditLogEntry, Store, Selector}
use hush_hush_cli.Server.Audit.Pages.{IsNumbered}
use hush_hush_cli.Server.Objects.Owned.{IsOwned}
use hush_hush_cli.Server.Tokens.Indexed.{IsIndexed}

abbrev pub app_object : Object
app_object = record {
  id = "u1";
  value = 1 ∷ 2 ∷ [];
  used_by = "app" ∷ "web" ∷ [];
  description = "";
  tags = "prod" ∷ [];
  created_at = 5;
  updated_at = 5;
}

abbrev pub web_object : Object
web_object = record {
  id = "u2";
  value = 3 ∷ [];
  used_by = "web" ∷ [];
  description = "";
  tags = [];
  created_at = 6;
  updated_at = 6;
}

abbrev pub lone_object : Object
lone_object = record {
  id = "u3";
  value = 4 ∷ [];
  used_by = "app" ∷ [];
  description = "";
  tags = [];
  created_at = 7;
  updated_at = 7;
}

abbrev pub app_token : TokenRecord
app_token = record {
  id = "t1";
  consumer = "app";
  description = "";
  created_at = 10;
  expires_at = 500;
  last_used_at = none;
  revoked = false;
  value = "consumer-app-x";
}

abbrev pub entry : ℕ → String → AuditLogEntry
entry n name = record {
  id = n;
  object_id = name;
  action = "read";
  timestamp = 20;
  caller = none;
  ip = "::1";
  actor_type = none;
  actor_id = none;
}

abbrev pub full : Store
full = record {
  objects = ("db", app_object) ∷ ("key", lone_object) ∷ [];
  extra = ("db", web_object ∷ []) ∷ [];
  tokens = ("cli-a", 1000) ∷ [];
  audit_log = entry 1 "db" ∷ entry 2 "key" ∷ entry 3 "db" ∷ [];
  audit_seq = 3;
  bootstrapped = true;
  environment = "";
  consumers = ("app", none) ∷ ("web", some "age1web") ∷ [];
  consumer_tokens = ("t1", app_token) ∷ [];
  consumer_token_values = ("consumer-app-x", "t1") ∷ [];
  owner_public_key = "";
}

abbrev pub any_variant : Selector
any_variant = record { id = ""; consumer = "" }

abbrev pub of_web : Selector
of_web = record { id = "u2"; consumer = "" }

pub full-IsNumbered : IsNumbered full
full-IsNumbered = record {
  growing = ((omega arith, (omega arith, tt)), ((omega arith, tt), (tt, tt)));
  bounded = (omega arith, (omega arith, (omega arith, tt)));
  positive = (omega arith, (omega arith, (omega arith, tt)));
}

pub full-IsOwned : IsOwned full
unfolding lookup
full-IsOwned = record { owner = λ k e. ground arith; nonempty = λ k e. ground arith }

pub full-IsIndexed : IsIndexed full
unfolding lookup
full-IsIndexed = record {
  sound = λ value id e.
      (app_token, ground (arith, eq_iff "t1" id), ground (arith, eq_iff "consumer-app-x" value));
  complete = λ id t e. elim (Bool-cases ("t1" == id)) [
    | inl here ↦
        let same : app_token ≡ t = ground arith in
        let named : some "t1" ≡ some id = ap some ((eq_iff "t1" id).0 here) in
        subst (λ u. lookup u.value full.consumer_token_values ≡ some id) same named
    | inr other ↦ ground arith
  ];
}

pub names_apart : (a b : String) → (a == b) ≡ false → a ≢ b
names_apart a b h e = ground (arith, eq_iff a b)
