-- ===== src/Client/Consumers.antt =====
-- The consumer directory as internal/client/consumers.go reads it.
pub mod Complete
use hush_hush_cli.Prelude.{
  ℕ, zero, suc, String, Bool, true, false, ◌||◌, Option, none, some, List, [], ◌∷◌, ◌++◌, map,
  length, if◌then◌else◌, Result, ok, err,
}
use hush_hush_cli.Prelude.Int.{ℤ, pos, wrap, ◌+ℤ◌, leb_ℤ}
use hush_hush_cli.Server.Consumers.{ConsumerEntry, ConsumersPage, ConsumerFilter}
use hush_hush_cli.Client.Errors.{Err, SdkError, map_consumer_error}
use hush_hush_cli.Client.Sdk.{Call}
use hush_hush_cli.Client.Calls.{unless_empty}

-- `hushhush.ConsumersResult`: bare names, where the page is nil, or a page. An entry and a page are those
-- of the wire.
pub data Listed : Type 0 where
  names : List String → Listed
  page : ConsumersPage → Listed

pub record Consumer : Type 0 where
  pub name : String
  pub secret_count : ℤ
  pub public_key : String

abbrev key_or_empty : Option String → String
key_or_empty none = ""
key_or_empty (some key) = key

-- `toConsumer`
unfoldable pub to_consumer : ConsumerEntry → Consumer
to_consumer e = record {
  name = e.name;
  secret_count = e.secret_count;
  public_key = key_or_empty e.public_key;
}

-- `consumersPageMax`
abbrev pub page_max : ℕ
page_max = 100

-- The filter of one request; a page number is an `int32`.
unfoldable pub page_filter : String → ℤ → ConsumerFilter
page_filter query number = record {
  q = unless_empty query;
  page = some number;
  page_size = some (pos page_max);
}

abbrev pub no_entries : List ConsumerEntry → Bool
no_entries [] = true
no_entries (e ∷ es) = false

abbrev pub Outcome {ℓ} : Type ℓ → Type ℓ
Outcome W = Option (Result Err (List Consumer) × W)

module _ {ℓ} {W : Type ℓ} where
  -- A round, by the reply, `next` being the rounds after it.
  unfoldable pub answer_listed :
      List Consumer → (List Consumer → W → Outcome W) → Result SdkError Listed × W → Outcome W
  unfolding to_consumer map_consumer_error
  answer_listed all next (err e, w) = some (err (map_consumer_error e), w)
  answer_listed all next (ok (names ns), w) = some (ok all, w)
  answer_listed all next (ok (page p), w) =
      let all' = all ++ map to_consumer p.consumers in
      let more = next all' w in
      if no_entries p.consumers || leb_ℤ p.total (pos (length all'))
      then some (ok all', w)
      else more

module _ {ℓ} {W : Type ℓ} (list : ConsumerFilter → Call W Listed) where
  -- The loop, with the page's number and the entries so far; `none` where the fuel runs out.
  unfoldable pub list_from : ℕ → String → ℤ → List Consumer → W → Outcome W
  unfolding page_filter answer_listed wrap ◌+ℤ◌
  list_from zero query number all w = none
  list_from (suc fuel) query number all w =
      answer_listed all (list_from fuel query (wrap 32 (number +ℤ pos 1)))
        (list (page_filter query number) w)

  -- `ListConsumers`, with fuel for the requests.
  unfoldable pub list_consumers : ℕ → String → W → Outcome W
  unfolding list_from
  list_consumers fuel query w = list_from fuel query (pos 1) [] w
