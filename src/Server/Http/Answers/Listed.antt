-- ===== src/Server/Http/Answers/Listed.antt =====
-- The listing of consumers (`handleListConsumers` of internal/testserver/testserver.go) where its page has a
-- start.
use hush_hush_cli.Prelude.{
  zero, suc, ◌*◌, ◌-◌, String, ◌≡◌, refl, ap, ◌∙◌, sym, Bool, true, false, ◌&&◌, ◌||◌, List, length,
  is_some, ltb, Result, ok, err, Result-cases, Bool-cases, inl, inr, arith,
}
use hush_hush_cli.Prelude.Int.{ℤ, pos, negsuc}
use hush_hush_cli.Server.Types.{Store}
use hush_hush_cli.Server.Consumers.{
  ConsumerFilter, list_consumers, list_page, page_between, page_of, page_bounds, capped_size,
  int_or, matching, sorted_names,
}
use hush_hush_cli.Server.Consumers.Pages.{page_bounds-pos, slice_window}
use hush_hush_cli.Server.Requests.{Query, Message, parse_consumer_filter}
use hush_hush_cli.Server.Http.Consumers.{handle_list_consumers, listing}
use hush_hush_cli.Server.Http.Answers.{is_answer}

-- Whether a page of that size starts at an `int32` that is not negative.
abbrev pub has_start : ℤ → ℤ → Bool
has_start (pos (suc n)) (pos size) = ltb n 2147483648 && ltb (n * size) 2147483648
has_start _ _ = false

-- Whether the page that a filter asks for has a start, with the page and the size that stand in for those
-- that are not given.
abbrev pub is_startable : ConsumerFilter → Bool
is_startable f = has_start (int_or f.page (pos 1)) (capped_size f.page_size)

-- Whether a query of a listing is refused, or asks for a page that has a start.
abbrev pub startable : Result Message ConsumerFilter → Bool
startable (err e) = true
startable (ok f) = is_startable f

page_answers :
    (page size : ℤ) (matched : List String) (s : Store)
    → has_start page size ≡ true
    → is_answer (listing (page_between s matched (page_bounds page size (length matched)))) ≡ true
unfolding page_between page_of
page_answers (pos (suc n)) (pos size) matched s h =
    rw (page_bounds-pos (suc n) size (length matched) (omega arith) (ground arith) (ground arith))
      (rw (slice_window ((suc n - 1) * size) size matched) refl)
page_answers (pos (suc n)) (negsuc size) matched s h = cc
page_answers (pos zero) size matched s h = cc
page_answers (negsuc n) size matched s h = cc

listed_answers :
    (f : ConsumerFilter) (s : Store)
    → is_startable f ≡ true
    → is_answer (listing (list_consumers f s)) ≡ true
unfolding list_consumers list_page
listed_answers f s h = elim (Bool-cases (is_some f.q || is_some f.page || is_some f.page_size)) [
  | inl asked ↦ rw asked (
      page_answers (int_or f.page (pos 1)) (capped_size f.page_size) (matching f.q (sorted_names s))
        s h)
  | inr plainly ↦ rw plainly refl
]

pub list_consumers_answers :
    (q : Query) (s : Store)
    → startable (parse_consumer_filter q) ≡ true
    → is_answer (handle_list_consumers q s).0 ≡ true
unfolding handle_list_consumers
list_consumers_answers q s h = elim (Result-cases (parse_consumer_filter q)) [
  | inl (f, parsed) ↦ rw parsed (listed_answers f s (ap startable (sym parsed) ∙ h))
  | inr (e, failed) ↦ rw failed refl
]
