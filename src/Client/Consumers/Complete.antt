-- ===== src/Client/Consumers/Complete.antt =====
-- The paging of internal/client/consumers.go over the pages of internal/testserver/testserver.go.
use hush_hush_cli.Prelude.{
  ℕ, zero, suc, ◌+◌, ◌-◌, ◌*◌, ◌≤◌, ◌<◌, ◌≡◌, refl, sym, ap, ◌∙◌, String, true, false, Option, none,
  some, List, [], ◌∷◌, ◌++◌, map, length, take, drop, take-add, take_all, length-take, min, arith,
  ok, Bool-cases, inl, inr, leb,
}
use hush_hush_cli.Prelude.Int.{ℤ, pos, wrap, ◌+ℤ◌}
use hush_hush_cli.Server.Types.{Store}
use hush_hush_cli.Server.Consumers
use hush_hush_cli.Server.Consumers.{
  ConsumerEntry, ConsumersPage, ConsumerFilter, consumer_entry, sorted_names, matching, paged,
  list_page,
}
use hush_hush_cli.Server.Consumers.Pages.{list_page-window, wrap_small, add_pos}
use hush_hush_cli.Client.Sdk.{Call}
use hush_hush_cli.Client.Calls.{unless_empty}
use hush_hush_cli.Client.Consumers.{
  Listed, page, Consumer, to_consumer, page_filter, no_entries, answer_listed, list_from,
  list_consumers, Outcome,
}

-- The entries of names, as the client shows them.
abbrev pub shown : Store → List String → List Consumer
shown s names = map to_consumer (map (λ name. consumer_entry name s) names)

shown-append : (s : Store) (xs ys : List String) → shown s (xs ++ ys) ≡ shown s xs ++ shown s ys
shown-append s [] ys = refl
shown-append s (x ∷ xs) ys = ap (λ t. to_consumer (consumer_entry x s) ∷ t) (shown-append s xs ys)

length-shown : (s : Store) (xs : List String) → length (shown s xs) ≡ length xs
length-shown s [] = refl
length-shown s (x ∷ xs) = ap suc (length-shown s xs)

no_entries-drop :
    (s : Store) (n : ℕ) (xs : List String)
    → n < length xs
    → no_entries (map (λ name. consumer_entry name s) (take 100 (drop n xs))) ≡ false
no_entries-drop s zero [] h = absurd (omega arith)
no_entries-drop s zero (x ∷ xs) h = refl
no_entries-drop s (suc n) [] h = absurd (omega arith)
no_entries-drop s (suc n) (x ∷ xs) h = no_entries-drop s n xs (omega arith)

-- With a page and a size the server answers a page, query or not.
asks_page :
    (q : Option String) (number size : ℤ) (s : Store)
    → Consumers.list_consumers (record { q = q; page = some number; page_size = some size }) s
      ≡ list_page
          (record { q = q; page = some number; page_size = some size })
          (matching q (sorted_names s))
          s
unfolding Consumers.list_consumers
asks_page none number size s = refl
asks_page (some q) number size s = refl

-- The next hundred entries after those of the names before.
shown-next :
    (s : Store) (n : ℕ) (xs : List String)
    → shown s (take n xs) ++ shown s (take 100 (drop n xs)) ≡ shown s (take (n + 100) xs)
shown-next s n xs =
    sym (shown-append s (take n xs) (take 100 (drop n xs))) ∙ ap (shown s) (sym (take-add n 100 xs))

-- A page that brings the entries up to the total is the last.
answer_last {ℓ} :
    {W : Type ℓ} (all : List Consumer) (next : List Consumer → W → Outcome W)
    (es : List ConsumerEntry) (total : ℕ) (w : W)
    → total ≤ length (all ++ map to_consumer es)
    → answer_listed all next (ok (page (record { consumers = es; total = pos total })), w)
      ≡ some (ok (all ++ map to_consumer es), w)
unfolding answer_listed
answer_last all next [] total w h = refl
answer_last all next (e ∷ es) total w h =
    let reached : leb (total + 0) (length (all ++ map to_consumer (e ∷ es)) + 0) ≡ true =
      ground arith in
    rw reached refl

-- A page with entries that leaves the total out of reach is followed by the next.
answer_more {ℓ} :
    {W : Type ℓ} (all : List Consumer) (next : List Consumer → W → Outcome W)
    (es : List ConsumerEntry) (total : ℕ) (w : W)
    → no_entries es ≡ false
    → length (all ++ map to_consumer es) < total
    → answer_listed all next (ok (page (record { consumers = es; total = pos total })), w)
      ≡ next (all ++ map to_consumer es) w
unfolding answer_listed
answer_more all next [] total w some_entry h = cc
answer_more all next (e ∷ es) total w some_entry h =
    let beyond : leb (total + 0) (length (all ++ map to_consumer (e ∷ es)) + 0) ≡ false =
      ground arith in
    rw beyond refl

module _ {ℓ} {W : Type ℓ} (list : ConsumerFilter → Call W Listed) (w : W) (s : Store)
    (query : String)
    (forwards : (f : ConsumerFilter) (p : ConsumersPage)
      → Consumers.list_consumers f s ≡ paged p
      → list f w ≡ (ok (page p), w))
    (small : length (matching (unless_empty query) (sorted_names s)) < 2147483648) where
  all_names : List String
  all_names = matching (unless_empty query) (sorted_names s)

  window_of :
      (n : ℕ)
      → ◌≡◌ {A = ConsumersPage}
          (record {
            consumers =
                map
                  (λ name. consumer_entry name s)
                  (take (min 100 100) (drop ((suc n - 1) * min 100 100) all_names));
            total = wrap 32 (pos (length all_names));
          })
          (record {
            consumers = map (λ name. consumer_entry name s) (take 100 (drop (n * 100) all_names));
            total = pos (length all_names);
          })
  unfolding all_names
  window_of n = rw (wrap_small (length all_names) small) (
      ap
        (λ k. record {
          consumers = map (λ name. consumer_entry name s) (take 100 (drop k all_names));
          total = pos (length all_names);
        })
        {x = (suc n - 1) * 100} {y = n * 100} (omega arith))

  -- The answer to the request of page `n + 1`.
  reply :
      (n : ℕ)
      → n * 100 < 2147483648
      → list (page_filter query (pos (suc n))) w ≡ (
        ok (
            page (record {
              consumers = map (λ name. consumer_entry name s) (take 100 (drop (n * 100) all_names));
              total = pos (length all_names);
            })),
        w,
      )
  unfolding page_filter all_names
  reply n fits = forwards (page_filter query (pos (suc n))) _ (
      asks_page (unless_empty query) (pos (suc n)) (pos 100) s
      ∙ list_page-window (unless_empty query) (suc n) 100 all_names s (omega arith) (omega arith)
          (omega arith)
      ∙ ap paged (window_of n))

  next_page :
      (fuel n : ℕ)
      → n * 100 + 100 < length all_names
      → list_from list fuel query
          (wrap 32 (pos (suc n) +ℤ pos 1))
          (shown s (take (n * 100 + 100) all_names))
          w
        ≡ list_from list fuel query (pos (suc (suc n))) (shown s (take (suc n * 100) all_names)) w
  unfolding all_names
  next_page fuel n within =
      ap (λ z. list_from list fuel query z (shown s (take (n * 100 + 100) all_names)) w)
        (ap (wrap 32) (add_pos (suc n) 1)
          ∙ wrap_small (suc n + 1) (omega arith)
          ∙ ap pos {x = suc n + 1} {y = suc (suc n)} (omega arith))
      ∙ ap (λ k. list_from list fuel query (pos (suc (suc n))) (shown s (take k all_names)) w)
          {x = n * 100 + 100} {y = suc n * 100} (omega arith)

  -- The rounds from page `n + 1` on.
  rounds :
      (fuel n : ℕ)
      → n * 100 ≤ length all_names
      → length all_names < (n + fuel) * 100
      → list_from list fuel query (pos (suc n)) (shown s (take (n * 100) all_names)) w
        ≡ some (ok (shown s all_names), w)
  unfolding list_from all_names
  rounds zero n low enough = absurd (omega arith)
  rounds (suc fuel) n low enough =
      let next = list_from list fuel query (wrap 32 (pos (suc n) +ℤ pos 1)) in
      let before = shown s (take (n * 100) all_names) in
      let together = shown-next s (n * 100) all_names in
      let size : length (before ++ shown s (take 100 (drop (n * 100) all_names)))
          ≡ min (n * 100 + 100) (length all_names) =
        ap length together
        ∙ length-shown s (take (n * 100 + 100) all_names)
        ∙ length-take (n * 100 + 100) all_names in
      ap (answer_listed before next) (reply n (omega arith))
      ∙ elim (Bool-cases (leb (length all_names) (n * 100 + 100))) [
        | inl last ↦
            answer_last before next _ (length all_names) w (ground arith)
            ∙ ap (λ cs. some (ok cs, w))
                (together ∙ ap (shown s) (take_all (n * 100 + 100) all_names (ground arith)))
        | inr further ↦
            answer_more before next _ (length all_names) w
              (no_entries-drop s (n * 100) all_names (ground arith)) (ground arith)
            ∙ ap (λ cs. next cs w) together
            ∙ next_page fuel n (ground arith)
            ∙ rounds fuel (suc n) (ground arith) (omega arith)
      ]

  -- Over an SDK that forwards each request to the server's directory, the paging is invisible: with fuel
  -- for more requests than the hundreds of names that match, and fewer than 2^31 of them, the listing
  -- ends, and returns the entry of every name that matches the query, in the order of the names.
  pub list_consumers_complete :
      (fuel : ℕ)
      → length (matching (unless_empty query) (sorted_names s)) < fuel * 100
      → list_consumers list fuel query w
        ≡ some (ok (shown s (matching (unless_empty query) (sorted_names s))), w)
  unfolding list_consumers all_names
  list_consumers_complete fuel enough = rounds fuel 0 (omega arith) (omega arith)
