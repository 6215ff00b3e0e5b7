-- ===== src/Client/AuditLog/Paging.antt =====
-- The paging loop of internal/client/client.go against the pages of internal/testserver/testserver.go: the client gets
-- the whole matching log, or its first entries up to the limit.
use hush_hush_cli.Prelude.{
  ℕ, zero, suc, ◌+◌, ◌-◌, ◌≤◌, ◌<◌, ◌≡◌, refl, sym, ap, ◌∙◌, false, Option, none, some, List, [],
  ◌∷◌, ◌++◌, append_assoc, length, length-append, take, take_all, drop, drop-drop, length-take,
  length-drop, take-take, take-add, select, All, All-select, arith, Bool-cases, inl, inr, ok, ltb,
  leb, leb→le, ltb→lt, take-append-drop, min,
}
use hush_hush_cli.Prelude.Int.{ℤ, pos}
use hush_hush_cli.Server.Types.{AuditLogEntry}
use hush_hush_cli.Server.Audit
use hush_hush_cli.Server.Audit.{entry_matches, wanted, wanted_opt, not_before, not_after}
use hush_hush_cli.Server.Audit.Pages.{Increasing, Increasing-select}
use hush_hush_cli.Client.Sdk.{Call}
use hush_hush_cli.Client.AuditLog.{
  AuditLogFilter, page_limit, request_filter, append_page, last_id, query_from,
}
use hush_hush_cli.Client.AuditLog.Cursor.{
  page_limit_bounds, select-beyond, matching, matching-beyond, append_page-none, append_page-some,
  last_id-take,
}

-- How many entries a limit lets through: the loop tests it after each entry, so one at least.
abbrev pub capped : Option ℕ → List AuditLogEntry → List AuditLogEntry
capped none es = es
capped (some zero) es = take 1 es
capped (some (suc n)) es = take (suc n) es

module _ {ℓ} {W : Type ℓ} (query : Audit.AuditLogFilter → Call W (List AuditLogEntry)) (w : W)
    (log : List AuditLogEntry) (filter : AuditLogFilter)
    (replies : (after : Option ℤ)
      → query (request_filter filter after) w
        ≡ (ok (take (page_limit filter.limit) (matching filter after log)), w))
    (growing : Increasing log) (positive : All (λ e. 0 < e.id) log) where
  abbrev all_matching : List AuditLogEntry
  all_matching = matching filter none log

  -- The cursor after a full page leaves what the page left.
  cursor :
      (k p : ℕ)
      → 0 < length (take p (drop k all_matching))
      → matching filter (some (pos (last_id 0 (take p (drop k all_matching))))) log
        ≡ drop (k + p) all_matching
  cursor k p h =
      matching-beyond filter _ log
      ∙ ap (λ (a : ℕ). select (λ e. ltb a e.id) all_matching)
          (sym (last_id-take 0 k p all_matching h))
      ∙ select-beyond 0 all_matching (k + p)
          (All-select (λ e. 0 < e.id) (entry_matches (request_filter filter none)) log positive)
          (Increasing-select (entry_matches (request_filter filter none)) log growing)

  -- The rest of the matching entries, from position `k` on.
  abbrev rest_from : ℕ → List AuditLogEntry
  rest_from k = drop k all_matching

  -- A full page and what lies beyond its cursor are what there was.
  page-rest : (k p : ℕ) → take p (rest_from k) ++ rest_from (k + p) ≡ rest_from k
  page-rest k p =
      ap (λ t. take p (rest_from k) ++ t) (sym (drop-drop p k all_matching))
      ∙ take-append-drop p (rest_from k)

  length-rest_from : (k p : ℕ) → length (rest_from (k + p)) ≡ length (rest_from k) - p
  length-rest_from k p = ap length (sym (drop-drop p k all_matching)) ∙ length-drop p (rest_from k)

  -- A full page and what the limit lets through of the rest.
  page-take :
      (n k p : ℕ) (result : List AuditLogEntry)
      → length (take p (rest_from k)) ≡ p
      → length result + p < n
      → (result ++ take p (rest_from k))
          ++ take (n - length (result ++ take p (rest_from k))) (rest_from (k + p))
        ≡ result ++ take (n - length result) (rest_from k)
  page-take n k p result full room =
      let page = take p (rest_from k) in
      let m = n - length result - p in
      let grown : length (result ++ page) ≡ length result + length page =
        length-append result page in
      append_assoc result page _
      ∙ ap (λ t. result ++ t)
          (ap (λ q. page ++ take q (rest_from (k + p))) {y = m} (omega arith)
            ∙ ap (λ t. page ++ take m t) (sym (drop-drop p k all_matching))
            ∙ sym (take-add p m (rest_from k))
            ∙ ap (λ q. take q (rest_from k)) {y = n - length result} (omega arith))

  query_from-none :
      (fuel k : ℕ) (after : Option ℤ) (result : List AuditLogEntry)
      → filter.limit ≡ none
      → matching filter after log ≡ rest_from k
      → length (rest_from k) < fuel
      → query_from query fuel filter after result w ≡ some (ok (result ++ rest_from k), w)
  unfolding query_from
  query_from-none zero k after result lim here fuel = absurd (omega arith)
  query_from-none (suc f) k after result lim here fuel =
      let p = page_limit filter.limit in
      let page = take p (rest_from k) in
      let paged : length page ≡ min p (length (rest_from k)) = length-take p (rest_from k) in
      let bounds = page_limit_bounds filter.limit in
      let appended : append_page filter.limit result page ≡ (result ++ page, false) =
        ap (λ l. append_page l result page) lim ∙ append_page-none result page in
      rw (replies after, here, appended)
        (elim (Bool-cases (ltb (length page) p)) [
          | inl short ↦ rw short (
              ap (λ t. some (ok (result ++ t), w))
                (take_all p (rest_from k) (omega (arith, ltb→lt _ _ short))))
          | inr long ↦
              let nonempty : 0 < length page = ground arith in
              rw long (
                query_from-none f (k + p) _ (result ++ page) lim (cursor k p nonempty)
                  (omega (arith, length-rest_from k p))
                ∙ ap (λ t. some (ok t, w))
                    (append_assoc result page (rest_from (k + p))
                      ∙ ap (λ t. result ++ t) (page-rest k p)))
        ])

  query_from-some :
      (n fuel k : ℕ) (after : Option ℤ) (result : List AuditLogEntry)
      → ((r page : List AuditLogEntry)
          → append_page filter.limit r page ≡ append_page (some n) r page)
      → length result < n
      → matching filter after log ≡ rest_from k
      → length (rest_from k) < fuel
      → query_from query fuel filter after result w
        ≡ some (ok (result ++ take (n - length result) (rest_from k)), w)
  unfolding query_from
  query_from-some n zero k after result lim room here fuel = absurd (omega arith)
  query_from-some n (suc f) k after result lim room here fuel =
      let p = page_limit filter.limit in
      let page = take p (rest_from k) in
      let paged : length page ≡ min p (length (rest_from k)) = length-take p (rest_from k) in
      let bounds = page_limit_bounds filter.limit in
      rw (replies after, here, lim result page ∙ append_page-some n result page room)
        (elim (Bool-cases (leb n (length result + length page))) [
          | inl full ↦ rw full (
              ap (λ t. some (ok (result ++ t), w))
                (take-take (n - length result) p (rest_from k) (omega (arith, leb→le _ _ full))))
          | inr more ↦
              let fits : length result + length page < n = ground arith in
              let whole : take (n - length result) page ≡ page =
                take_all (n - length result) page (omega arith) in
              elim (Bool-cases (ltb (length page) p)) [
                | inl short ↦
                    rw (more, short)
                      (ap (λ t. some (ok (result ++ take (n - length result) t), w))
                        (take_all p (rest_from k) (omega (arith, ltb→lt _ _ short))))
                | inr long ↦
                    let full_page : p ≤ length page = ground arith in
                    rw (more, long, whole)
                      (query_from-some n f (k + p) _ (result ++ page) lim
                          (omega (arith, length-append result page)) (cursor k p (omega arith))
                          (omega (arith, length-rest_from k p))
                        ∙ ap (λ t. some (ok t, w))
                            (page-take n k p result (omega arith) (omega arith)))
              ]
        ])

  limit_zero :
      (result page : List AuditLogEntry)
      → append_page (some zero) result page ≡ append_page (some 1) result page
  unfolding append_page
  limit_zero result [] = refl
  limit_zero result (e ∷ page) = ground (arith, length-append result (e ∷ []))

  pub query_from-capped :
      (fuel : ℕ) (limit : Option ℕ)
      → filter.limit ≡ limit
      → length all_matching < fuel
      → query_from query fuel filter none [] w ≡ some (ok (capped limit all_matching), w)
  query_from-capped fuel none lim enough = query_from-none fuel 0 none [] lim refl enough
  query_from-capped fuel (some zero) lim enough =
      query_from-some 1 fuel 0 none []
        (λ r page. ap (λ l. append_page l r page) lim ∙ limit_zero r page) (omega arith) refl enough
  query_from-capped fuel (some (suc n)) lim enough =
      query_from-some (suc n) fuel 0 none [] (λ r page. ap (λ l. append_page l r page) lim)
        (omega arith) refl enough
      ∙ ap (λ q. some (ok (take q all_matching), w)) {x = suc n - 0} {y = suc n} (omega arith)
