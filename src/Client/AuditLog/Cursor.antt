-- ===== src/Client/AuditLog/Cursor.antt =====
-- One round of the paging loop of internal/client/client.go: the cursor, the page, and the result so far.
use hush_hush_cli.Prelude.{
  ℕ, zero, suc, ◌+◌, ◌-◌, ◌≤◌, ◌<◌, ◌≡◌, refl, sym, ap, ◌∙◌, Bool, true, false, not, ◌&&◌, Option,
  none, some, List, [], ◌∷◌, ◌++◌, append-nil, append_assoc, length, length-append, take, take-nil,
  take-cons, drop, select, select-select, select-ext, select_all, All, All-weaken, arith,
  Bool-cases, inl, inr, ltb, leb, leb→le,
}
use hush_hush_cli.Prelude.Int.{ℤ, pos}
use hush_hush_cli.Server.Types.{AuditLogEntry}
use hush_hush_cli.Server.Audit.{entry_matches, wanted, wanted_opt, not_before, not_after}
use hush_hush_cli.Server.Audit.Pages.{Increasing}
use hush_hush_cli.Client.AuditLog.{AuditLogFilter, page_limit, request_filter, append_page, last_id}

pub page_limit_bounds : (limit : Option ℕ) → (1 ≤ page_limit limit) × (page_limit limit ≤ 500)
unfolding page_limit
page_limit_bounds none = omega arith
page_limit_bounds (some n) = ground arith

last_id-le :
    (d : ℕ) (es : List AuditLogEntry) (n : ℕ)
    → All (λ e. d < e.id) es
    → Increasing es
    → d ≤ last_id d (take n es)
unfolding last_id
last_id-le d es zero above inc = omega arith
last_id-le d [] (suc n) above inc = omega arith
last_id-le d (e ∷ es) (suc n) (p, above) (least, inc) =
    omega (arith, last_id-le e.id es n least inc)

-- What lies beyond the last id of a page is what the page leaves.
pub select-beyond :
    (d : ℕ) (es : List AuditLogEntry) (n : ℕ)
    → All (λ e. d < e.id) es
    → Increasing es
    → select (λ e. ltb (last_id d (take n es)) e.id) es ≡ drop n es
unfolding last_id
select-beyond d es zero above inc = select_all _ es (All-weaken (λ e p. ground arith) es above)
select-beyond d [] (suc n) above inc = refl
select-beyond d (e ∷ es) (suc n) (p, above) (least, inc) =
    let covered : ltb (last_id e.id (take n es)) e.id ≡ false =
      ground (arith, last_id-le e.id es n least inc) in
    rw covered (select-beyond e.id es n least inc)

and_regroup :
    (a b c d e x : Bool) → (a && b && c && d && e && x) ≡ ((a && b && c && d && e && true) && x)
and_regroup true true true true true x = refl
and_regroup true true true true false x = refl
and_regroup true true true false e x = refl
and_regroup true true false d e x = refl
and_regroup true false c d e x = refl
and_regroup false b c d e x = refl

beyond-ltb : (n a : ℕ) → not (leb (n + 0) (a + 0)) ≡ ltb a n
beyond-ltb n a = ground arith

-- A cursor that moves on narrows what matches to what lies beyond it.
matches_beyond :
    (filter : AuditLogFilter) (a : ℕ) (e : AuditLogEntry)
    → entry_matches (request_filter filter (some (pos a))) e
      ≡ (entry_matches (request_filter filter none) e && ltb a e.id)
unfolding entry_matches request_filter
matches_beyond filter a e = rw (← beyond-ltb e.id a) (
    and_regroup (wanted filter.object_id e.object_id) (wanted_opt filter.caller e.caller)
      (wanted_opt filter.token e.actor_id) (not_before filter.since e.timestamp)
      (not_after filter.until e.timestamp) (not (leb (e.id + 0) (a + 0))))

-- The entries that match the filter and lie beyond a cursor.
abbrev pub matching : AuditLogFilter → Option ℤ → List AuditLogEntry → List AuditLogEntry
matching filter after log = select (entry_matches (request_filter filter after)) log

pub matching-beyond :
    (filter : AuditLogFilter) (a : ℕ) (log : List AuditLogEntry)
    → matching filter (some (pos a)) log ≡ select (λ e. ltb a e.id) (matching filter none log)
matching-beyond filter a log =
    select-ext _ _ (matches_beyond filter a) log
    ∙ sym (select-select (λ e. ltb a e.id) (entry_matches (request_filter filter none)) log)

-- The loop over a page keeps what there is room for, and says whether the limit was reached.
pub append_page-none :
    (result page : List AuditLogEntry) → append_page none result page ≡ (result ++ page, false)
unfolding append_page
append_page-none result [] = ap (λ r. (r, false)) (sym (append-nil result))
append_page-none result (e ∷ page) =
    append_page-none (result ++ e ∷ []) page
    ∙ ap (λ r. (r, false)) (append_assoc result (e ∷ []) page)

pub append_page-some :
    (n : ℕ) (result page : List AuditLogEntry)
    → length result < n
    → append_page (some n) result page
      ≡ (result ++ take (n - length result) page, leb n (length result + length page))
unfolding append_page
append_page-some n result [] h =
    let short : leb n (length result + 0) ≡ false = ground arith in
    rw (take-nil {A = AuditLogEntry} (n - length result), append-nil result, short)
append_page-some n result (e ∷ page) h =
    let grown : length (result ++ e ∷ []) ≡ length result + 1 = length-append result (e ∷ []) in
    let head : take (n - length result) (e ∷ page) ≡ e ∷ take (n - length result - 1) page =
      take-cons (n - length result) e page (omega arith) in
    elim (Bool-cases (leb n (length (result ++ e ∷ [])))) [
      | inl full ↦
          let last : n - length result - 1 ≡ 0 = omega (arith, leb→le _ _ full) in
          let over : leb n (length result + suc (length page)) ≡ true = ground arith in
          rw (full, over, head, last)
      | inr room ↦
          let short : length (result ++ e ∷ []) < n = ground arith in
          let left : n - length (result ++ e ∷ []) ≡ n - length result - 1 = omega arith in
          let total : length (result ++ e ∷ []) + length page ≡ length result + suc (length page) =
            omega arith in
          rw (room, head, ← left, ← total)
            (append_page-some n (result ++ e ∷ []) page short
              ∙ ap (λ r. (r, leb n (length (result ++ e ∷ []) + length page)))
                  (append_assoc result (e ∷ []) (take (n - length (result ++ e ∷ [])) page)))
    ]

-- The last id of a page that is not empty does not depend on what stands before it.
pub last_id-take :
    (d k p : ℕ) (es : List AuditLogEntry)
    → 0 < length (take p (drop k es))
    → last_id d (take (k + p) es) ≡ last_id 0 (take p (drop k es))
unfolding last_id
last_id-take d zero zero es h = absurd (omega arith)
last_id-take d zero (suc p) [] h = absurd (omega arith)
last_id-take d zero (suc p) (e ∷ es) h =
    ap (λ n. last_id d (take n (e ∷ es))) {x = 0 + suc p} {y = suc p} (omega arith)
last_id-take d (suc k) p [] h = absurd (omega (arith, ap length (take-nil {A = AuditLogEntry} p)))
last_id-take d (suc k) p (e ∷ es) h =
    ap (λ n. last_id d (take n (e ∷ es))) {x = suc k + p} {y = suc (k + p)} (omega arith)
    ∙ last_id-take e.id k p es h
