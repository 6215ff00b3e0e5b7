-- ===== src/Server/Audit/Pages.antt =====
-- What a page of the audit log of internal/testserver/testserver.go holds, and the invariant of its ids.
use hush_hush_cli.Prelude.{
  ℕ, ◌+◌, ◌-◌, ◌≤◌, ◌<◌, ◌≡◌, sym, ap, ◌∙◌, Bool, List, [], ◌∷◌, ◌++◌, append-nil, append_assoc,
  length, length-append, take, take-nil, take-cons, leb→le, select, All, All-append, All-weaken,
  All-select, arith, Bool-cases, inl, inr, if◌then◌else◌, leb,
}
use hush_hush_cli.Server.Types.{Time, AuditLogEntry, Store}
use hush_hush_cli.Server.Audit.{AuditLogFilter, entry_matches, collect, record_audit_entry}

-- The loop's branch on an entry that matches: the page is full with it, or it is not.
collect_next :
    (limit : ℕ) (result more : List AuditLogEntry) (e : AuditLogEntry) (rest : List AuditLogEntry)
    → length result < limit
    → (length (result ++ e ∷ []) < limit
        → more ≡ (result ++ e ∷ []) ++ take (limit - length (result ++ e ∷ [])) rest)
    → (if leb limit (length (result ++ e ∷ [])) then result ++ e ∷ [] else more)
      ≡ result ++ take (limit - length result) (e ∷ rest)
collect_next limit result more e rest h ih =
    let grown : length (result ++ e ∷ []) ≡ length result + 1 = length-append result (e ∷ []) in
    let head : take (limit - length result) (e ∷ rest) ≡ e ∷ take (limit - length result - 1) rest =
      take-cons (limit - length result) e rest (omega arith) in
    elim (Bool-cases (leb limit (length (result ++ e ∷ [])))) [
      | inl full ↦
          let last : limit - length result - 1 ≡ 0 = omega (arith, leb→le _ _ full) in
          rw (full, head, last)
      | inr room ↦
          let short : length (result ++ e ∷ []) < limit = ground arith in
          let left : limit - length (result ++ e ∷ []) ≡ limit - length result - 1 = omega arith in
          rw (room, head)
            (ih short ∙ append_assoc result (e ∷ []) _ ∙ ap (λ n. result ++ e ∷ take n rest) left)
    ]

-- The page loop collects the first entries that match, up to the limit.
pub collect-take :
    (filter : AuditLogFilter) (limit : ℕ) (result es : List AuditLogEntry)
    → length result < limit
    → collect filter limit result es
      ≡ result ++ take (limit - length result) (select (entry_matches filter) es)
unfolding collect
collect-take filter limit result [] h =
    sym (ap (λ t. result ++ t) (take-nil (limit - length result)) ∙ append-nil result)
collect-take filter limit result (e ∷ es) h = elim (Bool-cases (entry_matches filter e)) [
  | inl match ↦
      rw match (collect_next limit result _ e _ h (collect-take filter limit (result ++ e ∷ []) es))
  | inr skip ↦ rw skip (collect-take filter limit result es h)
]

-- Each id is below the ids that follow.
abbrev pub Increasing : List AuditLogEntry → Type 0
Increasing [] = Unit
Increasing (e ∷ es) = All (λ d. e.id < d.id) es × Increasing es

-- The ids of the log grow along it, and none is above the last id given out.
pub record Numbered (log : List AuditLogEntry) (seq : ℕ) : Type 0 where
  pub growing : Increasing log
  pub bounded : All (λ e. e.id ≤ seq) log
  pub positive : All (λ e. 0 < e.id) log

abbrev pub IsNumbered : Store → Type 0
IsNumbered s = Numbered s.audit_log s.audit_seq

Increasing-append :
    (es : List AuditLogEntry) (e : AuditLogEntry)
    → Increasing es
    → All (λ d. d.id < e.id) es
    → Increasing (es ++ e ∷ [])
Increasing-append [] e h k = (tt, tt)
Increasing-append (d ∷ es) e (least, h) (p, k) =
    (All-append _ es (e ∷ []) least (p, tt), Increasing-append es e h k)

-- Recording an entry gives it an id above all others, so the log stays numbered.
pub record_audit_entry-IsNumbered :
    (now : Time) (entry : AuditLogEntry) (s : Store)
    → IsNumbered s
    → IsNumbered (record_audit_entry now entry s).1
unfolding record_audit_entry
record_audit_entry-IsNumbered now entry s h = record {
  growing =
      Increasing-append s.audit_log _ h.growing
        (All-weaken (λ d p. omega arith) s.audit_log h.bounded);
  bounded =
      All-append _ s.audit_log _ (All-weaken (λ d p. omega arith) s.audit_log h.bounded)
        (omega arith, tt);
  positive = All-append _ s.audit_log _ h.positive (omega arith, tt);
}

pub Increasing-select :
    (p : AuditLogEntry → Bool) (es : List AuditLogEntry) → Increasing es → Increasing (select p es)
Increasing-select p [] h = tt
Increasing-select p (e ∷ es) (least, h) =
    ground (arith, All-select (λ d. e.id < d.id) p es least, Increasing-select p es h)
