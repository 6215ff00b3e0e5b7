-- ===== src/Server/Audit.antt =====
-- The audit log of internal/testserver/testserver.go.
pub mod Pages
use Prim.Native.String
use hush_hush_cli.Prelude.{
  ℕ, suc, String, code, Bool, true, false, not, ◌&&◌, ◌||◌, Option, none, some, List, [], ◌∷◌, ◌++◌,
  ◌==◌, ltb, leb, eqb, if◌then◌else◌, length, Result, ok, err,
}
use hush_hush_cli.Prelude.Int.{ℤ, pos, pos_part, ltb_ℤ, leb_ℤ}
use hush_hush_cli.Prelude.Text.{is_upper, is_lower, is_digit}
use hush_hush_cli.Server.Types.{Time, StoreError, invalid_filter, AuditLogEntry, Store}

pub record AuditLogFilter : Type 0 where
  pub object_id : Option String
  pub caller : Option String
  pub actor : Option String
  pub from : Option Time
  pub to : Option Time
  pub after : Option ℤ
  pub limit : Option ℤ

abbrev is_alnum : ℕ → Bool
is_alnum n = is_upper n || is_lower n || is_digit n

all_word : String → Bool
all_word String.[] = true
all_word (String.◌∷◌ c s) =
    (is_alnum (code c) || eqb (code c) b'_' || eqb (code c) b'-') && all_word s

-- `objectIDPattern`: ^[A-Za-z0-9][A-Za-z0-9_-]*$
unfoldable pub is_object_id : String → Bool
unfolding all_word
is_object_id String.[] = false
is_object_id (String.◌∷◌ c s) = is_alnum (code c) && all_word s

-- `RecordAuditEntry`: the next id, and the current time where the entry has none.
unfoldable pub record_audit_entry : Time → AuditLogEntry → Store → AuditLogEntry × Store
record_audit_entry now entry s =
    let entry' = record entry {
      id = suc s.audit_seq;
      timestamp = if eqb entry.timestamp 0 then now else entry.timestamp;
    } in
    (entry', record s { audit_seq = suc s.audit_seq; audit_log = s.audit_log ++ entry' ∷ [] })

-- A filter that is not set passes everything; a set one wants an entry that has this value.
abbrev pub wanted : Option String → String → Bool
wanted none have = true
wanted (some want) have = have == want

abbrev pub wanted_opt : Option String → Option String → Bool
wanted_opt none have = true
wanted_opt (some want) none = false
wanted_opt (some want) (some have) = have == want

abbrev pub not_before : Option Time → Time → Bool
not_before none t = true
not_before (some from) t = not (ltb t from)

abbrev pub not_after : Option Time → Time → Bool
not_after none t = true
not_after (some to) t = not (ltb to t)

abbrev pub beyond : Option ℤ → ℕ → Bool
beyond none id = true
beyond (some after) id = not (leb_ℤ (pos id) after)

-- `auditLogEntryMatches`
unfoldable pub entry_matches : AuditLogFilter → AuditLogEntry → Bool
entry_matches filter e =
    wanted filter.object_id e.object_id
    && wanted_opt filter.caller e.caller
    && wanted_opt filter.actor e.actor_id
    && not_before filter.from e.timestamp
    && not_after filter.to e.timestamp
    && beyond filter.after e.id

-- The loop of `QueryAuditLog`, over the entries left, with the page so far.
unfoldable pub collect :
    AuditLogFilter → ℕ → List AuditLogEntry → List AuditLogEntry → List AuditLogEntry
unfolding entry_matches
collect filter limit result [] = result
collect filter limit result (e ∷ entries) =
    let page = result ++ e ∷ [] in
    let skip = collect filter limit result entries in
    let more = collect filter limit page entries in
    if not (entry_matches filter e) then skip else if leb limit (length page) then page else more

unfoldable pub bad_object_id : Option String → Bool
unfolding is_object_id
bad_object_id none = false
bad_object_id (some id) = not (is_object_id id)

-- The page size: 50 where none is given.
abbrev pub limit_of : Option ℤ → ℤ
limit_of none = pos 50
limit_of (some limit) = limit

-- `QueryAuditLog`
unfoldable pub query_audit_log : AuditLogFilter → Store → Result StoreError (List AuditLogEntry)
unfolding collect bad_object_id
query_audit_log filter s =
    let limit = limit_of filter.limit in
    if bad_object_id filter.object_id
    then err invalid_filter
    else if ltb_ℤ limit (pos 1) || ltb_ℤ (pos 500) limit
    then err invalid_filter
    else ok (collect filter (pos_part limit) [] s.audit_log)
