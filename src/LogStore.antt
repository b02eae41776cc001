-- ===== src/LogStore.antt =====
-- crates/cadder-daemon/src/logs.rs: the log store, in memory or over the database, and the log table
-- of crates/cadder-daemon/src/database.rs. A queue has its oldest entry at the head. A row of the
-- table holds the entry that its JSON stands for.
pub mod Memory
pub mod Appends
pub mod Rows
pub mod Table
use Prim.Native.String as Str
use cadder.Base.{
  ℕ, zero, suc, ◌+◌, ◌-◌, String, Bool, true, false, ◌&&◌, ◌||◌, Option, none, some, List, [], ◌∷◌,
  ◌++◌, map, filter, length, drop, if◌then◌else◌, ltb, ◌==◌, nat_eq, string_eq, option_eq, is_empty,
  unwrap_or, Result, ok, err, max, min,
}
use cadder.Base.Dict.{Dict, lookup, insert, adjust}
use cadder.Database.{StorageFault, uncommitted, committed}
use cadder.Protocol.Logs.{
  LogSeverity, LogAttributionKind, LogEntryKind, LogStreamStatus, LogStreamIdentity, LogEntry,
}

unfoldable pub stream_key : LogStreamIdentity → String
stream_key s =
    Str.◌++◌ s.stream_id
      (Str.◌++◌ "|" (Str.◌++◌ s.channel (Str.◌++◌ "|" (unwrap_or s.domain_key ""))))

unfoldable pub same_stream : LogStreamIdentity → LogStreamIdentity → Bool
same_stream l r =
    l.stream_id == r.stream_id && l.channel == r.channel && l.domain_key == r.domain_key

abbrev pub key_of : LogEntry → String
key_of e = stream_key e.stream

pub record LogInner : Type 0 where
  pub next_sequence : ℕ
  pub entries : List LogEntry
  pub per_stream : Dict ℕ

abbrev pub new_inner : LogInner
new_inner = record { next_sequence = 0; entries = []; per_stream = [] }

abbrev pub counted : String → LogInner → ℕ
counted k s = unwrap_or (lookup k s.per_stream) 0

-- `pop_front`, and the count of its stream taken down.
unfoldable pub evict_front : LogEntry → List LogEntry → LogInner → LogInner
unfolding adjust
evict_front e es s = record s {
  entries = es;
  per_stream = adjust (key_of e) (λ n. n - 1) s.per_stream;
}

-- The eviction loop for a stream's key; each round takes an entry out of the queue.
unfoldable pub evict : ℕ → ℕ → ℕ → String → LogInner → LogInner
unfolding evict_front lookup
evict zero max_entries max_per_stream key s = s
evict (suc fuel) max_entries max_per_stream key s =
    if ltb max_entries (length s.entries) || ltb max_per_stream (counted key s)
    then (elim s.entries [
      | [] ↦ s
      | e ∷ es ↦ evict fuel max_entries max_per_stream key (evict_front e es s)
    ])
    else s

unfoldable pub push_entry : LogEntry → LogInner → LogInner
unfolding insert lookup
push_entry e s = record {
  next_sequence = suc s.next_sequence;
  entries = s.entries ++ record e { sequence_number = suc s.next_sequence } ∷ [];
  per_stream = insert (key_of e) (counted (key_of e) s + 1) s.per_stream;
}

unfoldable pub append_memory : ℕ → ℕ → LogEntry → LogInner → LogInner
unfolding push_entry evict
append_memory max_entries max_per_stream e s =
    let pushed = push_entry e s in
    evict (length pushed.entries) max_entries max_per_stream (key_of e) pushed

pub record LogRow : Type 0 where
  pub sequence : ℕ
  pub key : String
  pub entry : LogEntry

-- `last_sequence` is what AUTOINCREMENT remembers.
pub record LogTable : Type 0 where
  pub rows : List LogRow
  pub last_sequence : ℕ

-- Rows whose key passes the test, and the deletion of the oldest of them.
unfoldable pub count_rows : (String → Bool) → List LogRow → ℕ
count_rows p [] = 0
count_rows p (r ∷ rs) = (if p r.key then 1 else 0) + count_rows p rs

unfoldable pub delete_oldest : (String → Bool) → ℕ → List LogRow → List LogRow
delete_oldest p zero rs = rs
delete_oldest p (suc n) [] = []
delete_oldest p (suc n) (r ∷ rs) = elim (p r.key) [
  | true ↦ delete_oldest p n rs
  | false ↦ r ∷ delete_oldest p (suc n) rs
]

-- `DELETE .. WHERE sequence NOT IN (.. ORDER BY sequence DESC LIMIT ..)`
unfoldable pub keep_newest : (String → Bool) → ℕ → List LogRow → List LogRow
unfolding count_rows delete_oldest
keep_newest p limit rs = delete_oldest p (count_rows p rs - limit) rs

-- The transaction's three statements, with their limits.
unfoldable pub appended_row : LogEntry → LogTable → LogTable
unfolding keep_newest
appended_row entry t =
    let sequence = suc t.last_sequence in
    let row : LogRow = record { sequence = sequence; key = key_of entry; entry = entry } in
    record {
      rows =
          keep_newest (λ k. true) 5000
            (keep_newest (λ k. k == key_of entry) 1000 (t.rows ++ row ∷ []));
      last_sequence = sequence;
    }

-- A fault that comes after the commit leaves the row and reports an error.
unfoldable pub append_log :
    Option StorageFault → LogEntry → LogTable → LogTable × Result LogEntry String
unfolding appended_row
append_log (some (uncommitted e)) entry t = (t, err e)
append_log (some (committed e)) entry t = (appended_row entry t, err e)
append_log none entry t =
    (appended_row entry t, ok (record entry { sequence_number = suc t.last_sequence }))

pub record LogQuery : Type 0 where
  pub stream : LogStreamIdentity
  pub limit : ℕ

pub record LogQueryResult : Type 0 where
  pub status : LogStreamStatus
  pub entries : List LogEntry

unfoldable pub stream_status : Bool → Bool → LogStreamStatus
stream_status nothing active =
    if nothing
    then (if active then LogStreamStatus.empty else LogStreamStatus.removed)
    else (if active then LogStreamStatus.active else LogStreamStatus.stale)

abbrev pub row_entry : LogRow → LogEntry
row_entry r = record r.entry { sequence_number = r.sequence }

abbrev pub last : {A : Type 0} → ℕ → List A → List A
last limit xs = drop (length xs - limit) xs

unfoldable pub query_logs :
    Option String → LogQuery → Bool → LogTable → Result LogQueryResult String
unfolding stream_status
query_logs (some e) q active t = err e
query_logs none q active t =
    let limit = min (max q.limit 1) 200 in
    let found = last limit (filter (λ (r : LogRow). r.key == stream_key q.stream) t.rows) in
    ok (record { status = stream_status (is_empty found) active; entries = map row_entry found })

unfoldable pub query_memory : LogQuery → Bool → LogInner → LogQueryResult
unfolding stream_status same_stream
query_memory q active s =
    let matching = filter (λ (e : LogEntry). same_stream e.stream q.stream) s.entries in
    record {
      status = stream_status (is_empty matching) active;
      entries = if ltb q.limit (length matching) then last q.limit matching else matching;
    }

-- The store: its queue, its limits, its table if there is a database, and the last failure.
pub record CaddyLogStore : Type 0 where
  pub inner : LogInner
  pub max_entries : ℕ
  pub max_per_stream : ℕ
  pub table : Option LogTable
  pub durability_error : Option String

abbrev pub default_store : CaddyLogStore
default_store = record {
  inner = new_inner;
  max_entries = 5000;
  max_per_stream = 1000;
  table = none;
  durability_error = none;
}

abbrev pub durability_message : String
durability_message = "Cadder could not persist a log event; active traffic was left unchanged."

abbrev durability_of : Result LogEntry String → Option String
durability_of (ok _) = none
durability_of (err _) = some durability_message

append_to : Option StorageFault → LogEntry → Option LogTable → CaddyLogStore → CaddyLogStore
unfolding append_log append_memory
append_to fault entry none s = record s {
  inner = append_memory s.max_entries s.max_per_stream entry s.inner;
}
append_to fault entry (some t) s =
    let (t', result) = append_log fault entry t in
    record s { table = some t'; durability_error = durability_of result }

-- `append`, with the clock and the redaction given.
unfoldable pub append :
    (String → String)
    → ℕ
    → Option StorageFault
    → LogStreamIdentity
    → LogSeverity
    → String
    → LogAttributionKind
    → Option String
    → CaddyLogStore
    → CaddyLogStore
unfolding append_to
append redact now fault stream severity message kind operation s =
    append_to fault
      (record {
        sequence_number = 0;
        timestamp_utc = now;
        severity = severity;
        stream = stream;
        attribution_kind = kind;
        entry_kind = LogEntryKind.normal;
        raw_message = redact message;
        domain_key = stream.domain_key;
        source_registration_id = none;
        source_instance_id = none;
        operation = operation;
      })
      s.table s

query_in : Option String → LogQuery → Bool → Option LogTable → CaddyLogStore → LogQueryResult
unfolding query_logs query_memory
query_in fault q active none s = query_memory q active s.inner
query_in fault q active (some t) s = elim (query_logs fault q active t) [
  | ok r ↦ r
  | err _ ↦ record { status = LogStreamStatus.read_error; entries = [] }
]

unfoldable pub query : Option String → LogQuery → Bool → CaddyLogStore → LogQueryResult
unfolding query_in
query fault q active s = query_in fault q active s.table s
