-- ===== src/LogStore/Table.antt =====
-- The log table: retention, ascending numbers, and what a query returns.
use cadder.Base.{
  ℕ, zero, suc, ◌-◌, ◌≤◌, String, ◌≡◌, refl, Bool, true, none, some, List, [], ◌∷◌, ◌++◌, map,
  length, drop, ◌==◌, string_eq, arith, length-drop, sym, ◌∙◌, ap, inl, inr, Bool-cases, ok, err,
  min, max, is_empty, subst, Option, some, Result, false, ◌⊎◌,
}
use cadder.LogStore.{
  LogRow, LogTable, LogQuery, LogQueryResult, key_of, stream_key, count_rows, keep_newest,
  appended_row, append_log, last, row_entry, query_logs, stream_status,
}
use cadder.Database.{StorageFault, uncommitted, committed}
use cadder.Protocol.Logs.{LogEntry}
use text.Mathlib.TextEquality.{eq_iff}
use cadder.LogStore.Rows.{
  count_rows-keep_newest, count_rows-append, count_rows_all, IsAscending-append, keep_newest-append,
  keep_newest_le, keep_newest-IsAscending, keep_newest-All, of_stream, IsAscending, UpTo,
  filter_rows, filter_rows-keep_newest, filter_rows-append, append_assoc, length-keep_newest,
}

-- The retention that the table promises: at most 5000 rows, and at most 1000 of each stream.
pub record IsRetained (t : LogTable) : Type 0 where
  pub total : length t.rows ≤ 5000
  pub streams : (key : String) → count_rows (of_stream key) t.rows ≤ 1000

-- The table keeps its promises: retention, rising numbers, and no number above the last one given.
pub record IsSound (t : LogTable) : Type 0 where
  pub retained : IsRetained t
  pub ascending : IsAscending t.rows
  pub numbered : UpTo t.last_sequence t.rows

abbrev everything : String → Bool
everything k = true

-- The rows that one append leaves: those of one stream are trimmed, and then all.
abbrev trimmed : LogRow → List LogRow → List LogRow
trimmed r rs = keep_newest everything 5000 (keep_newest (of_stream r.key) 1000 (rs ++ r ∷ []))

trimmed-streams :
    (r : LogRow) (rs : List LogRow)
    → ((key : String) → count_rows (of_stream key) rs ≤ 1000)
    → (key : String) → count_rows (of_stream key) (trimmed r rs) ≤ 1000
trimmed-streams r rs h key =
    let inner = keep_newest (of_stream r.key) 1000 (rs ++ r ∷ []) in
    let outer = keep_newest_le everything (of_stream key) 5000 inner in
    elim (Bool-cases (r.key == key)) [
      | inl own ↦
          let same : r.key ≡ key = (eq_iff r.key key).0 own in
          let small =
            subst (λ k. count_rows (of_stream k) inner ≤ 1000) same
              (omega (arith, count_rows-keep_newest (of_stream r.key) 1000 (rs ++ r ∷ []))) in
          omega (arith, outer, small)
      | inr other ↦
          let step = keep_newest_le (of_stream r.key) (of_stream key) 1000 (rs ++ r ∷ []) in
          let added = count_rows-append (of_stream key) rs r in
          omega (arith, outer, step, h key, rw other at added)
    ]

trimmed-newest :
    (r : LogRow) (rs : List LogRow) → (kept : List LogRow) × (trimmed r rs ≡ kept ++ r ∷ [])
trimmed-newest r rs =
    let (first, e) = keep_newest-append (of_stream r.key) 1000 rs r (omega arith) in
    let (second, e') = keep_newest-append everything 5000 first r (omega arith) in
    (second, ap (keep_newest everything 5000) e ∙ e')

-- What an append answers, and whether its row is committed.
abbrev pub answer_of : Option StorageFault → ℕ → LogEntry → Result LogEntry String
answer_of none n e = ok (record e { sequence_number = n })
answer_of (some (uncommitted x)) n e = err x
answer_of (some (committed x)) n e = err x

abbrev pub commits : Option StorageFault → Bool
commits none = true
commits (some (uncommitted x)) = false
commits (some (committed x)) = true

-- What a committed append leaves: the new row, under the next number, is the last one; of each stream
-- the newest rows are left; and no more rows are gone than the limits want.
pub record IsAppended (e : LogEntry) (t t' : LogTable) : Type 0 where
  pub numbered : t'.last_sequence ≡ suc t.last_sequence
  pub newest :
      (kept : List LogRow) × (t'.rows
        ≡ kept ++ record { sequence = suc t.last_sequence; key = key_of e; entry = e } ∷ [])
  pub oldest :
      (key : String)
      → (gone : List LogRow) × (filter_rows key t.rows
            ++ filter_rows key
                (record { sequence = suc t.last_sequence; key = key_of e; entry = e } ∷ [])
          ≡ gone ++ filter_rows key t'.rows)
  pub as_many :
      length t'.rows
      ≡ min 5000 (suc (length t.rows) - (suc (count_rows (of_stream (key_of e)) t.rows) - 1000))

appended_row-IsSound : (e : LogEntry) (t : LogTable) → IsSound t → IsSound (appended_row e t)
unfolding appended_row
appended_row-IsSound e t s = record {
  retained = record {
    total = omega (
      arith,
      count_rows_all (trimmed row t.rows),
      count_rows-keep_newest everything 5000
          (keep_newest (of_stream row.key) 1000 (t.rows ++ row ∷ [])),
    );
    streams = trimmed-streams row t.rows s.retained.streams;
  };
  ascending =
      keep_newest-IsAscending everything 5000 _
        (keep_newest-IsAscending (of_stream row.key) 1000 _ added.0);
  numbered =
      keep_newest-All (λ r. r.sequence ≤ row.sequence) everything 5000 _
        (keep_newest-All (λ r. r.sequence ≤ row.sequence) (of_stream row.key) 1000 _ added.1);
}
  where
    row : LogRow
    row = record { sequence = suc t.last_sequence; key = key_of e; entry = e }

    added : IsAscending (t.rows ++ row ∷ []) × UpTo row.sequence (t.rows ++ row ∷ [])
    added = IsAscending-append t.rows row t.last_sequence s.ascending s.numbered (omega arith)

appended_row-IsAppended : (e : LogEntry) (t : LogTable) → IsAppended e t (appended_row e t)
unfolding appended_row
appended_row-IsAppended e t = record {
  numbered = refl;
  newest = trimmed-newest row t.rows;
  oldest = λ key.
      let (first, f) = filter_rows-keep_newest (of_stream row.key) 1000 key (t.rows ++ row ∷ []) in
      let (second, g) = filter_rows-keep_newest everything 5000 key inner in
      (
        first ++ second,
        sym (filter_rows-append key t.rows (row ∷ []))
            ∙ f
            ∙ ap (λ z. first ++ z) g
            ∙ sym (append_assoc first second (filter_rows key (trimmed row t.rows))),
      );
  as_many = omega (
    arith,
    count_rows_all (trimmed row t.rows),
    count_rows-keep_newest everything 5000 inner,
    count_rows_all inner,
    length-keep_newest (of_stream row.key) 1000 (t.rows ++ row ∷ []),
    (rw own at (count_rows-append (of_stream row.key) t.rows row)),
    count_rows_all (t.rows ++ row ∷ []),
    count_rows-append everything t.rows row,
    count_rows_all t.rows,
  );
}
  where
    row : LogRow
    row = record { sequence = suc t.last_sequence; key = key_of e; entry = e }

    inner : List LogRow
    inner = keep_newest (of_stream row.key) 1000 (t.rows ++ row ∷ [])

    own : (row.key == row.key) ≡ true
    own = (eq_iff row.key row.key).1 refl

-- An append keeps the table sound, whatever fault it meets. One without a fault answers the entry under
-- the next number, and one with a fault its error. The table is then as it was if the fault came
-- before the commit; otherwise it has the new row as its last one, the newest rows of every stream, and
-- as many as the two limits leave.
pub append_log-IsSound :
    (e : LogEntry) (fault : Option StorageFault) (t : LogTable)
    → IsSound t
    → IsSound (append_log fault e t).0
      × ((append_log fault e t).1 ≡ answer_of fault (suc t.last_sequence) e)
      × (((commits fault ≡ false) × ((append_log fault e t).0 ≡ t))
          ⊎ ((commits fault ≡ true) × IsAppended e t (append_log fault e t).0))
unfolding append_log
append_log-IsSound e none t s =
    (appended_row-IsSound e t s, refl, inr (refl, appended_row-IsAppended e t))
append_log-IsSound e (some (committed x)) t s =
    (appended_row-IsSound e t s, refl, inr (refl, appended_row-IsAppended e t))
append_log-IsSound e (some (uncommitted x)) t s = (s, refl, inl (refl, refl))

length-filter_rows :
    (key : String) (rs : List LogRow) → length (filter_rows key rs) ≡ count_rows (of_stream key) rs
unfolding count_rows
length-filter_rows key [] = refl
length-filter_rows key (r ∷ rs) = ground (arith, length-filter_rows key rs)

length-map_entry : (rs : List LogRow) → length (map row_entry rs) ≡ length rs
length-map_entry [] = refl
length-map_entry (r ∷ rs) = ap suc (length-map_entry rs)

is_empty-map_entry : (rs : List LogRow) → is_empty (map row_entry rs) ≡ is_empty rs
is_empty-map_entry [] = refl
is_empty-map_entry (r ∷ rs) = refl

drop-suffix : (n : ℕ) (rs : List LogRow) → (older : List LogRow) × (rs ≡ older ++ drop n rs)
drop-suffix zero rs = ([], refl)
drop-suffix (suc n) [] = ([], refl)
drop-suffix (suc n) (r ∷ rs) = let (older, e) = drop-suffix n rs in (r ∷ older, ap (◌∷◌ r) e)

-- A query returns the newest rows of its stream, oldest first: as many as there are, up to its
-- limit, which is brought into the range from 1 to 200. Its status tells whether there was none and
-- whether the stream is active.
pub query_logs_lem :
    (q : LogQuery) (active : Bool) (t : LogTable)
    → (r : LogQueryResult) × (query_logs none q active t ≡ ok r)
      × ((found : List LogRow) × (r.entries ≡ map row_entry found)
          × ((older : List LogRow) × (filter_rows (stream_key q.stream) t.rows ≡ older ++ found)))
      × (length r.entries
          ≡ min (min (max q.limit 1) 200) (count_rows (of_stream (stream_key q.stream)) t.rows))
      × (r.status ≡ stream_status (is_empty r.entries) active)
unfolding query_logs
query_logs_lem q active t = (
  _,
  refl,
  (found, refl, drop-suffix (length matching - limit) matching),
  omega (
    arith,
    length-map_entry found,
    length-drop (length matching - limit) matching,
    length-filter_rows (stream_key q.stream) t.rows,
  ),
  ap (λ b. stream_status b active) (sym (is_empty-map_entry found)),
)
  where
    limit : ℕ
    limit = min (max q.limit 1) 200

    matching : List LogRow
    matching = filter_rows (stream_key q.stream) t.rows

    found : List LogRow
    found = last limit matching
