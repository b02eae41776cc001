-- ===== src/Examples/Logs.antt =====
-- The log store, in memory and over the database.
use cadder.Base.{
  ◌≡◌, refl, true, false, Option, ◌⊎◌, some, none, some, List, [], ◌++◌, map, length, ok, min, max,
  is_empty, arith,
}
use cadder.Base.Dict.{lookup}
use cadder.Examples.{line}
use cadder.LogStore.{
  stream_key, new_inner, append_memory, LogRow, LogTable, append_log, LogQuery, LogQueryResult,
  row_entry, count_rows, query_logs, stream_status,
}
use cadder.LogStore.Memory.{IsAccurate, append_memory-IsAppended, count_key}
use cadder.LogStore.Memory as Memory
use cadder.Database.{StorageFault, committed}
use cadder.LogStore.Rows.{of_stream, filter_rows}
use cadder.LogStore.Table.{
  IsSound, IsAppended, answer_of, commits, append_log-IsSound, query_logs_lem,
}

new_inner-IsAccurate : IsAccurate new_inner
unfolding lookup count_key
new_inner-IsAccurate k = refl

append_memory-IsAppended_example :
    Memory.IsAppended 5000 1000
      (line "ready")
      new_inner
      (append_memory 5000 1000 (line "ready") new_inner)
append_memory-IsAppended_example =
    append_memory-IsAppended 5000 1000 (line "ready") new_inner new_inner-IsAccurate

abbrev no_rows : LogTable
no_rows = record { rows = []; last_sequence = 0 }

no_rows-IsSound : IsSound no_rows
unfolding count_rows
no_rows-IsSound = record {
  retained = record { total = omega arith; streams = λ key. omega arith };
  ascending = tt;
  numbered = tt;
}

-- The commit comes before the deadline is reported.
abbrev late : Option StorageFault
late = some (committed "SQLite operation exceeded its deadline and was rolled back")

append_log-IsSound_example :
    IsSound (append_log late (line "ready") no_rows).0
    × ((append_log late (line "ready") no_rows).1 ≡ answer_of late 1 (line "ready"))
    × (((commits late ≡ false) × ((append_log late (line "ready") no_rows).0 ≡ no_rows))
        ⊎ ((commits late ≡ true)
            × IsAppended (line "ready") no_rows (append_log late (line "ready") no_rows).0))
append_log-IsSound_example = append_log-IsSound (line "ready") late no_rows no_rows-IsSound

abbrev query : LogQuery
query = record { stream = (line "ready").stream; limit = 300 }

abbrev one_row : LogTable
one_row = (append_log none (line "ready") no_rows).0

query_logs_lem_example :
    (r : LogQueryResult) × (query_logs none query true one_row ≡ ok r)
    × ((found : List LogRow) × (r.entries ≡ map row_entry found)
        × ((older : List LogRow) × (filter_rows (stream_key query.stream) one_row.rows
              ≡ older ++ found)))
    × (length r.entries
        ≡ min
            (min (max query.limit 1) 200)
            (count_rows (of_stream (stream_key query.stream)) one_row.rows))
    × (r.status ≡ stream_status (is_empty r.entries) true)
query_logs_lem_example = query_logs_lem query true one_row
