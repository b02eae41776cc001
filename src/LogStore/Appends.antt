-- ===== src/LogStore/Appends.antt =====
-- The store in memory after any number of appends.
use cadder.Base.{
  ℕ, suc, ◌+◌, ◌≤◌, String, ◌≡◌, refl, List, [], ◌∷◌, ◌++◌, length, if◌then◌else◌, ◌==◌, nat_eq,
  string_eq, arith, ap, inl, inr, Bool-cases, subst,
}
use cadder.Base.Dict.{lookup}
use cadder.LogStore.{LogInner, new_inner, key_of, push_entry, append_memory}
use cadder.Protocol.Logs.{LogEntry}
use text.Mathlib.TextEquality.{eq_iff}
use cadder.LogStore.Memory.{
  count_key, count_key-append, IsAccurate, IsTrimmed, append_memory-IsTrimmed,
}

count_key-suffix : (k : String) (xs ys : List LogEntry) → count_key k ys ≤ count_key k (xs ++ ys)
unfolding count_key
count_key-suffix k [] ys = omega arith
count_key-suffix k (x ∷ xs) ys = omega (arith, count_key-suffix k xs ys)

-- Both limits hold, the second one for every stream.
pub record IsBounded (max_entries max_per_stream : ℕ) (s : LogInner) : Type 0 where
  pub accurate : IsAccurate s
  pub total : length s.entries ≤ max_entries
  pub streams : (k : String) → count_key k s.entries ≤ max_per_stream

count_key-push_entry :
    (k : String) (e : LogEntry) (s : LogInner)
    → count_key k (push_entry e s).entries
      ≡ (if key_of e == k then 1 else 0) + count_key k s.entries
unfolding push_entry
count_key-push_entry k e s =
    count_key-append k s.entries (record e { sequence_number = suc s.next_sequence })

append_memory-IsBounded :
    (max_entries max_per_stream : ℕ) (e : LogEntry) (s : LogInner)
    → IsBounded max_entries max_per_stream s
    → IsBounded max_entries max_per_stream (append_memory max_entries max_per_stream e s)
append_memory-IsBounded max_entries max_per_stream e s b = record {
  accurate = t.accurate;
  total = t.bounded;
  streams = λ k. elim (Bool-cases (key_of e == k)) [
    | inl own ↦
        subst (λ j. count_key j r.entries ≤ max_per_stream) ((eq_iff (key_of e) k).0 own)
          (omega (arith, t.accurate (key_of e), t.stream_bounded))
    | inr other ↦ ground (
      arith,
      other,
      b.streams k,
      count_key-push_entry k e s,
      ap (count_key k) t.suffix,
      count_key-suffix k t.evicted r.entries,
    )
  ];
}
  where
    r : LogInner
    r = append_memory max_entries max_per_stream e s

    t : IsTrimmed max_entries max_per_stream (key_of e) (push_entry e s) r
    t = append_memory-IsTrimmed max_entries max_per_stream e s b.accurate

-- A sequence of appends.
pub append_all : ℕ → ℕ → List LogEntry → LogInner → LogInner
append_all max_entries max_per_stream [] s = s
append_all max_entries max_per_stream (e ∷ es) s =
    append_all max_entries max_per_stream es (append_memory max_entries max_per_stream e s)

append_all-IsBounded :
    (max_entries max_per_stream : ℕ) (es : List LogEntry) (s : LogInner)
    → IsBounded max_entries max_per_stream s
    → IsBounded max_entries max_per_stream (append_all max_entries max_per_stream es s)
unfolding append_all
append_all-IsBounded max_entries max_per_stream [] s b = b
append_all-IsBounded max_entries max_per_stream (e ∷ es) s b =
    append_all-IsBounded max_entries max_per_stream es
      (append_memory max_entries max_per_stream e s)
      (append_memory-IsBounded max_entries max_per_stream e s b)

new-IsBounded : (max_entries max_per_stream : ℕ) → IsBounded max_entries max_per_stream new_inner
unfolding count_key lookup
new-IsBounded max_entries max_per_stream = record {
  accurate = λ k. refl;
  total = omega arith;
  streams = λ k. omega arith;
}

-- After any appends to a new store, both limits hold, for the whole queue and for every stream, and
-- the count that is kept for each stream is exact.
pub append_all-new :
    (max_entries max_per_stream : ℕ) (es : List LogEntry)
    → IsBounded max_entries max_per_stream (append_all max_entries max_per_stream es new_inner)
append_all-new max_entries max_per_stream es =
    append_all-IsBounded max_entries max_per_stream es new_inner
      (new-IsBounded max_entries max_per_stream)
