-- ===== src/LogStore/Memory.antt =====
-- The store in memory: exact counts, and bounds that every append restores.
use cadder.Base.{
  ℕ, zero, suc, ◌+◌, ◌-◌, ◌≤◌, String, ◌≡◌, refl, Bool, true, false, ◌||◌, List, [], ◌∷◌, ◌++◌,
  length, if◌then◌else◌, ltb, ◌==◌, nat_eq, string_eq, arith, sym, ◌∙◌, ap, inl, inr, Bool-cases,
  subst, ◌⊎◌, ◌<◌,
}
use cadder.Base.Dict.{lookup-insert, lookup-adjust}
use cadder.LogStore.{LogInner, key_of, counted, evict_front, evict, push_entry, append_memory}
use cadder.Protocol.Logs.{LogEntry}
use text.Mathlib.TextEquality.{eq_iff}

unfoldable pub count_key : String → List LogEntry → ℕ
count_key k [] = 0
count_key k (e ∷ es) = (if key_of e == k then 1 else 0) + count_key k es

pub count_key-append :
    (k : String) (es : List LogEntry) (e : LogEntry)
    → count_key k (es ++ e ∷ []) ≡ (if key_of e == k then 1 else 0) + count_key k es
unfolding count_key
count_key-append k [] e = omega arith
count_key-append k (x ∷ es) e = omega (arith, count_key-append k es e)

-- The count that is kept for each key is the number of its entries.
abbrev pub IsAccurate : LogInner → Type 0
IsAccurate s = (k : String) → counted k s ≡ count_key k s.entries

push_entry-IsAccurate : (e : LogEntry) (s : LogInner) → IsAccurate s → IsAccurate (push_entry e s)
unfolding push_entry
push_entry-IsAccurate e s a k = ground (
  arith,
  a k,
  a (key_of e),
  lookup-insert (key_of e) k (counted (key_of e) s + 1) s.per_stream,
  eq_iff (key_of e) k,
  ap (λ (x : String). counted x s) {x = key_of e} {y = k},
  count_key-append k s.entries (record e { sequence_number = suc s.next_sequence }),
)

evict_front-IsAccurate :
    (e : LogEntry) (es : List LogEntry) (s : LogInner)
    → s.entries ≡ e ∷ es
    → IsAccurate s
    → IsAccurate (evict_front e es s)
unfolding evict_front count_key
evict_front-IsAccurate e es s is a k =
    ground (arith, a k ∙ ap (count_key k) is, lookup-adjust (key_of e) k (λ n. n - 1) s.per_stream)

-- A queue that is over a limit.
abbrev pub IsExceeded : ℕ → ℕ → String → List LogEntry → Type 0
IsExceeded max_entries max_per_stream key es =
    (max_entries < length es) ⊎ (max_per_stream < count_key key es)

-- What the eviction loop leaves of a queue: a suffix of it, within both limits, before which the queue
-- was over one.
pub record IsTrimmed (max_entries max_per_stream : ℕ) (key : String) (s r : LogInner) : Type 0 where
  pub accurate : IsAccurate r
  pub bounded : length r.entries ≤ max_entries
  pub stream_bounded : counted key r ≤ max_per_stream
  pub evicted : List LogEntry
  pub suffix : s.entries ≡ evicted ++ r.entries
  pub numbered : r.next_sequence ≡ s.next_sequence
  pub needed :
      (evicted ≡ [])
      ⊎ ((older : List LogEntry) × (x : LogEntry) × (evicted ≡ older ++ x ∷ [])
          × IsExceeded max_entries max_per_stream key (x ∷ r.entries))

module _ (max_entries max_per_stream : ℕ) (key : String) where
  evict_empty :
      (s : LogInner) → IsAccurate s → s.entries ≡ [] → IsTrimmed max_entries max_per_stream key s s
  unfolding count_key
  evict_empty s a e = record {
    accurate = a;
    bounded = ground (arith, ap length e);
    stream_bounded = ground (arith, a key ∙ ap (count_key key) e);
    evicted = [];
    suffix = refl;
    numbered = refl;
    needed = inl refl;
  }

  is_over : LogInner → Bool
  is_over s = ltb max_entries (length s.entries) || ltb max_per_stream (counted key s)

  is_over-IsExceeded :
      (s : LogInner)
      → IsAccurate s
      → is_over s ≡ true
      → IsExceeded max_entries max_per_stream key s.entries
  unfolding is_over
  is_over-IsExceeded s a over = elim (Bool-cases (ltb max_entries (length s.entries))) [
    | inl many ↦ inl (ground (arith, many))
    | inr within ↦ inr (ground (arith, within, over, a key))
  ]

  evict_within :
      (fuel : ℕ) (s : LogInner)
      → is_over s ≡ false
      → evict (suc fuel) max_entries max_per_stream key s ≡ s
  unfolding evict is_over
  evict_within fuel s h = ground (arith, h)

  evict_zero : (s : LogInner) → evict 0 max_entries max_per_stream key s ≡ s
  unfolding evict
  evict_zero s = refl

  evict_nil :
      (fuel : ℕ) (s : LogInner)
      → s.entries ≡ []
      → evict (suc fuel) max_entries max_per_stream key s ≡ s
  unfolding evict
  evict_nil fuel s e = ground (arith, e)

  evict_cons :
      (fuel : ℕ) (s : LogInner) (x : LogEntry) (xs : List LogEntry)
      → is_over s ≡ true
      → s.entries ≡ x ∷ xs
      → evict (suc fuel) max_entries max_per_stream key s
        ≡ evict fuel max_entries max_per_stream key (evict_front x xs s)
  unfolding evict is_over
  evict_cons fuel s x xs h e = ground (arith, h, e)

  evict_front-IsTrimmed :
      (s r : LogInner) (x : LogEntry) (xs : List LogEntry)
      → s.entries ≡ x ∷ xs
      → IsAccurate s
      → is_over s ≡ true
      → IsTrimmed max_entries max_per_stream key (evict_front x xs s) r
      → IsTrimmed max_entries max_per_stream key s r
  unfolding evict_front
  evict_front-IsTrimmed s r x xs e a over t = record {
    accurate = t.accurate;
    bounded = t.bounded;
    stream_bounded = t.stream_bounded;
    evicted = x ∷ t.evicted;
    suffix = e ∙ ap (◌∷◌ x) t.suffix;
    numbered = t.numbered;
    needed = by_needed t.needed;
  }
    where
      by_needed :
          ((t.evicted ≡ [])
            ⊎ ((older : List LogEntry) × (y : LogEntry) × (t.evicted ≡ older ++ y ∷ [])
                × IsExceeded max_entries max_per_stream key (y ∷ r.entries)))
          → (◌≡◌ {A = List LogEntry} (x ∷ t.evicted) [])
            ⊎ ((older : List LogEntry) × (y : LogEntry) × (x ∷ t.evicted ≡ older ++ y ∷ [])
                × IsExceeded max_entries max_per_stream key (y ∷ r.entries))
      by_needed (inl none_yet) = inr (
        [],
        x,
        ap (◌∷◌ x) none_yet,
        subst (λ es. IsExceeded max_entries max_per_stream key (x ∷ es))
            (t.suffix ∙ ap (λ gone. gone ++ r.entries) none_yet)
            (subst (IsExceeded max_entries max_per_stream key) e (is_over-IsExceeded s a over)),
      )
      by_needed (inr (older, y, last, exceeded)) = inr (x ∷ older, y, ap (◌∷◌ x) last, exceeded)

  within-IsTrimmed :
      (s : LogInner)
      → IsAccurate s
      → is_over s ≡ false
      → IsTrimmed max_entries max_per_stream key s s
  unfolding is_over
  within-IsTrimmed s a h = record {
    accurate = a;
    bounded = ground (arith, h);
    stream_bounded = ground (arith, h);
    evicted = [];
    suffix = refl;
    numbered = refl;
    needed = inl refl;
  }

  length-evict_front :
      (s : LogInner) (x : LogEntry) (xs : List LogEntry) → (evict_front x xs s).entries ≡ xs
  unfolding evict_front
  length-evict_front s x xs = refl

  abbrev Trims : LogInner → LogInner → Type 0
  Trims s r = IsTrimmed max_entries max_per_stream key s r

  evict-IsTrimmed :
      (fuel : ℕ) (s : LogInner) (es : List LogEntry)
      → s.entries ≡ es
      → IsAccurate s
      → length es ≤ fuel
      → Trims s (evict fuel max_entries max_per_stream key s)
  evict-IsTrimmed zero s [] e a h = subst (Trims s) (sym (evict_zero s)) (evict_empty s a e)
  evict-IsTrimmed zero s (x ∷ xs) e a h = absurd (omega arith)
  evict-IsTrimmed (suc fuel) s [] e a h =
      subst (Trims s) (sym (evict_nil fuel s e)) (evict_empty s a e)
  evict-IsTrimmed (suc fuel) s (x ∷ xs) e a h =
      let rest =
        evict-IsTrimmed fuel (evict_front x xs s) xs (length-evict_front s x xs)
          (evict_front-IsAccurate x xs s e a) (omega arith) in
      elim (Bool-cases (is_over s)) [
        | inl over ↦
            subst (Trims s) (sym (evict_cons fuel s x xs over e))
              (evict_front-IsTrimmed s _ x xs e a over rest)
        | inr within ↦
            subst (Trims s) (sym (evict_within fuel s within)) (within-IsTrimmed s a within)
      ]

pub append_memory-IsTrimmed :
    (max_entries max_per_stream : ℕ) (e : LogEntry) (s : LogInner)
    → IsAccurate s
    → IsTrimmed max_entries max_per_stream
        (key_of e)
        (push_entry e s)
        (append_memory max_entries max_per_stream e s)
unfolding append_memory
append_memory-IsTrimmed max_entries max_per_stream e s a =
    evict-IsTrimmed max_entries max_per_stream (key_of e) (length (push_entry e s).entries)
      (push_entry e s) (push_entry e s).entries refl (push_entry-IsAccurate e s a) (omega arith)

-- The store after an append: exact counts, both limits kept, the next number given, and of the queue
-- with the new entry at its end a suffix, which is the whole unless one entry more would be over a
-- limit.
pub record IsAppended (max_entries max_per_stream : ℕ) (e : LogEntry) (s r : LogInner)
    : Type 0 where
  pub accurate : IsAccurate r
  pub bounded : length r.entries ≤ max_entries
  pub stream_bounded : counted (key_of e) r ≤ max_per_stream
  pub numbered : r.next_sequence ≡ suc s.next_sequence
  pub evicted : List LogEntry
  pub suffix :
      s.entries ++ record e { sequence_number = suc s.next_sequence } ∷ [] ≡ evicted ++ r.entries
  pub needed :
      (evicted ≡ [])
      ⊎ ((older : List LogEntry) × (x : LogEntry) × (evicted ≡ older ++ x ∷ [])
          × IsExceeded max_entries max_per_stream (key_of e) (x ∷ r.entries))

-- An append to a store with exact counts gives the entry the next number and puts it last, and then
-- takes out the oldest entries alone, and no more of them than are needed to keep both limits, the
-- second one for the stream of the entry. It leaves exact counts.
pub append_memory-IsAppended :
    (max_entries max_per_stream : ℕ) (e : LogEntry) (s : LogInner)
    → IsAccurate s
    → IsAppended max_entries max_per_stream e s (append_memory max_entries max_per_stream e s)
unfolding push_entry
append_memory-IsAppended max_entries max_per_stream e s a =
    let t = append_memory-IsTrimmed max_entries max_per_stream e s a in
    record {
      accurate = t.accurate;
      bounded = t.bounded;
      stream_bounded = t.stream_bounded;
      numbered = t.numbered;
      evicted = t.evicted;
      suffix = t.suffix;
      needed = t.needed;
    }
