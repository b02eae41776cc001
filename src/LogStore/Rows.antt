-- ===== src/LogStore/Rows.antt =====
-- The rows of the log table, as its deletions leave them: how many there are, and their order.
use cadder.Base.{
  ap, sym, false, Bool-cases, inl, inr, filter, ℕ, zero, suc, ◌+◌, ◌-◌, ◌≤◌, ◌<◌, String, ◌≡◌, refl,
  Bool, true, List, [], ◌∷◌, ◌++◌, length, if◌then◌else◌, ◌==◌, string_eq, arith, All, min,
}
use text.Mathlib.TextEquality.{eq_iff}
use cadder.LogStore.{LogRow, count_rows, delete_oldest, keep_newest}

-- Deleting the oldest matching rows takes away as many as asked, while there are any, and rows that
-- pass another test only where they pass this one.
count_rows-delete_oldest :
    (p : String → Bool) (n : ℕ) (rs : List LogRow)
    → count_rows p (delete_oldest p n rs) ≡ count_rows p rs - n
unfolding count_rows delete_oldest
count_rows-delete_oldest p zero rs = omega arith
count_rows-delete_oldest p (suc n) [] = omega arith
count_rows-delete_oldest p (suc n) (r ∷ rs) =
    ground (arith, count_rows-delete_oldest p n rs, count_rows-delete_oldest p (suc n) rs)

count_rows-delete_oldest_le :
    (p q : String → Bool) (n : ℕ) (rs : List LogRow)
    → count_rows q (delete_oldest p n rs) ≤ count_rows q rs
unfolding count_rows delete_oldest
count_rows-delete_oldest_le p q zero rs = omega arith
count_rows-delete_oldest_le p q (suc n) [] = omega arith
count_rows-delete_oldest_le p q (suc n) (r ∷ rs) =
    ground (arith, count_rows-delete_oldest_le p q n rs, count_rows-delete_oldest_le p q (suc n) rs)

pub count_rows-keep_newest :
    (p : String → Bool) (limit : ℕ) (rs : List LogRow)
    → count_rows p (keep_newest p limit rs) ≡ min limit (count_rows p rs)
unfolding keep_newest
count_rows-keep_newest p limit rs =
    omega (arith, count_rows-delete_oldest p (count_rows p rs - limit) rs)

pub count_rows-append :
    (p : String → Bool) (rs : List LogRow) (r : LogRow)
    → count_rows p (rs ++ r ∷ []) ≡ (if p r.key then 1 else 0) + count_rows p rs
unfolding count_rows
count_rows-append p [] r = omega arith
count_rows-append p (x ∷ rs) r = omega (arith, count_rows-append p rs r)

pub count_rows_all : (rs : List LogRow) → count_rows (λ k. true) rs ≡ length rs
unfolding count_rows
count_rows_all [] = refl
count_rows_all (r ∷ rs) = omega (arith, count_rows_all rs)

abbrev pub of_stream : String → String → Bool
of_stream key k = k == key

module _ {κ} (P : LogRow → Type κ) where
  All-delete_oldest :
      (p : String → Bool) (n : ℕ) (rs : List LogRow) → All P rs → All P (delete_oldest p n rs)
  unfolding delete_oldest
  All-delete_oldest p zero rs h = h
  All-delete_oldest p (suc n) [] h = tt
  All-delete_oldest p (suc n) (r ∷ rs) h =
      ground (arith, h.0, All-delete_oldest p n rs h.1, All-delete_oldest p (suc n) rs h.1)

-- Numbers rise strictly along the rows.
abbrev pub IsAscending : List LogRow → Type 0
IsAscending [] = Unit
IsAscending (r ∷ rs) = All (λ s. r.sequence < s.sequence) rs × IsAscending rs

delete_oldest-IsAscending :
    (p : String → Bool) (n : ℕ) (rs : List LogRow)
    → IsAscending rs
    → IsAscending (delete_oldest p n rs)
unfolding delete_oldest
delete_oldest-IsAscending p zero rs h = h
delete_oldest-IsAscending p (suc n) [] h = tt
delete_oldest-IsAscending p (suc n) (r ∷ rs) h = ground (
  arith,
  delete_oldest-IsAscending p n rs h.1,
  delete_oldest-IsAscending p (suc n) rs h.1,
  All-delete_oldest (λ s. r.sequence < s.sequence) p (suc n) rs h.0,
)

abbrev pub UpTo : ℕ → List LogRow → Type 0
UpTo n rs = All (λ (s : LogRow). s.sequence ≤ n) rs

pub IsAscending-append :
    (rs : List LogRow) (r : LogRow) (n : ℕ)
    → IsAscending rs
    → UpTo n rs
    → n < r.sequence
    → IsAscending (rs ++ r ∷ []) × UpTo r.sequence (rs ++ r ∷ [])
IsAscending-append [] r n a u h = ((tt, tt), (omega arith, tt))
IsAscending-append (x ∷ rs) r n a u h =
    let (rest, up) = IsAscending-append rs r n a.1 u.1 h in
    (
      (All-snoc rs r (λ s. x.sequence < s.sequence) a.0 (omega (arith, u.0)), rest),
      (omega (arith, u.0), up),
    )
  where
    All-snoc :
        (rs : List LogRow) (r : LogRow) (P : LogRow → Type 0)
        → All P rs
        → P r
        → All P (rs ++ r ∷ [])
    All-snoc [] r P h p = (p, tt)
    All-snoc (x ∷ rs) r P h p = (h.0, All-snoc rs r P h.1 p)

-- The rows that are deleted stand before a row that is added last.
delete_oldest-append :
    (p : String → Bool) (n : ℕ) (rs : List LogRow) (r : LogRow)
    → n ≤ count_rows p rs
    → delete_oldest p n (rs ++ r ∷ []) ≡ delete_oldest p n rs ++ r ∷ []
unfolding count_rows delete_oldest
delete_oldest-append p zero rs r h = refl
delete_oldest-append p (suc n) [] r h = absurd (omega arith)
delete_oldest-append p (suc n) (x ∷ rs) r h =
    ground (arith, delete_oldest-append p n rs r, delete_oldest-append p (suc n) rs r)

pub keep_newest-append :
    (p : String → Bool) (limit : ℕ) (rs : List LogRow) (r : LogRow)
    → 0 < limit
    → (kept : List LogRow) × (keep_newest p limit (rs ++ r ∷ []) ≡ kept ++ r ∷ [])
unfolding keep_newest
keep_newest-append p limit rs r h =
    let n = count_rows p (rs ++ r ∷ []) - limit in
    (delete_oldest p n rs, delete_oldest-append p n rs r (ground (arith, count_rows-append p rs r)))

pub keep_newest_le :
    (p q : String → Bool) (limit : ℕ) (rs : List LogRow)
    → count_rows q (keep_newest p limit rs) ≤ count_rows q rs
unfolding keep_newest
keep_newest_le p q limit rs = count_rows-delete_oldest_le p q (count_rows p rs - limit) rs

pub keep_newest-IsAscending :
    (p : String → Bool) (limit : ℕ) (rs : List LogRow)
    → IsAscending rs
    → IsAscending (keep_newest p limit rs)
unfolding keep_newest
keep_newest-IsAscending p limit rs = delete_oldest-IsAscending p (count_rows p rs - limit) rs

pub keep_newest-All :
    (P : LogRow → Type 0) (p : String → Bool) (limit : ℕ) (rs : List LogRow)
    → All P rs
    → All P (keep_newest p limit rs)
unfolding keep_newest
keep_newest-All P p limit rs = All-delete_oldest P p (count_rows p rs - limit) rs

abbrev pub filter_rows : String → List LogRow → List LogRow
filter_rows key rs = filter (λ (r : LogRow). r.key == key) rs

pub filter_rows-append :
    (key : String) (rs ss : List LogRow)
    → filter_rows key (rs ++ ss) ≡ filter_rows key rs ++ filter_rows key ss
filter_rows-append key [] ss = refl
filter_rows-append key (r ∷ rs) ss = ground (arith, filter_rows-append key rs ss)

pub append_assoc {ℓ} : {A : Type ℓ} (xs ys zs : List A) → (xs ++ ys) ++ zs ≡ xs ++ (ys ++ zs)
append_assoc [] ys zs = refl
append_assoc (x ∷ xs) ys zs = ap (◌∷◌ x) (append_assoc xs ys zs)

-- A deletion leaves a stream whose rows it does not count.
filter_rows-delete_other :
    (p : String → Bool) (n : ℕ) (key : String) (rs : List LogRow)
    → p key ≡ false
    → filter_rows key (delete_oldest p n rs) ≡ filter_rows key rs
unfolding delete_oldest
filter_rows-delete_other p zero key rs h = refl
filter_rows-delete_other p (suc n) key [] h = refl
filter_rows-delete_other p (suc n) key (r ∷ rs) h = ground (
  arith,
  h,
  eq_iff r.key key,
  ap p {x = r.key} {y = key},
  filter_rows-delete_other p n key rs h,
  filter_rows-delete_other p (suc n) key rs h,
)

-- What it leaves of a stream that it counts are the newest rows.
filter_rows-delete_oldest :
    (p : String → Bool) (n : ℕ) (key : String) (rs : List LogRow)
    → p key ≡ true
    → (gone : List LogRow) × (filter_rows key rs ≡ gone ++ filter_rows key (delete_oldest p n rs))
unfolding delete_oldest
filter_rows-delete_oldest p zero key rs h = ([], refl)
filter_rows-delete_oldest p (suc n) key [] h = ([], refl)
filter_rows-delete_oldest p (suc n) key (r ∷ rs) h = elim (Bool-cases (p r.key)) [
  | inl counted ↦
      let (gone, e) = filter_rows-delete_oldest p n key rs h in
      elim (Bool-cases (r.key == key)) [
        | inl own ↦ (r ∷ gone, ground (arith, own, counted, ap (◌∷◌ r) e))
        | inr other ↦ (gone, ground (arith, other, counted, e))
      ]
  | inr passed ↦
      let (gone, e) = filter_rows-delete_oldest p (suc n) key rs h in
      elim (Bool-cases (r.key == key)) [
        | inl own ↦ absurd (cc (passed, h, ap p ((eq_iff r.key key).0 own)))
        | inr other ↦ (gone, ground (arith, passed, other, e))
      ]
]

pub filter_rows-keep_newest :
    (p : String → Bool) (limit : ℕ) (key : String) (rs : List LogRow)
    → (gone : List LogRow) × (filter_rows key rs ≡ gone ++ filter_rows key (keep_newest p limit rs))
unfolding keep_newest
filter_rows-keep_newest p limit key rs = elim (Bool-cases (p key)) [
  | inl counted ↦ filter_rows-delete_oldest p (count_rows p rs - limit) key rs counted
  | inr passed ↦ ([], sym (filter_rows-delete_other p (count_rows p rs - limit) key rs passed))
]

length-delete_oldest :
    (p : String → Bool) (n : ℕ) (rs : List LogRow)
    → n ≤ count_rows p rs
    → length (delete_oldest p n rs) + n ≡ length rs
unfolding count_rows delete_oldest
length-delete_oldest p zero rs h = omega arith
length-delete_oldest p (suc n) [] h = absurd (omega arith)
length-delete_oldest p (suc n) (r ∷ rs) h =
    ground (arith, length-delete_oldest p n rs, length-delete_oldest p (suc n) rs)

pub length-keep_newest :
    (p : String → Bool) (limit : ℕ) (rs : List LogRow)
    → length (keep_newest p limit rs) + (count_rows p rs - limit) ≡ length rs
unfolding keep_newest
length-keep_newest p limit rs = length-delete_oldest p (count_rows p rs - limit) rs (omega arith)
