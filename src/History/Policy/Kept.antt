-- ===== src/History/Policy/Kept.antt =====
-- Which records `apply_policy` (crates/remtene-adapters/src/file_history_store.rs) keeps.
use rem_tene_public.Base.{
  ◌≡◌, refl, sym, ap, ◌∙◌, ℕ, suc, ◌+◌, ◌-◌, ◌*◌, ◌≤◌, Bool, not, true, false, ◌&&◌, ◌||◌, Option,
  none, some, List, [], ◌∷◌, arith, ltb, leb, ◌==◌, length, Bool-cases, inl, inr,
}
use rem_tene_public.Base.Sets.{◌=?◌, nat_eq, list_eq, list_beq_iff}
use rem_tene_public.History.{HistoryRecordDto}
use rem_tene_public.History.Policy.{
  history_day_ms, text_le, is_before, insert_sorted, sort, drop, apply_limit, retain, unexpired,
  apply_policy,
}
use rem_tene_public.History.Policy.Order.{
  all_of, sorted, sorted-sort, all_of-sort, length-sort, and-cases,
}

abbrev pub is_same : HistoryRecordDto → HistoryRecordDto → Bool
is_same a b =
    a.delivery_id =? b.delivery_id
    && (a.final_text =? b.final_text && a.created_at_ms == b.created_at_ms)

-- The list has this record.
abbrev pub has : List HistoryRecordDto → HistoryRecordDto → Bool
has [] a = false
has (r ∷ rs) a = is_same r a || has rs a

-- How many of the records pass the test.
abbrev pub number : (HistoryRecordDto → Bool) → List HistoryRecordDto → ℕ
number p [] = 0
number p (r ∷ rs) = elim (p r) [ true ↦ suc (number p rs) | false ↦ number p rs ]

-- Created at most so many days ago; without a retention nothing expires.
abbrev pub is_unexpired : Option ℕ → ℕ → HistoryRecordDto → Bool
is_unexpired none now_ms r = true
is_unexpired (some days) now_ms r = leb now_ms (r.created_at_ms + days * 86400000)

-- Created earlier, or at the same time with an identity that is not greater.
abbrev pub is_older : HistoryRecordDto → HistoryRecordDto → Bool
is_older a b =
    ltb a.created_at_ms b.created_at_ms
    || (a.created_at_ms == b.created_at_ms && text_le a.delivery_id b.delivery_id)

abbrev pub oldest_first : List HistoryRecordDto → Bool
oldest_first [] = true
oldest_first (r ∷ rs) = all_of (is_older r) rs && oldest_first rs

is_before-is_older : (a b : HistoryRecordDto) → is_before a b ≡ is_older a b
unfolding is_before
is_before-is_older a b = ground arith

same_refl : (r : HistoryRecordDto) → is_same r r ≡ true
same_refl r =
    ground (arith, list_beq_iff r.delivery_id r.delivery_id, list_beq_iff r.final_text r.final_text)

-- Of two tests, the second holds where the first does.
all_of_mono :
    (p q : HistoryRecordDto → Bool) (rs : List HistoryRecordDto)
    → ((r : HistoryRecordDto) → p r ≡ true → q r ≡ true)
    → all_of p rs ≡ true
    → all_of q rs ≡ true
all_of_mono p q [] f h = refl
all_of_mono p q (r ∷ rs) f h = ground (arith, f r, all_of_mono p q rs f)

drop_zero : (rs : List HistoryRecordDto) → drop 0 rs ≡ rs
unfolding drop
drop_zero [] = refl
drop_zero (r ∷ rs) = refl

apply_limit-drop :
    (rs : List HistoryRecordDto) (limit : ℕ)
    → apply_limit rs limit ≡ drop (length rs - limit) (sort rs)
unfolding apply_limit
apply_limit-drop rs limit =
    let same = length-sort rs in
    elim (Bool-cases (ltb limit (length (sort rs)))) [
      | inl more ↦ rw more (ap (λ n. drop (n - limit) (sort rs)) same)
      | inr fits ↦
          let none_left : length rs - limit ≡ 0 = ground arith in
          rw (fits, none_left) (sym (drop_zero (sort rs)))
    ]

length-drop : (n : ℕ) (rs : List HistoryRecordDto) → length (drop n rs) ≡ length rs - n
unfolding drop
length-drop n [] = ground arith
length-drop n (r ∷ rs) = ground (arith, length-drop (n - 1) rs)

all_of-drop :
    (p : HistoryRecordDto → Bool) (n : ℕ) (rs : List HistoryRecordDto)
    → all_of p rs ≡ true
    → all_of p (drop n rs) ≡ true
unfolding drop
all_of-drop p n [] h = refl
all_of-drop p n (r ∷ rs) h = ground (arith, all_of-drop p (n - 1) rs)

sorted-drop : (n : ℕ) (rs : List HistoryRecordDto) → sorted rs ≡ true → sorted (drop n rs) ≡ true
unfolding drop
sorted-drop n [] h = refl
sorted-drop n (r ∷ rs) h = ground (arith, sorted-drop (n - 1) rs)

has_every : (rs : List HistoryRecordDto) → all_of (has rs) rs ≡ true
has_every [] = refl
has_every (r ∷ rs) =
    let rest = all_of_mono (has rs) (has (r ∷ rs)) rs (λ x h. ground arith) (has_every rs) in
    ground (arith, same_refl r)

-- Each of the second list is in the first, or before all of the first.
abbrev left_or_before : List HistoryRecordDto → List HistoryRecordDto → Bool
left_or_before kept rs = all_of (λ x. has kept x || all_of (is_before x) kept) rs

all_left : (rs : List HistoryRecordDto) → left_or_before rs rs ≡ true
all_left rs =
    all_of_mono (has rs) (λ x. has rs x || all_of (is_before x) rs) rs (λ x h. ground arith)
      (has_every rs)

drop_cons :
    (n : ℕ) (r : HistoryRecordDto) (rs : List HistoryRecordDto)
    → ((n == 0) ≡ true → drop n (r ∷ rs) ≡ r ∷ rs)
      × ((n == 0) ≡ false → drop n (r ∷ rs) ≡ drop (n - 1) rs)
unfolding drop
drop_cons n r rs = (λ h. rw h refl, λ h. rw h refl)

left_or_before-drop :
    (n : ℕ) (rs : List HistoryRecordDto) → sorted rs ≡ true → left_or_before (drop n rs) rs ≡ true
left_or_before-drop n [] h = refl
left_or_before-drop n (r ∷ rs) h =
    let (none_dropped, dropped) = drop_cons n r rs in
    elim (Bool-cases (n == 0)) [
      | inl zero_left ↦
          ap (λ kept. left_or_before kept (r ∷ rs)) (none_dropped zero_left) ∙ all_left (r ∷ rs)
      | inr more ↦
          let (first, later) = and-cases (all_of (is_before r) rs) (sorted rs) h in
          let before = all_of-drop (is_before r) (n - 1) rs first in
          let rest = left_or_before-drop (n - 1) rs later in
          ap (λ kept. left_or_before kept (r ∷ rs)) (dropped more) ∙ ground arith
    ]

sorted-oldest_first : (rs : List HistoryRecordDto) → sorted rs ≡ true → oldest_first rs ≡ true
sorted-oldest_first [] h = refl
sorted-oldest_first (r ∷ rs) h =
    let (first, later) = and-cases (all_of (is_before r) rs) (sorted rs) h in
    let older =
      all_of_mono (is_before r) (is_older r) rs (λ x k. sym (is_before-is_older r x) ∙ k) first in
    let rest = sorted-oldest_first rs later in ground arith

-- What `retain` keeps, described by the age.
number-retain :
    (p : HistoryRecordDto → Bool) (days now : ℕ) (rs : List HistoryRecordDto)
    → number p (retain (now - days * history_day_ms) rs) ≤ number p rs
unfolding retain
number-retain p days now [] = omega arith
number-retain p days now (r ∷ rs) = ground (arith, number-retain p days now rs)

number-unexpired :
    (p : HistoryRecordDto → Bool) (days : Option ℕ) (now : ℕ) (rs : List HistoryRecordDto)
    → number p (unexpired days now rs) ≤ number p rs
unfolding unexpired
number-unexpired p none now rs = omega arith
number-unexpired p (some days) now rs = number-retain p days now rs

all_of-unexpired :
    (days : Option ℕ) (now : ℕ) (rs : List HistoryRecordDto)
    → all_of (is_unexpired days now) (unexpired days now rs) ≡ true
unfolding unexpired retain
all_of-unexpired none now [] = refl
all_of-unexpired none now (r ∷ rs) = all_of-unexpired none now rs
all_of-unexpired (some days) now [] = refl
all_of-unexpired (some days) now (r ∷ rs) = ground (arith, all_of-unexpired (some days) now rs)

length-number : (rs : List HistoryRecordDto) → length rs ≡ number (λ r. true) rs
length-number [] = refl
length-number (r ∷ rs) = ap suc (length-number rs)

length-unexpired :
    (days : Option ℕ) (now : ℕ) (rs : List HistoryRecordDto)
    → length (unexpired days now rs) ≡ number (is_unexpired days now) rs
unfolding unexpired retain
length-unexpired none now rs = length-number rs
length-unexpired (some days) now [] = refl
length-unexpired (some days) now (r ∷ rs) = ground (arith, length-unexpired (some days) now rs)

-- What holds of all that are kept holds of each record that is not expired.
all_of-unexpired_or :
    (p : HistoryRecordDto → Bool) (days : Option ℕ) (now : ℕ) (rs : List HistoryRecordDto)
    → all_of p (unexpired days now rs) ≡ true
    → all_of (λ r. not (is_unexpired days now r) || p r) rs ≡ true
unfolding unexpired retain
all_of-unexpired_or p none now [] h = refl
all_of-unexpired_or p none now (r ∷ rs) h = ground (arith, all_of-unexpired_or p none now rs)
all_of-unexpired_or p (some days) now [] h = refl
all_of-unexpired_or p (some days) now (r ∷ rs) h =
    ground (arith, all_of-unexpired_or p (some days) now rs)

number-insert_sorted :
    (p : HistoryRecordDto → Bool) (r : HistoryRecordDto) (rs : List HistoryRecordDto)
    → number p (insert_sorted r rs) ≡ number p (r ∷ rs)
unfolding insert_sorted
number-insert_sorted p r [] = refl
number-insert_sorted p r (x ∷ xs) = ground (arith, number-insert_sorted p r xs)

number-sort :
    (p : HistoryRecordDto → Bool) (rs : List HistoryRecordDto) → number p (sort rs) ≡ number p rs
unfolding sort
number-sort p [] = refl
number-sort p (r ∷ rs) =
    let here = number-insert_sorted p r (sort rs) in let rest = number-sort p rs in ground arith

number-drop :
    (p : HistoryRecordDto → Bool) (n : ℕ) (rs : List HistoryRecordDto)
    → number p (drop n rs) ≤ number p rs
unfolding drop
number-drop p n [] = omega arith
number-drop p n (r ∷ rs) = ground (arith, number-drop p (n - 1) rs)

-- Each record that is not expired is kept, or older than all that are kept.
abbrev pub kept_or_older : Option ℕ → ℕ → List HistoryRecordDto → HistoryRecordDto → Bool
kept_or_older days now kept r =
    not (is_unexpired days now r) || (has kept r || all_of (is_older r) kept)

left_or_before-kept_or_older :
    (records : List HistoryRecordDto) (kept : List HistoryRecordDto) (days : Option ℕ) (now : ℕ)
    → left_or_before kept (unexpired days now records) ≡ true
    → all_of (kept_or_older days now kept) records ≡ true
left_or_before-kept_or_older records kept days now h =
    all_of-unexpired_or (λ r. has kept r || all_of (is_older r) kept) days now records
      (all_of_mono (λ r. has kept r || all_of (is_before r) kept)
        (λ r. has kept r || all_of (is_older r) kept) (unexpired days now records)
        (λ r k.
          let older =
            all_of_mono (is_before r) (is_older r) kept (λ x e. sym (is_before-is_older r x) ∙ e) in
          ground (arith, older))
        h)

-- The policy keeps the newest of the records that are not expired. The kept records stand oldest
-- first, by time and then identity; none of them is expired; they are as many as the unexpired
-- records, but at most the limit; no record is kept more often than it was there; and each record
-- that is not expired is kept or is older than all that are kept.
pub apply_policy-kept :
    (records : List HistoryRecordDto) (limit : ℕ) (days : Option ℕ) (now : ℕ)
    → let kept = apply_policy records limit days now in
      let fresh = number (is_unexpired days now) records in
      (oldest_first kept ≡ true)
      × (all_of (is_unexpired days now) kept ≡ true)
      × (length kept ≡ fresh - (fresh - limit))
      × ((r : HistoryRecordDto) → number (is_same r) kept ≤ number (is_same r) records)
      × (all_of (kept_or_older days now kept) records ≡ true)
unfolding apply_policy
apply_policy-kept records limit days now =
    let fresh = unexpired days now records in
    let n = length fresh - limit in
    let order = sorted-sort fresh in
    rw (apply_limit-drop fresh limit) (
      sorted-oldest_first (drop n (sort fresh)) (sorted-drop n (sort fresh) order),
      all_of-drop (is_unexpired days now) n (sort fresh)
          (all_of-sort (is_unexpired days now) fresh ∙ all_of-unexpired days now records),
      length-drop n (sort fresh)
          ∙ ap (λ k. k - n) (length-sort fresh)
          ∙ ap (λ k. k - (k - limit)) (length-unexpired days now records),
      λ r.
          let dropped = number-drop (is_same r) n (sort fresh) in
          let same = number-sort (is_same r) fresh in
          let left = number-unexpired (is_same r) days now records in omega arith,
      left_or_before-kept_or_older records (drop n (sort fresh)) days now (
          sym (
            all_of-sort
              (λ r. has (drop n (sort fresh)) r || all_of (is_before r) (drop n (sort fresh)))
              fresh)
          ∙ left_or_before-drop n (sort fresh) order),
    )
