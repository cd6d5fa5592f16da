-- ===== src/History/Policy/Order.antt =====
-- The order of the records, and sorting by it.
use rem_tene_public.Base.{
  ◌≡◌, refl, ap, ◌∙◌, suc, Bool, true, false, ◌&&◌, List, [], ◌∷◌, arith, length,
}
use rem_tene_public.Base.Text.{Text}
use rem_tene_public.History.{HistoryRecordDto}
use rem_tene_public.History.Policy.{text_le, is_before, insert_sorted, sort}

abbrev pub all_of : (HistoryRecordDto → Bool) → List HistoryRecordDto → Bool
all_of p [] = true
all_of p (r ∷ rs) = p r && all_of p rs

-- Each record is before all that follow.
abbrev pub sorted : List HistoryRecordDto → Bool
sorted [] = true
sorted (r ∷ rs) = all_of (is_before r) rs && sorted rs

text_le_trans : (a b c : Text) → text_le a b ≡ true → text_le b c ≡ true → text_le a c ≡ true
unfolding text_le
text_le_trans [] b c h k = refl
text_le_trans (x ∷ a) [] c h k = cc
text_le_trans (x ∷ a) (y ∷ b) [] h k = cc
text_le_trans (x ∷ a) (y ∷ b) (z ∷ c) h k = ground (arith, text_le_trans a b c)

text_le_total : (a b : Text) → text_le a b ≡ false → text_le b a ≡ true
unfolding text_le
text_le_total [] b h = cc
text_le_total (x ∷ a) [] h = refl
text_le_total (x ∷ a) (y ∷ b) h = ground (arith, text_le_total a b)

pub is_before_trans :
    (a b c : HistoryRecordDto) → is_before a b ≡ true → is_before b c ≡ true → is_before a c ≡ true
unfolding is_before
is_before_trans a b c h k = ground (arith, text_le_trans a.delivery_id b.delivery_id c.delivery_id)

pub is_before_total : (a b : HistoryRecordDto) → is_before a b ≡ false → is_before b a ≡ true
unfolding is_before
is_before_total a b h = ground (arith, text_le_total a.delivery_id b.delivery_id)

-- What is before a record is before all that this record is before.
all_of_trans :
    (a b : HistoryRecordDto) (rs : List HistoryRecordDto)
    → is_before a b ≡ true
    → all_of (is_before b) rs ≡ true
    → all_of (is_before a) rs ≡ true
all_of_trans a b [] h k = refl
all_of_trans a b (r ∷ rs) h k = ground (arith, is_before_trans a b r, all_of_trans a b rs)

pub all_of-insert_sorted :
    (p : HistoryRecordDto → Bool) (r : HistoryRecordDto) (rs : List HistoryRecordDto)
    → all_of p (insert_sorted r rs) ≡ p r && all_of p rs
unfolding insert_sorted
all_of-insert_sorted p r [] = refl
all_of-insert_sorted p r (x ∷ xs) = ground (arith, all_of-insert_sorted p r xs)

sorted-insert_sorted :
    (r : HistoryRecordDto) (rs : List HistoryRecordDto)
    → sorted rs ≡ true
    → sorted (insert_sorted r rs) ≡ true
unfolding insert_sorted
sorted-insert_sorted r [] h = refl
sorted-insert_sorted r (x ∷ xs) h = ground (
  arith,
  sorted-insert_sorted r xs,
  all_of_trans r x xs,
  all_of-insert_sorted (is_before x) r xs,
  is_before_total r x,
)

pub sorted-sort : (rs : List HistoryRecordDto) → sorted (sort rs) ≡ true
unfolding sort
sorted-sort [] = refl
sorted-sort (r ∷ rs) = sorted-insert_sorted r (sort rs) (sorted-sort rs)

pub all_of-sort :
    (p : HistoryRecordDto → Bool) (rs : List HistoryRecordDto) → all_of p (sort rs) ≡ all_of p rs
unfolding sort
all_of-sort p [] = refl
all_of-sort p (r ∷ rs) = all_of-insert_sorted p r (sort rs) ∙ ap (λ b. p r && b) (all_of-sort p rs)

length-insert_sorted :
    (r : HistoryRecordDto) (rs : List HistoryRecordDto)
    → length (insert_sorted r rs) ≡ suc (length rs)
unfolding insert_sorted
length-insert_sorted r [] = refl
length-insert_sorted r (x ∷ xs) = ground (arith, length-insert_sorted r xs)

pub length-sort : (rs : List HistoryRecordDto) → length (sort rs) ≡ length rs
unfolding sort
length-sort [] = refl
length-sort (r ∷ rs) = length-insert_sorted r (sort rs) ∙ ap suc (length-sort rs)

pub and-cases : (a b : Bool) → a && b ≡ true → (a ≡ true) × (b ≡ true)
and-cases true b h = (refl, h)
and-cases false b h = cc
