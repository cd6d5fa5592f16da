-- ===== src/History/Policy.antt =====
-- `apply_policy` and `apply_limit` (crates/remtene-adapters/src/file_history_store.rs). The stable
-- `sort_by` of the standard library is an insertion sort; text is compared by scalar values, which
-- is the order of its UTF-8 bytes.
pub mod Order
pub mod Kept
use rem_tene_public.Base.{
  ℕ, ◌-◌, ◌*◌, Bool, true, false, ◌&&◌, ◌||◌, Option, none, some, List, [], ◌∷◌, ltb, leb, ◌==◌,
  length, if◌then◌else◌,
}
use rem_tene_public.Base.Text.{Text}
use rem_tene_public.History.{HistoryRecordDto}

abbrev pub history_day_ms : ℕ
history_day_ms = 24 * 60 * 60 * 1000

unfoldable pub text_le : Text → Text → Bool
text_le [] _ = true
text_le (_ ∷ _) [] = false
text_le (a ∷ as') (b ∷ bs) = let rest = text_le as' bs in if ltb a b then true else a == b && rest

-- The comparison of `sort_by` is not `Greater`.
unfoldable pub is_before : HistoryRecordDto → HistoryRecordDto → Bool
unfolding text_le
is_before a b =
    if ltb a.created_at_ms b.created_at_ms
    then true
    else a.created_at_ms == b.created_at_ms && text_le a.delivery_id b.delivery_id

unfoldable pub insert_sorted : HistoryRecordDto → List HistoryRecordDto → List HistoryRecordDto
insert_sorted r [] = r ∷ []
insert_sorted r (x ∷ xs) =
    let rest = insert_sorted r xs in if is_before r x then r ∷ x ∷ xs else x ∷ rest

unfoldable pub sort : List HistoryRecordDto → List HistoryRecordDto
unfolding insert_sorted
sort [] = []
sort (r ∷ rs) = insert_sorted r (sort rs)

unfoldable pub drop : ℕ → List HistoryRecordDto → List HistoryRecordDto
drop n [] = []
drop n (r ∷ rs) = let rest = drop (n - 1) rs in if n == 0 then r ∷ rs else rest

-- Where there are not more than `limit`, nothing is drained.
unfoldable pub apply_limit : List HistoryRecordDto → ℕ → List HistoryRecordDto
unfolding sort drop
apply_limit records limit =
    let sorted = sort records in
    if ltb limit (length sorted) then drop (length sorted - limit) sorted else sorted

-- `retain`
unfoldable pub retain : ℕ → List HistoryRecordDto → List HistoryRecordDto
retain cutoff [] = []
retain cutoff (r ∷ rs) =
    let rest = retain cutoff rs in if leb cutoff r.created_at_ms then r ∷ rest else rest

-- The largest product, 65535 days, is below 2 ^ 64, so `saturating_mul` is the product.
unfoldable pub unexpired : Option ℕ → ℕ → List HistoryRecordDto → List HistoryRecordDto
unfolding retain
unexpired none now_ms records = records
unexpired (some retention_days) now_ms records =
    retain (now_ms - retention_days * history_day_ms) records

unfoldable pub apply_policy : List HistoryRecordDto → ℕ → Option ℕ → ℕ → List HistoryRecordDto
unfolding apply_limit unexpired
apply_policy records limit retention_days now_ms =
    apply_limit (unexpired retention_days now_ms records) limit
