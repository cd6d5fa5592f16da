-- ===== src/Tests/History.antt =====
-- The history store (crates/remtene-adapters/src/file_history_store.rs) on concrete records.
use rem_tene_public.Base.{
  ℕ, arith, ◌≡◌, ◌≤◌, ◌-◌, refl, true, false, Option, none, some, List, [], ◌∷◌, map, ok, err,
  length,
}
use rem_tene_public.Base.Text.{Text}
use rem_tene_public.Settings.{HistoryPolicy}
use rem_tene_public.Ports.{HistoryRecord}
use rem_tene_public.Fence
use rem_tene_public.Fence.{Fence}
use rem_tene_public.History.{HistoryRecordDto, Codec, from_record, io_error}
use rem_tene_public.History.Policy.{is_before, apply_policy}
use rem_tene_public.History.Policy.Order.{all_of}
use rem_tene_public.History.Policy.Kept.{
  number, is_same, is_unexpired, oldest_first, kept_or_older, apply_policy-kept,
}
use rem_tene_public.History.Store.{
  Io, Disk, read_all, save_with_policy, into_records, clear_all, enforce_policy,
}
use rem_tene_public.History.Store.Laws.{
  IsWith, failed_operations, save-read_all, enforce_policy-read_all, into_records-from_record,
}
use rem_tene_public.Tests.Contract.{one_scalar}

abbrev at : ℕ → ℕ → HistoryRecordDto
at id time = record { delivery_id = id ∷ []; final_text = 97 ∷ []; created_at_ms = time }

abbrev three : List HistoryRecordDto
three = at 3 900 ∷ at 1 100 ∷ at 2 500 ∷ []

apply_policy-kept_example :
    let kept = apply_policy three 2 (some 1) 86400500 in
    let fresh = number (is_unexpired (some 1) 86400500) three in
    (oldest_first kept ≡ true)
    × (all_of (is_unexpired (some 1) 86400500) kept ≡ true)
    × (length kept ≡ fresh - (fresh - 2))
    × ((r : HistoryRecordDto) → number (is_same r) kept ≤ number (is_same r) three)
    × (all_of (kept_or_older (some 1) 86400500 kept) three ≡ true)
apply_policy-kept_example = apply_policy-kept three 2 (some 1) 86400500

-- A record that is exactly as old as the retention is kept.
one_expired : apply_policy three 2 (some 1) 86400500 ≡ at 2 500 ∷ at 3 900 ∷ []
unfolding apply_policy is_before
one_expired = refl

-- A record whose id and text are one scalar value each is written as three numbers.
abbrev write_fields : Text → Text → ℕ → Option (List ℕ)
write_fields (i ∷ []) (t ∷ []) c = some (i ∷ t ∷ c ∷ [])
write_fields _ _ c = none

abbrev write : List HistoryRecordDto → Option (List ℕ)
write [] = some []
write (r ∷ []) = write_fields r.delivery_id r.final_text r.created_at_ms
write _ = none

abbrev read : List ℕ → Option (List HistoryRecordDto)
read [] = some []
read (i ∷ t ∷ c ∷ []) =
    some (record { delivery_id = i ∷ []; final_text = t ∷ []; created_at_ms = c } ∷ [])
read _ = none

read-write_fields :
    (a b : Text) (c : ℕ) (bytes : List ℕ)
    → write_fields a b c ≡ some bytes
    → read bytes ≡ some (record { delivery_id = a; final_text = b; created_at_ms = c } ∷ [])
read-write_fields (i ∷ []) (t ∷ []) c bytes h = ground arith
read-write_fields a b c bytes h = ground arith

read-write :
    (rs : List HistoryRecordDto) (bytes : List ℕ) → write rs ≡ some bytes → read bytes ≡ some rs
read-write [] bytes h = ground arith
read-write (r ∷ []) bytes h = read-write_fields r.delivery_id r.final_text r.created_at_ms bytes h
read-write (r ∷ q ∷ rs) bytes h = ground arith

abbrev numbers : Codec
numbers = record { encode = write; decode = read; decode-encode = read-write }

abbrev works : Io
works = record {
  locked = false;
  read = ok tt;
  temp_create = ok tt;
  temp_write = ok tt;
  temp_sync = ok tt;
  rename = ok tt;
}

-- The write of a replacement is interrupted behind the first number.
abbrev fails : Io
fails = record works { temp_write = err (record { interrupted = true; left = some (4 ∷ []) }) }

abbrev policy : HistoryPolicy
policy = record { enabled = true; limit = 1; retention_days = none }

abbrev delivery : HistoryRecord
delivery = record { delivery_id = 4; final_text = 98 ∷ []; created_at = 1000 }

-- The file holds one record.
abbrev old : Disk
old = record { file = some (9 ∷ 97 ∷ 900 ∷ []); temp = none; lifecycle = Fence.new }

failed_operations_example :
    ((save_with_policy one_scalar numbers fails delivery policy 1000 old).1
        ≡ err (io_error "history.temp_write_failed" true)
      → (save_with_policy one_scalar numbers fails delivery policy 1000 old).0.file ≡ old.file)
    × ((enforce_policy numbers fails policy 1000 old).1
          ≡ err (io_error "history.temp_write_failed" true)
        → (enforce_policy numbers fails policy 1000 old).0.file ≡ old.file)
    × ((clear_all numbers fails old).1 ≡ err (io_error "history.temp_write_failed" true)
        → (clear_all numbers fails old).0.file ≡ old.file)
failed_operations_example =
    failed_operations one_scalar numbers fails delivery policy 1000 old
      (io_error "history.temp_write_failed" true)

save-read_all_example :
    (before : List HistoryRecordDto) × (all : List HistoryRecordDto) × (read_all numbers works old
      ≡ ok before)
    × IsWith (from_record one_scalar delivery) before all
    × (read_all numbers works (save_with_policy one_scalar numbers works delivery policy 1000 old).0
        ≡ ok (apply_policy all 1 none 1000))
unfolding save_with_policy Fence.begin_commit Fence.new apply_policy is_before
save-read_all_example =
    save-read_all one_scalar numbers works works delivery policy 1000 old refl refl refl

enforce_policy-read_all_example :
    (before : List HistoryRecordDto) × (read_all numbers works old ≡ ok before)
    × (read_all numbers works (enforce_policy numbers works policy 1000 old).0
        ≡ ok (apply_policy before 1 none 1000))
unfolding enforce_policy Fence.begin_commit Fence.new apply_policy is_before
enforce_policy-read_all_example =
    enforce_policy-read_all numbers works works policy 1000 old refl refl refl

into_records-from_record_example :
    into_records one_scalar (map (from_record one_scalar) (delivery ∷ [])) ≡ ok (delivery ∷ [])
into_records-from_record_example = into_records-from_record one_scalar (delivery ∷ [])
