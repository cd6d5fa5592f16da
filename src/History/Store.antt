-- ===== src/History/Store.antt =====
-- `FileHistoryStore` (crates/remtene-adapters/src/file_history_store.rs): each operation reads and
-- writes the file under the lock. The guard of the lifecycle fence is given back at the end.
pub mod Laws
use rem_tene_public.Base.{
  ℕ, Bool, true, false, not, ◌&&◌, Option, none, some, List, [], ◌∷◌, ◌++◌, String, Result, ok, err,
  ◌==◌, if◌then◌else◌,
}
use rem_tene_public.Base.Results.{◌>>=◌}
use rem_tene_public.Base.Sets.{◌=?◌, nat_eq, list_eq}
use rem_tene_public.Base.Text.{Text}
use rem_tene_public.Settings.{HistoryPolicy}
use rem_tene_public.Routes.{PortError}
use rem_tene_public.Ports.{HistoryRecord}
use rem_tene_public.Fence.{Fence, begin_commit, end_commit}
use rem_tene_public.Contract.Artifact.{UuidText}
use rem_tene_public.History.{
  HistoryRecordDto, Codec, io_error, decode_error, lock_error, lifecycle_error, from_record,
  into_record,
}
use rem_tene_public.History.Policy.{apply_policy}

-- An error of a call on a file: whether the call was interrupted, and what it left in the file.
pub record Fault : Type 0 where
  pub interrupted : Bool
  pub left : Option (List ℕ)

-- What the file system does in one operation: whether the lock is poisoned, and for each call the
-- error it has. A rename and a read that fail leave the files.
pub record Io : Type 0 where
  pub locked : Bool
  pub read : Result Bool (Unit {0})
  pub temp_create : Result Fault (Unit {0})
  pub temp_write : Result Fault (Unit {0})
  pub temp_sync : Result Fault (Unit {0})
  pub rename : Result Bool (Unit {0})

-- `path`, and `path.with_extension("json.tmp")`.
pub data FileName : Type 0 where
  history_file temp_file : FileName

-- `file` is the content of the history file, or that there is none, `temp` that of the other file.
pub record Disk : Type 0 where
  pub file : Option (List ℕ)
  pub temp : Option (List ℕ)
  pub lifecycle : Fence

unfoldable pub content : FileName → Disk → Option (List ℕ)
content history_file disk = disk.file
content temp_file disk = disk.temp

unfoldable pub put : FileName → Option (List ℕ) → Disk → Disk
put history_file bytes disk = record disk { file = bytes }
put temp_file bytes disk = record disk { temp = bytes }

-- The disk after an operation, with its result.
abbrev pub Done : Type 0
Done = Disk × Result PortError (Unit {0})

unfoldable pub decoded : Option (List HistoryRecordDto) → Result PortError (List HistoryRecordDto)
decoded none = err (decode_error "history.decode_failed")
decoded (some records) = ok records

-- The `match fs::read(path)`; a missing file is `ErrorKind::NotFound`.
unfoldable pub read_file :
    Codec → Option (List ℕ) → Result Bool (Unit {0}) → Result PortError (List HistoryRecordDto)
unfolding decoded
read_file C none _ = ok []
read_file C (some bytes) (err interrupted) = err (io_error "history.read_failed" interrupted)
read_file C (some bytes) (ok _) = decoded (C.decode bytes)

unfoldable pub read_all : Codec → Io → Disk → Result PortError (List HistoryRecordDto)
unfolding read_file
read_all C io disk = read_file C disk.file io.read

-- A call on a file, with the content that it gives the file.
unfoldable pub on_file : FileName → String → Option (List ℕ) → Result Fault (Unit {0}) → Disk → Done
unfolding put
on_file name code after (ok _) disk = (put name after disk, ok tt)
on_file name code after (err fault) disk =
    (put name fault.left disk, err (io_error code fault.interrupted))

unfoldable pub with_bytes : Option (List ℕ) → List ℕ → List ℕ
with_bytes none bytes = bytes
with_bytes (some old) bytes = old ++ bytes

-- `fs::File::create`, which leaves an empty file; `write_all`, which writes behind what was written;
-- and `sync_all`.
unfoldable pub create_file : FileName → Result Fault (Unit {0}) → Disk → Done
unfolding on_file
create_file name r disk = on_file name "history.temp_create_failed" (some []) r disk

unfoldable pub write_file : FileName → List ℕ → Result Fault (Unit {0}) → Disk → Done
unfolding on_file with_bytes content
write_file name bytes r disk =
    on_file name "history.temp_write_failed" (some (with_bytes (content name disk) bytes)) r disk

unfoldable pub sync_file : FileName → Result Fault (Unit {0}) → Disk → Done
unfolding on_file content
sync_file name r disk = on_file name "history.temp_sync_failed" (content name disk) r disk

unfoldable pub rename_file : FileName → FileName → Result Bool (Unit {0}) → Disk → Done
unfolding put content
rename_file source target (ok _) disk =
    (put source none (put target (content source disk) disk), ok tt)
rename_file source target (err interrupted) disk =
    (disk, err (io_error "history.rename_failed" interrupted))

-- `?`: what follows a call that succeeds.
unfoldable pub and_then : Done → (Disk → Done) → Done
and_then (disk, ok _) next = next disk
and_then (disk, err e) next = (disk, err e)

-- The calls of the atomic replacement, with their outcomes.
unfoldable pub replaced :
    List ℕ
    → Result Fault (Unit {0})
    → Result Fault (Unit {0})
    → Result Fault (Unit {0})
    → Result Bool (Unit {0})
    → Disk
    → Done
unfolding create_file write_file sync_file rename_file and_then
replaced bytes create write sync rename disk =
    and_then (create_file temp_file create disk) λ created.
      and_then (write_file temp_file bytes write created) λ written.
        and_then (sync_file temp_file sync written)
          λ synced. rename_file temp_file history_file rename synced

unfoldable pub write_encoded : Io → Disk → Option (List ℕ) → Done
unfolding replaced
write_encoded io disk none = (disk, err (decode_error "history.encode_failed"))
write_encoded io disk (some bytes) =
    replaced bytes io.temp_create io.temp_write io.temp_sync io.rename disk

unfoldable pub write_all : Codec → Io → List HistoryRecordDto → Disk → Done
unfolding write_encoded
write_all C io records disk = write_encoded io disk (C.encode records)

-- The fence without the guard.
unfoldable pub release : Done → Done
release (disk, result) = (record disk { lifecycle = end_commit disk.lifecycle }, result)

-- `let Some(_commit) = lifecycle.begin_commit() else …`, and the write under the guard.
unfoldable pub commit_with : Codec → Io → List HistoryRecordDto → Disk → Fence × Bool → Done
unfolding write_all release
commit_with C io records disk (fence, false) =
    (record disk { lifecycle = fence }, err lifecycle_error)
commit_with C io records disk (fence, true) =
    release (write_all C io records (record disk { lifecycle = fence }))

unfoldable pub commit : Codec → Io → List HistoryRecordDto → Disk → Done
unfolding commit_with
commit C io records disk = commit_with C io records disk (begin_commit disk.lifecycle)

-- `records.iter().find(|existing| existing.delivery_id == record_id)`
unfoldable pub find : Text → List HistoryRecordDto → Option HistoryRecordDto
find id [] = none
find id (r ∷ rs) = if r.delivery_id =? id then some r else find id rs

-- The records with the new one, unless they have it, or have its identity with another content.
unfoldable pub with_record :
    HistoryRecordDto
    → List HistoryRecordDto
    → Option HistoryRecordDto
    → Result PortError (List HistoryRecordDto)
with_record dto records none = ok (records ++ (dto ∷ []))
with_record dto records (some existing) =
    if existing.final_text =? dto.final_text && existing.created_at_ms == dto.created_at_ms
    then ok records
    else err (decode_error "history.record_id_conflict")

-- The records that a save writes.
unfoldable pub saved :
    HistoryPolicy
    → ℕ
    → HistoryRecordDto
    → List HistoryRecordDto
    → Result PortError (List HistoryRecordDto)
unfolding find with_record
saved policy now_ms dto records = with_record dto records (find dto.delivery_id records) >>= λ all.
    ok (apply_policy all policy.limit policy.retention_days now_ms)

unfoldable pub commit_result : Codec → Io → Disk → Result PortError (List HistoryRecordDto) → Done
unfolding commit
commit_result C io disk (err e) = (disk, err e)
commit_result C io disk (ok records) = commit C io records disk

unfoldable pub save_with_policy :
    UuidText → Codec → Io → HistoryRecord → HistoryPolicy → ℕ → Disk → Done
unfolding commit_result saved read_all from_record
save_with_policy U C io r policy now_ms disk =
    if not policy.enabled
    then (disk, ok tt)
    else if io.locked
    then (disk, err lock_error)
    else commit_result C io disk (read_all C io disk >>= saved policy now_ms (from_record U r))

unfoldable pub into_records :
    UuidText → List HistoryRecordDto → Result PortError (List HistoryRecord)
into_records U [] = ok []
into_records U (dto ∷ rest) = into_record U dto >>= λ r. into_records U rest >>= λ rs. ok (r ∷ rs)

-- `list`
unfoldable pub list_records : UuidText → Codec → Io → Disk → Result PortError (List HistoryRecord)
unfolding read_all into_records
list_records U C io disk =
    if io.locked then err lock_error else read_all C io disk >>= into_records U

unfoldable pub clear_all : Codec → Io → Disk → Done
unfolding write_all
clear_all C io disk = if io.locked then (disk, err lock_error) else write_all C io [] disk

unfoldable pub enforce_policy : Codec → Io → HistoryPolicy → ℕ → Disk → Done
unfolding commit_result read_all
enforce_policy C io policy now_ms disk =
    if io.locked
    then (disk, err lock_error)
    else if not policy.enabled
    then (disk, ok tt)
    else commit_result C io disk (
        read_all C io disk >>= λ records.
        ok (apply_policy records policy.limit policy.retention_days now_ms))
