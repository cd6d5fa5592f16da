-- ===== src/History/Store/Laws.antt =====
-- What the operations of `FileHistoryStore` (crates/remtene-adapters/src/file_history_store.rs) do to
-- the file.
use rem_tene_public.Base.{
  ◌≡◌, refl, sym, ap, ◌∙◌, ℕ, Bool, true, false, not, Option, none, some, List, [], ◌∷◌, Result, ok,
  ◌⊎◌, inr, arith, ◌++◌, err, map, if◌then◌else◌,
}
use rem_tene_public.Base.Results.{◌>>=◌}
use rem_tene_public.Settings.{HistoryPolicy}
use rem_tene_public.Routes.{PortError}
use rem_tene_public.Ports.{HistoryRecord}
use rem_tene_public.Fence.{Fence, begin_commit}
use rem_tene_public.Contract.Artifact.{UuidText}
use rem_tene_public.History.{
  HistoryRecordDto, Codec, lock_error, from_record, into_record, with_uuid,
}
use rem_tene_public.History.Policy.{apply_policy}
use rem_tene_public.History.Policy.Kept.{has, number}
use rem_tene_public.Base.Sets.{◌=?◌, list_eq, nat_eq}
use rem_tene_public.History.Store.{
  Fault, create_file, write_file, sync_file, rename_file, and_then, on_file, put, content,
  with_bytes, find, with_record, Io, Disk, Done, decoded, read_file, read_all, replaced,
  write_encoded, write_all, release, commit_with, commit, saved, commit_result, save_with_policy,
  into_records, clear_all, enforce_policy,
}

-- The operation fails and the file is as before, or the file holds these records.
Writes : Codec → List HistoryRecordDto → Disk → Done → Type 0
Writes C records disk (after, err e) = after.file ≡ disk.file
Writes C records disk (after, ok _) =
    (bytes : List ℕ) × (C.encode records ≡ some bytes) × (after.file ≡ some bytes)

replaced-Writes :
    (C : Codec) (records : List HistoryRecordDto) (disk : Disk) (bytes : List ℕ)
    (create write sync : Result Fault (Unit {0})) (rename : Result Bool (Unit {0}))
    → C.encode records ≡ some bytes
    → Writes C records disk (replaced bytes create write sync rename disk)
unfolding replaced create_file write_file sync_file rename_file and_then on_file put content
    with_bytes Writes
replaced-Writes C records disk bytes (err _) write sync rename h = refl
replaced-Writes C records disk bytes (ok _) (err _) sync rename h = refl
replaced-Writes C records disk bytes (ok _) (ok _) (err _) rename h = refl
replaced-Writes C records disk bytes (ok _) (ok _) (ok _) (err _) h = refl
replaced-Writes C records disk bytes (ok _) (ok _) (ok _) (ok _) h = (bytes, h, refl)

write_encoded-Writes :
    (C : Codec) (io : Io) (records : List HistoryRecordDto) (disk : Disk) (o : Option (List ℕ))
    → C.encode records ≡ o
    → Writes C records disk (write_encoded io disk o)
unfolding write_encoded Writes
write_encoded-Writes C io records disk none h = refl
write_encoded-Writes C io records disk (some bytes) h =
    replaced-Writes C records disk bytes io.temp_create io.temp_write io.temp_sync io.rename h

write_all-Writes :
    (C : Codec) (io : Io) (records : List HistoryRecordDto) (disk : Disk)
    → Writes C records disk (write_all C io records disk)
unfolding write_all
write_all-Writes C io records disk = write_encoded-Writes C io records disk (C.encode records) refl

release-Writes :
    (C : Codec) (records : List HistoryRecordDto) (disk fenced : Disk) (d : Done)
    → fenced.file ≡ disk.file
    → Writes C records fenced d
    → Writes C records disk (release d)
unfolding release Writes
release-Writes C records disk fenced (after, err e) same h = h ∙ same
release-Writes C records disk fenced (after, ok _) same h = h

commit_with-Writes :
    (C : Codec) (io : Io) (records : List HistoryRecordDto) (disk : Disk) (g : Fence × Bool)
    → Writes C records disk (commit_with C io records disk g)
unfolding commit_with Writes
commit_with-Writes C io records disk (fence, false) = refl
commit_with-Writes C io records disk (fence, true) =
    let fenced = record disk { lifecycle = fence } in
    release-Writes C records disk fenced (write_all C io records fenced) refl
      (write_all-Writes C io records fenced)

-- Either a failure that leaves the file, or a success under an open fence that writes records which
-- the step was to write.
Commits : Codec → Disk → Result PortError (List HistoryRecordDto) → Done → Type 0
Commits C disk wanted (after, err e) = after.file ≡ disk.file
Commits C disk wanted (after, ok _) =
    (records : List HistoryRecordDto) × (bytes : List ℕ) × (wanted ≡ ok records)
    × (C.encode records ≡ some bytes)
    × (after.file ≡ some bytes)

Writes-Commits :
    (C : Codec) (disk : Disk) (records : List HistoryRecordDto) (d : Done)
    → Writes C records disk d
    → Commits C disk (ok records) d
unfolding Writes Commits
Writes-Commits C disk records (after, err e) h = h
Writes-Commits C disk records (after, ok _) (bytes, h, k) = (records, bytes, refl, h, k)

commit_result-Commits :
    (C : Codec) (io : Io) (disk : Disk) (wanted : Result PortError (List HistoryRecordDto))
    → Commits C disk wanted (commit_result C io disk wanted)
unfolding commit_result commit Commits
commit_result-Commits C io disk (err e) = refl
commit_result-Commits C io disk (ok records) =
    Writes-Commits C disk records (commit_with C io records disk (begin_commit disk.lifecycle))
      (commit_with-Writes C io records disk (begin_commit disk.lifecycle))

-- A failure leaves the file, for each way in which a step may end.
Fails : Disk → Done → Type 0
Fails disk d = (e : PortError) → d.1 ≡ err e → d.0.file ≡ disk.file

Commits-Fails :
    (C : Codec) (disk : Disk) (wanted : Result PortError (List HistoryRecordDto)) (d : Done)
    → Commits C disk wanted d
    → Fails disk d
unfolding Commits Fails
Commits-Fails C disk wanted (after, err e) h f k = h
Commits-Fails C disk wanted (after, ok _) h f k = cc

Writes-Fails :
    (C : Codec) (records : List HistoryRecordDto) (disk : Disk) (d : Done)
    → Writes C records disk d
    → Fails disk d
unfolding Writes Fails
Writes-Fails C records disk (after, err e) h f k = h
Writes-Fails C records disk (after, ok _) h f k = cc

if-Fails :
    (disk : Disk) (b : Bool) (x y : Done)
    → Fails disk x
    → Fails disk y
    → Fails disk (if b then x else y)
if-Fails disk true x y h k = h
if-Fails disk false x y h k = k

same-Fails : (disk : Disk) (r : Result PortError (Unit {0})) → Fails disk (disk, r)
unfolding Fails
same-Fails disk r e h = refl

abbrev save_wanted :
    UuidText
    → Codec
    → Io
    → HistoryRecord
    → HistoryPolicy
    → ℕ
    → Disk
    → Result PortError (List HistoryRecordDto)
save_wanted U C io r policy now disk = read_all C io disk >>= saved policy now (from_record U r)

commit_result-Fails :
    (C : Codec) (io : Io) (disk : Disk) (wanted : Result PortError (List HistoryRecordDto))
    → Fails disk (commit_result C io disk wanted)
commit_result-Fails C io disk wanted =
    Commits-Fails C disk wanted (commit_result C io disk wanted)
      (commit_result-Commits C io disk wanted)

save-Fails :
    (U : UuidText) (C : Codec) (io : Io) (r : HistoryRecord) (policy : HistoryPolicy) (now : ℕ)
    (disk : Disk)
    → Fails disk (save_with_policy U C io r policy now disk)
unfolding save_with_policy
save-Fails U C io r policy now disk =
    let wanted = save_wanted U C io r policy now disk in
    let written = commit_result C io disk wanted in
    if-Fails disk (not policy.enabled) (disk, ok tt)
      (if io.locked then (disk, err lock_error) else written) (same-Fails disk (ok tt))
      (if-Fails disk io.locked (disk, err lock_error) written (same-Fails disk (err lock_error))
        (commit_result-Fails C io disk wanted))

enforce_policy-Fails :
    (C : Codec) (io : Io) (policy : HistoryPolicy) (now : ℕ) (disk : Disk)
    → Fails disk (enforce_policy C io policy now disk)
unfolding enforce_policy
enforce_policy-Fails C io policy now disk =
    let wanted = read_all C io disk >>= λ records.
    ok (apply_policy records policy.limit policy.retention_days now) in
    let written = commit_result C io disk wanted in
    if-Fails disk io.locked (disk, err lock_error)
      (if not policy.enabled then (disk, ok tt) else written) (same-Fails disk (err lock_error))
      (if-Fails disk (not policy.enabled) (disk, ok tt) written (same-Fails disk (ok tt))
        (commit_result-Fails C io disk wanted))

clear_all-Fails : (C : Codec) (io : Io) (disk : Disk) → Fails disk (clear_all C io disk)
unfolding clear_all
clear_all-Fails C io disk =
    if-Fails disk io.locked (disk, err lock_error) (write_all C io [] disk)
      (same-Fails disk (err lock_error))
      (Writes-Fails C [] disk (write_all C io [] disk) (write_all-Writes C io [] disk))

-- An operation that fails, whichever call of the file system it is that fails and whatever that call
-- leaves in the file it works on, leaves the history file as it was: the save of a record, the enforcement of the policy, and the clearing.
pub failed_operations :
    (U : UuidText) (C : Codec) (io : Io) (r : HistoryRecord) (policy : HistoryPolicy) (now : ℕ)
    (disk : Disk) (e : PortError)
    → ((save_with_policy U C io r policy now disk).1 ≡ err e
        → (save_with_policy U C io r policy now disk).0.file ≡ disk.file)
      × ((enforce_policy C io policy now disk).1 ≡ err e
          → (enforce_policy C io policy now disk).0.file ≡ disk.file)
      × ((clear_all C io disk).1 ≡ err e → (clear_all C io disk).0.file ≡ disk.file)
unfolding Fails
failed_operations U C io r policy now disk e = (
  save-Fails U C io r policy now disk e,
  enforce_policy-Fails C io policy now disk e,
  clear_all-Fails C io disk e,
)

-- These are all records once the new one is stored: those before, if it was among them, or else those
-- before, none of which has its identity, and the new one as the last.
abbrev pub IsWith : HistoryRecordDto → List HistoryRecordDto → List HistoryRecordDto → Type 0
IsWith dto before all =
    ((has before dto ≡ true) × (all ≡ before))
    ⊎ ((number (λ r. r.delivery_id =? dto.delivery_id) before ≡ 0) × (all ≡ before ++ (dto ∷ [])))

with_record-find :
    (dto : HistoryRecordDto) (records all rs : List HistoryRecordDto)
    → with_record dto records (find dto.delivery_id rs) ≡ ok all
    → ((has rs dto ≡ true) × (all ≡ records))
      ⊎ ((number (λ r. r.delivery_id =? dto.delivery_id) rs ≡ 0) × (all ≡ records ++ (dto ∷ [])))
unfolding with_record find
with_record-find dto records all [] h = inr (refl, cc)
with_record-find dto records all (r ∷ rs) h =
    let rest = with_record-find dto records all rs in ground (arith, rest)

saved-IsWith :
    (policy : HistoryPolicy) (now : ℕ) (dto : HistoryRecordDto)
    (before after : List HistoryRecordDto) (w : Result PortError (List HistoryRecordDto))
    → with_record dto before (find dto.delivery_id before) ≡ w
    → (w >>= λ all. ok (apply_policy all policy.limit policy.retention_days now)) ≡ ok after
    → (all : List HistoryRecordDto) × IsWith dto before all
      × (after ≡ apply_policy all policy.limit policy.retention_days now)
saved-IsWith policy now dto before after (err e) h k = absurd {A = _} cc
saved-IsWith policy now dto before after (ok all) h k =
    (all, with_record-find dto before all before h, cc)

-- What a success of the rest of a save was to write, and wrote.
Commits-read_all :
    (C : Codec) (io later : Io) (disk : Disk) (policy : HistoryPolicy) (now : ℕ)
    (dto : HistoryRecordDto) (found : Result PortError (List HistoryRecordDto)) (d : Done)
    → Commits C disk (found >>= saved policy now dto) d
    → d.1 ≡ ok tt
    → later.read ≡ ok tt
    → (before : List HistoryRecordDto) × (all : List HistoryRecordDto) × (found ≡ ok before)
      × IsWith dto before all
      × (read_all C later d.0 ≡ ok (apply_policy all policy.limit policy.retention_days now))
unfolding Commits read_all saved
Commits-read_all C io later disk policy now dto found (after, err e) h k l = absurd {A = _} cc
Commits-read_all C io later disk policy now dto (err e) (after, ok _) (_, _, h, _, _) k l =
    absurd {A = _} cc
Commits-read_all C io later disk policy now dto (ok before) (after, ok _) (records, bytes, h, c, f)
      k l =
    let (all, stored, same) = saved-IsWith policy now dto before records _ refl h in
    (
      before,
      all,
      refl,
      stored,
      ap (λ o. read_file C o later.read) f
          ∙ ap (λ r. read_file C (some bytes) r) l
          ∙ ap decoded (C.decode-encode records bytes c)
          ∙ ap ok same,
    )

-- The first tests of a save that succeeds.
if_ok :
    (enabled locked : Bool) (disk : Disk) (d : Done)
    → enabled ≡ true
    → (if not enabled then (disk, ok tt) else if locked then (disk, err lock_error) else d).1
      ≡ ok tt
    → (if not enabled then (disk, ok tt) else if locked then (disk, err lock_error) else d) ≡ d
if_ok true false disk d h k = refl
if_ok true true disk d h k = absurd {A = _} cc
if_ok false locked disk d h k = absurd {A = _} cc

-- A save under an enabled policy that succeeds found some records in the file. They have the new
-- record already, or none of its identity, and then it is put behind them. Whoever can read the file
-- afterwards reads what the policy keeps of the records with the new one.
pub save-read_all :
    (U : UuidText) (C : Codec) (io later : Io) (r : HistoryRecord) (policy : HistoryPolicy)
    (now : ℕ) (disk : Disk)
    → policy.enabled ≡ true
    → (save_with_policy U C io r policy now disk).1 ≡ ok tt
    → later.read ≡ ok tt
    → (before : List HistoryRecordDto) × (all : List HistoryRecordDto) × (read_all C io disk
        ≡ ok before)
      × IsWith (from_record U r) before all
      × (read_all C later (save_with_policy U C io r policy now disk).0
          ≡ ok (apply_policy all policy.limit policy.retention_days now))
unfolding save_with_policy
save-read_all U C io later r policy now disk enabled done readable =
    let wanted = save_wanted U C io r policy now disk in
    let same = if_ok policy.enabled io.locked disk (commit_result C io disk wanted) enabled done in
    rw same (
      Commits-read_all C io later disk policy now (from_record U r) (read_all C io disk)
        (commit_result C io disk wanted) (commit_result-Commits C io disk wanted)
        (sym (ap (λ d. d.1) same) ∙ done) readable)

-- What a success of the rest of an enforcement was to write, and wrote.
Commits-enforced :
    (C : Codec) (later : Io) (disk : Disk) (policy : HistoryPolicy) (now : ℕ)
    (found : Result PortError (List HistoryRecordDto)) (d : Done)
    → Commits C disk
        (found >>= λ records. ok (apply_policy records policy.limit policy.retention_days now))
        d
    → d.1 ≡ ok tt
    → later.read ≡ ok tt
    → (before : List HistoryRecordDto) × (found ≡ ok before)
      × (read_all C later d.0 ≡ ok (apply_policy before policy.limit policy.retention_days now))
unfolding Commits read_all
Commits-enforced C later disk policy now found (after, err e) h k l = absurd {A = _} cc
Commits-enforced C later disk policy now (err e) (after, ok _) (_, _, h, _, _) k l =
    absurd {A = _} cc
Commits-enforced C later disk policy now (ok before) (after, ok _) (records, bytes, h, c, f) k l =
    let same : records ≡ apply_policy before policy.limit policy.retention_days now = cc in
    (
      before,
      refl,
      ap (λ o. read_file C o later.read) f
          ∙ ap (λ r. read_file C (some bytes) r) l
          ∙ ap decoded (C.decode-encode records bytes c)
          ∙ ap ok same,
    )

if_enforced :
    (enabled locked : Bool) (disk : Disk) (d : Done)
    → enabled ≡ true
    → (if locked then (disk, err lock_error) else if not enabled then (disk, ok tt) else d).1
      ≡ ok tt
    → (if locked then (disk, err lock_error) else if not enabled then (disk, ok tt) else d) ≡ d
if_enforced true false disk d h k = refl
if_enforced enabled true disk d h k = absurd {A = _} cc
if_enforced false locked disk d h k = absurd {A = _} cc

-- Enforcing an enabled policy, when it succeeds, found some records in the file; whoever can read the
-- file afterwards reads what the policy keeps of them.
pub enforce_policy-read_all :
    (C : Codec) (io later : Io) (policy : HistoryPolicy) (now : ℕ) (disk : Disk)
    → policy.enabled ≡ true
    → (enforce_policy C io policy now disk).1 ≡ ok tt
    → later.read ≡ ok tt
    → (before : List HistoryRecordDto) × (read_all C io disk ≡ ok before)
      × (read_all C later (enforce_policy C io policy now disk).0
          ≡ ok (apply_policy before policy.limit policy.retention_days now))
unfolding enforce_policy
enforce_policy-read_all C io later policy now disk enabled done readable =
    let wanted = read_all C io disk >>= λ records.
    ok (apply_policy records policy.limit policy.retention_days now) in
    let written = commit_result C io disk wanted in
    let same = if_enforced policy.enabled io.locked disk written enabled done in
    rw same (
      Commits-enforced C later disk policy now (read_all C io disk) written
        (commit_result-Commits C io disk wanted) (sym (ap (λ d. d.1) same) ∙ done) readable)

into_record-from_record :
    (U : UuidText) (r : HistoryRecord) → into_record U (from_record U r) ≡ ok r
unfolding into_record from_record with_uuid
into_record-from_record U r =
    ap (λ u. with_uuid u (from_record U r)) (U.parse_str-hyphenated r.delivery_id)

-- Records that are turned into their stored form and back are as before, in the same order.
pub into_records-from_record :
    (U : UuidText) (rs : List HistoryRecord) → into_records U (map (from_record U) rs) ≡ ok rs
unfolding into_records
into_records-from_record U [] = refl
into_records-from_record U (r ∷ rs) =
    rw (into_record-from_record U r, into_records-from_record U rs) refl
