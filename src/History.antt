-- ===== src/History.antt =====
-- crates/remtene-adapters/src/file_history_store.rs: the history of deliveries in one JSON file.
--
-- The JSON text of a list of records (`serde_json`) and the text of a UUID (the `uuid` crate) are
-- parameters. A call on a file that fails, or in which the program is stopped, may leave any content in
-- that file; a rename happens or it does not.
pub mod Policy
pub mod Store
use rem_tene_public.Base.{
  ℕ, ◌≡◌, Bool, true, false, Option, none, some, List, String, Result, ok, err,
}
use rem_tene_public.Base.Text.{Text}
use rem_tene_public.Routes.{PortError}
use rem_tene_public.Ports.{HistoryRecord}
use rem_tene_public.Contract.Artifact.{UuidText}

pub record HistoryRecordDto : Type 0 where
  pub delivery_id : Text
  pub final_text : Text
  pub created_at_ms : ℕ

-- `serde_json`: what is written is read back.
pub record Codec : Type 0 where
  pub encode : List HistoryRecordDto → Option (List ℕ)
  pub decode : List ℕ → Option (List HistoryRecordDto)
  pub decode-encode :
      (records : List HistoryRecordDto) (bytes : List ℕ)
      → encode records ≡ some bytes
      → decode bytes ≡ some records

unfoldable pub io_error : String → Bool → PortError
io_error code interrupted = record {
  code = code;
  safe_message_key = "errors.history.io";
  retryable = interrupted;
}

unfoldable pub decode_error : String → PortError
decode_error code = record {
  code = code;
  safe_message_key = "errors.history.decode";
  retryable = false;
}

unfoldable pub lock_error : PortError
lock_error = record {
  code = "history.lock_poisoned";
  safe_message_key = "errors.history.lock";
  retryable = false;
}

unfoldable pub lifecycle_error : PortError
lifecycle_error = record {
  code = "history.lifecycle_invalidated";
  safe_message_key = "errors.history.lifecycle_invalidated";
  retryable = false;
}

unfoldable pub from_record : UuidText → HistoryRecord → HistoryRecordDto
from_record U r = record {
  delivery_id = U.hyphenated r.delivery_id;
  final_text = r.final_text;
  created_at_ms = r.created_at;
}

-- The rest of `into_record` after the UUID.
unfoldable pub with_uuid : Option ℕ → HistoryRecordDto → Result PortError HistoryRecord
with_uuid none dto = err (decode_error "history.record_id_invalid")
with_uuid (some uuid) dto =
    ok record { delivery_id = uuid; final_text = dto.final_text; created_at = dto.created_at_ms }

unfoldable pub into_record : UuidText → HistoryRecordDto → Result PortError HistoryRecord
unfolding with_uuid
into_record U dto = with_uuid (U.parse_str dto.delivery_id) dto
