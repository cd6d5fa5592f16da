-- ===== src/Session.antt =====
-- crates/remtene-domain/src/session.rs: the life of one recording as a state machine.
pub mod Life
pub mod Completion
use rem_tene_public.Base.{ℕ, Bool, true, false, Option, none, some, Result, ok, err, if◌then◌else◌}
use rem_tene_public.Settings.{SettingsSnapshot, AsrEngine}

pub data SessionPhase : Type 0 where
  preparing recording recognizing processing delivering finalizing terminated : SessionPhase

pub data RejectReason : Type 0 where
  secure_input selection_too_long permission_unavailable asr_unavailable : RejectReason
  recording_hud_unavailable : RejectReason

pub data FailureCategory : Type 0 where
  audio asr llm delivery storage lifecycle : FailureCategory

pub data TerminalOutcome : Type 0 where
  completed cancelled : TerminalOutcome
  rejected : RejectReason → TerminalOutcome
  failed : FailureCategory → TerminalOutcome

pub data SessionEvent : Type 0 where
  preflight_passed : SessionEvent
  reject : RejectReason → SessionEvent
  finish_recording cancel_recording no_speech begin_processing begin_delivery : SessionEvent
  begin_finalizing complete : SessionEvent
  fail : FailureCategory → SessionEvent

pub data TransitionEffect : Type 0 where
  applied ignored_duplicate : TransitionEffect

-- The identifiers of crates/remtene-domain/src/ids.rs are numbers (a UUID is a 128-bit number).
pub record TranscriptionSession : Type 0 where
  pub id : ℕ
  pub phase : SessionPhase
  pub created_at : ℕ
  pub settings : SettingsSnapshot
  pub selected_asr_engine : AsrEngine
  pub terminal_outcome : Option TerminalOutcome

pub record TransitionError : Type 0 where
  pub phase : SessionPhase
  pub event : SessionEvent

unfoldable pub new : ℕ → ℕ → SettingsSnapshot → AsrEngine → TranscriptionSession
new id created_at settings selected = record {
  id = id;
  phase = preparing;
  created_at = created_at;
  settings = settings;
  selected_asr_engine = selected;
  terminal_outcome = none;
}

unfoldable pub is_terminated : TranscriptionSession → Bool
is_terminated s = elim s.phase [ terminated ↦ true | _ ↦ false ]

-- A method that changes `&mut self` returns the new session beside its result.
abbrev pub Outcome : Type 0
Outcome = TranscriptionSession × Result TransitionError TransitionEffect

unfoldable pub terminate : TerminalOutcome → TranscriptionSession → TranscriptionSession
terminate outcome s = record s { phase = terminated; terminal_outcome = some outcome }

advance : SessionPhase → TranscriptionSession → Outcome
advance next s = (record s { phase = next }, ok applied)

finish : TerminalOutcome → TranscriptionSession → Outcome
unfolding terminate
finish outcome s = (terminate outcome s, ok applied)

-- The `match` of `apply`, on a session that has not ended.
transition : SessionPhase → SessionEvent → TranscriptionSession → Outcome
unfolding advance finish
transition preparing preflight_passed s = advance recording s
transition preparing (reject reason) s = finish (rejected reason) s
transition recording finish_recording s = advance recognizing s
transition recording cancel_recording s = finish cancelled s
transition recognizing no_speech s = finish cancelled s
transition recognizing begin_processing s = advance processing s
transition recognizing begin_delivery s = advance delivering s
transition processing begin_delivery s = advance delivering s
transition delivering begin_finalizing s = advance finalizing s
transition finalizing complete s = finish completed s
transition recognizing finish_recording s = (s, ok ignored_duplicate)
transition _ (fail category) s = finish (failed category) s
transition phase event s = (s, err (record { phase = phase; event = event }))

unfoldable pub apply : TranscriptionSession → SessionEvent → Outcome
unfolding is_terminated transition
apply s event = if is_terminated s then (s, ok ignored_duplicate) else transition s.phase event s
