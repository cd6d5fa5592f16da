-- ===== src/Workflow/Sections.antt =====
-- The critical sections of crates/remtene-application/src/transcription_orchestrator.rs: what each
-- does to `RuntimeState` while it holds the mutex, and its value.
use text.Mathlib.Text.{◌==◌ as str_eq}
use rem_tene_public.Base.{
  ℕ, Bool, true, false, not, ◌&&◌, ◌||◌, Option, none, some, String, ◌==◌, if◌then◌else◌,
  is_some_and,
}
use rem_tene_public.Workflow.State.{
  RuntimeState, PreparingWorkflow, PreparingStage, ActiveWorkflow, ActiveContext, context_of,
  RuntimeStage,
}

-- `starting == Some(session_id)`
unfoldable pub is_starting : RuntimeState → ℕ → Bool
is_starting r id = is_some_and r.starting (λ s. s == id)

-- `.as_ref().filter(|p| p.session_id == session_id)`
unfoldable pub preparing_of : RuntimeState → ℕ → Option PreparingWorkflow
preparing_of r id = elim r.preparing [
  | none ↦ none
  | some p ↦ if p.session_id == id then some p else none
]

unfoldable pub active_of : RuntimeState → ℕ → Option ActiveWorkflow
active_of r id = elim r.active [
  | none ↦ none
  | some a ↦ if a.session_id == id then some a else none
]

abbrev pub with_preparing : RuntimeState → PreparingWorkflow → PreparingStage → RuntimeState
with_preparing r p stage = record r { preparing = some (record p { stage = stage }) }

abbrev pub with_active : RuntimeState → ActiveWorkflow → RuntimeStage → RuntimeState
with_active r a stage = record r { active = some (record a { stage = stage }) }

unfoldable pub start_reservation_is_current : ℕ → RuntimeState → Bool
unfolding is_starting
start_reservation_is_current id r =
    not r.quitting && (is_starting r id || is_some_and r.preparing (λ p. p.session_id == id))

unfoldable pub release_start_reservation : ℕ → RuntimeState → RuntimeState
unfolding is_starting
release_start_reservation id r = if is_starting r id then record r { starting = none } else r

unfoldable pub active_context : ℕ → RuntimeState → Option ActiveContext
unfolding active_of context_of
active_context id r = elim (active_of r id) [ none ↦ none | some a ↦ some (context_of a) ]

unfoldable pub is_starting_audio : PreparingStage → Bool
is_starting_audio stage = elim stage [
  | PreparingStage.starting_audio ↦ true
  | PreparingStage.capturing _ ↦ false
  | PreparingStage.cancelling _ _ ↦ false
]

unfoldable pub is_capturing : String → PreparingStage → Bool
is_capturing capture stage = elim stage [
  | PreparingStage.starting_audio ↦ false
  | PreparingStage.capturing c ↦ str_eq c capture
  | PreparingStage.cancelling _ _ ↦ false
]

unfoldable pub is_current_preparing_start : ℕ → RuntimeState → Bool
unfolding is_starting_audio
is_current_preparing_start id r =
    not r.quitting && is_some_and r.preparing (λ p. p.session_id == id && is_starting_audio p.stage)

unfoldable pub is_current_preparing_capture : ℕ → String → RuntimeState → Bool
unfolding is_capturing
is_current_preparing_capture id capture r =
    not r.quitting
    && is_some_and r.preparing (λ p. p.session_id == id && is_capturing capture p.stage)

-- The common shape of the next three: refuse while quitting, on another session, or in another
-- stage; else change the workflow.
change_preparing :
    ℕ
    → (PreparingStage → Bool)
    → (PreparingWorkflow → PreparingWorkflow)
    → RuntimeState
    → RuntimeState × Bool
unfolding preparing_of
change_preparing id fits change r = if r.quitting then (r, false) else elim (preparing_of r id) [
  | none ↦ (r, false)
  | some p ↦ if fits p.stage then (record r { preparing = some (change p) }, true) else (r, false)
]

unfoldable pub set_preparing_capture : ℕ → String → RuntimeState → RuntimeState × Bool
unfolding change_preparing is_starting_audio
set_preparing_capture id capture =
    change_preparing id is_starting_audio
      (λ p. record p { stage = PreparingStage.capturing capture })

unfoldable pub set_preparing_deadline : ℕ → String → ℕ → RuntimeState → RuntimeState × Bool
unfolding change_preparing is_capturing
set_preparing_deadline id capture deadline =
    change_preparing id (is_capturing capture)
      (λ p. record p { recording_deadline = some deadline })

unfoldable pub claim_preparing_capture : ℕ → String → RuntimeState → RuntimeState × Bool
unfolding change_preparing is_capturing
claim_preparing_capture id capture =
    change_preparing id (is_capturing capture)
      (λ p. record p { stage = PreparingStage.cancelling capture true })

unfoldable pub set_stage : ℕ → RuntimeStage → RuntimeState → RuntimeState × Bool
unfolding active_of
set_stage id stage r =
    if r.quitting
    then (r, false)
    else elim (active_of r id) [ none ↦ (r, false) | some a ↦ (with_active r a stage, true) ]

unfoldable pub is_current_stage : ℕ → (RuntimeStage → Bool) → RuntimeState → Bool
is_current_stage id fits r =
    not r.quitting && is_some_and r.active (λ a. a.session_id == id && fits a.stage)

-- The predicates that callers give to `is_current_stage`.
unfoldable pub is_cancelling : RuntimeStage → Bool
is_cancelling stage = elim stage [ RuntimeStage.cancelling _ _ _ ↦ true | _ ↦ false ]

unfoldable pub is_finishing_audio : RuntimeStage → Bool
is_finishing_audio stage = elim stage [ RuntimeStage.finishing_audio _ ↦ true | _ ↦ false ]

unfoldable pub expects_asr : ℕ → RuntimeStage → Bool
expects_asr request stage = elim stage [ RuntimeStage.recognizing id _ ↦ id == request | _ ↦ false ]

unfoldable pub expects_llm : ℕ → RuntimeStage → Bool
expects_llm request stage = elim stage [ RuntimeStage.processing id ↦ id == request | _ ↦ false ]

unfoldable pub expects_delivery : ℕ → RuntimeStage → Bool
expects_delivery delivery stage = elim stage [
  | RuntimeStage.delivering id ↦ id == delivery
  | _ ↦ false
]

unfoldable pub expects_finalization : ℕ → RuntimeStage → Bool
expects_finalization delivery stage = elim stage [
  | RuntimeStage.finalizing id ↦ id == delivery
  | _ ↦ false
]

-- The recorded audio of the expected request, if it is still to be removed.
audio_of : ℕ → RuntimeStage → Option String
audio_of request stage = elim stage [
  | RuntimeStage.recognizing id audio ↦ if id == request then audio else none
  | _ ↦ none
]

unfoldable pub begin_recognizing_audio_cleanup : ℕ → ℕ → RuntimeState → RuntimeState × Option String
unfolding active_of audio_of
begin_recognizing_audio_cleanup id request r =
    if r.quitting then (r, none) else elim (active_of r id) [
      | none ↦ (r, none)
      | some a ↦ elim (audio_of request a.stage) [
        | none ↦ (r, none)
        | some audio ↦
            (with_active r a (RuntimeStage.cleaning_audio request audio true), some audio)
      ]
    ]

is_cleaning : ℕ → String → RuntimeStage → Bool
is_cleaning request cleaned stage = elim stage [
  | RuntimeStage.cleaning_audio id audio in_flight ↦
      in_flight && (id == request && str_eq audio cleaned)
  | _ ↦ false
]

unfoldable pub complete_recognizing_audio_cleanup :
    ℕ → ℕ → String → RuntimeState → RuntimeState × Bool
unfolding active_of is_cleaning
complete_recognizing_audio_cleanup id request cleaned r =
    if r.quitting then (r, false) else elim (active_of r id) [
      | none ↦ (r, false)
      | some a ↦
          if is_cleaning request cleaned a.stage
          then (with_active r a (RuntimeStage.recognizing request none), true)
          else (r, false)
    ]

active_in_flight : Bool → RuntimeStage → RuntimeStage
active_in_flight value (RuntimeStage.cancelling c completion _) =
    RuntimeStage.cancelling c completion value
active_in_flight value (RuntimeStage.cleaning_audio id audio _) =
    RuntimeStage.cleaning_audio id audio value
active_in_flight value stage = stage

preparing_in_flight : Bool → PreparingStage → PreparingStage
preparing_in_flight value (PreparingStage.cancelling c _) = PreparingStage.cancelling c value
preparing_in_flight value stage = stage

unfoldable pub set_audio_cleanup_in_flight : ℕ → Bool → RuntimeState → RuntimeState
unfolding active_of preparing_of active_in_flight preparing_in_flight
set_audio_cleanup_in_flight id value r = elim (active_of r id) [
  | some a ↦ with_active r a (active_in_flight value a.stage)
  | none ↦ elim (preparing_of r id) [
    | some p ↦ with_preparing r p (preparing_in_flight value p.stage)
    | none ↦ r
  ]
]
