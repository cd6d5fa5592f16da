-- ===== src/Workflow/Program/Quiet.antt =====
-- Programs of crates/remtene-application/src/transcription_orchestrator.rs that hand no text out
-- and read no selection, and that keep the frozen context of the active session.
use rem_tene_public.Base.{Bool, true, false, Option, none, some, ◌≡◌, ok, err, if◌then◌else◌}
use rem_tene_public.Ports.{
  Call, Reply, targets_capture, targets_read_selected_text, llm_resolve_route, llm_process,
  output_insert, clipboard_read_selected_text, clipboard_insert_and_restore,
  clipboard_insert_at_current_focus, clipboard_write_text, temporary_text_show, history_save,
}
use rem_tene_public.Workflow.State.{
  World, RuntimeState, ActiveWorkflow, OrchestratorError, context_of,
}
use rem_tene_public.Workflow.Program.{
  Prog, done, ask, atom, M, pure, throw, ◌>>=◌, attempt, perform, section, on_runtime,
}
use rem_tene_public.Workflow.Program.Ensures.{Protocol}

-- Calls that carry no text of the user and do not look at the target.
abbrev pub is_quiet : Call → Bool
is_quiet targets_capture = false
is_quiet (targets_read_selected_text _) = false
is_quiet (llm_resolve_route _) = false
is_quiet (llm_process _ _) = false
is_quiet (output_insert _ _ _ _) = false
is_quiet (clipboard_read_selected_text _) = false
is_quiet (clipboard_insert_and_restore _ _ _ _) = false
is_quiet (clipboard_insert_at_current_focus _ _ _) = false
is_quiet (clipboard_write_text _) = false
is_quiet (temporary_text_show _ _ _ _ _) = false
is_quiet (history_save _ _ _) = false
is_quiet _ = true

-- Whatever is active afterwards was active before, for the same session and with the same context.
abbrev pub IsSameContext : Option ActiveWorkflow → Option ActiveWorkflow → Type 0
IsSameContext before none = Unit {0}
IsSameContext none (some b) = ⊥
IsSameContext (some a) (some b) = (b.session_id ≡ a.session_id) × (context_of b ≡ context_of a)

abbrev pub IsFrozen : RuntimeState → RuntimeState → Type 0
IsFrozen r s = IsSameContext r.active s.active

pub data Quiet {A : Type 0} : Prog A → Type 0 where
  quiet_done : (a : A) → Quiet (done a)
  quiet_ask :
      (c : Call) {k : Reply c → Prog A}
      → is_quiet c ≡ true
      → ((r : Reply c) → Quiet (k r))
      → Quiet (ask c k)
  quiet_atom :
      {test : World → Bool} {change : World → World} {k : World → Prog A}
      → ((w : World) → IsFrozen w.runtime (change w).runtime)
      → ((w : World) → Quiet (k w))
      → Quiet (atom test change k)

module _ {A : Type 0} where
  pub Quiet-pure : (a : A) → Quiet (pure a)
  unfolding pure
  Quiet-pure a = quiet_done (ok a)

  pub Quiet-throw : (e : OrchestratorError) → Quiet (throw {A = A} e)
  unfolding throw
  Quiet-throw e = quiet_done (err e)

  pub Quiet-attempt : {p : Prog A} → Quiet p → Quiet (attempt p)
  unfolding attempt
  Quiet-attempt (quiet_done a) = quiet_done (ok a)
  Quiet-attempt (quiet_ask c q rest) = quiet_ask c q (λ r. Quiet-attempt (rest r))
  Quiet-attempt (quiet_atom f rest) = quiet_atom f (λ w. Quiet-attempt (rest w))

  pub Quiet-if : (b : Bool) {p q : Prog A} → Quiet p → Quiet q → Quiet (if b then p else q)
  Quiet-if true p q = p
  Quiet-if false p q = q

  pub Quiet-section :
      (f : World → World × A)
      → ((w : World) → IsFrozen w.runtime (f w).0.runtime)
      → Quiet (section f)
  unfolding section
  Quiet-section f frozen = quiet_atom frozen (λ w. quiet_done (ok (f w).1))

  pub Quiet-on_runtime :
      (f : RuntimeState → RuntimeState × A)
      → ((r : RuntimeState) → IsFrozen r (f r).0)
      → Quiet (on_runtime f)
  unfolding on_runtime
  Quiet-on_runtime f frozen =
      quiet_atom (λ w. frozen w.runtime) (λ w. quiet_done (ok (f w.runtime).1))

pub Quiet-perform : (c : Call) → is_quiet c ≡ true → Quiet (perform c)
unfolding perform
Quiet-perform c q = quiet_ask c q (λ r. quiet_done (ok r))

pub Quiet-bind :
    {A B : Type 0} {m : M A} {f : A → M B} → Quiet m → ((a : A) → Quiet (f a)) → Quiet (m >>= f)
unfolding ◌>>=◌
Quiet-bind (quiet_done (ok a)) rest = rest a
Quiet-bind (quiet_done (err e)) rest = quiet_done (err e)
Quiet-bind (quiet_ask c q next) rest = quiet_ask c q (λ r. Quiet-bind (next r) rest)
Quiet-bind (quiet_atom f next) rest = quiet_atom f (λ w. Quiet-bind (next w) rest)

pub ruleset quiet_rules =
    (Quiet-pure, Quiet-throw, Quiet-attempt, Quiet-if, Quiet-perform, Quiet-bind)

-- A protocol to which quiet steps mean nothing.
pub record IsCalm (S : Protocol) : Type 0 where
  pub allowed : (g : S.Ghost) (c : Call) → is_quiet c ≡ true → S.allows g c
  pub unchanged : (g : S.Ghost) (c : Call) (r : Reply c) → is_quiet c ≡ true → S.after g c r ≡ g
  pub kept : (w v : World) → IsFrozen w.runtime v.runtime → S.keeps w → S.keeps v
