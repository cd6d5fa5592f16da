-- ===== src/Workflow/Debts.antt =====
-- The audio cleanup debts of crates/remtene-application/src/transcription_orchestrator.rs: captures
-- and recordings whose removal failed, in the order in which they were first recorded.
pub mod Ledger
use text.Mathlib.Text.{◌==◌ as str_eq}
use rem_tene_public.Base.{
  ℕ, Bool, true, false, ◌&&◌, Option, none, some, List, [], ◌∷◌, ◌==◌, if◌then◌else◌,
}
use rem_tene_public.Workflow.State.{AudioCleanupDebt, AudioCleanupResource}

unfoldable pub same_resource : AudioCleanupResource → AudioCleanupResource → Bool
same_resource (AudioCleanupResource.capture a) (AudioCleanupResource.capture b) = str_eq a b
same_resource (AudioCleanupResource.finalized a) (AudioCleanupResource.finalized b) = str_eq a b
same_resource _ _ = false

unfoldable pub is_debt_for : ℕ → AudioCleanupResource → AudioCleanupDebt → Bool
unfolding same_resource
is_debt_for id resource debt = debt.session_id == id && same_resource debt.resource resource

-- The first debt for the same resource is replaced, or the debt is added at the end.
unfoldable pub record_debt : AudioCleanupDebt → List AudioCleanupDebt → List AudioCleanupDebt
unfolding is_debt_for
record_debt debt [] = debt ∷ []
record_debt debt (d ∷ ds) =
    if is_debt_for debt.session_id debt.resource d then debt ∷ ds else d ∷ record_debt debt ds

unfoldable pub clear_debt : ℕ → AudioCleanupResource → List AudioCleanupDebt → List AudioCleanupDebt
unfolding is_debt_for
clear_debt id resource [] = []
clear_debt id resource (d ∷ ds) =
    if is_debt_for id resource d then clear_debt id resource ds else d ∷ clear_debt id resource ds

unfoldable pub first_debt : List AudioCleanupDebt → Option AudioCleanupDebt
first_debt [] = none
first_debt (d ∷ _) = some d

unfoldable pub find_debt : ℕ → List AudioCleanupDebt → Option AudioCleanupDebt
find_debt id [] = none
find_debt id (d ∷ ds) = if d.session_id == id then some d else find_debt id ds
