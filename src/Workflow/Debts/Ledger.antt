-- ===== src/Workflow/Debts/Ledger.antt =====
-- The debts of crates/remtene-application/src/transcription_orchestrator.rs as a ledger with one
-- entry for each session and resource.
use text.Mathlib.TextEquality.{eq_iff}
use text.Mathlib.TextPositions.{eq_refl}
use rem_tene_public.Base.{
  ℕ, ◌≡◌, refl, ap, ◌↔◌, inl, inr, Bool, true, ◌&&◌, Option, none, some, List, [], ◌∷◌, arith, ◌==◌,
  if◌then◌else◌, Bool-cases,
}
use rem_tene_public.Workflow.State.{AudioCleanupDebt, AudioCleanupResource}
use rem_tene_public.Workflow.Debts.{same_resource, is_debt_for, record_debt, clear_debt}

same_resource_refl : (r : AudioCleanupResource) → same_resource r r ≡ true
unfolding same_resource
same_resource_refl (AudioCleanupResource.capture a) = eq_refl a
same_resource_refl (AudioCleanupResource.finalized a) = eq_refl a

same_resource-eq : (a b : AudioCleanupResource) → same_resource a b ≡ true → a ≡ b
unfolding same_resource
same_resource-eq (AudioCleanupResource.capture a) (AudioCleanupResource.capture b) h =
    ap AudioCleanupResource.capture ((eq_iff a b).0 h)
same_resource-eq (AudioCleanupResource.finalized a) (AudioCleanupResource.finalized b) h =
    ap AudioCleanupResource.finalized ((eq_iff a b).0 h)
same_resource-eq (AudioCleanupResource.capture a) (AudioCleanupResource.finalized b) h = cc
same_resource-eq (AudioCleanupResource.finalized a) (AudioCleanupResource.capture b) h = cc

-- The debt that the ledger holds for a session and a resource.
abbrev pub owed : ℕ → AudioCleanupResource → List AudioCleanupDebt → Option AudioCleanupDebt
owed id resource [] = none
owed id resource (d ∷ ds) = if is_debt_for id resource d then some d else owed id resource ds

-- No session owes a resource twice.
abbrev pub IsLedger : List AudioCleanupDebt → Type 0
IsLedger [] = Unit {0}
IsLedger (d ∷ ds) = (owed d.session_id d.resource ds ≡ none) × IsLedger ds

same_resource_iff : (a b : AudioCleanupResource) → (same_resource a b ≡ true) ↔ (a ≡ b)
same_resource_iff a b = (same_resource-eq a b, λ e. rw e (same_resource_refl b))

is_debt_for_iff :
    (id : ℕ) (resource : AudioCleanupResource) (d : AudioCleanupDebt)
    → (is_debt_for id resource d ≡ true) ↔ ((d.session_id ≡ id) × (d.resource ≡ resource))
unfolding is_debt_for
is_debt_for_iff id resource d = (
  λ h. ground (arith, same_resource_iff d.resource resource),
  λ h. ground (arith, same_resource_iff d.resource resource),
)

is_debt_for_cong :
    (id : ℕ) (resource : AudioCleanupResource) (d e : AudioCleanupDebt)
    → is_debt_for e.session_id e.resource d ≡ true
    → is_debt_for id resource d ≡ is_debt_for id resource e
unfolding is_debt_for
is_debt_for_cong id resource d e h =
    let (i, r) = (is_debt_for_iff e.session_id e.resource d).0 h in cc

-- Recording a debt replaces what is owed for its session and resource, and nothing else.
pub owed-record_debt :
    (id : ℕ) (resource : AudioCleanupResource) (debt : AudioCleanupDebt)
    (ds : List AudioCleanupDebt)
    → owed id resource (record_debt debt ds)
      ≡ (if is_debt_for id resource debt then some debt else owed id resource ds)
unfolding record_debt
owed-record_debt id resource debt [] = refl
owed-record_debt id resource debt (d ∷ ds) =
    elim (Bool-cases (is_debt_for debt.session_id debt.resource d)) [
      | inl same ↦ ground (arith, is_debt_for_cong id resource d debt same)
      | inr other ↦ ground (
        arith,
        is_debt_for_iff id resource d,
        is_debt_for_iff id resource debt,
        is_debt_for_iff debt.session_id debt.resource d,
        owed-record_debt id resource debt ds,
      )
    ]

pub same_key : ℕ → AudioCleanupResource → ℕ → AudioCleanupResource → Bool
same_key id resource id' resource' = id == id' && same_resource resource resource'

same_key_iff :
    (id : ℕ) (resource : AudioCleanupResource) (id' : ℕ) (resource' : AudioCleanupResource)
    → (same_key id resource id' resource' ≡ true) ↔ ((id ≡ id') × (resource ≡ resource'))
unfolding same_key
same_key_iff id resource id' resource' = (
  λ h. ground (arith, same_resource_iff resource resource'),
  λ h. ground (arith, same_resource_iff resource resource'),
)

is_debt_for_key :
    (id : ℕ) (resource : AudioCleanupResource) (id' : ℕ) (resource' : AudioCleanupResource)
    (d : AudioCleanupDebt)
    → is_debt_for id' resource' d ≡ true
    → is_debt_for id resource d ≡ same_key id resource id' resource'
is_debt_for_key id resource id' resource' d h = ground (
  arith,
  is_debt_for_iff id resource d,
  is_debt_for_iff id' resource' d,
  same_key_iff id resource id' resource',
)

-- Clearing removes what is owed for its session and resource, and nothing else.
pub owed-clear_debt :
    (id : ℕ) (resource : AudioCleanupResource) (id' : ℕ) (resource' : AudioCleanupResource)
    (ds : List AudioCleanupDebt)
    → owed id resource (clear_debt id' resource' ds)
      ≡ (if same_key id resource id' resource' then none else owed id resource ds)
unfolding clear_debt
owed-clear_debt id resource id' resource' [] = ground arith
owed-clear_debt id resource id' resource' (d ∷ ds) =
    elim (Bool-cases (is_debt_for id' resource' d)) [
      | inl gone ↦ ground (
        arith,
        is_debt_for_key id resource id' resource' d gone,
        owed-clear_debt id resource id' resource' ds,
      )
      | inr kept ↦ ground (
        arith,
        is_debt_for_iff id resource d,
        is_debt_for_iff id' resource' d,
        same_key_iff id resource id' resource',
        owed-clear_debt id resource id' resource' ds,
      )
    ]

record_debt-IsLedger :
    (debt : AudioCleanupDebt) (ds : List AudioCleanupDebt)
    → IsLedger ds
    → IsLedger (record_debt debt ds)
unfolding record_debt
record_debt-IsLedger debt [] h = (refl, tt)
record_debt-IsLedger debt (d ∷ ds) h =
    elim (Bool-cases (is_debt_for debt.session_id debt.resource d)) [
      | inl same ↦
          let (i, r) = (is_debt_for_iff debt.session_id debt.resource d).0 same in
          rw same (rw i at (rw r at h))
      | inr other ↦ rw other (
        ground (
          arith,
          is_debt_for_iff d.session_id d.resource debt,
          is_debt_for_iff debt.session_id debt.resource d,
          owed-record_debt d.session_id d.resource debt ds,
        ),
        record_debt-IsLedger debt ds h.1,
      )
    ]

clear_debt-IsLedger :
    (id : ℕ) (resource : AudioCleanupResource) (ds : List AudioCleanupDebt)
    → IsLedger ds
    → IsLedger (clear_debt id resource ds)
unfolding clear_debt
clear_debt-IsLedger id resource [] h = tt
clear_debt-IsLedger id resource (d ∷ ds) h = elim (Bool-cases (is_debt_for id resource d)) [
  | inl gone ↦ rw gone (clear_debt-IsLedger id resource ds h.1)
  | inr kept ↦ ground (
    arith,
    owed-clear_debt d.session_id d.resource id resource ds,
    clear_debt-IsLedger id resource ds h.1,
  )
]

pub data LedgerCall : Type 0 where
  records : AudioCleanupDebt → LedgerCall
  clears : ℕ → AudioCleanupResource → LedgerCall

unfoldable pub run : List AudioCleanupDebt → List LedgerCall → List AudioCleanupDebt
run ds [] = ds
run ds (records debt ∷ cs) = run (record_debt debt ds) cs
run ds (clears id resource ∷ cs) = run (clear_debt id resource ds) cs

-- From a ledger that owes nothing twice, whatever is recorded and cleared and in whatever order, no session owes a
-- resource twice.
pub run-IsLedger :
    (ds : List AudioCleanupDebt) (cs : List LedgerCall) → IsLedger ds → IsLedger (run ds cs)
unfolding run
run-IsLedger ds [] h = h
run-IsLedger ds (records debt ∷ cs) h =
    run-IsLedger (record_debt debt ds) cs (record_debt-IsLedger debt ds h)
run-IsLedger ds (clears id resource ∷ cs) h =
    run-IsLedger (clear_debt id resource ds) cs (clear_debt-IsLedger id resource ds h)
