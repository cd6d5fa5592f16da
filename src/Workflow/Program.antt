-- ===== src/Workflow/Program.antt =====
-- An async function of crates/remtene-application/src/transcription_orchestrator.rs as a program:
-- what it does between two awaits is one atomic section on the shared state, and an await is a call
-- of a port. Other operations run between any two steps.
pub mod Execution
pub mod Ensures
pub mod Quiet
pub mod Rules
use rem_tene_public.Base.{Bool, true, false, Option, none, some, Result, ok, err, if◌then◌else◌}
use rem_tene_public.Ports.{Call, Reply, poll_first}
use rem_tene_public.Workflow.State.{World, RuntimeState, OrchestratorError}

pub data Prog (A : Type 0) : Type 0 where
  done : A → Prog A
  ask : (c : Call) → (Reply c → Prog A) → Prog A
  -- A section waits until its test holds, then changes the state in one step; what follows depends
  -- on the state that it found.
  atom : (World → Bool) → (World → World) → (World → Prog A) → Prog A

-- `Result<A, OrchestratorError>` behind an `async fn`.
abbrev pub M : Type 0 → Type 0
M A = Prog (Result OrchestratorError A)

unfoldable pub pure : {A : Type 0} → A → M A
pure a = done (ok a)

unfoldable pub throw : {A : Type 0} → OrchestratorError → M A
throw e = done (err e)

infixl 5 ◌>>=◌ ◌>>◌
unfoldable pub ◌>>=◌ : {A B : Type 0} → M A → (A → M B) → M B
done (ok a) >>= f = f a
done (err e) >>= f = done (err e)
ask c k >>= f = ask c (λ r. k r >>= f)
atom test change k >>= f = atom test change (λ w. k w >>= f)

abbrev pub ◌>>◌ : {A B : Type 0} → M A → M B → M B
m >> n = m >>= λ _. n

-- The result of `m` as a value, where the source writes `let _ = m.await` or matches on it.
unfoldable pub attempt : {A : Type 0} → Prog A → M A
attempt (done r) = done (ok r)
attempt (ask c k) = ask c (λ r. attempt (k r))
attempt (atom test change k) = atom test change (λ w. attempt (k w))

unfoldable pub perform : (c : Call) → M (Reply c)
perform c = ask c (λ r. done (ok r))

-- One critical section: the new state and a value.
unfoldable pub section : {A : Type 0} → (World → World × A) → M A
section f = atom (λ _. true) (λ w. (f w).0) (λ w. done (ok (f w).1))

-- A critical section of the `runtime` mutex.
unfoldable pub on_runtime : {A : Type 0} → (RuntimeState → RuntimeState × A) → M A
on_runtime f =
    atom (λ _. true) (λ w. record w { runtime = (f w.runtime).0 }) (λ w. done (ok (f w.runtime).1))

-- What runs when a guard is dropped runs on every way out.
unfoldable pub finally : {A : Type 0} → M A → M Unit → M A
finally m last = attempt m >>= λ r. last >>= λ _. done r

-- The two futures of `join_futures`, each of which goes on whenever the environment lets it.
unfoldable pub join : {A B : Type 0} → Prog A → Prog B → Prog (A × B)
join (done a) (done b) = done (a, b)
join (done a) (ask d l) = ask d (λ r. join (done a) (l r))
join (done a) (atom t g l) = atom t g (λ w. join (done a) (l w))
join (ask c k) (done b) = ask c (λ r. join (k r) (done b))
join (atom t f k) (done b) = atom t f (λ w. join (k w) (done b))
join (ask c k) (ask d l) = ask poll_first (λ first. elim first [
  | true ↦ ask c (λ r. join (k r) (ask d l))
  | false ↦ ask d (λ r. join (ask c k) (l r))
])
join (ask c k) (atom t g l) = ask poll_first (λ first. elim first [
  | true ↦ ask c (λ r. join (k r) (atom t g l))
  | false ↦ atom t g (λ w. join (ask c k) (l w))
])
join (atom t f k) (ask d l) = ask poll_first (λ first. elim first [
  | true ↦ atom t f (λ w. join (k w) (ask d l))
  | false ↦ ask d (λ r. join (atom t f k) (l r))
])
join (atom t f k) (atom u g l) = ask poll_first (λ first. elim first [
  | true ↦ atom t f (λ w. join (k w) (atom u g l))
  | false ↦ atom u g (λ w. join (atom t f k) (l w))
])

unfoldable pub join_futures :
    {A B : Type 0} → M A → M B → M (Result OrchestratorError A × Result OrchestratorError B)
join_futures m n = attempt (join m n)
