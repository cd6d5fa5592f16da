-- ===== src/Workflow/Quit/Election.antt =====
-- `ExitCompletion` of crates/remtene-application/src/transcription_orchestrator.rs over any order of
-- its calls: who leads an exit, and when it is over.
use rem_tene_public.Base.{ℕ, suc, ◌+◌, ◌≤◌, ◌≡◌, List, [], ◌∷◌, ok, err, arith}
use rem_tene_public.Workflow.State.{World, QuitResult, QuitOutcome, not_begun, running, complete}
use rem_tene_public.Workflow.Quit.{
  leader, follower, ended, begin_exit, publish_attempt, conclude_exit,
}

pub data Call : Type 0 where
  begins : Call
  concludes : ℕ → QuitResult → Call

unfoldable pub step : World → Call → World
step w begins = (begin_exit w).0
step w (concludes n result) = conclude_exit n result (publish_attempt n result w)

unfoldable pub run : World → List Call → World
run w [] = w
run w (c ∷ cs) = run (step w c) cs

-- How many callers were told to lead.
unfoldable pub leaders : World → List Call → ℕ
leaders w [] = 0
leaders w (begins ∷ cs) =
    let rest = leaders (step w begins) cs in
    elim (begin_exit w).1 [ leader _ ↦ suc rest | follower _ ↦ rest | ended _ ↦ rest ]
leaders w (concludes n result ∷ cs) = leaders (step w (concludes n result)) cs

-- How many attempts ended with an error.
unfoldable pub failures : List Call → ℕ
failures [] = 0
failures (begins ∷ cs) = failures cs
failures (concludes n (ok outcome) ∷ cs) = failures cs
failures (concludes n (err error) ∷ cs) = suc (failures cs)

-- The leader that may still be chosen before another attempt fails.
abbrev vacancies : World → ℕ
vacancies w = elim w.exit [ not_begun ↦ 1 | running _ ↦ 0 | complete _ ↦ 0 ]

vacancies-le : (w : World) → vacancies w ≤ 1
vacancies-le w = ground arith

leaders-le : (w : World) (cs : List Call) → leaders w cs ≤ failures cs + vacancies w
unfolding leaders failures step begin_exit conclude_exit publish_attempt
leaders-le w [] = omega arith
leaders-le w (begins ∷ cs) = ground (arith, leaders-le (step w begins) cs)
leaders-le w (concludes n (ok outcome) ∷ cs) =
    ground (arith, leaders-le (step w (concludes n (ok outcome))) cs)
leaders-le w (concludes n (err error) ∷ cs) =
    ground (arith, leaders-le (step w (concludes n (err error))) cs)

-- Until an attempt has failed, at most one caller leads the exit: in any order of begins and
-- conclusions the leaders are at most one more than the failed attempts.
pub leaders-failures : (w : World) (cs : List Call) → leaders w cs ≤ suc (failures cs)
leaders-failures w cs = omega (arith, leaders-le w cs, vacancies-le w)

-- An exit that has succeeded stays so: whatever is called afterwards, each caller gets the outcome.
pub complete_run :
    (w : World) (outcome : QuitOutcome) (cs : List Call)
    → w.exit ≡ complete outcome
    → (begin_exit (run w cs)).1 ≡ ended outcome
unfolding run step begin_exit conclude_exit publish_attempt
complete_run w outcome [] e = ground arith
complete_run w outcome (begins ∷ cs) e = complete_run (step w begins) outcome cs (ground arith)
complete_run w outcome (concludes n result ∷ cs) e =
    complete_run (step w (concludes n result)) outcome cs (ground arith)
