-- ===== src/Workflow/Program/Ensures.antt =====
-- A logic for the programs that model
-- crates/remtene-application/src/transcription_orchestrator.rs: which calls a program may make,
-- given what it has seen, and what holds when it returns.
use rem_tene_public.Base.{Bool, List, [], ◌∷◌}
use rem_tene_public.Ports.{Call, Reply}
use rem_tene_public.Workflow.State.{World}
use rem_tene_public.Workflow.Program.{Prog, done, ask, atom}
use rem_tene_public.Workflow.Program.Execution.{Event, Runs, returns, calls, enters}

-- `Ghost` is what the program has seen of its calls, `allows` which call it may make then, and
-- `keeps` an invariant of the shared state that the other operations keep.
pub record Protocol : Type 1 where
  pub Ghost : Type 0
  pub allows : Ghost → Call → Type 0
  pub after : Ghost → (c : Call) → Reply c → Ghost
  pub keeps : World → Type 0

-- From this ghost the program makes allowed calls only, keeps the invariant in each section, and
-- returns only with `Q`.
pub data Ensures (S : Protocol) {A : Type 0} (Q : S.Ghost → A → Type 0)
    : S.Ghost → Prog A → Type 0 where
  returning : {g : S.Ghost} {a : A} → Q g a → Ensures S Q g (done a)
  asking :
      {g : S.Ghost} {c : Call} {k : Reply c → Prog A}
      → S.allows g c
      → ((r : Reply c) → Ensures S Q (S.after g c r) (k r))
      → Ensures S Q g (ask c k)
  entering :
      {g : S.Ghost} {test : World → Bool} {change : World → World} {k : World → Prog A}
      → ((w : World) → S.keeps w → S.keeps (change w))
      → ((w : World) → S.keeps w → Ensures S Q g (k w))
      → Ensures S Q g (atom test change k)

module _ (S : Protocol) where
  -- The ghost after a sequence of calls.
  abbrev pub ghost_after : S.Ghost → List Event → S.Ghost
  ghost_after g [] = g
  ghost_after g ((c, r) ∷ es) = ghost_after (S.after g c r) es

  -- Each call was allowed when it was made.
  abbrev pub AreAllowed : S.Ghost → List Event → Type 0
  AreAllowed g [] = Unit {0}
  AreAllowed g ((c, r) ∷ es) = S.allows g c × AreAllowed (S.after g c r) es

-- Every run of a program that ensures `Q` makes allowed calls only and returns with `Q`.
pub Ensures-Runs :
    {S : Protocol} {A : Type 0} {Q : S.Ghost → A → Type 0} {g : S.Ghost} {p : Prog A}
    {es : List Event} {a : A}
    → Ensures S Q g p
    → Runs S.keeps p es a
    → AreAllowed S g es × Q (ghost_after S g es) a
Ensures-Runs (returning q) returns = (tt, q)
Ensures-Runs (asking allowed rest) (calls r run) =
    let (before, q) = Ensures-Runs (rest r) run in ((allowed, before), q)
Ensures-Runs (entering kept rest) (enters w i e run) = Ensures-Runs (rest w i) run
