-- ===== src/Workflow/Program/Execution.antt =====
-- What an async function can do under any behaviour of the ports and of the other operations: the
-- semantics of the programs that model crates/remtene-application/src/transcription_orchestrator.rs.
use rem_tene_public.Base.{
  Bool, true, false, Option, none, some, List, [], ◌∷◌, ◌≡◌, Bool-cases, inl, inr,
}
use rem_tene_public.Ports.{Call, Reply}
use rem_tene_public.Workflow.State.{World}
use rem_tene_public.Workflow.Program.{Prog, done, ask, atom}

-- A call with its reply.
abbrev pub Event : Type 0
Event = (c : Call) × Reply c

-- `Runs I p es a`: the program may return `a` after the calls `es`. Each section finds any state
-- that satisfies `I`, since other operations run between the sections; each reply is any value.
pub data Runs (I : World → Type 0) {A : Type 0} : Prog A → List Event → A → Type 0 where
  returns : {a : A} → Runs I (done a) [] a
  calls :
      {c : Call} {k : Reply c → Prog A} {es : List Event} {a : A} (r : Reply c)
      → Runs I (k r) es a
      → Runs I (ask c k) ((c, r) ∷ es) a
  enters :
      {test : World → Bool} {change : World → World} {k : World → Prog A} {es : List Event} {a : A}
      (w : World)
      → I w
      → test w ≡ true
      → Runs I (k w) es a
      → Runs I (atom test change k) es a

-- One run in which nothing interferes and each call has the reply that the oracle gives; `none` if
-- a section waits for ever.
unfoldable pub execute :
    {A : Type 0} → ((c : Call) → Reply c) → World → Prog A → Option (World × List Event × A)
execute oracle w (done a) = some (w, [], a)
execute oracle w (ask c k) =
    let rest = execute oracle w (k (oracle c)) in
    elim rest [ none ↦ none | some (w', es, a) ↦ some (w', (c, oracle c) ∷ es, a) ]
execute oracle w (atom test change k) =
    let rest = execute oracle (change w) (k w) in elim (test w) [ true ↦ rest | false ↦ none ]

abbrev pub IsRunOf : {A : Type 0} → Prog A → Option (World × List Event × A) → Type 0
IsRunOf p none = Unit {0}
IsRunOf p (some (w, es, a)) = Runs (λ _. Unit) p es a

enters-IsRunOf :
    {A : Type 0} (test : World → Bool) (change : World → World) (k : World → Prog A) (w : World)
    → test w ≡ true
    → (o : Option (World × List Event × A)) → IsRunOf (k w) o
    → IsRunOf (atom test change k) o
enters-IsRunOf test change k w free none run = tt
enters-IsRunOf test change k w free (some (w', es, a)) run = enters w tt free run

-- What `execute` finds is a run.
pub execute-IsRunOf :
    {A : Type 0} (oracle : (c : Call) → Reply c) (w : World) (p : Prog A)
    → IsRunOf p (execute oracle w p)
unfolding execute
execute-IsRunOf oracle w (done a) = returns
execute-IsRunOf oracle w (ask c k) =
    elim (execute oracle w (k (oracle c)))
        as (λ o.
          IsRunOf (k (oracle c)) o
          → IsRunOf (ask c k)
              (elim o [ none ↦ none | some (w', es, a) ↦ some (w', (c, oracle c) ∷ es, a) ])) [
                | none ↦ λ run. tt
                | some (w', es, a) ↦ λ run. calls (oracle c) run
              ]
      (execute-IsRunOf oracle w (k (oracle c)))
execute-IsRunOf oracle w (atom test change k) = elim (Bool-cases (test w)) [
  | inl free ↦
      rw free (enters-IsRunOf test change k w free _ (execute-IsRunOf oracle (change w) (k w)))
  | inr held ↦ rw held tt
]
