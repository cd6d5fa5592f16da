-- ===== src/Workflow/Program/Rules.antt =====
-- Rules for the logic of Ensures: one for each way to build a program.
use rem_tene_public.Base.{
  Option, none, some, Bool, true, false, ◌≡◌, refl, sym, Result, ok, err, if◌then◌else◌,
}
use mathlib.Core.Path.{subst}
use rem_tene_public.Ports.{Call, Reply}
use rem_tene_public.Workflow.State.{World, OrchestratorError}
use rem_tene_public.Workflow.Program.{Prog, M, pure, ◌>>=◌, perform}
use rem_tene_public.Workflow.Program.Ensures.{Protocol, Ensures, returning, asking, entering}
use rem_tene_public.Workflow.Program.Quiet.{Quiet, quiet_done, quiet_ask, quiet_atom, IsCalm}

module _ {S : Protocol} {A : Type 0} {Q : S.Ghost → Result OrchestratorError A → Type 0} where
  pub Ensures-pure : {g : S.Ghost} (a : A) → Q g (ok a) → Ensures S Q g (pure a)
  unfolding pure
  Ensures-pure a q = returning q

  pub Ensures-if :
      {g : S.Ghost} (b : Bool) {p q : M A}
      → (b ≡ true → Ensures S Q g p)
      → (b ≡ false → Ensures S Q g q)
      → Ensures S Q g (if b then p else q)
  Ensures-if true p q = p refl
  Ensures-if false p q = q refl

  pub Ensures-option :
      {B : Type 0} {g : S.Ghost} (o : Option B) {p : M A} {f : B → M A}
      → Ensures S Q g p
      → ((b : B) → Ensures S Q g (f b))
      → Ensures S Q g (elim o [ none ↦ p | some b ↦ f b ])
  Ensures-option none p f = p
  Ensures-option (some b) p f = f b

  -- A call, then the rest.
  pub Ensures-perform :
      {g : S.Ghost} (c : Call) {f : Reply c → M A}
      → S.allows g c
      → ((r : Reply c) → Ensures S Q (S.after g c r) (f r))
      → Ensures S Q g (perform c >>= f)
  unfolding perform ◌>>=◌
  Ensures-perform c a rest = asking a rest

  -- A part with its own postcondition, then the rest.
  pub Ensures-bind :
      {B : Type 0} {P : S.Ghost → Result OrchestratorError B → Type 0} {g : S.Ghost} {m : M B}
      {f : B → M A}
      → Ensures S P g m
      → ((h : S.Ghost) (b : B) → P h (ok b) → Ensures S Q h (f b))
      → ((h : S.Ghost) (e : OrchestratorError) → P h (err e) → Q h (err e))
      → Ensures S Q g (m >>= f)
  unfolding ◌>>=◌
  Ensures-bind (returning {a = ok b} p) good bad = good _ b p
  Ensures-bind (returning {a = err e} p) good bad = returning (bad _ e p)
  Ensures-bind (asking a next) good bad = asking a (λ r. Ensures-bind (next r) good bad)
  Ensures-bind (entering k next) good bad = entering k (λ w i. Ensures-bind (next w i) good bad)

  module _ (calm : IsCalm S) where
    -- A quiet part leaves the ghost alone.
    pub Ensures-silently :
        {B : Type 0} {g : S.Ghost} {m : M B} {f : B → M A}
        → Quiet m
        → ((b : B) → Ensures S Q g (f b))
        → ((e : OrchestratorError) → Q g (err e))
        → Ensures S Q g (m >>= f)
    unfolding ◌>>=◌
    Ensures-silently (quiet_done (ok b)) good bad = good b
    Ensures-silently (quiet_done (err e)) good bad = returning (bad e)
    Ensures-silently {g} {f = f} (quiet_ask c {k = k} q next) good bad =
        asking (calm.allowed g c q) (λ r.
          subst (λ h. Ensures S Q h (k r >>= f)) (sym (calm.unchanged g c r q))
            (Ensures-silently (next r) good bad))
    Ensures-silently (quiet_atom frozen next) good bad =
        entering (λ w i. calm.kept w _ (frozen w) i) (λ w i. Ensures-silently (next w) good bad)

    -- A program that is quiet to its end.
    pub Ensures-ends_silently :
        {g : S.Ghost} {m : M A}
        → Quiet m
        → ((r : Result OrchestratorError A) → Q g r)
        → Ensures S Q g m
    Ensures-ends_silently (quiet_done r) q = returning (q r)
    Ensures-ends_silently {g} (quiet_ask c {k = k} quiet next) q =
        asking (calm.allowed g c quiet) (λ r.
          subst (λ h. Ensures S Q h (k r)) (sym (calm.unchanged g c r quiet))
            (Ensures-ends_silently (next r) q))
    Ensures-ends_silently (quiet_atom frozen next) q =
        entering (λ w i. calm.kept w _ (frozen w) i) (λ w i. Ensures-ends_silently (next w) q)

-- A program that obeys one protocol obeys every other that allows as much, from related ghosts.
pub Ensures-map :
    {S T : Protocol} {A : Type 0} {Q : S.Ghost → A → Type 0} {Q' : T.Ghost → A → Type 0}
    (R : S.Ghost → T.Ghost → Type 0)
    → ((w : World) → T.keeps w → S.keeps w)
    → ((w : World) → S.keeps w → T.keeps w)
    → ((g : S.Ghost) (h : T.Ghost) (c : Call) → R g h → S.allows g c → T.allows h c)
    → ((g : S.Ghost) (h : T.Ghost) (c : Call) (r : Reply c)
        → R g h
        → S.allows g c
        → R (S.after g c r) (T.after h c r))
    → ((g : S.Ghost) (h : T.Ghost) (a : A) → R g h → Q g a → Q' h a)
    → {g : S.Ghost} {h : T.Ghost} {p : Prog A} → R g h
    → Ensures S Q g p
    → Ensures T Q' h p
Ensures-map R to fro allows after ends related (returning q) = returning (ends _ _ _ related q)
Ensures-map R to fro allows after ends related (asking a next) =
    asking (allows _ _ _ related a)
      λ r. Ensures-map R to fro allows after ends (after _ _ _ r related a) (next r)
Ensures-map R to fro allows after ends related (entering k next) =
    entering (λ w i. fro _ (k w (to w i)))
      λ w i. Ensures-map R to fro allows after ends related (next w (to w i))
