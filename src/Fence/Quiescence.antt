-- ===== src/Fence/Quiescence.antt =====
-- What a closed and quiescent fence of crates/remtene-application/src/ports.rs promises.
use mathlib.Core.Path.{subst}
use native.Mathlib.Numerals.{add-one}
use rem_tene_public.Base.{
  ◌-◌, ℕ, zero, suc, ◌≤◌, ◌≡◌, refl, sym, ◌↔◌, Bool, true, false, Option, none, some, List, [], ◌∷◌,
  arith,
}
use rem_tene_public.Fence.{Fence, new, begin_commit, invalidate, end_commit, is_quiescent}

pub data Call : Type 0 where
  begins ends closes : Call

unfoldable pub step : Fence → Call → Fence
step f begins = (begin_commit f).0
step f ends = end_commit f
step f closes = invalidate f

unfoldable pub run : Fence → List Call → Fence
run f [] = f
run f (c ∷ cs) = run (step f c) cs

-- The guards held after these calls, by the promise: one for each begin before the first close,
-- less one for each end. `none` is a history that drops a guard which nobody holds.
unfoldable pub held : Bool → ℕ → List Call → Option ℕ
held before n [] = some n
held true n (begins ∷ cs) = held true (suc n) cs
held false n (begins ∷ cs) = held false n cs
held before zero (ends ∷ cs) = none
held before (suc n) (ends ∷ cs) = held before n cs
held before n (closes ∷ cs) = held false n cs

in_flight-run :
    (b : Bool) (n : ℕ) (cs : List Call) (m : ℕ)
    → held b n cs ≡ some m
    → (run (record { is_open = b; in_flight = n }) cs).in_flight ≡ m
unfolding run step begin_commit end_commit invalidate held
in_flight-run b n [] m h = ground arith
in_flight-run true n (begins ∷ cs) m h =
    subst (λ k. (run (record { is_open = true; in_flight = k }) cs).in_flight ≡ m) (sym (add-one n))
      (in_flight-run true (suc n) cs m h)
in_flight-run false n (begins ∷ cs) m h = in_flight-run false n cs m h
in_flight-run b zero (ends ∷ cs) m h = cc
in_flight-run b (suc n) (ends ∷ cs) m h =
    subst (λ k. (run (record { is_open = b; in_flight = k }) cs).in_flight ≡ m)
      (let e : n ≡ suc n - 1 = omega arith in e) (in_flight-run b n cs m h)
in_flight-run b n (closes ∷ cs) m h = in_flight-run false n cs m h

-- In any history of begins, ends and closes that drops no guard twice, the fence counts the guards
-- that are held, so the waiter goes on exactly when none is.
pub is_quiescent-run :
    (cs : List Call) (m : ℕ)
    → held true 0 cs ≡ some m
    → ((run new cs).in_flight ≡ m) × ((is_quiescent (run new cs) ≡ true) ↔ (m ≡ 0))
unfolding is_quiescent new
is_quiescent-run cs m h =
    let counted : (run new cs).in_flight ≡ m = in_flight-run true 0 cs m h in
    (counted, (λ q. ground (arith, counted), λ z. ground (arith, counted)))

-- Once closed, a fence gives no guard after any calls, and its count never grows again.
pub closed_run :
    (f : Fence) (cs : List Call)
    → f.is_open ≡ false
    → ((begin_commit (run f cs)).1 ≡ false) × ((run f cs).in_flight ≤ f.in_flight)
unfolding run step begin_commit end_commit invalidate
closed_run f [] e = ground arith
closed_run f (begins ∷ cs) e = ground (arith, closed_run f cs e)
closed_run f (ends ∷ cs) e =
    ground (arith, closed_run (record f { in_flight = f.in_flight - 1 }) cs e)
closed_run f (closes ∷ cs) e = ground (arith, closed_run (record f { is_open = false }) cs refl)
