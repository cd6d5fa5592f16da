-- ===== src/Base/Sets.antt =====
-- Equality tests, and sets as lists without repetitions: what `contains`, `BTreeSet::insert` and
-- `BTreeSet::remove` of the standard library do.
use Prim.Native.Nat.{ℕ}
use mathlib.Core.Path.{◌≡◌, refl}
use mathlib.Core.Logic.{◌↔◌, inl, inr}
use mathlib.Core.Bool.{Bool, true, false, not, ◌&&◌, ◌||◌}
use mathlib.Core.List.{List, [], ◌∷◌}
use native.Mathlib.Omega.{arith}
use rem_tene_public.Base.Tests
use rem_tene_public.Base.Tests.{==_iff, if◌then◌else◌, Bool-cases}

pub record Eq (A : Type 0) : Type 0 where
  pub beq : A → A → Bool
  pub beq_iff : (a b : A) → (beq a b ≡ true) ↔ (a ≡ b)

infix 50 ◌=?◌
abbrev pub ◌=?◌ : {A : Type 0} ⦃e : Eq A⦄ → A → A → Bool
◌=?◌ ⦃e⦄ = e.beq

pub nat_beq_iff : (a b : ℕ) → (Tests.◌==◌ a b ≡ true) ↔ (a ≡ b)
nat_beq_iff = ==_iff

instance abbrev pub nat_eq : Eq ℕ
nat_eq = record { beq = Tests.◌==◌; beq_iff = nat_beq_iff }

module _ {A B : Type 0} ⦃e : Eq A⦄ ⦃f : Eq B⦄ where
  abbrev pair_beq : A × B → A × B → Bool
  pair_beq (a, b) (c, d) = a =? c && b =? d

  pub pair_beq_iff : (p q : A × B) → (pair_beq p q ≡ true) ↔ (p ≡ q)
  pair_beq_iff (a, b) (c, d) = (
    λ h. ground (arith, e.beq_iff a c, f.beq_iff b d),
    λ h. ground (arith, e.beq_iff a c, f.beq_iff b d),
  )

  instance abbrev pub pair_eq : Eq (A × B)
  pair_eq = record { beq = pair_beq; beq_iff = pair_beq_iff }

module _ {A : Type 0} ⦃e : Eq A⦄ where
  abbrev list_beq : List A → List A → Bool
  list_beq [] [] = true
  list_beq [] (_ ∷ _) = false
  list_beq (_ ∷ _) [] = false
  list_beq (a ∷ xs) (b ∷ ys) = a =? b && list_beq xs ys

  pub list_beq_iff : (xs ys : List A) → (list_beq xs ys ≡ true) ↔ (xs ≡ ys)
  list_beq_iff [] [] = (λ h. refl, λ h. refl)
  list_beq_iff [] (_ ∷ _) = (λ h. cc, λ h. cc)
  list_beq_iff (_ ∷ _) [] = (λ h. cc, λ h. cc)
  list_beq_iff (a ∷ xs) (b ∷ ys) = (
    λ h. ground (arith, e.beq_iff a b, list_beq_iff xs ys),
    λ h. ground (arith, e.beq_iff a b, list_beq_iff xs ys),
  )

  instance abbrev pub list_eq : Eq (List A)
  list_eq = record { beq = list_beq; beq_iff = list_beq_iff }

  abbrev pub contains : List A → A → Bool
  contains [] a = false
  contains (x ∷ xs) a = x =? a || contains xs a

  -- The set with `a`; the list is in the order of insertion, which nothing reads.
  unfoldable pub insert : A → List A → List A
  insert a xs = if contains xs a then xs else a ∷ xs

  unfoldable pub remove : A → List A → List A
  remove a [] = []
  remove a (x ∷ xs) = let rest = remove a xs in if x =? a then rest else x ∷ rest

  -- `values.iter().all(|value| unique.insert(value))`
  unfoldable pub all_fresh : List A → List A → Bool
  all_fresh seen [] = true
  all_fresh seen (x ∷ xs) = not (contains seen x) && all_fresh (insert x seen) xs

  pub contains-insert :
      (a b : A) (xs : List A) → contains (insert a xs) b ≡ (if a =? b then true else contains xs b)
  unfolding insert
  contains-insert a b xs = elim (Bool-cases (contains xs a)) [
    | inl old ↦ ground (arith, e.beq_iff a b)
    | inr fresh ↦ ground (arith, e.beq_iff a b)
  ]

  pub contains-remove :
      (a b : A) (xs : List A) → contains (remove a xs) b ≡ (if a =? b then false else contains xs b)
  unfolding remove
  contains-remove a b [] = ground arith
  contains-remove a b (x ∷ xs) =
      ground (arith, e.beq_iff a b, e.beq_iff x a, e.beq_iff x b, contains-remove a b xs)
