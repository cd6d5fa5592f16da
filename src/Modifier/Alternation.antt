-- ===== src/Modifier/Alternation.antt =====
-- The callbacks of a modifier shortcut (crates/remtene-platform/src/modifier_shortcut.rs) alternate.
use rem_tene_public.Base.{
  ℕ, Bool, true, false, not, ◌&&◌, none, List, [], ◌∷◌, ◌≡◌, refl, ◌==◌, if◌then◌else◌,
}
use rem_tene_public.Modifier.{
  MacModifierKey, key_code, ModifierTransition, press, release, ModifierPressState, initial, toggle,
  dispatch_event, called, callbacks,
}

-- The transitions of one key that is held at first or is not.
unfoldable pub is_alternating : Bool → List ModifierTransition → Bool
is_alternating held [] = true
is_alternating true (press ∷ later) = false
is_alternating false (release ∷ later) = false
is_alternating false (press ∷ later) = is_alternating true later
is_alternating true (release ∷ later) = is_alternating false later

abbrev in_state : Bool → Bool → ModifierPressState
in_state p q = record { pressed = p; suppress_initial_release = q }

is_alternating-called :
    (other p q : Bool) (rest : ModifierPressState → List ModifierTransition)
    → (q ≡ true → p ≡ true)
    → ((p' q' : Bool)
        → (q' ≡ true → p' ≡ true)
        → is_alternating (p' && not q') (rest (in_state p' q')) ≡ true)
    → is_alternating (p && not q) (
        called
          (if other then (in_state p q, none) else toggle (in_state p q)).1
          (rest (if other then (in_state p q, none) else toggle (in_state p q)).0))
      ≡ true
unfolding toggle called is_alternating
is_alternating-called true p q rest h k = k p q h
is_alternating-called false true true rest h k = k false false (λ e. e)
is_alternating-called false true false rest h k = k false false (λ e. e)
is_alternating-called false false false rest h k = k true false (λ e. refl)
is_alternating-called false false true rest h k = absurd {A = _} (let e = h refl in cc)

is_alternating-callbacks_from :
    (key : MacModifierKey) (codes : List ℕ) (p q : Bool)
    → (q ≡ true → p ≡ true)
    → is_alternating (p && not q) (callbacks key (in_state p q) codes) ≡ true
unfolding callbacks dispatch_event is_alternating
is_alternating-callbacks_from key [] p q h = refl
is_alternating-callbacks_from key (code ∷ codes) p q h =
    is_alternating-called (not (code == key_code key)) p q (λ s. callbacks key s codes) h
      (λ p' q'. is_alternating-callbacks_from key codes p' q')

-- Whatever keys are struck, and whether the modifier is held when the shortcut is installed or not,
-- the callbacks alternate and begin with a press.
pub is_alternating-callbacks :
    (key : MacModifierKey) (initially_pressed : Bool) (codes : List ℕ)
    → is_alternating false (callbacks key (initial initially_pressed) codes) ≡ true
unfolding initial
is_alternating-callbacks key true codes = is_alternating-callbacks_from key codes true true (λ e. e)
is_alternating-callbacks key false codes =
    is_alternating-callbacks_from key codes false false (λ e. e)
