-- ===== src/Tests/Modifier.antt =====
-- The modifier shortcut (crates/remtene-platform/src/modifier_shortcut.rs) on concrete events.
use rem_tene_public.Base.{ℕ, ◌≡◌, refl, true, false, List, [], ◌∷◌}
use rem_tene_public.Modifier.{
  shift_left, press, release, initial, callbacks, called, dispatch_event, key_code, toggle,
}
use rem_tene_public.Modifier.Alternation.{is_alternating, is_alternating-callbacks}

-- The events of left shift, right shift and then left shift three times.
abbrev codes : List ℕ
codes = 0x38 ∷ 0x3c ∷ 0x38 ∷ 0x38 ∷ 0x38 ∷ []

is_alternating-callbacks_example :
    is_alternating false (callbacks shift_left (initial true) codes) ≡ true
is_alternating-callbacks_example = is_alternating-callbacks shift_left true codes

held_at_first : callbacks shift_left (initial true) codes ≡ press ∷ release ∷ press ∷ []
unfolding callbacks initial called dispatch_event key_code toggle
held_at_first = refl
