-- ===== src/Modifier.antt =====
-- The shortcut that is one modifier key (crates/remtene-platform/src/modifier_shortcut.rs): which
-- events of the keyboard press and release it. The two monitors of the operating system share the
-- state, and each event reaches one of them.
pub mod Alternation
use rem_tene_public.Base.{
  ℕ, Bool, true, false, not, Option, none, some, List, [], ◌∷◌, ◌==◌, if◌then◌else◌,
}

pub data MacModifierKey : Type 0 where
  command_left command_right control_left control_right : MacModifierKey
  option_left option_right shift_left shift_right : MacModifierKey

unfoldable pub key_code : MacModifierKey → ℕ
key_code command_left = 0x37
key_code command_right = 0x36
key_code control_left = 0x3b
key_code control_right = 0x3e
key_code option_left = 0x3a
key_code option_right = 0x3d
key_code shift_left = 0x38
key_code shift_right = 0x3c

pub data ModifierTransition : Type 0 where
  press release : ModifierTransition

pub record ModifierPressState : Type 0 where
  pub pressed : Bool
  pub suppress_initial_release : Bool

unfoldable pub initial : Bool → ModifierPressState
initial initially_pressed = record {
  pressed = initially_pressed;
  suppress_initial_release = initially_pressed;
}

unfoldable pub toggle : ModifierPressState → ModifierPressState × Option ModifierTransition
toggle s =
    if s.pressed
    then (if s.suppress_initial_release
        then (record s { pressed = false; suppress_initial_release = false }, none)
        else (record s { pressed = false }, some release))
    else (record s { pressed = true }, some press)

-- The callback that is called: `on_press` or `on_release`.
unfoldable pub dispatch_event :
    ℕ → MacModifierKey → ModifierPressState → ModifierPressState × Option ModifierTransition
dispatch_event event_key_code key state =
    if not (event_key_code == key_code key) then (state, none) else toggle state

unfoldable pub called :
    Option ModifierTransition → List ModifierTransition → List ModifierTransition
called none later = later
called (some transition) later = transition ∷ later

-- The callbacks that the events with these key codes call.
unfoldable pub callbacks : MacModifierKey → ModifierPressState → List ℕ → List ModifierTransition
callbacks key state [] = []
callbacks key state (code ∷ codes) =
    called (dispatch_event code key state).1 (callbacks key (dispatch_event code key state).0 codes)
