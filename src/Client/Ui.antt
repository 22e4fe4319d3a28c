-- ===== src/Client/Ui.antt =====
-- client/src/ui/widgets.h and widgets.cpp: the widgets, without what they draw. A widget id is a
-- number, 0 for none; an area is x, y, width and height as floats.
pub mod Tabs
use untitled.Base.{ℕ, ◌+◌, ◌≡◌, Bool, true, false, not, ◌&&◌, List, [], ◌∷◌, ◌++◌, length}
use untitled.Base.{◌==◌, ltb, leb, if◌then◌else◌}
use untitled.Sim.Float.{Fpu, lt, le}

pub record InputState : Type 0 where
  pub mouse_x : ℕ
  pub mouse_y : ℕ
  pub mouse_down : Bool
  pub mouse_pressed : Bool
  pub mouse_released : Bool
  pub characters : List ℕ
  pub backspace : Bool
  pub tab : Bool
  pub enter : Bool
  pub escape : Bool

-- The edges of one frame are cleared.
unfoldable pub end_frame : InputState → InputState
end_frame i = record i {
  mouse_pressed = false;
  mouse_released = false;
  characters = [];
  backspace = false;
  tab = false;
  enter = false;
  escape = false;
}

pub record Ui : Type 0 where
  pub input : InputState
  pub focused : ℕ
  pub active : ℕ
  pub text_fields : List ℕ
  pub tab_pending : Bool

pub record Area : Type 0 where
  pub x : ℕ
  pub y : ℕ
  pub width : ℕ
  pub height : ℕ

unfoldable pub begin : InputState → Ui → Ui
begin input ui = record ui { input = input; tab_pending = input.tab; text_fields = [] }

-- The field behind the first one that is `focused`; `first` behind the last field, or without one.
unfoldable pub next_field : ℕ → ℕ → List ℕ → ℕ
next_field first focused [] = first
next_field first focused (f ∷ []) = first
next_field first focused (f ∷ g ∷ more) =
    let rest = next_field first focused (g ∷ more) in if f == focused then g else rest

unfoldable pub tab_to : List ℕ → ℕ → ℕ
unfolding next_field
tab_to [] focused = focused
tab_to (f ∷ more) focused = next_field f focused (f ∷ more)

-- `Ui::end`
unfoldable pub finish : Ui → Ui
unfolding tab_to
finish ui =
    let i = ui.input in
    let focused = if i.mouse_pressed && ui.active == 0 then 0 else ui.focused in
    record ui {
      active = if i.mouse_released then 0 else ui.active;
      focused = if ui.tab_pending then tab_to ui.text_fields focused else focused;
      tab_pending = false;
    }

unfoldable pub set_focus : ℕ → Ui → Ui
set_focus id ui = record ui { focused = id }

unfoldable pub type_all : ℕ → List ℕ → List ℕ → List ℕ
type_all max_length [] value = value
type_all max_length (c ∷ cs) value =
    let typed =
      if leb 0x20 c && leb c 0x7e && ltb (length value) max_length
      then value ++ (c ∷ [])
      else value in
    type_all max_length cs typed

unfoldable pub pop_back : List ℕ → List ℕ
pop_back [] = []
pop_back (c ∷ []) = []
pop_back (c ∷ d ∷ more) = c ∷ pop_back (d ∷ more)

-- What the field that has the focus makes of the keys.
unfoldable pub edit : ℕ → InputState → List ℕ → List ℕ
unfolding type_all pop_back
edit max_length i value =
    let typed = type_all max_length i.characters value in
    if i.backspace then pop_back typed else typed

module _ (fpu : Fpu) where
  unfoldable pub hovered : Area → InputState → Bool
  hovered a i =
      le a.x i.mouse_x
      && lt i.mouse_x (fpu.add a.x a.width)
      && le a.y i.mouse_y
      && lt i.mouse_y (fpu.add a.y a.height)

  -- A press over the widget takes it.
  unfoldable pub press : ℕ → Area → Ui → Ui
  unfolding hovered
  press id a ui =
      if hovered a ui.input && ui.input.mouse_pressed
      then record ui { active = id; focused = id }
      else ui

  unfoldable pub button : ℕ → Area → Ui → Bool × Ui
  unfolding press hovered
  button id a ui =
      let ui' = press id a ui in
      (ui'.active == id && ui'.input.mouse_released && hovered a ui'.input, ui')

  -- Whether the field was submitted, and its value.
  unfoldable pub text_field : ℕ → Area → ℕ → List ℕ → Ui → (Bool × List ℕ) × Ui
  unfolding press edit
  text_field id a max_length value ui =
      let ui' = press id a (record ui { text_fields = ui.text_fields ++ (id ∷ []) }) in
      if ui'.focused == id
      then ((ui'.input.enter, edit max_length ui'.input value), ui')
      else ((false, value), ui')
