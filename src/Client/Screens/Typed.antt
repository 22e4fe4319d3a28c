-- ===== src/Client/Screens/Typed.antt =====
-- What can be typed into the login form (client/src/screens.cpp, client/src/ui/widgets.cpp).
use untitled.Base.{◌&&◌, ◌==◌, Bool-cases, inl, inr}
use untitled.Base.{ℕ, ◌≤◌, arith, Bool, true, false, All}
use untitled.Base.{List, [], ◌∷◌, ◌++◌, length, length-append, All-append, if◌then◌else◌, ltb, leb}
use untitled.Sim.Float.{Fpu}
use untitled.Client.Ui.{Ui, InputState, Area, text_field, edit, type_all, pop_back, press}
use untitled.Client.Screens.{AppState, LoginScreen, Renderer, draw_login, max_length}

-- A byte of printable ASCII.
abbrev pub IsPrintable : ℕ → Type 0
IsPrintable c = (0x20 ≤ c) × (c ≤ 0x7e)

pub record IsText (n : ℕ) (value : List ℕ) : Type 0 where
  pub short : length value ≤ n
  pub printable : All IsPrintable value

push-IsText :
    (n c : ℕ) (value : List ℕ)
    → IsText n value
    → IsText n
        (if leb 0x20 c && leb c 0x7e && ltb (length value) n then value ++ (c ∷ []) else value)
push-IsText n c value t = elim (Bool-cases (leb 0x20 c && leb c 0x7e && ltb (length value) n)) [
  | inl fits ↦ rw fits (record {
    short = ground (arith, fits, length-append value (c ∷ []));
    printable = All-append IsPrintable value (c ∷ []) t.printable (ground (arith, fits), tt);
  })
  | inr full ↦ rw full t
]

type_all-IsText : (n : ℕ) (cs value : List ℕ) → IsText n value → IsText n (type_all n cs value)
unfolding type_all
type_all-IsText n [] value t = t
type_all-IsText n (c ∷ cs) value t =
    let step : IsText n
        (if leb 0x20 c && leb c 0x7e && ltb (length value) n then value ++ (c ∷ []) else value) =
      push-IsText n c value t in
    type_all-IsText n cs _ step

length-pop_back : (value : List ℕ) → length (pop_back value) ≤ length value
unfolding pop_back
length-pop_back [] = omega arith
length-pop_back (c ∷ []) = omega arith
length-pop_back (c ∷ d ∷ more) = omega (arith, length-pop_back (d ∷ more))

All-pop_back : (value : List ℕ) → All IsPrintable value → All IsPrintable (pop_back value)
unfolding pop_back
All-pop_back [] a = tt
All-pop_back (c ∷ []) a = tt
All-pop_back (c ∷ d ∷ more) (a, b) = (a, All-pop_back (d ∷ more) b)

pop_back-IsText : (n : ℕ) (value : List ℕ) → IsText n value → IsText n (pop_back value)
pop_back-IsText n value t = record {
  short = omega (arith, t.short, length-pop_back value);
  printable = All-pop_back value t.printable;
}

IsText-if :
    (n : ℕ) (x y : List ℕ) (c : Bool) → IsText n x → IsText n y → IsText n (if c then x else y)
IsText-if n x y true a b = a
IsText-if n x y false a b = b

edit-IsText : (n : ℕ) (i : InputState) (value : List ℕ) → IsText n value → IsText n (edit n i value)
unfolding edit
edit-IsText n i value t =
    let typed = type_all-IsText n i.characters value t in
    IsText-if n (pop_back (type_all n i.characters value)) (type_all n i.characters value)
      i.backspace (pop_back-IsText n (type_all n i.characters value) typed) typed

-- What the form holds can be typed, and the strings fit it.
pub record IsForm (s : LoginScreen) : Type 0 where
  pub username : IsText max_length s.username
  pub password : IsText max_length s.password

field_if :
    (n : ℕ) (x y : (Bool × List ℕ) × Ui) (focused : Bool)
    → IsText n x.0.1
    → IsText n y.0.1
    → IsText n (if focused then x else y).0.1
field_if n x y true h k = h
field_if n x y false h k = k

module _ (fpu : Fpu) where
  text_field-IsText :
      (id : ℕ) (a : Area) (n : ℕ) (value : List ℕ) (ui : Ui)
      → IsText n value
      → IsText n (text_field fpu id a n value ui).0.1
  unfolding text_field
  text_field-IsText id a n value ui t =
      let ui' = press fpu id a (record ui { text_fields = ui.text_fields ++ (id ∷ []) }) in
      field_if n ((ui'.input.enter, edit n ui'.input value), ui') ((false, value), ui')
        (ui'.focused == id) (edit-IsText n ui'.input value t) t

  pub draw_login-IsForm :
      (renderer : Renderer) (state : AppState) (s : LoginScreen) (ui : Ui)
      → IsForm s
      → IsForm (draw_login fpu renderer state s ui).0.1
  unfolding draw_login
  draw_login-IsForm renderer state s ui f = record {
    username = text_field-IsText _ _ max_length s.username _ f.username;
    password = text_field-IsText _ _ max_length s.password _ f.password;
  }
