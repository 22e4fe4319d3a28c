-- ===== src/Client/Screens.antt =====
-- client/src/screens.h and screens.cpp: the login form and the escape menu, without what they draw.
-- The renderer's width, height and `textHeight` are parameters; numbers in hexadecimal are floats.
pub mod Typed
use untitled.Base.{ℕ, ◌+◌, ◌≡◌, Bool, true, false, not, ◌&&◌, ◌||◌, List, [], ◌∷◌, Option}
use untitled.Base.{if◌then◌else◌}
use untitled.Sim.Float.{Fpu, half_f}
use untitled.Client.NetClient.{Failure}
use untitled.Client.Ui
use untitled.Client.Ui.{Ui, Area, button, text_field, set_focus}

pub data AppState : Type 0 where
  login connecting in_game menu : AppState

abbrev pub is_connecting : AppState → Bool
is_connecting AppState.connecting = true
is_connecting _ = false

-- The texts that the status line is set to; `failure` is that of an error of the network client.
pub data Status : Type 0 where
  empty required connecting_now logged_out : Status
  failure : Option Failure → Status

pub record LoginScreen : Type 0 where
  pub username : List ℕ
  pub password : List ℕ
  pub status : Status
  pub status_is_error : Bool
  pub focus_initialised : Bool

abbrev pub new_login : LoginScreen
new_login = record {
  username = [];
  password = [];
  status = Status.empty;
  status_is_error = false;
  focus_initialised = false;
}

pub data LoginAction : Type 0 where
  none submit quit : LoginAction

pub data MenuAction : Type 0 where
  none resume logout quit : MenuAction

-- The ids of the widgets.
abbrev pub id_username : ℕ
id_username = 1

abbrev pub id_password : ℕ
id_password = 2

abbrev pub id_submit : ℕ
id_submit = 3

abbrev pub id_quit : ℕ
id_quit = 4

abbrev pub id_resume : ℕ
id_resume = 5

abbrev pub id_logout : ℕ
id_logout = 6

abbrev pub id_menu_quit : ℕ
id_menu_quit = 7

-- The default of `textField`.
abbrev pub max_length : ℕ
max_length = 32

unfoldable pub set_status : Status → Bool → LoginScreen → LoginScreen
set_status status error s = record s { status = status; status_is_error = error }

unfoldable pub clear_password : LoginScreen → LoginScreen
clear_password s = record s { password = [] }

unfoldable pub reset_focus : LoginScreen → LoginScreen
reset_focus s = record s { focus_initialised = false }

pub record Renderer : Type 0 where
  pub width : ℕ
  pub height : ℕ
  pub text_height : ℕ → ℕ

-- Where the form's widgets are.
pub record LoginAreas : Type 0 where
  pub username : Area
  pub password : Area
  pub submit : Area
  pub quit : Area

pub record MenuAreas : Type 0 where
  pub resume : Area
  pub logout : Area
  pub quit : Area

module _ (fpu : Fpu) (renderer : Renderer) where
  abbrev half_of : ℕ → ℕ → ℕ
  half_of size inner = fpu.mul (fpu.sub (fpu.of_nat size) inner) half_f

  unfoldable pub login_areas : LoginAreas
  login_areas =
      let panel_width : ℕ = 0x43e60000 in
      let panel_x = half_of renderer.width panel_width in
      let panel_y = half_of renderer.height 0x43a00000 in
      let content_x = fpu.add panel_x 0x42000000 in
      let content_width = fpu.sub panel_width 0x42800000 in
      let label = fpu.add (renderer.text_height 13) 0x40800000 in
      let title = fpu.add (renderer.text_height 34) 0x41c00000 in
      let row = fpu.add 0x42200000 0x41800000 in
      let y1 = fpu.add (fpu.add (fpu.add panel_y 0x41e00000) title) label in
      let y2 = fpu.add (fpu.add y1 row) label in
      let y3 = fpu.add y2 (fpu.add row 0x40800000) in
      let button_width = fpu.mul (fpu.sub content_width 0x41400000) half_f in
      record {
        username = record { x = content_x; y = y1; width = content_width; height = 0x42200000 };
        password = record { x = content_x; y = y2; width = content_width; height = 0x42200000 };
        submit = record { x = content_x; y = y3; width = button_width; height = 0x42300000 };
        quit = record {
          x = fpu.add (fpu.add content_x button_width) 0x41400000;
          y = y3;
          width = button_width;
          height = 0x42300000;
        };
      }

  unfoldable pub menu_areas : MenuAreas
  menu_areas =
      let panel_width : ℕ = 0x43aa0000 in
      let panel_x = half_of renderer.width panel_width in
      let panel_y = half_of renderer.height 0x43820000 in
      let heading = fpu.add (renderer.text_height 26) 0x40c00000 in
      let subtitle = fpu.add (renderer.text_height 13) 0x41b00000 in
      let y1 = fpu.add (fpu.add (fpu.add panel_y 0x41d00000) heading) subtitle in
      let row = fpu.add 0x42300000 0x41400000 in
      let x = fpu.add panel_x 0x41f00000 in
      let width = fpu.sub panel_width 0x42700000 in
      let y2 = fpu.add y1 row in
      record {
        resume = record { x = x; y = y1; width = width; height = 0x42300000 };
        logout = record { x = x; y = y2; width = width; height = 0x42300000 };
        quit = record { x = x; y = fpu.add y2 row; width = width; height = 0x42300000 };
      }

  -- What the user asked for, by the button or by Enter.
  unfoldable pub login_action : (busy quit_clicked submitted : Bool) → LoginAction
  login_action busy quit_clicked submitted =
      if quit_clicked
      then LoginAction.quit
      else (if not busy && submitted then LoginAction.submit else LoginAction.none)

  unfoldable pub draw_login : AppState → LoginScreen → Ui → (LoginAction × LoginScreen) × Ui
  unfolding login_areas login_action
  draw_login state s ui =
      let ui0 = if s.focus_initialised then ui else set_focus id_username ui in
      let areas = login_areas in
      let ((sent_u, username), ui1) =
        text_field fpu id_username areas.username max_length s.username ui0 in
      let ((sent_p, password), ui2) =
        text_field fpu id_password areas.password max_length s.password ui1 in
      let (submit_clicked, ui3) = button fpu id_submit areas.submit ui2 in
      let (quit_clicked, ui4) = button fpu id_quit areas.quit ui3 in
      (
        (
          login_action (is_connecting state) quit_clicked (submit_clicked || sent_u || sent_p),
          record s { username = username; password = password; focus_initialised = true },
        ),
        ui4,
      )

  unfoldable pub draw_menu : Ui → MenuAction × Ui
  unfolding menu_areas
  draw_menu ui =
      let areas = menu_areas in
      let (resume_clicked, ui1) = button fpu id_resume areas.resume ui in
      let (logout_clicked, ui2) = button fpu id_logout areas.logout ui1 in
      let (quit_clicked, ui3) = button fpu id_menu_quit areas.quit ui2 in
      (
        if resume_clicked
            then MenuAction.resume
            else (if logout_clicked
                then MenuAction.logout
                else (if quit_clicked then MenuAction.quit else MenuAction.none)),
        ui3,
      )
