-- ===== src/Client/Application/Forms.antt =====
-- What the login form holds over the frames of the client (client/src/application.cpp).
use untitled.Base.{ℕ, arith, Bool, true, false, ◌||◌, List, [], ◌∷◌, length, ◌==◌, subst, sym}
use untitled.Base.{if◌then◌else◌}
use untitled.Sim.Float.{Fpu}
use untitled.Client.Prediction
use untitled.Client.NetClient.{Net, Phase, Intent}
use untitled.Client.NetClient.Machine
use untitled.Client.Ui.{begin}
use untitled.Client.Screens.{
  AppState, LoginScreen, LoginAction, MenuAction, Renderer, draw_login, draw_menu, set_status,
  clear_password, reset_focus, max_length,
}
use untitled.Client.Screens.Typed.{IsText, IsForm, draw_login-IsForm}
use untitled.Client.Application.{
  Application, Settings, Frame, enter_state, load_world, unload_world, begin_login, logout,
  connected, dropped, follow, ticks, apply_replication, update, login_acted, login_drawn,
  menu_acted, menu_drawn, screen_drawn, draw_ui, run,
}
use untitled.Client.Application.States.Frames.{AreAlike, ticks-AreAlike, apply_replication-AreAlike}

nothing : IsText max_length []
nothing = record { short = omega arith; printable = tt }

cleared-IsForm : (s : LoginScreen) → IsForm s → IsForm (clear_password s)
unfolding clear_password
cleared-IsForm s f = record { username = f.username; password = nothing }

connected-IsForm :
    (p : Phase) (a : Application) → IsForm a.login_screen → IsForm (connected p a).login_screen
unfolding connected enter_state load_world clear_password set_status
connected-IsForm Phase.in_world a f = record { username = f.username; password = f.password }
connected-IsForm Phase.failed a f = record { username = f.username; password = nothing }
connected-IsForm Phase.idle a f = f
connected-IsForm Phase.connecting_auth a f = f
connected-IsForm Phase.awaiting_login a f = f
connected-IsForm Phase.connecting_world a f = f
connected-IsForm Phase.awaiting_join a f = f

dropped-IsForm :
    (p : Phase) (a : Application) → IsForm a.login_screen → IsForm (dropped p a).login_screen
unfolding dropped enter_state unload_world clear_password set_status
dropped-IsForm Phase.failed a f = record { username = f.username; password = nothing }
dropped-IsForm Phase.in_world a f = f
dropped-IsForm Phase.idle a f = f
dropped-IsForm Phase.connecting_auth a f = f
dropped-IsForm Phase.awaiting_login a f = f
dropped-IsForm Phase.connecting_world a f = f
dropped-IsForm Phase.awaiting_join a f = f

follow-IsForm :
    (state : AppState) (a : Application)
    → IsForm a.login_screen
    → IsForm (follow state a).login_screen
unfolding follow
follow-IsForm AppState.login a f = f
follow-IsForm AppState.connecting a f = connected-IsForm a.net.phase a f
follow-IsForm AppState.in_game a f = dropped-IsForm a.net.phase a f
follow-IsForm AppState.menu a f = dropped-IsForm a.net.phase a f

alike-IsForm : (a a' : Application) → AreAlike a a' → IsForm a.login_screen → IsForm a'.login_screen
alike-IsForm a a' h f = subst IsForm (sym h.form) f

IsForm-if :
    (x y : Application) (c : Bool)
    → IsForm x.login_screen
    → IsForm y.login_screen
    → IsForm (if c then x else y).login_screen
IsForm-if x y true h k = h
IsForm-if x y false h k = k

begin_login-IsForm :
    (settings : Settings) (net : Net) (a : Application)
    → IsForm a.login_screen
    → IsForm (begin_login settings net a).login_screen
unfolding begin_login enter_state set_status
begin_login-IsForm settings net a f =
    IsForm-if _ _ (length a.login_screen.username == 0 || length a.login_screen.password == 0)
      (record { username = f.username; password = f.password })
      (record { username = f.username; password = f.password })

module _ (fpu : Fpu) where
  update-IsForm :
      (net : Net) (lost : List Bool) (i : Intent) (delta narrow : ℕ) (a : Application)
      → IsForm a.login_screen
      → IsForm (update fpu net lost i delta narrow a).login_screen
  unfolding update
  update-IsForm net lost i delta narrow a f =
      let now = fpu.d_add a.elapsed_seconds delta in
      let polled = record a { elapsed_seconds = now; net = (Machine.poll fpu net now a.net).0 } in
      let followed = follow a.state polled in
      let ticked = ticks fpu lost i followed in
      let smoothed = record ticked {
        prediction = Prediction.update_smoothing fpu narrow ticked.prediction;
      } in
      alike-IsForm smoothed (apply_replication fpu smoothed)
        (apply_replication-AreAlike fpu smoothed)
        (alike-IsForm followed ticked (ticks-AreAlike fpu lost i followed)
          (follow-IsForm a.state polled f))

  module _ (renderer : Renderer) (settings : Settings) where
    login_acted-IsForm :
        (net : Net) (action : LoginAction) (a : Application)
        → IsForm a.login_screen
        → IsForm (login_acted fpu renderer settings net action a).login_screen
    unfolding login_acted
    login_acted-IsForm net LoginAction.submit a f = begin_login-IsForm settings net a f
    login_acted-IsForm net LoginAction.quit a f = f
    login_acted-IsForm net LoginAction.none a f = f

    menu_acted-IsForm :
        (net : Net) (escape : Bool) (action : MenuAction) (a : Application)
        → IsForm a.login_screen
        → IsForm (menu_acted fpu renderer settings net escape action a).login_screen
    unfolding menu_acted enter_state logout unload_world clear_password reset_focus set_status
    menu_acted-IsForm net escape MenuAction.resume a f = f
    menu_acted-IsForm net true MenuAction.logout a f = f
    menu_acted-IsForm net true MenuAction.quit a f = f
    menu_acted-IsForm net true MenuAction.none a f = f
    menu_acted-IsForm net false MenuAction.logout a f = record {
      username = f.username;
      password = nothing;
    }
    menu_acted-IsForm net false MenuAction.quit a f = f
    menu_acted-IsForm net false MenuAction.none a f = f

    login_drawn-IsForm :
        (net : Net) (state : AppState) (a : Application)
        → IsForm a.login_screen
        → IsForm (login_drawn fpu renderer settings net state a).login_screen
    unfolding login_drawn
    login_drawn-IsForm net state a f =
        let ((action, form), ui) = draw_login fpu renderer state a.login_screen a.widgets in
        login_acted-IsForm net action (record a { login_screen = form; widgets = ui })
          (draw_login-IsForm fpu renderer state a.login_screen a.widgets f)

    screen_drawn-IsForm :
        (net : Net) (state : AppState) (a : Application)
        → IsForm a.login_screen
        → IsForm (screen_drawn fpu renderer settings net state a).login_screen
    unfolding screen_drawn menu_drawn enter_state
    screen_drawn-IsForm net AppState.login a f = login_drawn-IsForm net AppState.login a f
    screen_drawn-IsForm net AppState.connecting a f = login_drawn-IsForm net AppState.connecting a f
    screen_drawn-IsForm net AppState.in_game a f = IsForm-if _ _ a.input.escape f f
    screen_drawn-IsForm net AppState.menu a f =
        let (action, ui) = draw_menu fpu renderer a.widgets in
        menu_acted-IsForm net a.input.escape action (record a { widgets = ui }) f

-- From a login form of two strings of printable ASCII with 32 bytes at most, after any frames,
-- whatever is typed and pressed, the form holds two such strings.
pub run-IsForm :
    (fpu : Fpu) (renderer : Renderer) (settings : Settings) (frames : List Frame) (a : Application)
    → IsForm a.login_screen
    → IsForm (run fpu renderer settings frames a).login_screen
unfolding run draw_ui
run-IsForm fpu renderer settings [] a f = f
run-IsForm fpu renderer settings (e ∷ more) a f =
    let begun = record a { input = e.input } in
    let a' = update fpu e.polled e.lost e.intent e.delta e.narrow_delta begun in
    run-IsForm fpu renderer settings more (draw_ui fpu renderer settings e.asked a') (
      screen_drawn-IsForm fpu renderer settings e.asked a'.state
        (record a' { widgets = begin a'.input a'.widgets })
        (update-IsForm fpu e.polled e.lost e.intent e.delta e.narrow_delta begun f))
