-- ===== src/Client/Application/States/Frames.antt =====
-- The frames of the client and its states (client/src/application.cpp).
use untitled.Base.{ℕ, ◌≡◌, refl, sym, ◌∙◌, subst, Bool, true, false, not, ◌||◌}
use untitled.Base.{List, [], ◌∷◌, length, ◌==◌, if◌then◌else◌, Option, none, some}
use untitled.Base.Maps.{Map}
use untitled.Net.Snapshot.{EntityState}
use untitled.Sim.Float.{Fpu}
use untitled.Client.Prediction
use untitled.Client.Prediction.{Prediction}
use untitled.Client.NetClient
use untitled.Client.NetClient.{NetClient, Net, Phase, Intent, Replicated, fail, disconnect}
use untitled.Client.NetClient.Machine
use untitled.Client.NetClient.Phases.{poll-Edge}
use untitled.Client.Ui.{begin}
use untitled.Client.Screens.{AppState, LoginAction, MenuAction, Renderer, draw_login, draw_menu}
use untitled.Client.Application.{
  Application, Settings, Frame, enter_state, unload_world, begin_login, logout, follow, tick_on,
  ticks, replicate, replicate_all, apply_replication, update, login_acted, login_drawn, menu_acted,
  menu_drawn, screen_drawn, draw_ui, run,
}
use untitled.Client.Application.States.{Matches, IsMatched, IsWaiting, follow-IsMatched}

-- What the states speak of is the same.
pub record AreAlike (a a' : Application) : Type 0 where
  pub state : a'.state ≡ a.state
  pub phase : a'.net.phase ≡ a.net.phase
  pub loaded : a'.loaded ≡ a.loaded
  pub form : a'.login_screen ≡ a.login_screen

AreAlike-refl : (a : Application) → AreAlike a a
AreAlike-refl a = record { state = refl; phase = refl; loaded = refl; form = refl }

AreAlike-trans : (a b c : Application) → AreAlike a b → AreAlike b c → AreAlike a c
AreAlike-trans a b c h k = record {
  state = k.state ∙ h.state;
  phase = k.phase ∙ h.phase;
  loaded = k.loaded ∙ h.loaded;
  form = k.form ∙ h.form;
}

AreAlike-if :
    (a x y : Application) (c : Bool) → AreAlike a x → AreAlike a y → AreAlike a (if c then x else y)
AreAlike-if a x y true h k = h
AreAlike-if a x y false h k = k

alike-IsMatched : (a a' : Application) → AreAlike a a' → IsMatched a → IsMatched a'
alike-IsMatched a a' h m =
    subst (λ (s : AppState). Matches s a'.net.phase a'.loaded) (sym h.state)
      (subst (λ (p : Phase). Matches a.state p a'.loaded) (sym h.phase)
        (subst (λ (l : Bool). Matches a.state a.net.phase l) (sym h.loaded) m))

predicted-AreAlike : (a : Application) (p : Prediction) → AreAlike a (record a { prediction = p })
predicted-AreAlike a p = record { state = refl; phase = refl; loaded = refl; form = refl }

reconciled-AreAlike :
    (a : Application) (n : ℕ) (p : Prediction)
    → AreAlike a (record a { last_reconciled_snapshot = n; prediction = p })
reconciled-AreAlike a n p = record { state = refl; phase = refl; loaded = refl; form = refl }

-- What `login` starts is under way, or has failed.
IsWaiting-if :
    (c : Bool) (x y : NetClient)
    → IsWaiting x.phase
    → IsWaiting y.phase
    → IsWaiting (if c then x else y).phase
IsWaiting-if true x y h k = h
IsWaiting-if false x y h k = k

start_on-IsWaiting :
    (net : Net) (address : Option ℕ) (c : NetClient)
    → IsWaiting (Machine.start_on net address c).phase
unfolding Machine.start_on fail
start_on-IsWaiting net none c = tt
start_on-IsWaiting net (some address) c = IsWaiting-if (not net.connects) _ _ tt tt

IsMatched-if :
    (x y : Application) (c : Bool) → IsMatched x → IsMatched y → IsMatched (if c then x else y)
IsMatched-if x y true h k = h
IsMatched-if x y false h k = k

begin_login-IsMatched :
    (settings : Settings) (net : Net) (a : Application)
    → IsMatched a
    → a.loaded ≡ false
    → IsMatched (begin_login settings net a)
unfolding begin_login enter_state Machine.login
begin_login-IsMatched settings net a m l =
    IsMatched-if _ _ (length a.login_screen.username == 0 || length a.login_screen.password == 0) m
      (start_on-IsWaiting net _ _, l)

-- A matched client in a known state.
at :
    (a : Application) (state : AppState)
    → a.state ≡ state
    → IsMatched a
    → Matches state a.net.phase a.loaded
at a state h m = subst (λ (s : AppState). Matches s a.net.phase a.loaded) h m

module _ (fpu : Fpu) where
  phase-if :
      (p : Phase) (x y : NetClient × List (List ℕ)) (c : Bool)
      → x.0.phase ≡ p
      → y.0.phase ≡ p
      → (if c then x else y).0.phase ≡ p
  phase-if p x y true h k = h
  phase-if p x y false h k = k

  send_input-phase :
      (lost : Bool) (i : Intent) (c : NetClient)
      → (NetClient.send_input fpu lost i c).0.phase ≡ c.phase
  unfolding NetClient.send_input
  send_input-phase lost i c = search (phase-if)

  tick_on-AreAlike :
      (lost : Bool) (i : Intent) (state : AppState) (a : Application)
      → AreAlike a (tick_on fpu lost i state a)
  unfolding tick_on
  tick_on-AreAlike lost i AppState.in_game a = record {
    state = refl;
    phase = send_input-phase lost _ a.net;
    loaded = refl;
    form = refl;
  }
  tick_on-AreAlike lost i AppState.login a = AreAlike-refl a
  tick_on-AreAlike lost i AppState.connecting a = AreAlike-refl a
  tick_on-AreAlike lost i AppState.menu a = AreAlike-refl a

  pub ticks-AreAlike :
      (lost : List Bool) (i : Intent) (a : Application) → AreAlike a (ticks fpu lost i a)
  unfolding ticks
  ticks-AreAlike [] i a = AreAlike-refl a
  ticks-AreAlike (l ∷ lost) i a =
      let a' = tick_on fpu l i a.state a in
      AreAlike-trans a a' (ticks fpu lost i a') (tick_on-AreAlike l i a.state a)
        (ticks-AreAlike lost i a')

  replicate-AreAlike : (e : EntityState) (a : Application) → AreAlike a (replicate fpu e a)
  unfolding replicate
  replicate-AreAlike e a =
      search (AreAlike-if, AreAlike-refl, predicted-AreAlike, reconciled-AreAlike)

  replicate_all-AreAlike :
      (d : Map Replicated) (a : Application) → AreAlike a (replicate_all fpu d a)
  unfolding replicate_all
  replicate_all-AreAlike [] a = AreAlike-refl a
  replicate_all-AreAlike ((id, r) ∷ more) a =
      let a' = replicate fpu r.state a in
      AreAlike-trans a a' (replicate_all fpu more a') (replicate-AreAlike r.state a)
        (replicate_all-AreAlike more a')

  pub apply_replication-AreAlike : (a : Application) → AreAlike a (apply_replication fpu a)
  unfolding apply_replication
  apply_replication-AreAlike a =
      AreAlike-if a a (replicate_all fpu a.net.entities a) (not a.loaded) (AreAlike-refl a)
        (replicate_all-AreAlike a.net.entities a)

  update-IsMatched :
      (net : Net) (lost : List Bool) (i : Intent) (delta narrow : ℕ) (a : Application)
      → IsMatched a
      → IsMatched (update fpu net lost i delta narrow a)
  unfolding update
  update-IsMatched net lost i delta narrow a m =
      let now = fpu.d_add a.elapsed_seconds delta in
      let polled = record a { elapsed_seconds = now; net = (Machine.poll fpu net now a.net).0 } in
      let followed = follow a.state polled in
      let ticked = ticks fpu lost i followed in
      let smoothed = record ticked {
        prediction = Prediction.update_smoothing fpu narrow ticked.prediction;
      } in
      let here : IsMatched followed =
        follow-IsMatched a.state a.net.phase polled refl m (poll-Edge fpu net now a.net) in
      alike-IsMatched smoothed (apply_replication fpu smoothed)
        (apply_replication-AreAlike smoothed)
        (alike-IsMatched followed ticked (ticks-AreAlike lost i followed) here)

  module _ (renderer : Renderer) (settings : Settings) where
    logout-IsMatched : (net : Net) (a : Application) → IsMatched (logout net a)
    unfolding logout enter_state unload_world NetClient.logout disconnect
    logout-IsMatched net a = (tt, refl)

    login_acted-IsMatched :
        (net : Net) (action : LoginAction) (a : Application)
        → IsMatched a
        → a.loaded ≡ false
        → IsMatched (login_acted fpu renderer settings net action a)
    unfolding login_acted
    login_acted-IsMatched net LoginAction.submit a m l = begin_login-IsMatched settings net a m l
    login_acted-IsMatched net LoginAction.quit a m l = m
    login_acted-IsMatched net LoginAction.none a m l = m

    menu_acted-IsMatched :
        (net : Net) (escape : Bool) (action : MenuAction) (a : Application)
        → IsMatched a
        → a.state ≡ AppState.menu
        → IsMatched (menu_acted fpu renderer settings net escape action a)
    unfolding menu_acted enter_state
    menu_acted-IsMatched net escape MenuAction.resume a m h = at a AppState.menu h m
    menu_acted-IsMatched net true MenuAction.logout a m h = at a AppState.menu h m
    menu_acted-IsMatched net true MenuAction.quit a m h = at a AppState.menu h m
    menu_acted-IsMatched net true MenuAction.none a m h = at a AppState.menu h m
    menu_acted-IsMatched net false MenuAction.logout a m h = logout-IsMatched net a
    menu_acted-IsMatched net false MenuAction.quit a m h = m
    menu_acted-IsMatched net false MenuAction.none a m h = m

    login_drawn-IsMatched :
        (net : Net) (state : AppState) (a : Application)
        → IsMatched a
        → a.loaded ≡ false
        → IsMatched (login_drawn fpu renderer settings net state a)
    unfolding login_drawn
    login_drawn-IsMatched net state a m l =
        let ((action, form), ui) = draw_login fpu renderer state a.login_screen a.widgets in
        login_acted-IsMatched net action (record a { login_screen = form; widgets = ui }) m l

    screen_drawn-IsMatched :
        (net : Net) (state : AppState) (a : Application)
        → IsMatched a
        → a.state ≡ state
        → IsMatched (screen_drawn fpu renderer settings net state a)
    unfolding screen_drawn menu_drawn enter_state
    screen_drawn-IsMatched net AppState.login a m h =
        login_drawn-IsMatched net AppState.login a m (at a AppState.login h m).1
    screen_drawn-IsMatched net AppState.connecting a m h =
        login_drawn-IsMatched net AppState.connecting a m (at a AppState.connecting h m).1
    screen_drawn-IsMatched net AppState.in_game a m h =
        IsMatched-if _ _ a.input.escape (at a AppState.in_game h m) m
    screen_drawn-IsMatched net AppState.menu a m h =
        let (action, ui) = draw_menu fpu renderer a.widgets in
        menu_acted-IsMatched net a.input.escape action (record a { widgets = ui }) m h

    draw_ui-IsMatched :
        (net : Net) (a : Application)
        → IsMatched a
        → IsMatched (draw_ui fpu renderer settings net a)
    unfolding draw_ui
    draw_ui-IsMatched net a m =
        screen_drawn-IsMatched net a.state (record a { widgets = begin a.input a.widgets }) m refl

-- From a client in which they match, after any frames, whatever the sockets and the user do: in
-- the login form nothing is under way, while connecting the login is under way or has failed, and
-- in the game and its menu the connection is in the world; the world is loaded in the game and its
-- menu alone.
pub run-IsMatched :
    (fpu : Fpu) (renderer : Renderer) (settings : Settings) (frames : List Frame) (a : Application)
    → IsMatched a
    → IsMatched (run fpu renderer settings frames a)
unfolding run
run-IsMatched fpu renderer settings [] a m = m
run-IsMatched fpu renderer settings (f ∷ more) a m =
    let begun = record a { input = f.input } in
    let a' = update fpu f.polled f.lost f.intent f.delta f.narrow_delta begun in
    run-IsMatched fpu renderer settings more (draw_ui fpu renderer settings f.asked a') (
      draw_ui-IsMatched fpu renderer settings f.asked a'
        (update-IsMatched fpu f.polled f.lost f.intent f.delta f.narrow_delta begun m))
