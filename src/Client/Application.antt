-- ===== src/Client/Application.antt =====
-- client/src/application.h and application.cpp: the states of the client, over the network client, the
-- prediction and the screens. What is drawn, the camera and the pacing of the loop are left out; the
-- callbacks of GLFW have filled `input` when a frame begins.
pub mod States
mod Tests
pub mod Forms
use untitled.Base.{
  ℕ, ◌+◌, ◌≡◌, Bool, true, false, not, ◌||◌, List, [], ◌∷◌, length, Option, none, some,
}
use untitled.Base.{◌==◌, if◌then◌else◌}
use untitled.Base.Maps.{Map}
use untitled.Net.Protocol.World.{EntityType, entity_code}
use untitled.Net.Snapshot.{EntityState}
use untitled.Sim.Float.{Fpu}
use untitled.Sim.Character.{CharacterInput}
use untitled.Client.Prediction
use untitled.Client.Prediction.{Prediction}
use untitled.Client.NetClient
use untitled.Client.NetClient.{NetClient, Net, Phase, Intent, Replicated}
use untitled.Client.NetClient.Machine
use untitled.Client.Ui
use untitled.Client.Ui.{Ui, InputState, begin, finish, end_frame}
use untitled.Client.Screens.{
  AppState, Status, LoginScreen, LoginAction, MenuAction, Renderer, draw_login, draw_menu,
  set_status, clear_password, reset_focus,
}

pub record Application : Type 0 where
  pub state : AppState
  pub username : List ℕ
  pub login_screen : LoginScreen
  pub net : NetClient
  pub prediction : Prediction
  -- `mDemoScene.loaded()`
  pub loaded : Bool
  pub elapsed_seconds : ℕ
  pub connecting_since : ℕ
  pub last_reconciled_snapshot : ℕ
  pub widgets : Ui
  pub input : InputState
  pub should_close : Bool

-- `authHost` and `authPort`.
pub record Settings : Type 0 where
  pub auth_host : List ℕ
  pub auth_port : ℕ

unfoldable pub enter_state : AppState → Application → Application
enter_state state a = record a { state = state }

unfoldable pub load_world : Application → Application
load_world a = record a { loaded = true }

unfoldable pub unload_world : Application → Application
unload_world a = record a { prediction = Prediction.shutdown a.prediction; loaded = false }

unfoldable pub begin_login : Settings → Net → Application → Application
unfolding enter_state
begin_login settings net a =
    let form = a.login_screen in
    if length form.username == 0 || length form.password == 0
    then record a { login_screen = set_status Status.required true form }
    else enter_state AppState.connecting (record a {
      login_screen = set_status Status.connecting_now false form;
      connecting_since = a.elapsed_seconds;
      net =
          Machine.login net settings.auth_host settings.auth_port form.username form.password a.net;
    })

unfoldable pub logout : Net → Application → Application
unfolding enter_state unload_world
logout net a =
    let left = unload_world (record a { net = (NetClient.logout net a.net).0 }) in
    enter_state AppState.login (record left {
      username = [];
      login_screen =
          set_status Status.logged_out false (reset_focus (clear_password a.login_screen));
    })

-- `update` behind the poll, where a login is under way.
unfoldable pub connected : Phase → Application → Application
unfolding enter_state load_world
connected Phase.in_world a = enter_state AppState.in_game (
    load_world (record a {
      username = a.net.username;
      login_screen = set_status Status.empty false a.login_screen;
    }))
connected Phase.failed a = enter_state AppState.login (record a {
  login_screen = clear_password (set_status (Status.failure a.net.error) true a.login_screen);
})
connected _ a = a

-- The same in the world.
unfoldable pub dropped : Phase → Application → Application
unfolding enter_state unload_world
dropped Phase.failed a = enter_state AppState.login (record (unload_world a) {
  username = [];
  login_screen = set_status (Status.failure a.net.error) true (clear_password a.login_screen);
})
dropped _ a = a

unfoldable pub follow : AppState → Application → Application
unfolding connected dropped
follow AppState.login a = a
follow AppState.connecting a = connected a.net.phase a
follow AppState.in_game a = dropped a.net.phase a
follow AppState.menu a = dropped a.net.phase a

module _ (fpu : Fpu) where
  -- One pass of the loop over the ticks that are due.
  unfoldable pub tick_on : Bool → Intent → AppState → Application → Application
  tick_on lost i AppState.in_game a =
      let (input, prediction) =
        Prediction.step fpu i.move_forward i.move_right i.yaw i.jump i.sprint a.prediction in
      let sent : Intent = record {
        move_forward = input.move_forward;
        move_right = input.move_right;
        yaw = input.yaw;
        jump = input.jump;
        sprint = input.sprint;
        sequence = input.sequence;
      } in
      record a { prediction = prediction; net = (NetClient.send_input fpu lost sent a.net).0 }
  tick_on lost i _ a = a

  unfoldable pub ticks : List Bool → Intent → Application → Application
  unfolding tick_on
  ticks [] i a = a
  ticks (lost ∷ more) i a = ticks more i (tick_on lost i a.state a)

  -- What `applyReplication` does with the prediction for one entity.
  unfoldable pub replicate : EntityState → Application → Application
  replicate e a =
      if not (e.type == entity_code EntityType.player) || not (e.id == a.net.own_entity_id)
      then a
      else (if not a.prediction.active
          then record a {
            prediction =
                Prediction.init (record { x = e.position.x; y = e.position.y; z = e.position.z })
                  a.prediction;
          }
          else (if a.net.snapshots_received == a.last_reconciled_snapshot then a else record a {
            last_reconciled_snapshot = a.net.snapshots_received;
            prediction = Prediction.reconcile fpu e a.prediction;
          }))

  unfoldable pub replicate_all : Map Replicated → Application → Application
  unfolding replicate
  replicate_all [] a = a
  replicate_all ((id, r) ∷ more) a = replicate_all more (replicate r.state a)

  -- `applyReplication`
  unfoldable pub apply_replication : Application → Application
  unfolding replicate_all
  apply_replication a = if not a.loaded then a else replicate_all a.net.entities a

  -- `update`: `lost` has an entry for each tick that is due, and says whether its input is lost.
  unfoldable pub update :
      Net → List Bool → Intent → (delta narrow_delta : ℕ) → Application → Application
  unfolding follow ticks apply_replication
  update net lost intent delta narrow_delta a =
      let elapsed = fpu.d_add a.elapsed_seconds delta in
      let polled = record a {
        elapsed_seconds = elapsed;
        net = (Machine.poll fpu net elapsed a.net).0;
      } in
      let ticked = ticks lost intent (follow a.state polled) in
      apply_replication (record ticked {
        prediction = Prediction.update_smoothing fpu narrow_delta ticked.prediction;
      })

  module _ (renderer : Renderer) (settings : Settings) where
    unfoldable pub login_acted : Net → LoginAction → Application → Application
    unfolding begin_login
    login_acted net LoginAction.submit a = begin_login settings net a
    login_acted net LoginAction.quit a = record a { should_close = true }
    login_acted net LoginAction.none a = a

    unfoldable pub login_drawn : Net → AppState → Application → Application
    unfolding login_acted
    login_drawn net state a =
        let ((action, form), ui) = draw_login fpu renderer state a.login_screen a.widgets in
        login_acted net action (record a { login_screen = form; widgets = ui })

    unfoldable pub menu_acted : Net → Bool → MenuAction → Application → Application
    unfolding enter_state logout
    menu_acted net escape MenuAction.resume a = enter_state AppState.in_game a
    menu_acted net true _ a = enter_state AppState.in_game a
    menu_acted net false MenuAction.logout a = logout net a
    menu_acted net false MenuAction.quit a = record a { should_close = true }
    menu_acted net false MenuAction.none a = a

    unfoldable pub menu_drawn : Net → Application → Application
    unfolding menu_acted
    menu_drawn net a =
        let (action, ui) = draw_menu fpu renderer a.widgets in
        menu_acted net a.input.escape action (record a { widgets = ui })

    unfoldable pub screen_drawn : Net → AppState → Application → Application
    unfolding login_drawn menu_drawn enter_state
    screen_drawn net AppState.login a = login_drawn net AppState.login a
    screen_drawn net AppState.connecting a = login_drawn net AppState.connecting a
    screen_drawn net AppState.in_game a = if a.input.escape then enter_state AppState.menu a else a
    screen_drawn net AppState.menu a = menu_drawn net a

    -- `drawUi`
    unfoldable pub draw_ui : Net → Application → Application
    unfolding screen_drawn
    draw_ui net a =
        let drawn = screen_drawn net a.state (record a { widgets = begin a.input a.widgets }) in
        record drawn { widgets = finish drawn.widgets; input = end_frame drawn.input }

-- What one frame is given: the sockets behind its poll and behind its widgets, the losses of the
-- inputs, the intent, the time that has passed, and the input.
pub record Frame : Type 0 where
  pub polled : Net
  pub asked : Net
  pub lost : List Bool
  pub intent : Intent
  pub delta : ℕ
  pub narrow_delta : ℕ
  pub input : InputState

-- The loop of `Application::run`.
unfoldable pub run : Fpu → Renderer → Settings → List Frame → Application → Application
run fpu renderer settings [] a = a
run fpu renderer settings (f ∷ more) a =
    let a' =
      update fpu f.polled f.lost f.intent f.delta f.narrow_delta (record a { input = f.input }) in
    run fpu renderer settings more (draw_ui fpu renderer settings f.asked a')
