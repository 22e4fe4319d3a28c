-- ===== src/Client/Application/Tests.antt =====
-- Tests of client/src/application.cpp and its screens, on floats that are whole numbers.
use untitled.Base.{◌+◌, ◌%◌, ◌≡◌, refl, arith, true, false, [], ◌∷◌, none, some}
use untitled.Sim.Character.{no_character}
use untitled.Sim.Float.{le, lt}
use untitled.Sim.Tests.{whole}
use untitled.Client.Prediction.{Prediction}
use untitled.Client.NetClient.{NetClient, Net, Intent, Phase}
use untitled.Client.Ui.{Ui, InputState, button, text_field, set_focus, begin}
use untitled.Client.Ui.Tabs.{field, tab_frames, tab_frames-field}
use untitled.Client.Screens.{AppState, Renderer, new_login, LoginScreen, draw_login}
use untitled.Client.Screens.Typed.{IsForm}
use untitled.Client.Application
use untitled.Client.Application.{Application, Settings, Frame}
use untitled.Client.Application.States.{IsMatched}
use untitled.Client.Application.States.Frames.{run-IsMatched}
use untitled.Client.Application.Forms.{run-IsForm}

abbrev client : NetClient
client = record {
  phase = Phase.idle;
  error = none;
  auth = none;
  world = none;
  udp_valid = false;
  udp_target = 0;
  username = [];
  password = [];
  token = [];
  world_host = [];
  world_port = 0;
  player_id = 0;
  own_entity_id = 0;
  delayed_outgoing = [];
  delayed_incoming = [];
  fake_latency = 0;
  last_poll_time = 0;
  entities = [];
  time_of_day = 0;
  last_snapshot_at = 0;
  last_hello_at = 0;
  last_snapshot_sequence = 0;
  snapshots_received = 0;
}

abbrev prediction : Prediction
prediction = record {
  character = no_character;
  active = false;
  pending = [];
  next_sequence = 1;
  smoothing_offset = record { x = 0; y = 0; z = 0 };
  rollbacks = 0;
  last_correction = 0;
}

-- Enter, behind the letter a.
abbrev keys : InputState
keys = record {
  mouse_x = 0;
  mouse_y = 0;
  mouse_down = false;
  mouse_pressed = false;
  mouse_released = false;
  characters = 97 ∷ [];
  backspace = false;
  tab = false;
  enter = true;
  escape = false;
}

abbrev tabbed : InputState
tabbed = record keys { characters = []; enter = false; tab = true }

abbrev ui : Ui
ui = record { input = keys; focused = 2; active = 0; text_fields = []; tab_pending = false }

-- The password is there, and the name is being typed.
abbrev form : LoginScreen
form = record new_login { password = 98 ∷ 98 ∷ [] }

abbrev application : Application
application = record {
  state = AppState.login;
  username = [];
  login_screen = form;
  net = client;
  prediction = prediction;
  loaded = false;
  elapsed_seconds = 0;
  connecting_since = 0;
  last_reconciled_snapshot = 0;
  widgets = ui;
  input = keys;
  should_close = false;
}

abbrev net : Net
net = record {
  resolve = λ host port. some port;
  connects = true;
  writable = true;
  connect_result = true;
  opens_udp = true;
  received = [];
  sent = [];
  sent_again = [];
  datagrams = [];
}

abbrev settings : Settings
settings = record { auth_host = []; auth_port = 7001 }

abbrev renderer : Renderer
renderer = record { width = 640; height = 480; text_height = λ size. size }

abbrev intent : Intent
intent = record {
  move_forward = 0;
  move_right = 0;
  yaw = 0;
  jump = false;
  sprint = false;
  sequence = 0;
}

abbrev frame : Frame
frame = record {
  polled = net;
  asked = net;
  lost = false ∷ [];
  intent = intent;
  delta = 1;
  narrow_delta = 1;
  input = keys;
}

-- Enter in the first field starts a login, and the next frame has polled it.
starts :
    (Application.run whole renderer settings (frame ∷ []) application).state ≡ AppState.connecting
unfolding Application.run Application.draw_ui Application.update draw_login button le text_field
    set_focus begin lt
starts = refl

run-IsMatched_example :
    IsMatched (Application.run whole renderer settings (frame ∷ frame ∷ []) application)
run-IsMatched_example =
    run-IsMatched whole renderer settings (frame ∷ frame ∷ []) application (tt, refl)

run-IsForm_example :
    IsForm (Application.run whole renderer settings (frame ∷ frame ∷ []) application).login_screen
run-IsForm_example = run-IsForm whole renderer settings (frame ∷ frame ∷ []) application (record {
  username = record { short = omega arith; printable = tt };
  password = record {
    short = omega arith;
    printable = ((omega arith, omega arith), ((omega arith, omega arith), tt));
  };
})

-- From the second of the three fields, twice Tab leads to the first.
tab_frames-field_example :
    (tab_frames 2 (1 ∷ 2 ∷ 3 ∷ []) tabbed ui).focused ≡ field (1 ∷ 2 ∷ 3 ∷ []) ((1 + 2) % 3)
tab_frames-field_example =
    tab_frames-field (1 ∷ 2 ∷ 3 ∷ []) 2 1 tabbed ui refl refl
      ((omega arith, (omega arith, tt)), ((omega arith, tt), (tt, tt))) (omega arith) refl
