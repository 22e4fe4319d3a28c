-- ===== src/World/Simulation.antt =====
-- server/worldserver/src/simulation.h and simulation.cpp. The clocks that the code reads are arguments:
-- `now` is `realSeconds()` and `seconds_today` the local time of day of `wallClockTimeOfDay`.
pub mod Entities
pub mod Inputs
pub mod Ranges
use untitled.Base.{ℕ, ◌+◌, ◌%◌, ◌^◌, Bool, true, false, not, ◌&&◌, List, [], ◌∷◌, length}
use untitled.Base.{ltb, ◌==◌, if◌then◌else◌, Option, none, some}
use untitled.Base.Maps.{Map, find, insert, put, erase}
use untitled.Sim.Float.{Fpu, lt, zero_f, one_f, half_f}
use untitled.Sim.Terrain.{height_at}
use untitled.Sim.Character.{
  Character, CharacterInput, no_input, no_character, rest_height, step_character,
}
use untitled.Net.Snapshot.{Vec3, Quat, EntityState, Snapshot}
use untitled.Net.Protocol.World.{EntityType, entity_code}

abbrev pub cube_entity_id : ℕ
cube_entity_id = 1

abbrev pub first_player_entity_id : ℕ
first_player_entity_id = 1000

-- 0.2, 0.6, 3 and 0.8; the cube is one metre wide.
abbrev pub spawn_clearance : ℕ
spawn_clearance = 0x3e4ccccd

abbrev pub spin_radians : ℕ
spin_radians = 0x3f19999a

abbrev pub strafe_amplitude : ℕ
strafe_amplitude = 0x40400000

abbrev pub strafe_radians : ℕ
strafe_radians = 0x3f4ccccd

-- 86400 as a float and as a double, and 0.5 as a double.
abbrev pub day_seconds : ℕ
day_seconds = 0x47a8c000

abbrev pub day_seconds_d : ℕ
day_seconds_d = 0x40f5180000000000

abbrev pub half_d : ℕ
half_d = 0x3fe0000000000000

pub record Body : Type 0 where
  pub entity_id : ℕ
  pub character : Character
  pub input : CharacterInput
  pub last_input_sequence : ℕ

pub record Simulation : Type 0 where
  pub players : Map Body
  pub next_entity_id : ℕ
  pub cube_position : Vec3
  pub cube_rotation : Quat
  pub cube_velocity : Vec3
  pub tick : ℕ
  pub elapsed : ℕ
  pub time_of_day : ℕ
  pub anchor_real : ℕ
  pub anchor_time : ℕ
  pub time_speed : ℕ

-- The members' initialisers; the time of day is 0.3.
abbrev pub new_simulation : Simulation
new_simulation = record {
  players = [];
  next_entity_id = first_player_entity_id;
  cube_position = record { x = 0; y = 0; z = 0 };
  cube_rotation = record { x = 0; y = 0; z = 0; w = one_f };
  cube_velocity = record { x = 0; y = 0; z = 0 };
  tick = 0;
  elapsed = 0;
  time_of_day = 0x3e99999a;
  anchor_real = 0;
  anchor_time = 0;
  time_speed = one_f;
}

unfoldable pub reanchor : ℕ → Simulation → Simulation
reanchor now s = record s { anchor_real = now; anchor_time = s.time_of_day }

unfoldable pub set_time_speed : ℕ → ℕ → Simulation → Simulation
unfolding reanchor
set_time_speed now speed s = record (reanchor now s) { time_speed = speed }

unfoldable pub shutdown : Simulation → Simulation
shutdown s = record s { players = [] }

unfoldable pub remove_player : ℕ → Simulation → Simulation
remove_player id s = record s { players = erase id s.players }

-- `setInput`, with what `find` says of the player.
unfoldable pub set_input_on : Option Body → ℕ → CharacterInput → Simulation → Simulation
set_input_on none id input s = s
set_input_on (some p) id input s =
    if not (input.sequence == 0) && ltb input.sequence p.input.sequence
    then s
    else record s { players = put id (record p { input = input }) s.players }

unfoldable pub set_input : ℕ → CharacterInput → Simulation → Simulation
unfolding set_input_on
set_input id input s = set_input_on (find id s.players) id input s

module _ (fpu : Fpu) where
  unfoldable pub set_time_of_day : ℕ → ℕ → Simulation → Simulation
  unfolding reanchor
  set_time_of_day now time s =
      reanchor now (record s { time_of_day = fpu.sub time (fpu.floor time) })

  unfoldable pub reset_clock : ℕ → ℕ → Simulation → Simulation
  unfolding reanchor
  reset_clock now seconds_today s = reanchor now (record s {
    time_speed = one_f;
    time_of_day = fpu.div (fpu.of_nat seconds_today) day_seconds;
  })

  unfoldable pub init : ℕ → ℕ → ℕ → Simulation → Simulation
  unfolding reset_clock
  init now seconds_today speed s =
      let s' =
        reset_clock now seconds_today
          (record s { time_speed = if lt zero_f speed then speed else one_f }) in
      let y = fpu.add (height_at fpu zero_f zero_f) (fpu.mul one_f half_f) in
      record s' { cube_position = record { x = zero_f; y = y; z = zero_f } }

  -- Where the player that comes after `count` others is put: 1.2, 3, 6 and 2 are the floats.
  unfoldable pub spawn : ℕ → Character
  spawn count =
      let angle = fpu.mul (fpu.of_nat count) 0x3f99999a in
      let x = fpu.mul (fpu.cos angle) 0x40400000 in
      let z = fpu.add 0x40c00000 (fpu.mul (fpu.sin angle) 0x40000000) in
      let y = fpu.add (fpu.add (height_at fpu x z) rest_height) spawn_clearance in
      record no_character { position = record { x = x; y = y; z = z } }

  -- `addPlayer`, with what `find` says of the id. The result is the entity.
  unfoldable pub add_player_on : Option Body → ℕ → Simulation → ℕ × Simulation
  unfolding spawn
  add_player_on (some p) id s = (p.entity_id, s)
  add_player_on none id s =
      let p : Body = record {
        entity_id = s.next_entity_id;
        character = spawn (length s.players);
        input = no_input;
        last_input_sequence = 0;
      } in
      (
        s.next_entity_id,
        record s {
          players = insert id p s.players;
          next_entity_id = (s.next_entity_id + 1) % 2 ^ 32;
        },
      )

  unfoldable pub add_player : ℕ → Simulation → ℕ × Simulation
  unfolding add_player_on
  add_player id s = add_player_on (find id s.players) id s

  -- The body of the loop of `step` over the players.
  unfoldable pub step_body : ℕ → Body → Body
  step_body delta p = record p {
    character = step_character fpu p.character p.input delta;
    last_input_sequence = p.input.sequence;
    input = record (p.input) { jump = false };
  }

  unfoldable pub step_bodies : ℕ → Map Body → Map Body
  unfolding step_body
  step_bodies delta [] = []
  step_bodies delta ((id, p) ∷ more) = (id, step_body delta p) ∷ step_bodies delta more

  unfoldable pub step_clock : ℕ → Simulation → Simulation
  step_clock now s =
      let passed = fpu.d_sub now s.anchor_real in
      let days = fpu.narrow (fpu.d_div (fpu.d_mul passed (fpu.widen s.time_speed)) day_seconds_d) in
      let time = fpu.add s.anchor_time days in
      record s { time_of_day = fpu.sub time (fpu.floor time) }

  unfoldable pub step_cube : Simulation → Simulation
  step_cube s =
      let phase = fpu.d_mul s.elapsed (fpu.widen strafe_radians) in
      let x = fpu.mul strafe_amplitude (fpu.narrow (fpu.d_sin phase)) in
      let y = fpu.add (height_at fpu x s.cube_position.z) (fpu.mul one_f half_f) in
      let reach = fpu.mul strafe_amplitude strafe_radians in
      let half_angle = fpu.d_mul (fpu.d_mul s.elapsed (fpu.widen spin_radians)) half_d in
      record s {
        cube_position = record (s.cube_position) { x = x; y = y };
        cube_velocity = record (s.cube_velocity) {
          x = fpu.mul reach (fpu.narrow (fpu.d_cos phase));
        };
        cube_rotation = record {
          x = zero_f;
          y = fpu.narrow (fpu.d_sin half_angle);
          z = zero_f;
          w = fpu.narrow (fpu.d_cos half_angle);
        };
      }

  unfoldable pub step : ℕ → ℕ → Simulation → Simulation
  unfolding step_clock step_bodies step_cube
  step now delta s =
      let ticked = step_clock now (record s {
        elapsed = fpu.d_add s.elapsed (fpu.widen delta);
        tick = (s.tick + 1) % 2 ^ 32;
      }) in
      step_cube (record ticked { players = step_bodies delta ticked.players })

  unfoldable pub cube_state : Simulation → EntityState
  cube_state s = record {
    id = cube_entity_id;
    type = entity_code EntityType.cube;
    position = s.cube_position;
    rotation = s.cube_rotation;
    velocity = s.cube_velocity;
    angular_velocity = record { x = zero_f; y = spin_radians; z = zero_f };
    last_input_sequence = 0;
  }

  unfoldable pub body_state : Body → EntityState
  body_state p =
      let c = p.character in
      record {
        id = p.entity_id;
        type = entity_code EntityType.player;
        position = record { x = c.position.x; y = c.position.y; z = c.position.z };
        rotation = record {
          x = zero_f;
          y = fpu.sin (fpu.mul (fpu.neg c.facing_yaw) half_f);
          z = zero_f;
          w = fpu.cos (fpu.mul c.facing_yaw half_f);
        };
        velocity = record { x = c.velocity.x; y = c.velocity.y; z = c.velocity.z };
        angular_velocity = record { x = 0; y = 0; z = 0 };
        last_input_sequence = p.last_input_sequence;
      }

  unfoldable pub body_states : Map Body → List EntityState
  unfolding body_state
  body_states [] = []
  body_states ((id, p) ∷ more) = body_state p ∷ body_states more

  -- `out` is the snapshot that the caller made; its time is left to the caller.
  unfoldable pub build_snapshot : Simulation → Snapshot → Snapshot
  unfolding cube_state body_states
  build_snapshot s out = record out {
    tick = s.tick;
    time_of_day = s.time_of_day;
    entities = cube_state s ∷ body_states s.players;
  }
