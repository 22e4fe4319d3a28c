-- ===== src/Sim/Character.antt =====
-- common/gamesim/include/gamesim/character.h and common/gamesim/src/character.cpp: one tick of a
-- character, part by part in the order of the code.
pub mod Rules
pub mod Ranges
use untitled.Base.{ℕ, Bool, true, false, not, ◌&&◌, if◌then◌else◌}
use untitled.Sim.Float.{Fpu, lt, le, zero_f, one_f}
use untitled.Sim.Terrain.{height_at}

pub record Vec3 : Type 0 where
  pub x : ℕ
  pub y : ℕ
  pub z : ℕ

pub record CharacterInput : Type 0 where
  pub sequence : ℕ
  pub move_forward : ℕ
  pub move_right : ℕ
  pub yaw : ℕ
  pub jump : Bool
  pub sprint : Bool

pub record Character : Type 0 where
  pub position : Vec3
  pub velocity : Vec3
  pub grounded : Bool
  pub facing_yaw : ℕ

abbrev pub no_input : CharacterInput
no_input = record {
  sequence = 0;
  move_forward = 0;
  move_right = 0;
  yaw = 0;
  jump = false;
  sprint = false;
}

abbrev pub origin : Vec3
origin = record { x = 0; y = 0; z = 0 }

abbrev pub no_character : Character
no_character = record { position = origin; velocity = origin; grounded = false; facing_yaw = 0 }

-- -20, 0.5 + 0.35, 5, 9, 7.5, 0.35, -50 and 0.15.
abbrev pub gravity : ℕ
gravity = 0xc1a00000

abbrev pub rest_height : ℕ
rest_height = 0x3f59999a

abbrev pub walk_speed : ℕ
walk_speed = 0x40a00000

abbrev pub sprint_speed : ℕ
sprint_speed = 0x41100000

abbrev pub jump_speed : ℕ
jump_speed = 0x40f00000

abbrev pub air_control : ℕ
air_control = 0x3eb33333

abbrev pub terminal_velocity : ℕ
terminal_velocity = 0xc2480000

abbrev pub ground_snap_distance : ℕ
ground_snap_distance = 0x3e19999a

-- What the input asks for: wishX, wishZ and wishLength, before the division by the length.
pub record Wish : Type 0 where
  pub x : ℕ
  pub z : ℕ
  pub len : ℕ

module _ (fpu : Fpu) where
  unfoldable pub wish : CharacterInput → Wish
  wish input =
      let sin_yaw = fpu.sin input.yaw in
      let cos_yaw = fpu.cos input.yaw in
      let x = fpu.add (fpu.mul sin_yaw input.move_forward) (fpu.mul cos_yaw input.move_right) in
      let z =
        fpu.add (fpu.mul (fpu.neg cos_yaw) input.move_forward) (fpu.mul sin_yaw input.move_right) in
      record { x = x; z = z; len = fpu.sqrt (fpu.add (fpu.mul x x) (fpu.mul z z)) }

  -- wishX or wishZ after the normalisation, times the speed.
  unfoldable pub target : CharacterInput → Wish → ℕ → ℕ
  target input w v =
      let unit = if lt one_f w.len then fpu.div v w.len else v in
      fpu.mul unit (if input.sprint then sprint_speed else walk_speed)

  unfoldable pub blend : ℕ → ℕ → ℕ
  blend v t = fpu.add v (fpu.mul (fpu.sub t v) air_control)

  unfoldable pub horizontal : CharacterInput → Character → Character
  unfolding wish target blend
  horizontal input c =
      let w = wish input in
      let tx = target input w w.x in
      let tz = target input w w.z in
      let vx = if c.grounded then tx else blend c.velocity.x tx in
      let vz = if c.grounded then tz else blend c.velocity.z tz in
      record c { velocity = record (c.velocity) { x = vx; z = vz } }

  unfoldable pub fall : ℕ → ℕ → ℕ
  fall v delta =
      let v' = fpu.add v (fpu.mul gravity delta) in
      if lt v' terminal_velocity then terminal_velocity else v'

  unfoldable pub vertical : CharacterInput → ℕ → Character → Character
  unfolding fall
  vertical input delta c =
      if input.jump && c.grounded
      then record c { velocity = record (c.velocity) { y = jump_speed }; grounded = false }
      else (if not c.grounded
          then record c { velocity = record (c.velocity) { y = fall c.velocity.y delta } }
          else c)

  unfoldable pub face : CharacterInput → Character → Character
  unfolding wish
  face input c = if lt zero_f (wish input).len then record c { facing_yaw = input.yaw } else c

  unfoldable pub advance : ℕ → Character → Character
  advance delta c = record c {
    position = record {
      x = fpu.add c.position.x (fpu.mul c.velocity.x delta);
      y = fpu.add c.position.y (fpu.mul c.velocity.y delta);
      z = fpu.add c.position.z (fpu.mul c.velocity.z delta);
    };
  }

  -- Where the centre of a grounded character is.
  unfoldable pub rest_y : Vec3 → ℕ
  rest_y p = fpu.add (height_at fpu p.x p.z) rest_height

  unfoldable pub settle : ℕ → Character → Character
  settle y c = record c {
    position = record (c.position) { y = y };
    velocity = record (c.velocity) { y = zero_f };
    grounded = true;
  }

  unfoldable pub resolve_ground : Character → Character
  unfolding rest_y settle
  resolve_ground c =
      let y = rest_y c.position in
      if le c.position.y y
      then settle y c
      else (if le c.velocity.y zero_f && le (fpu.sub c.position.y y) ground_snap_distance
          then settle y c
          else record c { grounded = false })

  unfoldable pub step_character : Character → CharacterInput → ℕ → Character
  unfolding horizontal vertical face advance resolve_ground
  step_character c input delta =
      resolve_ground (advance delta (face input (vertical input delta (horizontal input c))))
